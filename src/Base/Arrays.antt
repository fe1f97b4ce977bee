-- ===== src/Base/Arrays.antt =====
-- C arrays as functions of the index, flat memory, and sums over an array.
use mathlib.Core.Path.{ap₂}
use native.Mathlib.Nat.{add-zero, add_assoc}
use netchan.Base.Tests.{
  ◌⊎◌, ℕ, zero, suc, ◌+◌, ◌-◌, ◌≤◌, ◌<◌, ◌≡◌, refl, ap, ◌∙◌, ◌&&◌, ◌==◌, ltb, leb, if◌then◌else◌,
  arith,
}
use netchan.Base.Lists.{List, [], ◌∷◌, length, get_or}

abbrev pub update {ℓ} : {A : Type ℓ} → (ℕ → A) → ℕ → A → ℕ → A
update f i v j = if i == j then v else f j

-- `memcpy(m + a, bs, length bs)`
unfoldable pub memcpy : (ℕ → ℕ) → ℕ → List ℕ → ℕ → ℕ
memcpy m a bs x = if leb a x && ltb x (a + length bs) then get_or bs (x - a) 0 else m x

-- The n bytes that stand at m + a.
unfoldable pub bytes_at : (ℕ → ℕ) → ℕ → ℕ → List ℕ
bytes_at m a zero = []
bytes_at m a (suc n) = m a ∷ bytes_at m (a + 1) n

unfoldable pub sum_below : ℕ → (ℕ → ℕ) → ℕ
sum_below zero f = 0
sum_below (suc n) f = f n + sum_below n f

module _ {ℓ} {A : Type ℓ} (g : A → ℕ) (xs : ℕ → A) (i : ℕ) (v : A) where
  -- An update above the sum does not show in it.
  pub sum_below-update_above :
      (n : ℕ) → n ≤ i → sum_below n (λ j. g (update xs i v j)) ≡ sum_below n (λ j. g (xs j))
  unfolding sum_below
  sum_below-update_above zero h = refl
  sum_below-update_above (suc n) h = ground (arith, sum_below-update_above n)

  -- An update within the sum trades the old term for the new one.
  pub sum_below-update :
      (n : ℕ)
      → i < n
      → sum_below n (λ j. g (update xs i v j)) + g (xs i) ≡ sum_below n (λ j. g (xs j)) + g v
  unfolding sum_below
  sum_below-update zero h = absurd (omega arith)
  sum_below-update (suc n) h = ground (arith, sum_below-update n, sum_below-update_above n)

pub sum_below-ext :
    (f g : ℕ → ℕ) (n : ℕ) → ((i : ℕ) → i < n → f i ≡ g i) → sum_below n f ≡ sum_below n g
unfolding sum_below
sum_below-ext f g zero h = refl
sum_below-ext f g (suc n) h = omega (arith, h n, sum_below-ext f g n (λ i p. h i (omega arith)))

pub sum_below-zero : (f : ℕ → ℕ) (n : ℕ) → ((i : ℕ) → f i ≡ 0) → sum_below n f ≡ 0
unfolding sum_below
sum_below-zero f zero h = refl
sum_below-zero f (suc n) h = omega (arith, h n, sum_below-zero f n h)

pub sum_below-le : (f : ℕ → ℕ) (n i : ℕ) → i < n → f i ≤ sum_below n f
unfolding sum_below
sum_below-le f zero i h = absurd (omega arith)
sum_below-le f (suc n) i h = ground (arith, sum_below-le f n i)

one-add : (i : ℕ) → 1 + i ≡ suc i
one-add i = omega arith

add-sub : (i a : ℕ) → a + i - a ≡ i
add-sub i a = omega arith

pub bytes_at-ext :
    (m k : ℕ → ℕ) (a b n : ℕ)
    → ((i : ℕ) → i < n → m (a + i) ≡ k (b + i))
    → bytes_at m a n ≡ bytes_at k b n
unfolding bytes_at
bytes_at-ext m k a b zero h = refl
bytes_at-ext m k a b (suc n) h = ap₂ ◌∷◌ (rw (add-zero a, add-zero b) at (h 0 (omega arith))) (
    bytes_at-ext m k (a + 1) (b + 1) n
      (λ i p. rw (add_assoc a 1 i, add_assoc b 1 i, one-add i) (h (suc i) (omega arith))))

pub length-bytes_at : (m : ℕ → ℕ) (a n : ℕ) → length (bytes_at m a n) ≡ n
unfolding bytes_at
length-bytes_at m a zero = refl
length-bytes_at m a (suc n) = ap suc (length-bytes_at m (a + 1) n)

pub get_or-bytes_at : (m : ℕ → ℕ) (a n i : ℕ) → i < n → get_or (bytes_at m a n) i 0 ≡ m (a + i)
unfolding bytes_at
get_or-bytes_at m a zero i h = absurd (omega arith)
get_or-bytes_at m a (suc n) zero h = rw (add-zero a)
get_or-bytes_at m a (suc n) (suc i) h =
    get_or-bytes_at m (a + 1) n i (omega arith) ∙ ap m (add_assoc a 1 i ∙ ap (◌+◌ a) (one-add i))

-- Two lists with the same bytes at every place are equal.
pub eq_of_get_or :
    (xs ys : List ℕ)
    → length xs ≡ length ys
    → ((i : ℕ) → i < length xs → get_or xs i 0 ≡ get_or ys i 0)
    → xs ≡ ys
eq_of_get_or [] [] e h = refl
eq_of_get_or [] (y ∷ ys) e h = absurd (omega arith)
eq_of_get_or (x ∷ xs) [] e h = absurd (omega arith)
eq_of_get_or (x ∷ xs) (y ∷ ys) e h =
    ap₂ ◌∷◌ (h 0 (omega arith)) (eq_of_get_or xs ys (omega arith) (λ i p. h (suc i) (omega arith)))

-- What was copied is read back.
pub bytes_at-memcpy :
    (m : ℕ → ℕ) (a : ℕ) (bs : List ℕ) → bytes_at (memcpy m a bs) a (length bs) ≡ bs
unfolding memcpy
bytes_at-memcpy m a bs = eq_of_get_or _ bs (length-bytes_at _ a (length bs)) (λ i p. ground (
  arith,
  get_or-bytes_at (memcpy m a bs) a (length bs) i,
  length-bytes_at (memcpy m a bs) a (length bs),
  add-sub i a,
))

-- A copy elsewhere changes nothing here.
pub bytes_at-memcpy_apart :
    (m : ℕ → ℕ) (a : ℕ) (bs : List ℕ) (b n : ℕ)
    → (b + n ≤ a) ⊎ (a + length bs ≤ b)
    → bytes_at (memcpy m a bs) b n ≡ bytes_at m b n
unfolding memcpy
bytes_at-memcpy_apart m a bs b n h = bytes_at-ext _ _ b b n (λ i p. ground arith)
