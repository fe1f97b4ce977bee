-- ===== src/Data/Reassembly.antt =====
-- Reassembly in process_data: moving the fragments together yields their concatenation.
use Prim.Native.Nat.add
use mathlib.Core.Path.{ap₂}
use native.Mathlib.Nat.{add-zero}
use netchan.Base.{
  ◌==◌, Bool-cases, ℕ, zero, suc, ◌+◌, ◌*◌, ◌≤◌, ◌<◌, ◌≡◌, refl, sym, ap, ◌∙◌, ◌⊎◌, inl, inr,
  Option, arith, bytes_at, length-bytes_at, bytes_at-memcpy_apart, length, List, [], ◌∷◌, ◌++◌,
  append_assoc, append-nil,
}
use netchan.BufferPool.{pool_ptr, pool_write, pool_read}
use netchan.BufferPool.Laws.{pool_read-pool_write}
use netchan.Data.{move_frag, compact}
use netchan.Types.{Pool}

-- The contents of fragments i, …, i + n - 1, each at its own multiple of fp in the buffer.
unfoldable pub fragments : Pool → Option ℕ → (ℕ → ℕ) → ℕ → ℕ → ℕ → List ℕ
fragments p b offsets fp i zero = []
fragments p b offsets fp i (suc n) =
    pool_read p b (i * fp) (offsets i) ++ fragments p b offsets fp (i + 1) n

bytes_at-append :
    (m : ℕ → ℕ) (a n k : ℕ) → bytes_at m a (n + k) ≡ bytes_at m a n ++ bytes_at m (a + n) k
unfolding bytes_at
bytes_at-append m a zero k = rw (add.zero k, add-zero a)
bytes_at-append m a (suc n) k = rw (add.suc n k) (
    ap (◌∷◌ (m a)) (
      bytes_at-append m (a + 1) n k
      ∙ ap (λ (x : ℕ). bytes_at m (a + 1) n ++ bytes_at m x k) (omega arith)))

-- Two readings of a buffer, one behind the other, are one.
pub pool_read-append :
    (p : Pool) (b : Option ℕ) (n k : ℕ)
    → pool_read p b 0 (n + k) ≡ pool_read p b 0 n ++ pool_read p b n k
unfolding pool_read
pool_read-append p b n k = rw (add-zero (pool_ptr b)) (bytes_at-append p.store (pool_ptr b) n k)

-- A write to a buffer leaves what lies before and behind it.
pub pool_read-pool_write_beside :
    (p : Pool) (b : Option ℕ) (off : ℕ) (bytes : List ℕ) (at n : ℕ)
    → (at + n ≤ off) ⊎ (off + length bytes ≤ at)
    → pool_read (pool_write p b off bytes) b at n ≡ pool_read p b at n
unfolding pool_read pool_write
pool_read-pool_write_beside p b off bytes at n h =
    bytes_at-memcpy_apart p.store (pool_ptr b + off) bytes (pool_ptr b + at) n (omega arith)

-- Fragments from i on are as they were, if only bytes below i * fp were written.
fragments-pool_write :
    (p : Pool) (b : Option ℕ) (offsets : ℕ → ℕ) (fp off : ℕ) (bytes : List ℕ) (i n : ℕ)
    → off + length bytes ≤ i * fp
    → fragments (pool_write p b off bytes) b offsets fp i n ≡ fragments p b offsets fp i n
unfolding fragments
fragments-pool_write p b offsets fp off bytes i zero h = refl
fragments-pool_write p b offsets fp off bytes i (suc n) h =
    ap₂ ◌++◌ (pool_read-pool_write_beside p b off bytes (i * fp) (offsets i) (inr h))
      (fragments-pool_write p b offsets fp off bytes (i + 1) n (grind arith))

pub length-pool_read : (p : Pool) (b : Option ℕ) (at n : ℕ) → length (pool_read p b at n) ≡ n
unfolding pool_read
length-pool_read p b at n = length-bytes_at p.store (pool_ptr b + at) n

pub next_place : (fp i at len : ℕ) → at ≤ i * fp → len ≤ fp → at + len ≤ (i + 1) * fp
next_place fp i at len h k = grind arith

-- Fragment i joins the bytes in place.
move_frag-front :
    (b : Option ℕ) (offsets : ℕ → ℕ) (fp i at : ℕ) (p : Pool)
    → at ≤ i * fp
    → pool_read (move_frag b offsets fp i at p) b 0 (at + offsets i)
      ≡ pool_read p b 0 at ++ pool_read p b (i * fp) (offsets i)
unfolding move_frag pool_write pool_read
move_frag-front b offsets fp i at p h = elim (Bool-cases (at == i * fp)) [
  | inl here ↦ rw here (
      pool_read-append p b at (offsets i)
      ∙ ap (λ (x : ℕ). pool_read p b 0 at ++ pool_read p b x (offsets i)) (ground arith))
  | inr above ↦ rw above (
      pool_read-append q b at (offsets i)
      ∙ ap₂ ◌++◌ (pool_read-pool_write_beside p b at moved 0 at (inl (omega arith))) (
          ap (pool_read q b at) (sym (length-pool_read p b (i * fp) (offsets i)))
          ∙ pool_read-pool_write p b at moved))
]
  where
    moved : List ℕ
    moved = pool_read p b (i * fp) (offsets i)

    q : Pool
    q = pool_write p b at moved

move_frag-fragments :
    (b : Option ℕ) (offsets : ℕ → ℕ) (fp i n at : ℕ) (p : Pool)
    → at ≤ i * fp
    → offsets i ≤ fp
    → fragments (move_frag b offsets fp i at p) b offsets fp (i + 1) n
      ≡ fragments p b offsets fp (i + 1) n
unfolding move_frag pool_write fragments pool_read
move_frag-fragments b offsets fp i n at p h k = elim (Bool-cases (at == i * fp)) [
  | inl here ↦ rw here refl
  | inr above ↦ rw above (
      fragments-pool_write p b offsets fp at (pool_read p b (i * fp) (offsets i)) (i + 1) n
        (rw (length-pool_read p b (i * fp) (offsets i)) (next_place fp i at (offsets i) h k)))
]

compact_lem :
    (b : Option ℕ) (offsets : ℕ → ℕ) (fp i n at : ℕ) (p : Pool)
    → at ≤ i * fp
    → ((j : ℕ) → j < i + n → offsets j ≤ fp)
    → let (total, p') = compact b offsets fp i n at p in
      pool_read p' b 0 total ≡ pool_read p b 0 at ++ fragments p b offsets fp i n
unfolding compact fragments
compact_lem b offsets fp i zero at p h k = sym (append-nil _)
compact_lem b offsets fp i (suc n) at p h k =
    compact_lem b offsets fp (i + 1) n (at + offsets i) (move_frag b offsets fp i at p)
      (next_place fp i at (offsets i) h (k i (omega arith))) (λ j l. k j (omega arith))
    ∙ ap₂ ◌++◌ (move_frag-front b offsets fp i at p h)
        (move_frag-fragments b offsets fp i n at p h (k i (omega arith)))
    ∙ append_assoc (pool_read p b 0 at) (pool_read p b (i * fp) (offsets i))
        (fragments p b offsets fp (i + 1) n)

-- The loop of process_data that moves the fragments together yields their concatenation: if no fragment
-- is longer than its place, the buffer then starts with fragment 0, then fragment 1, to the last, and
-- the total is their length.
pub compact-fragments :
    (b : Option ℕ) (offsets : ℕ → ℕ) (fp n : ℕ) (p : Pool)
    → ((j : ℕ) → j < n → offsets j ≤ fp)
    → let (total, p') = compact b offsets fp 0 n 0 p in
      pool_read p' b 0 total ≡ fragments p b offsets fp 0 n
unfolding pool_read bytes_at
compact-fragments b offsets fp n p h =
    compact_lem b offsets fp 0 n 0 p (omega arith) (λ j l. h j (omega arith))
