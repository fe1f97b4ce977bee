-- ===== src/Data/Bounds.antt =====
-- Where the loop of process_data that moves the fragments together writes.
use netchan.Base.{
  ◌==◌, Bool-cases, ℕ, zero, suc, ◌+◌, ◌*◌, ◌≤◌, ◌<◌, ◌≡◌, refl, ◌∙◌, ◌⊎◌, inl, inr, Option, arith,
  memcpy, length, List,
}
use netchan.BufferPool.{pool_ptr, touch, pool_write, pool_read}
use netchan.BufferPool.Bounds.{last_buffer, touch-overrun, pool_write-overrun}
use netchan.Data.{move_frag, compact}
use netchan.Data.Reassembly.{length-pool_read, next_place}
use netchan.Types.{max_msg, Pool}

-- What has been done to the pool lies in the 2048 bytes at `base`.
abbrev pub OnlyIn : ℕ → Pool → Pool → Type 0
OnlyIn base p q =
    (q.overrun ≡ p.overrun) × ((a : ℕ) → (a < base) ⊎ (base + max_msg ≤ a) → q.store a ≡ p.store a)

-- A write inside the 2048 bytes of one buffer changes nothing else.
pool_write-OnlyIn :
    (p : Pool) (b : Option ℕ) (off : ℕ) (bytes : List ℕ)
    → pool_ptr b ≤ last_buffer
    → (0 < length bytes → off + length bytes ≤ max_msg)
    → OnlyIn (pool_ptr b) p (pool_write p b off bytes)
unfolding pool_write memcpy
pool_write-OnlyIn p b off bytes h k =
    (pool_write-overrun p b off bytes h k, λ a out. ground (arith, k))

-- A fragment is no longer than its place, and lies in the buffer.
abbrev pub Fits : ℕ → ℕ → ℕ → Type 0
Fits fp i len = (len ≤ fp) × (0 < len → i * fp + len ≤ max_msg)

move_frag-OnlyIn :
    (b : Option ℕ) (offsets : ℕ → ℕ) (fp i at : ℕ) (p : Pool)
    → pool_ptr b ≤ last_buffer
    → at ≤ i * fp
    → Fits fp i (offsets i)
    → OnlyIn (pool_ptr b) p (move_frag b offsets fp i at p)
unfolding move_frag
move_frag-OnlyIn b offsets fp i at p h k fits = elim (Bool-cases (at == i * fp)) [
  | inl here ↦ rw here (refl, λ a out. refl)
  | inr above ↦ rw above (
      let q = touch p b (i * fp) (offsets i) in
      let moved = pool_read p b (i * fp) (offsets i) in
      let size : length moved ≡ offsets i = length-pool_read p b (i * fp) (offsets i) in
      let kept : q.overrun ≡ p.overrun = touch-overrun p b (i * fp) (offsets i) h fits.1 in
      let written = pool_write-OnlyIn q b at moved h (λ some_bytes.
        let l = fits.1 (omega (arith, size, some_bytes)) in omega (arith, size, l)) in
      (written.0 ∙ kept, written.1))
]

-- The fragments from i on are moved down, where those before take `at` bytes.
compact-OnlyIn :
    (b : Option ℕ) (offsets : ℕ → ℕ) (fp i n at : ℕ) (p : Pool)
    → pool_ptr b ≤ last_buffer
    → at ≤ i * fp
    → ((j : ℕ) → j < i + n → Fits fp j (offsets j))
    → OnlyIn (pool_ptr b) p (compact b offsets fp i n at p).1
unfolding compact
compact-OnlyIn b offsets fp i zero at p h k fits = (refl, λ a out. refl)
compact-OnlyIn b offsets fp i (suc n) at p h k fits =
    let here = fits i (omega arith) in
    let moved = move_frag-OnlyIn b offsets fp i at p h k here in
    let rest =
      compact-OnlyIn b offsets fp (i + 1) n (at + offsets i) (move_frag b offsets fp i at p) h
        (next_place fp i at (offsets i) k here.0) (λ j l. fits j (omega arith)) in
    (rest.0 ∙ moved.0, λ a out. rest.1 a out ∙ moved.1 a out)

-- If every fragment lies inside the buffer's 2048 bytes and none is longer than its place, the loop of
-- process_data that moves the fragments together stays in its buffer: no access reaches past
-- pool_store, and every byte outside the buffer is as it was.
pub compact-inside :
    (b : Option ℕ) (offsets : ℕ → ℕ) (fp n : ℕ) (p : Pool)
    → pool_ptr b ≤ last_buffer
    → ((j : ℕ) → j < n → Fits fp j (offsets j))
    → OnlyIn (pool_ptr b) p (compact b offsets fp 0 n 0 p).1
compact-inside b offsets fp n p h fits =
    compact-OnlyIn b offsets fp 0 n 0 p h (omega arith) (λ j l. fits j (omega arith))
