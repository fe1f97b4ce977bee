-- ===== src/BufferPool/Laws.antt =====
-- The buffer pool as a stack of indices and as memory.
use netchan.Base.{
  ltb, ◌==◌, if◌then◌else◌, ℕ, zero, suc, ◌+◌, ◌*◌, ◌≤◌, ◌≡◌, refl, ◌≢◌, Option, none, some, arith,
  bytes_at-memcpy, bytes_at-memcpy_apart, length, count, List, [], ◌∷◌,
}
use netchan.BufferPool.{
  count_down, pool_init, pop_free, pool_get, pool_put, pool_ptr, pool_write, pool_read,
}
use netchan.Types.{max_msg, pool_bufs, Pool}

-- How often a slot's index stands for buffer b: once or not at all.
unfoldable pub holds : ℕ → Option ℕ → ℕ
holds b none = 0
holds b (some x) = if x == b then 1 else 0

pub holds-none : (b : ℕ) → holds b none ≡ 0
unfolding holds
holds-none b = refl

-- A buffer that is taken leaves the stack, and no other does.
pub count-pool_get :
    (b : ℕ) (p : Pool) → count b (pool_get p).1.free + holds b (pool_get p).0 ≡ count b p.free
unfolding pool_get pop_free holds count
count-pool_get b p = go p.free refl
  where
    go :
        (l : List ℕ)
        → p.free ≡ l
        → count b (pop_free p l).1.free + holds b (pop_free p l).0 ≡ count b l
    go [] e = rw (e, count) refl
    go (x ∷ l) e = omega arith

pub count-pool_put :
    (b : ℕ) (p : Pool) (o : Option ℕ) → count b (pool_put p o).free ≡ count b p.free + holds b o
unfolding pool_put holds count
count-pool_put b p none = omega arith
count-pool_put b p (some x) = omega arith

count_down-count : (b n : ℕ) → count b (count_down n) ≡ (if ltb b n then 1 else 0)
unfolding count_down count
count_down-count b zero = ground arith
count_down-count b (suc n) = ground (arith, count_down-count b n)

-- At the start each of the 64 buffers is free once, and nothing else is.
pub count-pool_init :
    (b : ℕ) (m : ℕ → ℕ) → count b (pool_init m).free ≡ (if ltb b pool_bufs then 1 else 0)
unfolding pool_init
count-pool_init b m = count_down-count b 64

pub pool_get-store : (p : Pool) → (pool_get p).1.store ≡ p.store
unfolding pool_get pop_free
pool_get-store p = go p.free
  where
    go : (l : List ℕ) → (pop_free p l).1.store ≡ p.store
    go [] = refl
    go (x ∷ l) = refl

-- What was written to a buffer is read back from it.
pub pool_read-pool_write :
    (p : Pool) (b : Option ℕ) (off : ℕ) (bytes : List ℕ)
    → pool_read (pool_write p b off bytes) b off (length bytes) ≡ bytes
unfolding pool_read pool_write
pool_read-pool_write p b off bytes = bytes_at-memcpy p.store (pool_ptr b + off) bytes

-- A write inside the 2048 bytes of one buffer leaves what is read inside another as it was.
pub pool_read-pool_write_apart :
    (p : Pool) (x y off : ℕ) (bytes : List ℕ) (at n : ℕ)
    → x ≢ y
    → off + length bytes ≤ max_msg
    → at + n ≤ max_msg
    → pool_read (pool_write p (some x) off bytes) (some y) at n ≡ pool_read p (some y) at n
unfolding pool_read pool_write pool_ptr
pool_read-pool_write_apart p x y off bytes at n ne h k =
    bytes_at-memcpy_apart p.store (x * 2048 + off) bytes (y * 2048 + at) n (omega arith)
