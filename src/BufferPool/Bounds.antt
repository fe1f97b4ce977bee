-- ===== src/BufferPool/Bounds.antt =====
-- Accesses that lie in pool_store.
use mathlib.Core.Bool.{or-false}
use netchan.Base.{ltb, ℕ, ◌+◌, ◌≤◌, ◌<◌, ◌≡◌, false, ◌&&◌, Option, arith, length, List}
use netchan.BufferPool.{pool_ptr, touch, pool_write}
use netchan.Types.{max_msg, Pool}

-- A buffer starts at the first byte of the last one or before.
abbrev pub last_buffer : ℕ
last_buffer = 129024

pub touch-overrun :
    (p : Pool) (b : Option ℕ) (off n : ℕ)
    → pool_ptr b ≤ last_buffer
    → (0 < n → off + n ≤ max_msg)
    → (touch p b off n).overrun ≡ p.overrun
touch-overrun p b off n h k =
    let inside : (ltb 0 n && ltb 131072 (pool_ptr b + off + n)) ≡ false = ground (arith, k) in
    rw inside (or-false p.overrun)

pub pool_write-overrun :
    (p : Pool) (b : Option ℕ) (off : ℕ) (bytes : List ℕ)
    → pool_ptr b ≤ last_buffer
    → (0 < length bytes → off + length bytes ≤ max_msg)
    → (pool_write p b off bytes).overrun ≡ p.overrun
unfolding pool_write
pool_write-overrun p b off bytes h k = touch-overrun p b off (length bytes) h k
