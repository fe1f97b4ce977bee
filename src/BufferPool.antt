-- ===== src/BufferPool.antt =====
-- The message-buffer pool of src/netchan.c: pool_init, pool_get, pool_put and pool_ptr, and the
-- copies into and out of a buffer.
pub mod Laws
pub mod Bounds
use netchan.Base.{
  ltb, ℕ, zero, suc, ◌+◌, ◌*◌, false, ◌&&◌, ◌||◌, Option, none, some, memcpy, bytes_at, length,
  List, [], ◌∷◌,
}
use netchan.Types.{max_msg, pool_bufs, Pool}

-- `count_down n` is n - 1, …, 1, 0.
unfoldable pub count_down : ℕ → List ℕ
count_down zero = []
count_down (suc n) = n ∷ count_down n

-- The last index that the loop writes is the top of the stack.
unfoldable pub pool_init : (ℕ → ℕ) → Pool
pool_init store = record { free = count_down pool_bufs; store = store; overrun = false }

unfoldable pub pop_free : Pool → List ℕ → Option ℕ × Pool
pop_free p [] = (none, p)
pop_free p (i ∷ rest) = (some i, record p { free = rest })

unfoldable pub pool_get : Pool → Option ℕ × Pool
pool_get p = pop_free p p.free

unfoldable pub pool_put : Pool → Option ℕ → Pool
pool_put p none = p
pool_put p (some idx) = record p { free = idx ∷ p.free }

-- The offset of a buffer in `pool_store`. No slot without a buffer is ever dereferenced.
unfoldable pub pool_ptr : Option ℕ → ℕ
pool_ptr none = 0
pool_ptr (some idx) = idx * max_msg

-- The n bytes at `pool_ptr(c, b) + off` are accessed; an access of no bytes reaches nothing.
abbrev pub touch : Pool → Option ℕ → ℕ → ℕ → Pool
touch p b off n = record p {
  overrun = p.overrun || ltb 0 n && ltb (pool_bufs * max_msg) (pool_ptr b + off + n);
}

-- `memcpy(pool_ptr(c, b) + off, bytes, len)`
unfoldable pub pool_write : Pool → Option ℕ → ℕ → List ℕ → Pool
pool_write p b off bytes = record (touch p b off (length bytes)) {
  store = memcpy p.store (pool_ptr b + off) bytes;
}

-- The n bytes at `pool_ptr(c, b) + off`.
unfoldable pub pool_read : Pool → Option ℕ → ℕ → ℕ → List ℕ
pool_read p b off n = bytes_at p.store (pool_ptr b + off) n
