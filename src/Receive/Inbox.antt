-- ===== src/Receive/Inbox.antt =====
-- The receive queue of src/netchan.c as a queue of messages: chan_recv_enqueue puts a message behind
-- the others, and netchan_chan_read takes the oldest.
use mathlib.Core.Path.{ap₂}
use native.Mathlib.Nat.{add-zero, mod-eq_of_lt}
use netchan.Base.{
  ◌==◌, lt→ltb, eq_self, is_some, ℕ, zero, suc, ◌+◌, ◌-◌, ◌%◌, ◌≤◌, ◌<◌, ◌≡◌, refl, sym, ap, ◌∙◌,
  ◌≢◌, true, false, Option, none, some, arith, update, bytes_at, sum_below-le, length, count, List,
  [], ◌∷◌, ◌++◌,
}
use netchan.BufferPool.{pool_ptr, pool_write, pool_read}
use netchan.BufferPool.Laws.{holds, pool_read-pool_write, pool_read-pool_write_apart}
use netchan.Channel.Ownership.{in_window, recv_held}
use netchan.Receive.{Rx, store_entry}
use netchan.Types.{max_msg, RecvEntry, Chan, Pool}

-- The n values of a ring of 64 from i on.
unfoldable pub ring : (ℕ → List ℕ) → ℕ → ℕ → List (List ℕ)
ring f i zero = []
ring f i (suc n) = f i ∷ ring f ((i + 1) % 64) n

pub length-ring : (f : ℕ → List ℕ) (i n : ℕ) → length (ring f i n) ≡ n
unfolding ring
length-ring f i zero = refl
length-ring f i (suc n) = ap suc (length-ring f ((i + 1) % 64) n)

pub ring-ext :
    (f g : ℕ → List ℕ) (i n : ℕ)
    → i < 64
    → n < 64
    → ((j : ℕ) → j < 64 → (j + 64 - i) % 64 < n → f j ≡ g j)
    → ring f i n ≡ ring g i n
unfolding ring
ring-ext f g i zero h k same = refl
ring-ext f g i (suc n) h k same =
    ap₂ ◌∷◌ (same i h (omega arith))
      (ring-ext f g ((i + 1) % 64) n (omega arith) (omega arith) (λ j l m. same j l (omega arith)))

pub ring-suc :
    (f : ℕ → List ℕ) (i n : ℕ) → i < 64 → ring f i (suc n) ≡ ring f i n ++ (f ((i + n) % 64) ∷ [])
unfolding ring
ring-suc f i zero h = rw (add-zero i, mod-eq_of_lt h)
ring-suc f i (suc n) h = ap (◌∷◌ (f i)) (
    ring-suc f ((i + 1) % 64) n (omega arith)
    ∙ ap (λ (j : ℕ). ring f ((i + 1) % 64) n ++ (f j ∷ [])) (omega arith))

abbrev pub message_at : Pool → (ℕ → RecvEntry) → ℕ → List ℕ
message_at p q j = pool_read p (q j).buf 0 (q j).len

abbrev pub backlog : ℕ → ℕ → ℕ
backlog head tail = (tail + 64 - head) % 64

-- The messages that wait to be read, oldest first.
unfoldable pub inbox : Chan → Pool → List (List ℕ)
inbox ch p = ring (message_at p ch.recv_queue) ch.rq_head (backlog ch.rq_head ch.rq_tail)

-- The queue's indices are in range; its entries have buffers that are neither free nor twice in the
-- queue, and messages that fit them.
pub record InboxInv (ch : Chan) (p : Pool) : Type 0 where
  pub head_lt : ch.rq_head < 64
  pub tail_lt : ch.rq_tail < 64
  pub used : (i : ℕ) → i < 64 → in_window ch.rq_head ch.rq_tail i ≡ is_some (ch.recv_queue i).buf
  pub fits : (i : ℕ) → i < 64 → (ch.recv_queue i).len ≤ max_msg
  pub apart : (b : ℕ) → count b p.free + recv_held b ch.recv_queue ≤ 1

-- Writing to a buffer that an entry does not hold leaves the entry's message.
pub message_at-pool_write :
    (p : Pool) (x : ℕ) (bytes : List ℕ) (e : RecvEntry)
    → length bytes ≤ max_msg
    → e.len ≤ max_msg
    → is_some e.buf ≡ true
    → holds x e.buf ≡ 0
    → pool_read (pool_write p (some x) 0 bytes) e.buf 0 e.len ≡ pool_read p e.buf 0 e.len
unfolding holds
message_at-pool_write p x bytes e h k s a = go e.buf s a
  where
    go :
        (o : Option ℕ)
        → is_some o ≡ true
        → holds x o ≡ 0
        → pool_read (pool_write p (some x) 0 bytes) o 0 e.len ≡ pool_read p o 0 e.len
    go none s a = cc
    go (some y) s a =
        pool_read-pool_write_apart p x y 0 bytes 0 e.len (ground arith) (omega arith) (omega arith)

-- A free buffer is not in the queue.
pub not_held :
    (ch : Chan) (p : Pool) (x j : ℕ)
    → InboxInv ch p
    → 1 ≤ count x p.free
    → j < 64
    → holds x (ch.recv_queue j).buf ≡ 0
unfolding recv_held
not_held ch p x j v free h =
    omega (arith, v.apart x, sum_below-le (λ i. holds x (ch.recv_queue i).buf) 64 j h)

module _ (r : Rx) (bytes : List ℕ) (v : InboxInv r.ch r.pool) (fit : length bytes ≤ max_msg)
    (room : (r.ch.rq_tail + 1) % 64 ≢ r.ch.rq_head) (x : ℕ) (p : Pool)
    (store : p.store ≡ r.pool.store) (free : 1 ≤ count x r.pool.free) where
  entry : RecvEntry
  entry = record { buf = some x; len = length bytes }

  stored : ℕ → List ℕ
  stored = message_at (pool_write p (some x) 0 bytes) (update r.ch.recv_queue r.ch.rq_tail entry)

  stored-before :
      (j : ℕ)
      → j < 64
      → (j + 64 - r.ch.rq_head) % 64 < backlog r.ch.rq_head r.ch.rq_tail
      → stored j ≡ message_at r.pool r.ch.recv_queue j
  unfolding stored pool_read
  stored-before j h within =
      let other : (r.ch.rq_tail == j) ≡ false = ground (arith, v.head_lt, v.tail_lt) in
      rw other (
        message_at-pool_write p x bytes (r.ch.recv_queue j) fit (v.fits j h)
          (sym (v.used j h) ∙ lt→ltb _ _ within) (not_held r.ch r.pool x j v free h)
        ∙ ap
            (λ (s : ℕ → ℕ).
              bytes_at s (pool_ptr (r.ch.recv_queue j).buf + 0) (r.ch.recv_queue j).len)
            store)

  stored-tail : stored r.ch.rq_tail ≡ bytes
  unfolding stored entry
  stored-tail = rw (eq_self r.ch.rq_tail) (pool_read-pool_write p (some x) 0 bytes)

  pub stored-inbox :
      let r' = (store_entry r ((r.ch.rq_tail + 1) % 64) bytes (some x, p)).1 in
      inbox r'.ch r'.pool ≡ inbox r.ch r.pool ++ (bytes ∷ [])
  unfolding store_entry inbox stored entry
  stored-inbox =
      let head = r.ch.rq_head in
      let tail = r.ch.rq_tail in
      let n = backlog head tail in
      let more : backlog head ((tail + 1) % 64) ≡ suc n =
        omega (arith, v.head_lt, v.tail_lt, room) in
      let last : (head + n) % 64 ≡ tail = omega (arith, v.head_lt, v.tail_lt) in
      ap (ring stored head) more
      ∙ ring-suc stored head n v.head_lt
      ∙ ap₂ (λ (l : List (List ℕ)) (m : List ℕ). l ++ (m ∷ []))
          (ring-ext stored (message_at r.pool r.ch.recv_queue) head n v.head_lt (omega arith)
            stored-before)
          (ap stored last ∙ stored-tail)
