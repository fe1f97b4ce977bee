-- ===== src/Receive/Mailbox.antt =====
-- chan_recv_enqueue and netchan_chan_read of src/netchan.c against a queue of at most 63 messages.
use netchan.Base.{
  ltb, leb, ◌==◌, if◌then◌else◌, Bool-cases, is_some, ℕ, ◌+◌, ◌%◌, ◌≤◌, ◌≡◌, refl, ap, ◌≢◌, inl,
  inr, Bool, true, false, ◌&&◌, Option, none, some, arith, bytes_at, length, count, List, [], ◌∷◌,
  ◌++◌,
}
use netchan.BufferPool.{pop_free, pool_get, pool_put, pool_ptr, pool_read}
use netchan.BufferPool.Laws.{holds, count-pool_get, pool_get-store}
use netchan.Receive.{Rx, store_entry, chan_recv_enqueue}
use netchan.Receive.Inbox.{ring, length-ring, message_at, backlog, inbox, InboxInv, stored-inbox}
use netchan.Types.{max_msg, Chan, Pool}

pub pool_get-is_some : (p : Pool) → is_some (pool_get p).0 ≡ ltb 0 (length p.free)
unfolding pool_get pop_free
pool_get-is_some p = go p.free
  where
    go : (l : List ℕ) → is_some (pop_free p l).0 ≡ ltb 0 (length l)
    go [] = refl
    go (x ∷ l) = ground arith

pub pool_put-store : (p : Pool) (o : Option ℕ) → (pool_put p o).store ≡ p.store
unfolding pool_put
pool_put-store p none = refl
pool_put-store p (some x) = refl

-- The messages depend on the memory alone.
pub inbox-store : (ch : Chan) (p p' : Pool) → p'.store ≡ p.store → inbox ch p' ≡ inbox ch p
unfolding inbox pool_read
inbox-store ch p p' e =
    ap
      (λ (s : ℕ → ℕ).
        ring (λ j. bytes_at s (pool_ptr (ch.recv_queue j).buf + 0) (ch.recv_queue j).len) ch.rq_head
          (backlog ch.rq_head ch.rq_tail))
      e

pub length-inbox : (ch : Chan) (p : Pool) → length (inbox ch p) ≡ backlog ch.rq_head ch.rq_tail
unfolding inbox
length-inbox ch p =
    length-ring (message_at p ch.recv_queue) ch.rq_head (backlog ch.rq_head ch.rq_tail)

-- What is stored when the queue has room, by what the pool gave.
got-inbox :
    (r : Rx) (bytes : List ℕ) (got : Option ℕ × Pool)
    → InboxInv r.ch r.pool
    → length bytes ≤ max_msg
    → (r.ch.rq_tail + 1) % 64 ≢ r.ch.rq_head
    → got.1.store ≡ r.pool.store
    → ((b : ℕ) → count b got.1.free + holds b got.0 ≡ count b r.pool.free)
    → let r' = (store_entry r ((r.ch.rq_tail + 1) % 64) bytes got).1 in
      inbox r'.ch r'.pool
      ≡ (if is_some got.0 then inbox r.ch r.pool ++ (bytes ∷ []) else inbox r.ch r.pool)
unfolding store_entry holds
got-inbox r bytes (none, p) v fit room store kept = inbox-store r.ch r.pool p store
got-inbox r bytes (some x, p) v fit room store kept =
    stored-inbox r bytes v fit room x p store (ground (arith, kept x))

-- A message is accepted if fewer than 63 wait, it has at most 2048 bytes, and a buffer is free.
abbrev pub has_room : Rx → List ℕ → Bool
has_room r bytes =
    (ltb (length (inbox r.ch r.pool)) 63 && leb (length bytes) max_msg)
    && ltb 0 (length r.pool.free)

-- chan_recv_enqueue puts a message that is accepted behind those that wait, and changes none of them;
-- one that is not accepted leaves the queue as it is. A message is accepted if fewer than 63 wait, it
-- has at most 2048 bytes, and a buffer is free; the queue has to be in shape.
pub inbox-chan_recv_enqueue :
    (r : Rx) (bytes : List ℕ)
    → InboxInv r.ch r.pool
    → let r' = (chan_recv_enqueue r bytes).1 in
      inbox r'.ch r'.pool
      ≡ (if has_room r bytes then inbox r.ch r.pool ++ (bytes ∷ []) else inbox r.ch r.pool)
unfolding chan_recv_enqueue
inbox-chan_recv_enqueue r bytes v =
    let size = length-inbox r.ch r.pool in
    elim (Bool-cases ((r.ch.rq_tail + 1) % 64 == r.ch.rq_head)) [
      | inl full ↦
          let e : ltb (length (inbox r.ch r.pool)) 63 ≡ false =
            ground (arith, size, v.head_lt, v.tail_lt) in
          rw (full, e) refl
      | inr room ↦
          let e : ltb (length (inbox r.ch r.pool)) 63 ≡ true =
            ground (arith, size, v.head_lt, v.tail_lt) in
          elim (Bool-cases (ltb max_msg (length bytes))) [
            | inl long_ ↦
                let f : leb (length bytes) max_msg ≡ false = ground arith in
                rw (room, long_, e, f) refl
            | inr fits ↦
                let f : leb (length bytes) max_msg ≡ true = ground arith in
                rw (room, fits, e, f, ← pool_get-is_some r.pool)
                  (got-inbox r bytes (pool_get r.pool) v (ground arith) (ground arith)
                    (pool_get-store r.pool) (λ b. count-pool_get b r.pool))
          ]
    ]
