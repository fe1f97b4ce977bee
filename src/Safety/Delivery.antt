-- ===== src/Safety/Delivery.antt =====
-- The receive queues of a connection whose storage is sound are queues of messages.
use netchan.Base.{
  ltb, ◌==◌, eq_self, Bool-cases, ℕ, ◌+◌, ◌%◌, ◌≤◌, ◌<◌, ◌≡◌, inl, inr, Option, none, some, arith,
  sum_below-le, length, get_or, take, drop, List, [],
}
use netchan.Api.{netchan_chan_read}
use netchan.Api.Mailbox.{inbox-read_chan}
use netchan.BufferPool.{pool_get}
use netchan.Channel.Ownership.{owned}
use netchan.Receive.{Rx, store_entry, chan_recv_enqueue}
use netchan.Receive.Inbox.{inbox, InboxInv}
use netchan.Safety.{ConnInv, Live}
use netchan.Types.{max_chan, max_msg, receiver, ok, Chan, Pool, Conn}

-- The entries of a receive queue are no longer than a buffer.
abbrev pub Fits : Chan → Type 0
Fits ch = (i : ℕ) → i < 64 → (ch.recv_queue i).len ≤ max_msg

-- A channel's receive queue is in shape where the connection's storage is sound.
pub ConnInv-InboxInv :
    (c : Conn) (s : ℕ)
    → s < max_chan
    → Fits (c.chan_pool s)
    → ConnInv c
    → InboxInv (c.chan_pool s) c.pool
ConnInv-InboxInv c s h fits v =
    let shape = v.in_shape s in
    record {
      head_lt = shape.rq_head_lt;
      tail_lt = shape.rq_tail_lt;
      used = shape.rq_used;
      fits = fits;
      apart = λ b. ground (arith, v.total b, sum_below-le (λ i. owned b (c.chan_pool i)) 16 s h);
    }

-- What is read from a channel in use of a connection with sound storage is its oldest message, cut to
-- the caller's buffer, or nothing if none waits; the others stay. The channel has to be a receiver
-- whose entries are no longer than a buffer.
pub netchan_chan_read_oldest :
    (c : Conn) (s buflen : ℕ)
    → Live c s
    → (c.chan_pool s).role ≡ receiver
    → Fits (c.chan_pool s)
    → ConnInv c
    → let (result, c') = netchan_chan_read c (some s) buflen in
      (result ≡ ok (take buflen (get_or (inbox (c.chan_pool s) c.pool) 0 [])))
      × (inbox (c'.chan_pool s) c'.pool ≡ drop 1 (inbox (c.chan_pool s) c.pool))
unfolding netchan_chan_read
netchan_chan_read_oldest c s buflen live role fits v =
    rw (eq_self s)
      (inbox-read_chan (c.chan_pool s) c.pool buflen role (ConnInv-InboxInv c s live.0 fits v))

-- A message that arrives brings no entry that is longer than a buffer.
pub chan_recv_enqueue-Fits :
    (r : Rx) (bytes : List ℕ) → Fits r.ch → Fits (chan_recv_enqueue r bytes).1.ch
unfolding chan_recv_enqueue store_entry
chan_recv_enqueue-Fits r bytes v i h = elim (Bool-cases ((r.ch.rq_tail + 1) % 64 == r.ch.rq_head)) [
  | inl full ↦ rw full (v i h)
  | inr room ↦ elim (Bool-cases (ltb max_msg (length bytes))) [
    | inl long_ ↦ rw (room, long_) (v i h)
    | inr short ↦ rw (room, short) (stored_fits (pool_get r.pool) (ground arith))
  ]
]
  where
    stored_fits :
        (got : Option ℕ × Pool)
        → length bytes ≤ max_msg
        → ((store_entry r ((r.ch.rq_tail + 1) % 64) bytes got).1.ch.recv_queue i).len ≤ max_msg
    stored_fits (none, p) k = v i h
    stored_fits (some x, p) k = ground (arith, v i h)
