-- ===== src/Receive.antt =====
-- The receiving side of a channel in src/netchan.c: the receive queue, the reorder buffer and the
-- fragment reassembly. These functions touch one channel, the pool and the event queue.
pub mod Ownership
pub mod Progress
pub mod Bounds
pub mod Inbox
pub mod Mailbox
use netchan.Base.{
  ltb, ◌==◌, if◌then◌else◌, ℕ, zero, suc, ◌+◌, ◌%◌, Bool, true, false, not, ◌&&◌, Option, none,
  some, update, length, List, inc16, add32,
}
use netchan.BufferPool.{pool_get, pool_put, pool_write, pool_read}
use netchan.Channel.{no_frag}
use netchan.Events.{ev_push}
use netchan.Types.{
  recv_queue_size, reorder_slots, frag_slots, max_frags, max_msg, ev_data, err_generic, err_nomem,
  err_toobig, Result, ok, err, FragAsm, Chan, Pool, EvQueue,
}

-- The parts of a connection that receiving data on the channel in a slot changes.
pub record Rx : Type 0 where
  pub pool : Pool
  pub evq : EvQueue
  pub ch : Chan

unfoldable pub store_entry : Rx → ℕ → List ℕ → Option ℕ × Pool → Result (Unit {0}) × Rx
store_entry r next bytes (none, p) = (err err_nomem, record r { pool = p })
store_entry r next bytes (some b, p) = (
  ok tt,
  record r {
    pool = pool_write p (some b) 0 bytes;
    ch = record (r.ch) {
      recv_queue =
          update r.ch.recv_queue r.ch.rq_tail (record { buf = some b; len = length bytes });
      rq_tail = next;
      recv_buffered = add32 r.ch.recv_buffered (length bytes);
      msgs_recv = add32 r.ch.msgs_recv 1;
    };
  },
)

unfoldable pub chan_recv_enqueue : Rx → List ℕ → Result (Unit {0}) × Rx
chan_recv_enqueue r bytes =
    let next = (r.ch.rq_tail + 1) % recv_queue_size in
    if next == r.ch.rq_head
    then (err err_generic, r)
    else if ltb max_msg (length bytes)
    then (err err_toobig, r)
    else store_entry r next bytes (pool_get r.pool)

-- chan_recv_enqueue with its result ignored, then ev_push(conn, NETCHAN_EV_DATA, ch); `s` is the
-- channel's slot.
unfoldable pub deliver : ℕ → Rx → List ℕ → Rx
deliver s r bytes =
    let r' = (chan_recv_enqueue r bytes).1 in record r' { evq = ev_push r'.evq ev_data (some s) }

-- One round of chan_deliver_reordered, on the slot that its test has passed.
unfoldable pub deliver_slot : ℕ → Rx → Rx
deliver_slot s r =
    let slot = r.ch.recv_seq % reorder_slots in
    let b = (r.ch.reorder slot).buf in
    let r' = deliver s r (pool_read r.pool b 0 (r.ch.reorder slot).len) in
    record r' {
      pool = pool_put r'.pool b;
      ch = record (r'.ch) {
        reorder =
            update r'.ch.reorder slot (record (r'.ch.reorder slot) { buf = none; valid = false });
        recv_seq = inc16 r'.ch.recv_seq;
      };
    }

-- The loop's test: the next message in order waits in its slot.
unfoldable pub next_waits : Chan → Bool
next_waits ch = let e = ch.reorder (ch.recv_seq % reorder_slots) in e.valid && e.seq == ch.recv_seq

-- Each round empties a slot, so more rounds than slots are never needed.
unfoldable pub deliver_rounds : ℕ → ℕ → Rx → Rx
deliver_rounds s zero r = r
deliver_rounds s (suc fuel) r = elim (next_waits r.ch) [
  | true ↦ deliver_rounds s fuel (deliver_slot s r)
  | false ↦ r
]

unfoldable pub chan_deliver_reordered : ℕ → Rx → Rx
chan_deliver_reordered s r = deliver_rounds s (suc reorder_slots) r

-- The first slot from i on, with n left, that satisfies the test.
unfoldable pub first_frag : (FragAsm → Bool) → (ℕ → FragAsm) → ℕ → ℕ → Option ℕ
first_frag test frags i zero = none
first_frag test frags i (suc n) =
    let rest = first_frag test frags (i + 1) n in if test (frags i) then some i else rest

unfoldable pub frag_find : Chan → ℕ → Option ℕ
frag_find ch seq = first_frag (λ f. f.active && f.seq == seq) ch.frags 0 frag_slots

unfoldable pub place_frag : Rx → ℕ → ℕ → ℕ → Option ℕ × Pool → Option ℕ × Rx
place_frag r i seq total (none, p) = (none, record r { pool = p })
place_frag r i seq total (some b, p) =
    let f = record no_frag { seq = seq; total = total; active = true; buf = some b } in
    (some i, record r { pool = p; ch = record (r.ch) { frags = update r.ch.frags i f } })

unfoldable pub alloc_at : Rx → ℕ → ℕ → Option ℕ → Option ℕ × Rx
alloc_at r seq total none = (none, r)
alloc_at r seq total (some i) = place_frag r i seq total (pool_get r.pool)

unfoldable pub frag_alloc : Rx → ℕ → ℕ → Option ℕ × Rx
frag_alloc r seq total =
    if ltb max_frags total
    then (none, r)
    else alloc_at r seq total (first_frag (λ f. not f.active) r.ch.frags 0 frag_slots)

unfoldable pub frag_free : Rx → ℕ → Rx
frag_free r i = record r {
  pool = pool_put r.pool (r.ch.frags i).buf;
  ch = record (r.ch) { frags = update r.ch.frags i no_frag };
}
