-- ===== src/Acks.antt =====
-- process_ack of src/netchan.c: the sender's window of unacknowledged messages.
pub mod Ownership
pub mod Window
use netchan.Base.{
  ltb, ◌==◌, if◌then◌else◌, ℕ, zero, suc, ◌+◌, ◌%◌, false, ◌&&◌, ◌||◌, Option, none, some, update,
  length, List, add32, sub32, diff_le_zero,
}
use netchan.BufferPool.{pool_put}
use netchan.Data.{Reply}
use netchan.Types.{outgoing_slots, sender, err_proto, ok, err, Outgoing, Chan, Pool, Conn}
use netchan.Wire.{byte_at, rd16}

-- One round of the loop over the slots.
unfoldable pub ack_slot : ℕ → ℕ → Chan × Pool → Chan × Pool
ack_slot acked_seq i (ch, p) =
    let o = ch.outgoing i in
    if o.active && diff_le_zero o.seq acked_seq
    then (
      record ch {
        bytes_in_flight = sub32 ch.bytes_in_flight o.len;
        msgs_acked = add32 ch.msgs_acked 1;
        outgoing = update ch.outgoing i (record o { buf = none; active = false });
      },
      pool_put p o.buf,
    )
    else (ch, p)

-- The slots below n, in order.
unfoldable pub ack_slots : ℕ → ℕ → Chan × Pool → Chan × Pool
ack_slots acked_seq zero st = st
ack_slots acked_seq (suc n) st = ack_slot acked_seq n (ack_slots acked_seq n st)

-- The loop that moves out_head past cleared slots, from `head`; as many rounds as slots suffice.
unfoldable pub clear_head : ℕ → (ℕ → Outgoing) → ℕ → ℕ → ℕ
clear_head zero outgoing tail head = head
clear_head (suc fuel) outgoing tail head =
    let rest = clear_head fuel outgoing tail ((head + 1) % outgoing_slots) in
    if head == tail || (outgoing head).active then head else rest

unfoldable pub advance_head : Chan → Chan
advance_head ch = record ch {
  out_head = clear_head outgoing_slots ch.outgoing ch.out_tail ch.out_head;
}

unfoldable pub acknowledge : ℕ → Chan → Pool → Chan × Pool
acknowledge acked_seq ch p =
    let (ch', p') = ack_slots acked_seq outgoing_slots (ch, p) in (advance_head ch', p')

unfoldable pub ack_on : Conn → Option ℕ → ℕ → Conn
ack_on c none acked_seq = c
ack_on c (some s) acked_seq =
    if (c.chan_pool s).role == sender
    then (let (ch, p) = acknowledge acked_seq (c.chan_pool s) c.pool in
        record c { chan_pool = update c.chan_pool s ch; pool = p })
    else c

unfoldable pub process_ack : Conn → List ℕ → Reply
process_ack c p =
    if ltb (length p) 4
    then (c, err err_proto)
    else (ack_on c (c.channels (byte_at p 1)) (rd16 p 2), ok 4)
