-- ===== src/Api.antt =====
-- The channel calls of src/netchan.c: netchan_chan_open, netchan_chan_close, netchan_chan_write,
-- netchan_chan_read and the statistics. A channel is its slot; a null pointer is `none`.
pub mod Flow
pub mod Outbox
pub mod Mailbox
pub mod Ownership
use netchan.Base.{
  ltb, leb, ◌==◌, if◌then◌else◌, is_some, ℕ, ◌+◌, ◌/◌, ◌%◌, true, not, ◌&&◌, ◌||◌, Option, none,
  some, update, length, List, [], u8_mod, inc16, add32, sub32, sub_size,
}
use netchan.BufferPool.{pool_get, pool_put, pool_write, pool_read}
use netchan.Channel.{max_frag_payload, no_outgoing, no_recv_entry, chan_new}
use netchan.Ctrl.{ctrl_channel_open, ctrl_channel_close, ctrl_window_update}
use netchan.Frames.{set_chan_state}
use netchan.Types.{
  outgoing_slots, recv_queue_size, max_frags, max_msg, reliable, dir_send, sender, receiver,
  chan_opened, chan_closing, chan_closed, err_generic, err_nomem, err_again, err_closed, err_flow,
  err_toobig, Result, ok, err, trap, is_connected, Chan, Pool, Conn,
}

-- What netchan_chan_open does with the result of chan_new.
unfoldable pub opened_locally : ℕ → ℕ → Option ℕ × Conn → Option ℕ × Conn
opened_locally id local_role (none, c) = (none, c)
opened_locally id local_role (some s, c) =
    let c₁ = ctrl_channel_open c (c.chan_pool s) in
    if local_role == receiver
    then (
      some s,
      set_chan_state (ctrl_window_update c₁ id (c₁.chan_pool s).recv_window) s chan_opened,
    )
    else (some s, c₁)

unfoldable pub netchan_chan_open : Conn → ℕ → ℕ → Option (List ℕ) → Option ℕ × Conn
netchan_chan_open c type dir content_type =
    let id = c.next_chan_id in
    let local_role = if dir == dir_send then sender else receiver in
    if not (is_connected c.state) || is_some (c.channels id)
    then (none, c)
    else opened_locally id local_role (
        chan_new (record c { next_chan_id = (id + 2) % u8_mod }) id type dir local_role
          content_type)

unfoldable pub netchan_chan_close : Conn → Option ℕ → Conn
netchan_chan_close c none = c
netchan_chan_close c (some s) =
    let ch = c.chan_pool s in
    if leb 2 ch.state then c else set_chan_state (ctrl_channel_close c ch.id 0) s chan_closing

-- `(uint8_t)((len + frag_payload - 1) / frag_payload)`, and 1 for 0; `none` for a division by zero, which
-- an MTU of 15 gives.
unfoldable pub frag_count : ℕ → ℕ → Option ℕ
frag_count frag_payload len =
    if frag_payload == 0
    then none
    else some
        (let n = sub_size (len + frag_payload) 1 / frag_payload % u8_mod in if n == 0 then 1 else n)

-- What writing changes: the channel and the pool.
abbrev pub Written : Type 0
Written = Result ℕ × Chan × Pool

-- The message in buffer b is queued in so many fragments. Where the program stops, what it was before
-- the call is returned.
unfoldable pub queue_as : Chan → List ℕ → ℕ → Pool → Option ℕ → Written
queue_as ch bytes b p none = (trap, ch, pool_put p (some b))
queue_as ch bytes b p (some total) =
    let len = length bytes in
    let p' = pool_write p (some b) 0 bytes in
    let ch' = record ch { send_seq = inc16 ch.send_seq } in
    if ltb max_frags total
    then (
      err err_toobig,
      record ch' { outgoing = update ch.outgoing ch.out_tail no_outgoing },
      pool_put p' (some b),
    )
    else (
      ok len,
      record ch' {
        outgoing = update ch.outgoing ch.out_tail (record {
          seq = ch.send_seq;
          buf = some b;
          len = len;
          sent_ms = 0;
          attempts = 0;
          frag_sent = 0;
          frag_total = total;
          active = true;
        });
        bytes_in_flight =
            if ch.type == reliable then add32 ch.bytes_in_flight len else ch.bytes_in_flight;
        msgs_sent = add32 ch.msgs_sent 1;
        out_tail = (ch.out_tail + 1) % outgoing_slots;
      },
      p',
    )

unfoldable pub queue_entry : ℕ → Chan → List ℕ → Option ℕ × Pool → Written
queue_entry frag_payload ch bytes (none, p) = (err err_nomem, ch, p)
queue_entry frag_payload ch bytes (some b, p) =
    queue_as ch bytes b p (frag_count frag_payload (length bytes))

unfoldable pub write_chan : ℕ → Chan → Pool → List ℕ → Written
write_chan frag_payload ch p bytes =
    let len = length bytes in
    if not (ch.role == sender)
    then (err err_generic, ch, p)
    else if ch.state == chan_closed
    then (err err_closed, ch, p)
    else if len == 0
    then (ok 0, ch, p)
    else if ltb max_msg len
    then (err err_toobig, ch, p)
    else if (ch.type == reliable && ch.state == chan_opened)
        && ltb ch.send_window (ch.bytes_in_flight + len)
    then (err err_flow, ch, p)
    else if (ch.out_tail + 1) % outgoing_slots == ch.out_head
    then (err err_again, ch, p)
    else queue_entry frag_payload ch bytes (pool_get p)

unfoldable pub netchan_chan_write : Conn → Option ℕ → List ℕ → Result ℕ × Conn
netchan_chan_write c none bytes = (err err_generic, c)
netchan_chan_write c (some s) bytes =
    let (result, ch, p) = write_chan (max_frag_payload c.cfg) (c.chan_pool s) c.pool bytes in
    (result, record c { chan_pool = update c.chan_pool s ch; pool = p })

-- The bytes copied to the caller; their number is what the source returns.
unfoldable pub read_chan : Chan → Pool → ℕ → Result (List ℕ) × Chan × Pool
read_chan ch p buflen =
    if not (ch.role == receiver)
    then (err err_generic, ch, p)
    else if ch.rq_head == ch.rq_tail
    then (ok [], ch, p)
    else (let e = ch.recv_queue ch.rq_head in
        let n = if ltb e.len buflen then e.len else buflen in
        (
          ok (pool_read p e.buf 0 n),
          record ch {
            recv_queue = update ch.recv_queue ch.rq_head no_recv_entry;
            rq_head = (ch.rq_head + 1) % recv_queue_size;
            recv_buffered = sub32 ch.recv_buffered n;
            need_window_update = true;
          },
          pool_put p e.buf,
        ))

unfoldable pub netchan_chan_read : Conn → Option ℕ → ℕ → Result (List ℕ) × Conn
netchan_chan_read c none buflen = (err err_generic, c)
netchan_chan_read c (some s) buflen =
    let (result, ch, p) = read_chan (c.chan_pool s) c.pool buflen in
    (result, record c { chan_pool = update c.chan_pool s ch; pool = p })

pub record ConnStats : Type 0 where
  pub rtt_ms : ℕ
  pub rtt_min_ms : ℕ
  pub pkts_sent : ℕ
  pub pkts_recv : ℕ

pub record ChanStats : Type 0 where
  pub msgs_sent : ℕ
  pub msgs_acked : ℕ
  pub retransmissions : ℕ
  pub msgs_recv : ℕ

unfoldable pub netchan_conn_stats : Conn → ConnStats
netchan_conn_stats c = record {
  rtt_ms = c.rtt_ms;
  rtt_min_ms = c.rtt_min_ms;
  pkts_sent = c.pkts_sent;
  pkts_recv = c.pkts_recv;
}

unfoldable pub netchan_chan_stats : Chan → ChanStats
netchan_chan_stats ch = record {
  msgs_sent = ch.msgs_sent;
  msgs_acked = ch.msgs_acked;
  retransmissions = ch.retransmissions;
  msgs_recv = ch.msgs_recv;
}
