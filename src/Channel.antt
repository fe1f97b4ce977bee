-- ===== src/Channel.antt =====
-- The channel helpers of src/netchan.c: max_frag_payload, chan_reset_bufs, chan_new, chan_free.
pub mod Ownership
use netchan.Base.{
  if◌then◌else◌, ℕ, zero, suc, ◌+◌, Bool, true, false, Option, none, some, update, c_string, List,
  [], sub32,
}
use netchan.BufferPool.{pool_put}
use netchan.Types.{
  outgoing_slots, recv_queue_size, reorder_slots, frag_slots, max_chan, chan_opening, Cfg, Outgoing,
  RecvEntry, Reorder, FragAsm, Chan, Pool, Conn,
}

unfoldable pub max_frag_payload : Cfg → ℕ
max_frag_payload cfg = sub32 cfg.mtu 15

abbrev pub no_outgoing : Outgoing
no_outgoing = record {
  seq = 0;
  buf = none;
  len = 0;
  sent_ms = 0;
  attempts = 0;
  frag_sent = 0;
  frag_total = 0;
  active = false;
}

abbrev pub no_recv_entry : RecvEntry
no_recv_entry = record { buf = none; len = 0 }

abbrev pub no_reorder : Reorder
no_reorder = record { seq = 0; buf = none; len = 0; valid = false }

abbrev pub no_frag : FragAsm
no_frag = record {
  seq = 0;
  total = 0;
  have = 0;
  bitmask = 0;
  buf = none;
  offsets = λ _. 0;
  active = false;
}

-- A channel after `memset(ch, 0, sizeof(*ch))` and chan_reset_bufs.
unfoldable pub chan_reset_bufs : Chan
chan_reset_bufs = record {
  id = 0;
  type = 0;
  dir = 0;
  role = 0;
  state = 0;
  content_type = [];
  send_seq = 0;
  send_window = 0;
  bytes_in_flight = 0;
  outgoing = λ _. no_outgoing;
  out_head = 0;
  out_tail = 0;
  recv_seq = 0;
  recv_window = 0;
  recv_buffered = 0;
  recv_queue = λ _. no_recv_entry;
  rq_head = 0;
  rq_tail = 0;
  reorder = λ _. no_reorder;
  frags = λ _. no_frag;
  need_ack = false;
  ack_seq = 0;
  need_window_update = false;
  msgs_sent = 0;
  msgs_acked = 0;
  retransmissions = 0;
  msgs_recv = 0;
}

-- The first slot that is not used, from i on, with n slots left.
unfoldable pub find_slot : (ℕ → Bool) → ℕ → ℕ → Option ℕ
find_slot chan_used i zero = none
find_slot chan_used i (suc n) =
    let rest = find_slot chan_used (i + 1) n in if chan_used i then rest else some i

unfoldable pub name_of : Option (List ℕ) → List ℕ
name_of none = []
name_of (some name) = c_string 63 name

unfoldable pub place_chan : Conn → Option ℕ → ℕ → ℕ → ℕ → ℕ → Option (List ℕ) → Option ℕ × Conn
place_chan c none id type dir role content_type = (none, c)
place_chan c (some slot) id type dir role content_type =
    let ch = record chan_reset_bufs {
      id = id;
      type = type;
      dir = dir;
      role = role;
      state = chan_opening;
      content_type = name_of content_type;
      send_window = 0;
      recv_window = c.cfg.chan_window;
    } in
    (
      some slot,
      record c {
        chan_pool = update c.chan_pool slot ch;
        chan_used = update c.chan_used slot true;
        channels = update c.channels id (some slot);
      },
    )

unfoldable pub chan_new : Conn → ℕ → ℕ → ℕ → ℕ → Option (List ℕ) → Option ℕ × Conn
chan_new c id type dir role content_type =
    place_chan c (find_slot c.chan_used 0 max_chan) id type dir role content_type

-- The buffers that the loops of chan_free put back, over the first n slots of each array.
unfoldable pub put_each : ℕ → (ℕ → Option ℕ) → Pool → Pool
put_each zero bufs p = p
put_each (suc n) bufs p = pool_put (put_each n bufs p) (bufs n)

unfoldable pub free_bufs : Chan → Pool → Pool
free_bufs ch p =
    put_each frag_slots (λ i. (ch.frags i).buf)
      (put_each reorder_slots (λ i. (ch.reorder i).buf)
        (put_each recv_queue_size (λ i. (ch.recv_queue i).buf)
          (put_each outgoing_slots
            (λ i. if (ch.outgoing i).active then (ch.outgoing i).buf else none) p)))

unfoldable pub chan_free : Conn → Option ℕ → Conn
chan_free c none = c
chan_free c (some slot) =
    let ch = c.chan_pool slot in
    record c {
      pool = free_bufs ch c.pool;
      channels = update c.channels ch.id none;
      chan_used = update c.chan_used slot false;
    }
