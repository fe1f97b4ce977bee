-- ===== src/Examples.antt =====
-- Concrete inputs for the theorems: each is applied where its hypotheses hold.
pub mod Crypto
pub mod Beacon
pub mod Microchan
use netchan.Base.{
  ◌==◌, if◌then◌else◌, is_some, ℕ, ◌+◌, ◌%◌, ◌≤◌, min, ◌≡◌, refl, ap, ◌≢◌, ◌⊎◌, true, false, none,
  some, arith, update, bytes_at, length, get_or, take, drop, count, List, [], ◌∷◌, ◌++◌, inc16,
}
use netchan.Api.{write_chan, netchan_chan_write, netchan_chan_read}
use netchan.Api.Flow.{write_chan_window}
use netchan.Api.Outbox.{outbox, OutboxInv, sent_count, takes, outbox-write_chan}
use netchan.BufferPool.{count_down, pool_init, pop_free, pool_get, pool_ptr, pool_write, pool_read}
use netchan.BufferPool.Laws.{count-pool_init}
use netchan.Channel.{no_outgoing, chan_reset_bufs, find_slot, place_chan, chan_new}
use netchan.Channel.Ownership.{owned, Held}
use netchan.Connection.{nc_random_id, netchan_cfg_default, no_event, netchan_open, netchan_connect}
use netchan.Connection.Identity.{nc_random_id-ne-zero}
use netchan.Ctrl.{ctrl_reserve, ctrl_connect_init}
use netchan.Data.{move_frag, compact, receive_data, with_rx, data_on, process_data}
use netchan.Data.Bounds.{OnlyIn, compact-inside}
use netchan.Data.Fragments.{StaysInside, receive_data-StaysInside}
use netchan.Data.Order.{receive_data_out_of_order, receive_data_in_order}
use netchan.Data.Reassembly.{fragments, compact-fragments}
use netchan.Events.{ev_push, push_event, netchan_poll}
use netchan.Events.Fifo.{to_list, enqueue, dequeue, to_list-push_event, to_list-netchan_poll}
use netchan.Frames.Lifecycle.{Moved, process_frame-Moved}
use netchan.Packet.{frame_type, process_as, process_frame, peer_after, netchan_feed}
use netchan.Packet.Admission.{peer_after_guard}
use netchan.Packet.Roundtrip.{process_data-data_frame}
use netchan.Packet.Termination.{FrameWithin, process_frame-FrameWithin, netchan_feed_total}
use netchan.Receive.{Rx, store_entry, chan_recv_enqueue, deliver, next_waits}
use netchan.Receive.Bounds.{Sound}
use netchan.Receive.Inbox.{ring, inbox, InboxInv}
use netchan.Receive.Mailbox.{has_room, inbox-chan_recv_enqueue}
use netchan.Safety.{ConnInv}
use netchan.Safety.Accesses.{Step-overrun}
use netchan.Safety.Calls.{
  writes, connects, netchan_open-ConnInv, sends, services, start, and_then, reachable-ConnInv,
}
use netchan.Safety.Delivery.{ConnInv-InboxInv, netchan_chan_read_oldest}
use netchan.Safety.Frames.{data_on-ConnInv}
use netchan.Safety.Opening.{fresh-owned, chan_new-ConnInv}
use netchan.Send.{
  scan_sendable, chan_next_sendable, has_data, flush_ctrl, feedback_on, flush_feedback, data_frame,
  send_on, send_data, is_init, packet_header, build_packet, netchan_send_next,
}
use netchan.Send.Scan.{sendable, chan_next_sendable_complete}
use netchan.Send.Size.{PacketWithin, netchan_send_next-PacketWithin}
use netchan.Service.{retry_connect, check_idle, keepalive, service_channels, netchan_service}
use netchan.Types.{connected, Result, ok, Addr, Outgoing, Chan, EvQueue, Conn, Env}
use netchan.WebSocket.{
  mask_bytes, payload_size, nc_ws_frame_parse, header_size, length_bytes, frame_bytes,
  nc_ws_frame_build,
}
use netchan.WebSocket.Bounds.{Inside, nc_ws_frame_parse-Inside}
use netchan.WebSocket.Roundtrip.{built, nc_ws_frame_parse-nc_ws_frame_build}
use netchan.Wire.{byte_at, wr32, rd16}

abbrev env : Env
env = record { now = λ k. 1000 + k; entropy = λ k. 77; here = 0 }

abbrev addr : Addr
addr = record { len = 4; a = 10 ∷ 0 ∷ 0 ∷ 1 ∷ [] }

-- A client that has called netchan_connect, and an INIT packet with its first frame.
abbrev client : Conn
client = (netchan_connect env (netchan_open false) addr).0

abbrev init_packet : List ℕ
init_packet = 17 ∷ 0 ∷ 0 ∷ 0 ∷ 0 ∷ 1 ∷ 1 ∷ 0 ∷ 77 ∷ []

-- A channel whose slot 0 holds a message of two bytes in buffer 63.
abbrev message : Outgoing
message = record {
  seq = 0;
  buf = some 63;
  len = 2;
  sent_ms = 0;
  attempts = 0;
  frag_sent = 0;
  frag_total = 1;
  active = true;
}

abbrev busy : Chan
busy = record chan_reset_bufs {
  state = 1;
  outgoing = update (λ _. no_outgoing) 0 message;
  out_tail = 1;
  bytes_in_flight = 2;
  send_window = 100;
}

-- The same after its message went out.
abbrev waiting_ack : Chan
waiting_ack = record busy {
  outgoing = update (λ _. no_outgoing) 0 (record message { frag_sent = 1 });
}

-- A receiving channel and the pool of a fresh connection.
abbrev rx : Rx
rx = record {
  pool = pool_init (λ _. 0);
  evq = record { events = λ _. no_event; ev_head = 0; ev_tail = 0 };
  ch = chan_reset_bufs;
}

abbrev one_event : EvQueue
one_event = record { events = λ _. no_event; ev_head = 15; ev_tail = 0 }

fresh-Held :
    Held 5
      (count 5 (pool_init (λ _. 0)).free + owned 5 chan_reset_bufs)
      chan_reset_bufs
      (pool_init (λ _. 0))
unfolding chan_reset_bufs netchan_open
fresh-Held = record { inv = (netchan_open-ConnInv true).in_shape 0; total = refl }

-- The client sends its request, and again after two seconds without an answer.
reachable-ConnInv_example :
    ConnInv (netchan_service env (netchan_send_next env client 1200).1 2000).0
unfolding netchan_open netchan_connect ctrl_connect_init ctrl_reserve pool_init netchan_send_next
    build_packet has_data is_init flush_ctrl wr32 send_data flush_feedback packet_header
    netchan_cfg_default feedback_on send_on netchan_service retry_connect check_idle
    service_channels keepalive
reachable-ConnInv_example =
    reachable-ConnInv false
      (and_then (and_then (and_then start (connects env addr)) (sends env 1200))
        (services env 2000))
      refl

-- A connection whose slot 0 holds a sending channel.
abbrev sending : Conn
sending = (chan_new (netchan_open true) 3 0 0 0 none).1

Step-overrun_example :
    (netchan_chan_write sending (some 0) (7 ∷ 8 ∷ [])).1.pool.overrun ≡ sending.pool.overrun
unfolding chan_new place_chan find_slot netchan_open
Step-overrun_example =
    Step-overrun (writes 0 (7 ∷ 8 ∷ []) (omega arith, refl))
      (chan_new-ConnInv (netchan_open true) 3 0 0 0 none (netchan_open-ConnInv true)) refl

netchan_feed_total_example :
    (r : Conn × Result (Unit {0})) × (netchan_feed env client init_packet (some addr) ≡ some r)
netchan_feed_total_example = netchan_feed_total env client init_packet (some addr)

-- A DATA frame with two bytes, and one byte behind it.
abbrev two_bytes_frame : List ℕ
two_bytes_frame = 9 ∷ 3 ∷ 0 ∷ 0 ∷ 0 ∷ 2 ∷ 0 ∷ 1 ∷ 7 ∷ 8 ∷ 5 ∷ []

two_bytes_frame-accepted : (process_frame env 0 client two_bytes_frame).1 ≡ ok 10
unfolding process_frame process_as frame_type process_data rd16
two_bytes_frame-accepted = refl

process_frame-FrameWithin_example :
    FrameWithin two_bytes_frame (process_frame env 0 client two_bytes_frame).1
process_frame-FrameWithin_example = process_frame-FrameWithin env 0 client two_bytes_frame

process_frame-Moved_example : Moved client (process_frame env 0 client (2 ∷ 1 ∷ 0 ∷ 9 ∷ []))
process_frame-Moved_example = process_frame-Moved env 0 client (2 ∷ 1 ∷ 0 ∷ 9 ∷ [])

process_data-data_frame_example :
    process_data client (data_frame 3 message (7 ∷ 8 ∷ []) ++ (5 ∷ [])) ≡ (
      data_on client (client.channels 3) 0 0 1 (7 ∷ 8 ∷ []),
      ok (length (data_frame 3 message (7 ∷ 8 ∷ []))),
    )
process_data-data_frame_example =
    process_data-data_frame client 3 message (7 ∷ 8 ∷ []) (5 ∷ []) (omega arith) (omega arith)

compact-inside_example :
    OnlyIn (pool_ptr (some 63)) rx.pool (compact (some 63) (λ _. 2) 3 0 4 0 rx.pool).1
unfolding pool_ptr
compact-inside_example =
    compact-inside (some 63) (λ _. 2) 3 4 rx.pool (omega arith)
      (λ j l. (omega arith, λ some_bytes. omega arith))

rx-Sound : Sound rx
unfolding chan_reset_bufs netchan_open
rx-Sound = λ b l. record {
  inv = (netchan_open-ConnInv true).in_shape 0;
  total = ground (arith, count-pool_init b (λ _. 0), fresh-owned b);
}

-- The first of two fragments.
receive_data-StaysInside_example : StaysInside 1185 rx (receive_data 0 1185 rx 0 0 2 (7 ∷ 8 ∷ []))
unfolding chan_reset_bufs
receive_data-StaysInside_example =
    receive_data-StaysInside 0 1185 rx 0 0 2 (7 ∷ 8 ∷ []) rx-Sound
      (λ i j. (omega arith, λ some_bytes. absurd (omega arith))) (omega arith)

-- Two fragments of 2048 and 863 bytes, where a fragment's place has 1185: the second is moved past the
-- buffer, and from the last buffer past pool_store.
long_fragments_overrun :
    (compact (some 63) (λ j. if j == 0 then 2048 else 863) 1185 0 2 0 rx.pool).1.overrun ≡ true
unfolding compact move_frag pool_write pool_ptr pool_read bytes_at pool_init
long_fragments_overrun = refl

compact-fragments_example :
    let (total, p') = compact (some 2) (λ _. 2) 3 0 4 0 (pool_init (λ i. i % 256)) in
    pool_read p' (some 2) 0 total ≡ fragments (pool_init (λ i. i % 256)) (some 2) (λ _. 2) 3 0 4
compact-fragments_example =
    compact-fragments (some 2) (λ _. 2) 3 4 (pool_init (λ i. i % 256)) (λ j l. omega arith)

to_list-push_event_example :
    to_list (push_event one_event no_event) ≡ enqueue (to_list one_event) no_event
to_list-push_event_example =
    to_list-push_event one_event no_event (record { head_lt = omega arith; tail_lt = omega arith })

to_list-netchan_poll_example :
    ((netchan_poll one_event).0 ≡ (dequeue (to_list one_event)).0)
    × (to_list (netchan_poll one_event).1 ≡ (dequeue (to_list one_event)).1)
to_list-netchan_poll_example =
    to_list-netchan_poll one_event (record { head_lt = omega arith; tail_lt = omega arith })

netchan_send_next-PacketWithin_example :
    PacketWithin (min 1200 1000) (netchan_send_next env client 1000).0
unfolding netchan_open netchan_cfg_default netchan_connect ctrl_connect_init ctrl_reserve wr32
netchan_send_next-PacketWithin_example =
    netchan_send_next-PacketWithin env client 1000 (omega arith) (omega arith)

-- That packet has its header and the CONNECT_INIT frame.
client_sends : is_some (netchan_send_next env client 1000).0 ≡ true
unfolding netchan_open netchan_connect ctrl_connect_init ctrl_reserve pool_init netchan_send_next
    build_packet has_data is_init flush_ctrl wr32 send_data flush_feedback packet_header
    netchan_cfg_default feedback_on send_on
client_sends = refl

chan_next_sendable_complete_example : sendable (waiting_ack.outgoing 0) ≡ false
unfolding chan_reset_bufs chan_next_sendable scan_sendable
chan_next_sendable_complete_example =
    chan_next_sendable_complete waiting_ack 0 (omega arith) (omega arith) (omega arith) refl refl

-- An open sending channel with nothing queued.
abbrev open_sender : Chan
open_sender = record chan_reset_bufs { state = 1; send_window = 100 }

open_sender-OutboxInv : OutboxInv open_sender rx.pool
unfolding chan_reset_bufs
open_sender-OutboxInv = record {
  head_lt = omega arith;
  tail_lt = omega arith;
  fits = λ i h. omega arith;
  apart = λ b. ground (arith, count-pool_init b (λ _. 0), fresh-owned b);
}

open_sender-takes : takes open_sender rx.pool (7 ∷ 8 ∷ []) ≡ true
unfolding chan_reset_bufs outbox ring pool_init count_down
open_sender-takes = refl

outbox-write_chan_example :
    let (result, ch', p') = write_chan 1185 open_sender rx.pool (7 ∷ 8 ∷ []) in
    (outbox ch' p' ≡ (
      if takes open_sender rx.pool (7 ∷ 8 ∷ [])
      then outbox open_sender rx.pool ++ ((7 ∷ 8 ∷ []) ∷ [])
      else outbox open_sender rx.pool))
    × (sent_count result ≡ (if takes open_sender rx.pool (7 ∷ 8 ∷ []) then 2 else 0))
outbox-write_chan_example =
    outbox-write_chan 1185 open_sender rx.pool (7 ∷ 8 ∷ []) (omega arith) open_sender-OutboxInv

write_chan_window_example :
    let ch' = (write_chan 1185 busy rx.pool (7 ∷ 8 ∷ [])).1 in ch'.bytes_in_flight ≤ ch'.send_window
unfolding chan_reset_bufs
write_chan_window_example =
    write_chan_window 1185 busy rx.pool (7 ∷ 8 ∷ []) refl refl (omega arith) (omega arith)

peer_after_guard_example :
    let c = netchan_open true in
    (peer_after c (some addr) (1 ∷ []) ≡ addr)
    × ((c.peer_addr.len ≡ 0)
        ⊎ (c.state ≡ connected)
          × ((byte_at (1 ∷ []) 0 ≡ 9) ⊎ (byte_at (1 ∷ []) 0 ≡ 10))
          × (is_some (c.channels (byte_at (1 ∷ []) 1)) ≡ true))
unfolding peer_after netchan_open
peer_after_guard_example =
    peer_after_guard (netchan_open true) addr (1 ∷ [])
      (λ e. omega (arith, ap (λ (x : Addr). x.len) e))

nc_random_id-ne-zero_example : nc_random_id 0 0 0 ≢ 0
nc_random_id-ne-zero_example = nc_random_id-ne-zero 0 0 0

nc_ws_frame_parse-nc_ws_frame_build_example :
    nc_ws_frame_parse (frame_bytes 2 (7 ∷ 8 ∷ []) (some (1 ∷ 2 ∷ 3 ∷ 4 ∷ [])) ++ (9 ∷ []))
    ≡ some (built 2 (7 ∷ 8 ∷ []), 8)
unfolding nc_ws_frame_build header_size frame_bytes length_bytes mask_bytes
nc_ws_frame_parse-nc_ws_frame_build_example =
    nc_ws_frame_parse-nc_ws_frame_build 100 2 (7 ∷ 8 ∷ []) (9 ∷ [])
      (frame_bytes 2 (7 ∷ 8 ∷ []) (some (1 ∷ 2 ∷ 3 ∷ 4 ∷ []))) (some (1 ∷ 2 ∷ 3 ∷ 4 ∷ [])) refl
      (omega arith) refl

nc_ws_frame_parse-Inside_example :
    Inside (130 ∷ 2 ∷ 7 ∷ 8 ∷ []) (nc_ws_frame_parse (130 ∷ 2 ∷ 7 ∷ 8 ∷ []))
unfolding payload_size
nc_ws_frame_parse-Inside_example = nc_ws_frame_parse-Inside (130 ∷ 2 ∷ 7 ∷ 8 ∷ []) (omega arith)

fresh-InboxInv : InboxInv chan_reset_bufs (pool_init (λ _. 0))
unfolding chan_reset_bufs netchan_open
fresh-InboxInv =
    ConnInv-InboxInv (netchan_open true) 0 (omega arith) (λ i h. omega arith)
      (netchan_open-ConnInv true)

inbox-chan_recv_enqueue_example :
    let r' = (chan_recv_enqueue rx (7 ∷ 8 ∷ [])).1 in
    inbox r'.ch r'.pool ≡ (
      if has_room rx (7 ∷ 8 ∷ [])
      then inbox rx.ch rx.pool ++ ((7 ∷ 8 ∷ []) ∷ [])
      else inbox rx.ch rx.pool)
inbox-chan_recv_enqueue_example = inbox-chan_recv_enqueue rx (7 ∷ 8 ∷ []) fresh-InboxInv

-- A connection whose slot 0 holds a receiving channel, where one message has arrived.
abbrev receiving : Conn
receiving = (chan_new (netchan_open true) 3 1 0 1 none).1

receiving-ConnInv : ConnInv receiving
receiving-ConnInv = chan_new-ConnInv (netchan_open true) 3 1 0 1 none (netchan_open-ConnInv true)

abbrev delivered : Conn
delivered = data_on receiving (some 0) 0 0 1 (7 ∷ 8 ∷ [])

netchan_chan_read_oldest_example :
    let (result, c') = netchan_chan_read delivered (some 0) 100 in
    (result ≡ ok (take 100 (get_or (inbox (delivered.chan_pool 0) delivered.pool) 0 [])))
    × (inbox (c'.chan_pool 0) c'.pool ≡ drop 1 (inbox (delivered.chan_pool 0) delivered.pool))
unfolding chan_new place_chan find_slot netchan_open chan_reset_bufs data_on with_rx receive_data
    deliver chan_recv_enqueue store_entry pool_get pop_free pool_init count_down ev_push push_event
netchan_chan_read_oldest_example =
    netchan_chan_read_oldest delivered 0 100 (omega arith, refl) refl (λ i h. ground arith)
      (data_on-ConnInv receiving (some 0) 0 0 1 (7 ∷ 8 ∷ []) (receiving-ConnInv.named 3)
        receiving-ConnInv)

receive_data_out_of_order_example :
    let r' = receive_data 0 1185 rx 5 0 1 (7 ∷ 8 ∷ []) in
    (inbox r'.ch r'.pool ≡ inbox rx.ch rx.pool)
    × (r'.ch.recv_seq ≡ rx.ch.recv_seq)
    × (r'.ch.need_ack ≡ true)
unfolding chan_reset_bufs
receive_data_out_of_order_example =
    receive_data_out_of_order 0 1185 rx 5 0 1 (7 ∷ 8 ∷ []) fresh-InboxInv refl (omega arith)
      (omega arith)

receive_data_in_order_example :
    let r' = receive_data 0 1185 rx rx.ch.recv_seq 0 1 (7 ∷ 8 ∷ []) in
    (inbox r'.ch r'.pool ≡ (
      if has_room rx (7 ∷ 8 ∷ [])
      then inbox rx.ch rx.pool ++ ((7 ∷ 8 ∷ []) ∷ [])
      else inbox rx.ch rx.pool))
    × (r'.ch.recv_seq ≡ inc16 rx.ch.recv_seq)
    × (r'.ch.need_ack ≡ true)
unfolding chan_reset_bufs next_waits
receive_data_in_order_example =
    receive_data_in_order 0 1185 rx 0 1 (7 ∷ 8 ∷ []) fresh-InboxInv refl (omega arith) refl
