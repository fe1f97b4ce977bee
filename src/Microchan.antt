-- ===== src/Microchan.antt =====
-- The core of the microchan library, microchan/src/microchan.c: the event queue, the life cycle and the
-- channels. Its byte I/O is that of src/netchan.c (Wire). No call takes a NULL connection; a channel
-- argument is an index, and an `Option` where NULL is tested.
pub mod Types
pub mod Rings
pub mod Receive
pub mod Send
pub mod Log
pub mod Control
pub mod Delivery
pub mod Window
pub mod Sending
pub mod Packets
pub mod Timers
pub mod Timeout
pub mod Fuel
pub mod Receiver
pub mod Channels
pub mod EndToEnd
use netchan.Base.{
  ltb, leb, ◌==◌, if◌then◌else◌, ℕ, ◌+◌, ◌-◌, ◌%◌, ◌⊎◌, inl, inr, Bool, true, false, not, ◌&&◌,
  Option, none, some, update, length, take, List, [], u8_mod, inc8, inc16, sub16, add32,
}
use netchan.Microchan.Types.{
  mc_window, mc_recvq, mc_unrel_txq, mc_hdr, mc_maxmsg, mc_connect_retry_ms, mc_eventq, mc_reliable,
  state_closed, state_connecting, is_up, McEvType, McError, mc_err, mc_err_again, mc_err_closed,
  mc_err_toobig, McAddr, McEvent, McChan, Microchan, no_mc_addr, no_mc_event, no_mc_chan,
  no_tx_slot,
}
use netchan.Wire.{rd32}

-- `(int16_t)(uint16_t)(a - b) > 0`
unfoldable pub seq_after : ℕ → ℕ → Bool
seq_after a b = ltb 0 (sub16 a b) && ltb (sub16 a b) 32768

unfoldable pub ev_push : Microchan → McEvType → Option ℕ → Microchan
ev_push c type ch = if leb mc_eventq c.ev_count then c else record c {
  evq =
      update c.evq ((c.ev_head + c.ev_count) % mc_eventq)
        (record no_mc_event { type = type; ch = ch });
  ev_count = inc8 c.ev_count;
}

-- `none` where mc_poll returns 0.
unfoldable pub mc_poll : Microchan → Option McEvent × Microchan
mc_poll c = if c.ev_count == 0 then (none, c) else (
  some (c.evq c.ev_head),
  record c { ev_head = (c.ev_head + 1) % mc_eventq; ev_count = c.ev_count - 1 },
)

-- From the value of the generator's two calls.
unfoldable pub gen_id : ℕ → ℕ
gen_id id = if id == 0 then 1 else id

-- After calloc, which does not fail here.
unfoldable pub mc_open : Bool → ℕ → Microchan
mc_open is_server random = record {
  is_server = is_server;
  state = state_closed;
  local_id = gen_id random;
  remote_id = 0;
  peer = no_mc_addr;
  now = 0;
  last_recv = 0;
  last_send = 0;
  send_syn = false;
  send_synack = false;
  send_ack = false;
  connect_timer = 0;
  connect_attempts = 0;
  txw = λ i. no_tx_slot;
  tx_base = 0;
  tx_next = 0;
  tx_unsent = 0;
  tx_timer = 0;
  tx_attempts = 0;
  rx_next = 0;
  ack_pending = false;
  txu = λ i. [];
  txu_chan = λ i. 0;
  txu_head = 0;
  txu_count = 0;
  chan = λ i. no_mc_chan;
  evq = λ i. no_mc_event;
  ev_head = 0;
  ev_count = 0;
}

unfoldable pub mc_connect : Microchan → McAddr → Microchan
mc_connect c addr = record c {
  peer = addr;
  state = state_connecting;
  send_syn = true;
  connect_timer = add32 c.now mc_connect_retry_ms;
  connect_attempts = 0;
}

unfoldable pub mc_peek_id : List ℕ → ℕ
mc_peek_id pkt = if ltb (length pkt) mc_hdr then 0 else rd32 pkt 0

unfoldable pub open_at : Microchan → ℕ → ℕ → Microchan
open_at c type i = record c {
  chan = update c.chan i (record no_mc_chan { used = true; type = type % u8_mod; id = i });
}

-- The channel's index, `none` for NULL.
unfoldable pub mc_chan_open : Microchan → ℕ → Option ℕ × Microchan
mc_chan_open c type =
    if not (c.chan 0).used
    then (some 0, open_at c type 0)
    else if not (c.chan 1).used
    then (some 1, open_at c type 1)
    else (none, c)

unfoldable pub mc_chan_close : Microchan → ℕ → Microchan
mc_chan_close c i = record c { chan = update c.chan i (record (c.chan i) { used = false }) }

unfoldable pub rxq_push : McChan → List ℕ → McChan
rxq_push ch bytes = if leb mc_recvq ch.rx_count then ch else record ch {
  rxq = update ch.rxq ((ch.rx_head + ch.rx_count) % mc_recvq) (take mc_maxmsg bytes);
  rx_count = inc8 ch.rx_count;
}

unfoldable pub rxq_full : McChan → Bool
rxq_full ch = leb mc_recvq ch.rx_count

-- What mc_read of a buffer of buflen bytes does to a channel; the bytes copied, or an error.
unfoldable pub read_msg : McChan → ℕ → (McError ⊎ List ℕ) × McChan
read_msg ch buflen =
    if ch.rx_count == 0
    then (inr [], ch)
    else if ltb buflen (length (ch.rxq ch.rx_head))
    then (inl mc_err_toobig, ch)
    else (
      inr (ch.rxq ch.rx_head),
      record ch { rx_head = (ch.rx_head + 1) % mc_recvq; rx_count = ch.rx_count - 1 },
    )

unfoldable pub mc_read : Microchan → ℕ → ℕ → (McError ⊎ List ℕ) × Microchan
mc_read c i buflen =
    let (reply, ch) = read_msg (c.chan i) buflen in (reply, record c { chan = update c.chan i ch })

unfoldable pub write_reliable : Microchan → ℕ → List ℕ → (McError ⊎ ℕ) × Microchan
write_reliable c id bytes =
    if leb mc_window (sub16 c.tx_next c.tx_base) then (inl mc_err_again, c) else (
      inr (length bytes),
      record c {
        txw =
            update c.txw (c.tx_next % mc_window)
              (record { seq = c.tx_next; chan = id; bytes = bytes });
        tx_next = inc16 c.tx_next;
      },
    )

-- The oldest datagram gives way where the ring is full.
unfoldable pub make_room : Microchan → Microchan
make_room c =
    if leb mc_unrel_txq c.txu_count
    then record c { txu_head = (c.txu_head + 1) % mc_unrel_txq; txu_count = c.txu_count - 1 }
    else c

unfoldable pub write_unreliable : Microchan → ℕ → List ℕ → Microchan
write_unreliable c id bytes =
    let c' = make_room c in
    let at = (c'.txu_head + c'.txu_count) % mc_unrel_txq in
    record c' {
      txu = update c'.txu at bytes;
      txu_chan = update c'.txu_chan at id;
      txu_count = c'.txu_count + 1;
    }

unfoldable pub mc_write : Microchan → ℕ → List ℕ → (McError ⊎ ℕ) × Microchan
mc_write c i bytes =
    if not (c.chan i).used
    then (inl mc_err, c)
    else if not (is_up c.state)
    then (inl mc_err_closed, c)
    else if ltb mc_maxmsg (length bytes)
    then (inl mc_err_toobig, c)
    else if (c.chan i).type == mc_reliable
    then write_reliable c (c.chan i).id bytes
    else (inr (length bytes), write_unreliable c (c.chan i).id bytes)
