-- ===== src/Microchan/Receive.antt =====
-- The receive path of microchan/src/microchan.c: process_ack, deliver, mc_feed.
use netchan.Base.{
  ltb, ◌==◌, if◌then◌else◌, ℕ, zero, suc, ◌+◌, Bool, true, false, not, ◌&&◌, ◌||◌, Option, none,
  some, update, length, take, drop, List, inc16, sub16, add32,
}
use netchan.Microchan.{seq_after, ev_push, rxq_push, rxq_full}
use netchan.Microchan.Types.{
  mc_max_chan, mc_hdr, mc_rec, mt_rel, rt_ms, mc_connect_retry_ms, pkt_syn, pkt_synack, pkt_ack,
  pkt_data, pkt_fin, state_closed, state_connecting, state_connected, is_closed, is_opening, is_up,
  mc_ev_connected, mc_ev_disconnected, mc_ev_data, McAddr, Microchan,
}
use netchan.Wire.{byte_at, rd16, rd32}

unfoldable pub chan_by_id : Microchan → ℕ → Option ℕ
chan_by_id c id = if ltb id mc_max_chan && (c.chan id).used then some id else none

-- Where the loop of process_ack leaves tx_base. The fuel is the distance to tx_next.
unfoldable pub advance_base : ℕ → ℕ → ℕ → ℕ → ℕ
advance_base zero ack next base = base
advance_base (suc n) ack next base = elim (not (base == next) && seq_after ack base) [
  | true ↦ advance_base n ack next (inc16 base)
  | false ↦ base
]

-- tx_base after the loop is `base`; it has moved if the first round did not end the loop.
unfoldable pub acked_to : Microchan → ℕ → Bool → Microchan
acked_to c base progressed =
    let c' = record c {
      tx_base = base;
      tx_unsent = if seq_after base c.tx_unsent then base else c.tx_unsent;
    } in
    if progressed
    then record c' {
      tx_attempts = 0;
      tx_timer = if base == c.tx_next then 0 else add32 c.now rt_ms;
    }
    else c'

unfoldable pub process_ack : Microchan → ℕ → Microchan
process_ack c ack =
    acked_to c (advance_base (sub16 c.tx_next c.tx_base) ack c.tx_next c.tx_base)
      (not (c.tx_base == c.tx_next) && seq_after ack c.tx_base)

abbrev pub with_ack : Microchan → Microchan
with_ack c = record c { ack_pending = true }

-- A message for the channel, with its event.
unfoldable pub hand_over : Microchan → ℕ → List ℕ → Microchan
hand_over c i bytes =
    ev_push (record c { chan = update c.chan i (rxq_push (c.chan i) bytes) }) mc_ev_data (some i)

abbrev pub with_next : Microchan → Microchan
with_next c = record c { rx_next = inc16 c.rx_next }

-- The message that is expected next.
unfoldable pub deliver_next : Microchan → Option ℕ → List ℕ → Microchan
deliver_next c none bytes = with_ack (with_next c)
deliver_next c (some i) bytes =
    if rxq_full (c.chan i) then with_ack c else with_ack (with_next (hand_over c i bytes))

unfoldable pub deliver_unreliable : Microchan → Option ℕ → List ℕ → Microchan
deliver_unreliable c none bytes = c
deliver_unreliable c (some i) bytes = hand_over c i bytes

unfoldable pub deliver : Microchan → ℕ → ℕ → ℕ → List ℕ → Microchan
deliver c chan mt seq bytes =
    if mt == mt_rel
    then if seq == c.rx_next then deliver_next c (chan_by_id c chan) bytes else with_ack c
    else deliver_unreliable c (chan_by_id c chan) bytes

-- The records of a DATA packet. The fuel is the packet's length: every record has six bytes or more.
unfoldable pub records : ℕ → Microchan → List ℕ → Microchan
records zero c q = c
records (suc n) c q =
    if ltb (length q) mc_rec
    then c
    else (let body = drop mc_rec q in
        let dlen = rd16 q 4 in
        let rest =
          records n (deliver c (byte_at q 0) (byte_at q 1) (rd16 q 2) (take dlen body))
            (drop dlen body) in
        if ltb (length body) dlen then c else rest)

abbrev pub take_addr : Option McAddr → McAddr → McAddr
take_addr none a = a
take_addr (some a) _ = a

abbrev pub go_up : Microchan → Microchan
go_up c = ev_push (record c { state = state_connected }) mc_ev_connected none

unfoldable pub feed_syn : Microchan → List ℕ → Option McAddr → Option Microchan
feed_syn c p from =
    if not c.is_server || ltb (length p) (mc_hdr + 4)
    then none
    else (let c' =
          if is_closed c.state
          then record c {
            peer = take_addr from c.peer;
            remote_id = rd32 p mc_hdr;
            state = state_connecting;
            connect_timer = add32 c.now mc_connect_retry_ms;
            connect_attempts = 0;
          }
          else c in
        some (if is_opening c'.state then record c' { send_synack = true } else c'))

unfoldable pub feed_synack : Microchan → List ℕ → Option McAddr → Option Microchan
feed_synack c p from =
    if c.is_server || not (rd32 p 0 == c.local_id) || ltb (length p) (mc_hdr + 4)
    then none
    else (let c' = record c { peer = take_addr from c.peer; remote_id = rd32 p mc_hdr } in
        some (record (if is_opening c'.state then go_up c' else c') { send_ack = true }))

unfoldable pub feed_ack : Microchan → List ℕ → Option Microchan
feed_ack c p =
    if not c.is_server || not (rd32 p 0 == c.local_id)
    then none
    else some (if is_opening c.state then go_up c else c)

-- The acknowledgement and the records of a DATA packet on a connection that is up.
unfoldable pub feed_records : Microchan → List ℕ → Microchan
feed_records c p = records (length p) (process_ack c (rd16 p 6)) (drop mc_hdr p)

unfoldable pub feed_data : Microchan → List ℕ → Option Microchan
feed_data c p =
    if not (rd32 p 0 == c.local_id)
    then none
    else (let c' = if c.is_server && is_opening c.state then go_up c else c in
        some (if is_up c'.state then feed_records c' p else c'))

-- A connection that ends, with the event.
abbrev pub go_down : Microchan → Microchan
go_down c = ev_push (record c { state = state_closed }) mc_ev_disconnected none

unfoldable pub feed_fin : Microchan → List ℕ → Option Microchan
feed_fin c p =
    if not (rd32 p 0 == c.local_id) then none else some (if is_closed c.state then c else go_down c)

-- The switch on the packet's type; `none` for MC_ERR_PROTO.
unfoldable pub feed_as : Microchan → List ℕ → Option McAddr → Option Microchan
feed_as c p from =
    if byte_at p 4 == pkt_syn
    then feed_syn c p from
    else if byte_at p 4 == pkt_synack
    then feed_synack c p from
    else if byte_at p 4 == pkt_ack
    then feed_ack c p
    else if byte_at p 4 == pkt_data
    then feed_data c p
    else if byte_at p 4 == pkt_fin
    then feed_fin c p
    else none

-- A packet that is refused has been heard all the same.
abbrev pub or_refused : Microchan → Option Microchan → Bool × Microchan
or_refused c none = (false, c)
or_refused c (some c') = (true, c')

-- `true` for MC_OK, `false` for MC_ERR_PROTO.
unfoldable pub mc_feed : Microchan → List ℕ → Option McAddr → Bool × Microchan
mc_feed c p from =
    if ltb (length p) mc_hdr
    then (false, c)
    else (let c' = record c { last_recv = c.now } in or_refused c' (feed_as c' p from))
