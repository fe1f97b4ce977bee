-- ===== src/Microchan/Send.antt =====
-- The transmit path and the timers of microchan/src/microchan.c: mc_send_next, mc_service.
use netchan.Base.{
  ltb, leb, ◌==◌, if◌then◌else◌, ℕ, zero, suc, ◌+◌, ◌*◌, ◌%◌, ◌^◌, Bool, true, false, not, ◌&&◌,
  ◌||◌, Option, none, some, length, List, ◌∷◌, ◌++◌, inc16, sub16, add32, sub32,
}
use netchan.Microchan.Receive.{with_ack, go_down}
use netchan.Microchan.Types.{
  mc_mtu, mc_window, mc_unrel_txq, mc_hdr, mc_rec, mt_unrel, mt_rel, rt_ms, rt_max_ms, rt_attempts,
  mc_connect_retry_ms, mc_connect_retries, keepalive_ms, idle_ms, pkt_syn, pkt_synack, pkt_ack,
  pkt_data, is_opening, is_up, McAddr, TxSlot, Microchan,
}
use netchan.Wire.{wr16, wr32}

abbrev pub header : ℕ → ℕ → ℕ → List ℕ
header conn_id ptype ack = wr32 conn_id ++ (ptype ∷ 0 ∷ wr16 ack)

-- A record of a DATA packet.
unfoldable pub record_bytes : ℕ → ℕ → ℕ → List ℕ → List ℕ
record_bytes chan mt seq bytes = chan ∷ mt ∷ (wr16 seq ++ (wr16 (length bytes) ++ bytes))

-- The loop over the reliable messages that are not yet on the wire: tx_unsent after it, and the packet
-- so far. The fuel is the distance to tx_next.
unfoldable pub reliable_records : ℕ → (ℕ → TxSlot) → ℕ → ℕ → ℕ → List ℕ → ℕ × List ℕ
reliable_records zero txw next room unsent out = (unsent, out)
reliable_records (suc n) txw next room unsent out =
    let s = txw (unsent % mc_window) in
    elim (unsent == next || ltb room (length out + (mc_rec + length s.bytes))) [
      | true ↦ (unsent, out)
      | false ↦
          reliable_records n txw next room (inc16 unsent)
            (out ++ record_bytes s.chan mt_rel s.seq s.bytes)
    ]

-- The loop over the unreliable ones: the ring's head and count after it, and the packet so far. The
-- fuel is the count.
unfoldable pub unreliable_records : ℕ → (ℕ → List ℕ) → (ℕ → ℕ) → ℕ → ℕ → List ℕ → (ℕ × ℕ) × List ℕ
unreliable_records zero txu txu_chan room head out = ((head, 0), out)
unreliable_records (suc n) txu txu_chan room head out =
    elim (ltb room (length out + (mc_rec + length (txu head)))) [
      | true ↦ ((head, suc n), out)
      | false ↦
          unreliable_records n txu txu_chan room ((head + 1) % mc_unrel_txq)
            (out ++ record_bytes (txu_chan head) mt_unrel 0 (txu head))
    ]

abbrev pub sent : Microchan → Microchan
sent c = record c { last_send = c.now }

unfoldable pub packet_synack : Microchan → List ℕ
packet_synack c = header c.remote_id pkt_synack 0 ++ wr32 c.local_id

unfoldable pub packet_syn : Microchan → List ℕ
packet_syn c = header 0 pkt_syn 0 ++ wr32 c.local_id

-- The reliable part of a DATA packet, with the timer that it starts.
unfoldable pub with_reliable : Microchan → ℕ × List ℕ → Microchan × List ℕ
with_reliable c (unsent, out) = (
  record c {
    tx_unsent = unsent;
    tx_timer =
        if not (c.tx_base == c.tx_next) && c.tx_timer == 0 then add32 c.now rt_ms else c.tx_timer;
  },
  out,
)

unfoldable pub with_unreliable : Microchan → (ℕ × ℕ) × List ℕ → Microchan × List ℕ
with_unreliable c ((head, left), out) = (record c { txu_head = head; txu_count = left }, out)

unfoldable pub send_reliable : Microchan → ℕ → List ℕ → Microchan × List ℕ
send_reliable c room out =
    with_reliable c
      (reliable_records (sub16 c.tx_next c.tx_unsent) c.txw c.tx_next room c.tx_unsent out)

unfoldable pub send_unreliable : ℕ → Microchan × List ℕ → Microchan × List ℕ
send_unreliable room (c, out) =
    with_unreliable c (unreliable_records c.txu_count c.txu c.txu_chan room c.txu_head out)

-- A DATA packet, and the connection after it. The code writes the header last.
unfoldable pub send_data : Microchan → ℕ → List ℕ × Microchan
send_data c room =
    let (c', out) =
      send_unreliable room (send_reliable c room (header c.remote_id pkt_data c.rx_next)) in
    (out, sent (record c' { ack_pending = false }))

unfoldable pub nothing_to_say : Microchan → Bool
nothing_to_say c = c.tx_unsent == c.tx_next && (c.txu_count == 0 && not c.ack_pending)

-- What mc_send_next does where no handshake packet is due.
unfoldable pub send_queued : Microchan → ℕ → Option (List ℕ × McAddr) × Microchan
send_queued c buflen =
    if not (is_up c.state) || nothing_to_say c
    then (none, c)
    else (let (out, c') = send_data c (if ltb buflen mc_mtu then buflen else mc_mtu) in
        (some (out, c.peer), c'))

-- The packet and its address, `none` where the code returns 0.
unfoldable pub mc_send_next : Microchan → ℕ → Option (List ℕ × McAddr) × Microchan
mc_send_next c buflen =
    if ltb buflen mc_hdr
    then (none, c)
    else if c.send_synack
    then (some (packet_synack c, c.peer), sent (record c { send_synack = false }))
    else if c.send_ack
    then (some (header c.remote_id pkt_ack 0, c.peer), sent (record c { send_ack = false }))
    else if c.send_syn
    then (some (packet_syn c, c.peer), sent (record c { send_syn = false }))
    else send_queued c buflen

-- The retransmission interval after so many attempts.
unfoldable pub backoff : ℕ → ℕ
backoff attempts =
    let ms = rt_ms * 2 ^ (if ltb attempts 4 then attempts else 3) in
    if ltb rt_max_ms ms then rt_max_ms else ms

-- The handshake's timer; `none` for MC_ERR, and else the time until the next call.
unfoldable pub service_connecting : Microchan → Option ℕ × Microchan
service_connecting c =
    if leb c.connect_timer c.now
    then (let attempts = inc16 c.connect_attempts in
        let c' = record c { connect_attempts = attempts } in
        if ltb mc_connect_retries attempts then (none, go_down c') else (
          some mc_connect_retry_ms,
          record c' {
            send_synack = if c.is_server then true else c.send_synack;
            send_syn = if c.is_server then c.send_syn else true;
            connect_timer = add32 c.now mc_connect_retry_ms;
          },
        ))
    else (some mc_connect_retry_ms, c)

-- The whole window again.
unfoldable pub retransmit_all : Microchan → ℕ → Microchan
retransmit_all c attempts = record c {
  tx_attempts = attempts;
  tx_unsent = c.tx_base;
  tx_timer = add32 c.now (backoff attempts);
}

unfoldable pub keep_alive : Microchan → Option ℕ × Microchan
keep_alive c = (some rt_ms, if ltb keepalive_ms (sub32 c.now c.last_send) then with_ack c else c)

unfoldable pub service_connected : Microchan → Option ℕ × Microchan
service_connected c =
    if ltb idle_ms (sub32 c.now c.last_recv)
    then (none, go_down c)
    else if not (c.tx_base == c.tx_next) && (not (c.tx_timer == 0) && leb c.tx_timer c.now)
    then (let attempts = inc16 c.tx_attempts in
        if ltb rt_attempts attempts
        then (none, go_down (record c { tx_attempts = attempts }))
        else keep_alive (retransmit_all c attempts))
    else keep_alive c

unfoldable pub mc_service : Microchan → ℕ → Option ℕ × Microchan
mc_service c now_ms =
    let c' = record c { now = now_ms } in
    if is_opening c.state
    then service_connecting c'
    else if is_up c.state
    then service_connected c'
    else (none, c')
