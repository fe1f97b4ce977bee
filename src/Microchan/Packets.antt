-- ===== src/Microchan/Packets.antt =====
-- The packets that mc_send_next of microchan/src/microchan.c makes carry messages of the log, and fit.
use netchan.Base.{
  ltb, ◌==◌, if◌then◌else◌, Bool-cases, ℕ, zero, suc, ◌+◌, ◌-◌, ◌%◌, ◌≤◌, ◌<◌, ◌≡◌, ◌≢◌, inl, inr,
  not, ◌||◌, Option, none, some, arith, length, drop, length-append, drop-append_le, List, ◌++◌,
  u16_mod, inc16, sub16,
}
use netchan.Microchan.Log.{Message, Good, logged, elsewhere, Body, no_more, Body-snoc, PacketOk}
use netchan.Microchan.Send.{
  send_data, header, record_bytes, reliable_records, unreliable_records, packet_synack, packet_syn,
  with_reliable, with_unreliable, send_reliable, send_unreliable, nothing_to_say, send_queued,
  mc_send_next,
}
use netchan.Microchan.Types.{
  mc_mtu, mc_hdr, mc_rec, mc_maxmsg, mt_unrel, mt_rel, pkt_ack, pkt_data, is_up, McAddr, TxSlot,
  Microchan,
}
use netchan.Microchan.Window.{Window, Apart, Sends}
use netchan.Wire.{byte_at, wr16, wr32}

-- A DATA packet as far as it is written: a header, and good records; it fits the room there is.
pub record Partial (k : ℕ) (log : List Message) (room : ℕ) (out : List ℕ) : Type 0 where
  pub long : 8 ≤ length out
  pub within : length out ≤ room
  pub good : Body k log (drop 8 out)

module _ (k : ℕ) (log : List Message) (room : ℕ) where
  length-record_bytes :
      (chan mt seq : ℕ) (bytes : List ℕ)
      → length (record_bytes chan mt seq bytes) ≡ 6 + length bytes
  unfolding record_bytes wr16
  length-record_bytes chan mt seq bytes = omega arith

  -- One more record that fits.
  Partial-record :
      (out : List ℕ) (chan mt seq : ℕ) (bytes : List ℕ)
      → Good k log chan mt seq bytes
      → seq < u16_mod
      → length bytes ≤ mc_maxmsg
      → length out + (mc_rec + length bytes) ≤ room
      → Partial k log room out
      → Partial k log room (out ++ record_bytes chan mt seq bytes)
  Partial-record out chan mt seq bytes g s l fits v =
      let size = length-append out (record_bytes chan mt seq bytes) in
      let own = length-record_bytes chan mt seq bytes in
      record {
        long = omega (arith, size, v.long);
        within = omega (arith, size, own, fits);
        good =
            rw (drop-append_le 8 out (record_bytes chan mt seq bytes) v.long)
              (Body-snoc chan mt seq bytes g s l v.good);
      }

  -- The loop over the window.
  reliable_records-Partial :
      (n : ℕ) (txw : ℕ → TxSlot) (base next unsent : ℕ) (out : List ℕ)
      → length log < u16_mod
      → Window log txw base next unsent
      → Partial k log room out
      → let (u, o) = reliable_records n txw next room unsent out in
        Window log txw base next u × Partial k log room o
  unfolding reliable_records
  reliable_records-Partial zero txw base next unsent out small w v = (w, v)
  reliable_records-Partial (suc n) txw base next unsent out small w v =
      let s = txw (unsent % 8) in
      elim (Bool-cases (unsent == next || ltb room (length out + (mc_rec + length s.bytes)))) [
        | inl stops ↦ rw (reliable_records, stops) (w, v)
        | inr goes ↦
            let more : unsent < next = ground (arith, w.unsent_le) in
            let up : inc16 unsent ≡ unsent + 1 = omega (arith, w.all) in
            let h = w.slots unsent w.base_le more in
            let w' : Window log txw base next (inc16 unsent) = rw up (record {
              all = w.all;
              base_le = omega (arith, w.base_le);
              unsent_le = omega (arith, more);
              room = w.room;
              slots = w.slots;
            }) in
            let good : Good k log s.chan mt_rel s.seq s.bytes = logged (rw h.number h.message) in
            rw (reliable_records, goes)
              (reliable_records-Partial n txw base next (inc16 unsent)
                (out ++ record_bytes s.chan mt_rel s.seq s.bytes) small w'
                (Partial-record out s.chan mt_rel s.seq s.bytes good
                  (omega (arith, h.number, w.all, more)) h.fits (ground arith) v))
      ]

  -- The loop over the unreliable ring.
  unreliable_records-Partial :
      (n : ℕ) (txu : ℕ → List ℕ) (txu_chan : ℕ → ℕ) (head : ℕ) (out : List ℕ)
      → Apart k txu txu_chan head n
      → Partial k log room out
      → let ((h, left), o) = unreliable_records n txu txu_chan room head out in
        Apart k txu txu_chan h left × Partial k log room o
  unfolding unreliable_records
  unreliable_records-Partial zero txu txu_chan head out a v = (a, v)
  unreliable_records-Partial (suc n) txu txu_chan head out a v =
      elim (Bool-cases (ltb room (length out + (mc_rec + length (txu head))))) [
        | inl stops ↦ rw (unreliable_records, stops) (a, v)
        | inr goes ↦
            let first : (head + 4 - head) % 4 < suc n = omega arith in
            let a' : Apart k txu txu_chan ((head + 1) % 4) n = record {
              head_lt = omega arith;
              size_le = omega (arith, a.size_le);
              other = λ j h l. a.other j h (omega (arith, a.head_lt));
              fits = λ j h l. a.fits j h (omega (arith, a.head_lt));
            } in
            rw (unreliable_records, goes)
              (unreliable_records-Partial n txu txu_chan ((head + 1) % 4)
                (out ++ record_bytes (txu_chan head) mt_unrel 0 (txu head)) a'
                (Partial-record out (txu_chan head) mt_unrel 0 (txu head)
                  (elsewhere (a.other head a.head_lt first)) (omega arith)
                  (a.fits head a.head_lt first) (ground arith) v))
      ]

  -- A DATA packet and the connection after it.
  send_data-Partial :
      (c : Microchan)
      → length log < u16_mod
      → 8 ≤ room
      → Sends k log c
      → let (out, c') = send_data c room in Sends k log c' × Partial k log room out
  unfolding send_data send_reliable send_unreliable with_reliable with_unreliable wr32 wr16
  send_data-Partial c small fits (names, w, a) =
      let start = header c.remote_id pkt_data c.rx_next in
      let begun : Partial k log room start = record {
        long = omega arith;
        within = fits;
        good = no_more;
      } in
      let (unsent, out) =
        reliable_records (sub16 c.tx_next c.tx_unsent) c.txw c.tx_next room c.tx_unsent start in
      let (w', v) =
        reliable_records-Partial (sub16 c.tx_next c.tx_unsent) c.txw c.tx_base c.tx_next c.tx_unsent
          start small w begun in
      let (a', v') = unreliable_records-Partial c.txu_count c.txu c.txu_chan c.txu_head out a v in
      ((names, w', a'), v')

-- What a packet of mc_send_next is.
pub record SendOk (k : ℕ) (log : List Message) (buflen : ℕ) (pkt : List ℕ) : Type 0 where
  pub good : PacketOk k log pkt
  pub within : length pkt ≤ mc_mtu
  pub in_buffer : 12 ≤ buflen → length pkt ≤ buflen

abbrev pub Yields : ℕ → List Message → ℕ → Option (List ℕ × McAddr) → Type 0
Yields k log buflen none = Unit
Yields k log buflen (some x) = SendOk k log buflen x.0

-- A handshake packet.
control-SendOk :
    (k : ℕ) (log : List Message) (buflen : ℕ) (p : List ℕ)
    → byte_at p 4 ≢ pkt_data
    → length p ≤ 12
    → SendOk k log buflen p
control-SendOk k log buflen p tag size = record {
  good = inl tag;
  within = omega (arith, size);
  in_buffer = λ h. omega (arith, size);
}

packet_synack-SendOk :
    (k : ℕ) (log : List Message) (buflen : ℕ) (c : Microchan)
    → SendOk k log buflen (packet_synack c)
unfolding packet_synack wr32 wr16
packet_synack-SendOk k log buflen c = control-SendOk k log buflen _ (omega arith) (omega arith)

packet_syn-SendOk :
    (k : ℕ) (log : List Message) (buflen : ℕ) (c : Microchan) → SendOk k log buflen (packet_syn c)
unfolding packet_syn wr32 wr16
packet_syn-SendOk k log buflen c = control-SendOk k log buflen _ (omega arith) (omega arith)

packet_ack-SendOk :
    (k : ℕ) (log : List Message) (buflen conn_id : ℕ)
    → SendOk k log buflen (header conn_id pkt_ack 0)
unfolding wr32 wr16
packet_ack-SendOk k log buflen conn_id = control-SendOk k log buflen _ (omega arith) (omega arith)

data-SendOk :
    (k : ℕ) (log : List Message) (buflen : ℕ) (out : List ℕ)
    → Partial k log (if ltb buflen mc_mtu then buflen else mc_mtu) out
    → SendOk k log buflen out
data-SendOk k log buflen out o = record {
  good = inr o.good;
  within = ground (arith, o.within);
  in_buffer = λ h. ground (arith, o.within);
}

send_queued-Sends :
    (k : ℕ) (log : List Message) (c : Microchan) (buflen : ℕ)
    → length log < u16_mod
    → 8 ≤ buflen
    → Sends k log c
    → let (reply, c') = send_queued c buflen in Sends k log c' × Yields k log buflen reply
unfolding send_queued
send_queued-Sends k log c buflen small long v =
    elim (Bool-cases (not (is_up c.state) || nothing_to_say c)) [
      | inl e ↦ rw e (v, tt)
      | inr e ↦
          let room = if ltb buflen mc_mtu then buflen else mc_mtu in
          let sends = send_data-Partial k log room c small (ground arith) v in
          rw e (sends.0, data-SendOk k log buflen _ sends.1)
    ]

-- If the send window holds the messages of the log, it does so after mc_send_next. A packet that this
-- yields has at most 546 bytes, and no more than the buffer has room for if that is 12 or more; it is no
-- DATA packet, or one whose records are messages of the log or datagrams for other channels than k.
pub mc_send_next-Sends :
    (k : ℕ) (log : List Message) (c : Microchan) (buflen : ℕ)
    → length log < u16_mod
    → Sends k log c
    → let (reply, c') = mc_send_next c buflen in Sends k log c' × Yields k log buflen reply
unfolding mc_send_next
mc_send_next-Sends k log c buflen small v = elim (Bool-cases (ltb buflen mc_hdr)) [
  | inl short ↦ rw short (v, tt)
  | inr long ↦ elim (Bool-cases c.send_synack) [
    | inl e ↦ rw (long, e) (v, packet_synack-SendOk k log buflen _)
    | inr e₁ ↦ elim (Bool-cases c.send_ack) [
      | inl e ↦ rw (long, e₁, e) (v, packet_ack-SendOk k log buflen _)
      | inr e₂ ↦ elim (Bool-cases c.send_syn) [
        | inl e ↦ rw (long, e₁, e₂, e) (v, packet_syn-SendOk k log buflen _)
        | inr e₃ ↦ rw (long, e₁, e₂, e₃) (send_queued-Sends k log _ buflen small (ground arith) v)
      ]
    ]
  ]
]
