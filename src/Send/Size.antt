-- ===== src/Send/Size.antt =====
-- A packet never grows beyond the MTU and the caller's buffer.
use netchan.Base.{
  ltb, leb, ◌==◌, if◌then◌else◌, leb→le, Bool-cases, Option-cases, ℕ, zero, suc, ◌+◌, ◌-◌, ◌*◌, ◌≤◌,
  ◌<◌, min, ◌≡◌, inl, inr, not, ◌&&◌, ◌||◌, Option, none, some, arith, length-bytes_at, length,
  take, length-append, length-take, List, ◌∷◌, u32_mod, size_mod, sub_size,
}
use netchan.BufferPool.{pool_ptr, pool_read}
use netchan.Send.{
  chan_next_sendable, has_data, Tx, flush_ctrl, ack_frame, window_frame, feedback_on,
  flush_feedback, data_frame, frag_len, send_frag, send_on, send_data, is_init, packet_header,
  build_packet, netchan_send_next,
}
use netchan.Types.{
  hdr_init_size, hdr_full_size, sender, chan_opened, Addr, Outgoing, Chan, Conn, Env,
}
use netchan.Wire.{wr16, wr32}

length-packet_header : (c : Conn) → length (packet_header c) ≡ (if is_init c then 5 else 7)
unfolding packet_header wr32 wr16
length-packet_header c = ground arith

length-flush_ctrl :
    (mtu : ℕ) (out ctrl_buf : List ℕ)
    → mtu < size_mod
    → length out ≤ mtu
    → length (flush_ctrl mtu out ctrl_buf).0 ≤ mtu
unfolding flush_ctrl
length-flush_ctrl mtu out ctrl_buf h k =
    let n = min (length ctrl_buf) (sub_size mtu (length out)) in
    omega (arith, length-append out (take n ctrl_buf), length-take n ctrl_buf)

length-ack_frame :
    (mtu : ℕ) (ch : Chan) (out : List ℕ) → length out ≤ mtu → length (ack_frame mtu ch out).1 ≤ mtu
unfolding ack_frame wr16
length-ack_frame mtu ch out h = ground (arith, length-append out (10 ∷ ch.id ∷ wr16 ch.ack_seq))

length-window_frame :
    (mtu : ℕ) (ch : Chan) (out : List ℕ)
    → length out ≤ mtu
    → length (window_frame mtu ch out).1 ≤ mtu
unfolding window_frame wr32
length-window_frame mtu ch out h =
    ground (arith, length-append out (11 ∷ ch.id ∷ wr32 (ch.recv_window - ch.recv_buffered)))

length-feedback_on :
    (mtu : ℕ) (slot : Option ℕ) (t : Tx)
    → length t.out ≤ mtu
    → length (feedback_on mtu slot t).out ≤ mtu
unfolding feedback_on
length-feedback_on mtu none t h = h
length-feedback_on mtu (some s) t h =
    length-window_frame mtu _ _ (length-ack_frame mtu (t.chan_pool s) t.out h)

length-flush_feedback :
    (mtu : ℕ) (channels : ℕ → Option ℕ) (n : ℕ) (t : Tx)
    → length t.out ≤ mtu
    → length (flush_feedback mtu channels n t).out ≤ mtu
unfolding flush_feedback
length-flush_feedback mtu channels zero t h = h
length-flush_feedback mtu channels (suc n) t h = ground (
  arith,
  length-flush_feedback mtu channels n t h,
  length-feedback_on mtu (channels n) (flush_feedback mtu channels n t),
)

length-data_frame :
    (id : ℕ) (o : Outgoing) (payload : List ℕ)
    → length (data_frame id o payload) ≡ 8 + length payload
unfolding data_frame wr16
length-data_frame id o payload = omega arith

-- The packet's size if a fragment is sent.
abbrev Fits : ℕ → Option Tx → Type 0
Fits mtu none = Unit
Fits mtu (some t) = length t.out ≤ mtu

send_frag-Fits :
    (frag_payload mtu now s : ℕ) (idx : Option ℕ) (t : Tx)
    → mtu < size_mod
    → length t.out + 9 ≤ mtu
    → Fits mtu (send_frag frag_payload mtu now s idx t)
unfolding send_frag pool_read
send_frag-Fits frag_payload mtu now s none t h k = omega arith
send_frag-Fits frag_payload mtu now s (some idx) t h k =
    let o = (t.chan_pool s).outgoing idx in
    let dlen = frag_len frag_payload o in
    let payload = pool_read t.pool o.buf (o.frag_sent * frag_payload) dlen in
    let avail = sub_size (sub_size mtu (length t.out)) 8 in
    elim (Bool-cases (avail == 0 || ltb avail dlen)) [
      | inl stop ↦ rw stop tt
      | inr fits ↦ rw fits (
          ground (
            arith,
            length-append t.out (data_frame (t.chan_pool s).id o payload),
            length-data_frame (t.chan_pool s).id o payload,
            length-bytes_at t.pool.store (pool_ptr o.buf + o.frag_sent * frag_payload) dlen,
          ))
    ]

send_on-Fits :
    (frag_payload mtu now : ℕ) (slot : Option ℕ) (t : Tx)
    → mtu < size_mod
    → length t.out + 9 ≤ mtu
    → Fits mtu (send_on frag_payload mtu now slot t)
unfolding send_on
send_on-Fits frag_payload mtu now none t h k = omega arith
send_on-Fits frag_payload mtu now (some s) t h k =
    let ch = t.chan_pool s in
    elim (Bool-cases (ch.role == sender && ch.state == chan_opened)) [
      | inr idle ↦ rw idle (omega arith)
      | inl ready ↦ rw ready (send_frag-Fits frag_payload mtu now s (chan_next_sendable ch) t h k)
    ]

length-send_data :
    (env : Env) (frag_payload mtu : ℕ) (channels : ℕ → Option ℕ) (i n : ℕ) (t : Tx)
    → mtu < size_mod
    → length t.out ≤ mtu
    → length (send_data env frag_payload mtu channels i n t).out ≤ mtu
unfolding send_data
length-send_data env frag_payload mtu channels i zero t h k = k
length-send_data env frag_payload mtu channels i (suc n) t h k =
    elim (Bool-cases (leb (length t.out + 9) mtu)) [
      | inr full ↦ rw (full, send_data) k
      | inl room ↦ elim (Option-cases (send_on frag_payload mtu (env.now i) (channels i) t)) [
        | inl stop ↦ rw (room, stop, send_data) k
        | inr (t', sent) ↦
            rw (room, sent, send_data)
              (length-send_data env frag_payload mtu channels (i + 1) n t' h (
                rw sent at
                  (send_on-Fits frag_payload mtu (env.now i) (channels i) t h (leb→le _ _ room))))
      ]
    ]

-- The size of the packet that a call returns, if it returns one.
abbrev pub PacketWithin : ℕ → Option (List ℕ × Addr) → Type 0
PacketWithin n none = Unit
PacketWithin n (some (out, _)) = length out ≤ n

-- With an MTU that holds a packet header, 7 at least, and fits a uint32_t, a packet that
-- netchan_send_next makes stays within the MTU and the caller's buffer.
pub netchan_send_next-PacketWithin :
    (env : Env) (c : Conn) (buflen : ℕ)
    → 7 ≤ c.cfg.mtu
    → c.cfg.mtu < u32_mod
    → PacketWithin (min c.cfg.mtu buflen) (netchan_send_next env c buflen).0
unfolding netchan_send_next build_packet
netchan_send_next-PacketWithin env c buflen h k =
    elim (Bool-cases
      (not (has_data c) || ltb buflen (if is_init c then hdr_init_size else hdr_full_size))) [
        | inl nothing ↦ rw nothing tt
        | inr packet ↦ rw packet (
            length-send_data env _ _ c.channels 0 256 _ (omega arith) (
              length-flush_feedback _ c.channels 256 _ (
                length-flush_ctrl _ (packet_header c) c.ctrl_buf (omega arith)
                  (ground (arith, length-packet_header c)))))
      ]
