-- ===== src/Safety/Sending.antt =====
-- Building a packet keeps the storage of a connection sound.
use netchan.Base.{
  ltb, leb, ◌==◌, if◌then◌else◌, Bool-cases, Option-cases, ℕ, zero, suc, ◌+◌, ◌<◌, ◌≡◌, refl, inl,
  inr, Bool, true, not, ◌&&◌, ◌||◌, Option, none, some, length, sub_size,
}
use netchan.Safety.{StoreInv, ConnInv, put_chan-StoreInv}
use netchan.Send.{
  chan_next_sendable, has_data, Tx, ack_frame, feedback_on, flush_feedback, frag_len, send_frag,
  send_on, send_data, is_init, build_packet, netchan_send_next,
}
use netchan.Send.Ownership.{scan_sendable_sound, after_sent-Held, ack_frame-Held, window_frame-Held}
use netchan.Types.{hdr_init_size, hdr_full_size, max_chan, sender, chan_opened, Conn, Env}

-- A packet in the making, over the table of a connection.
abbrev TxInv : (ℕ → Option ℕ) → (ℕ → Bool) → Tx → Type 0
TxInv table used t = StoreInv t.chan_pool t.pool table used

feedback_on-TxInv :
    {table : ℕ → Option ℕ} {used : ℕ → Bool} (mtu id : ℕ) (slot : Option ℕ) (t : Tx)
    → table id ≡ slot
    → TxInv table used t
    → TxInv table used (feedback_on mtu slot t)
unfolding feedback_on
feedback_on-TxInv mtu id none t e v = v
feedback_on-TxInv mtu id (some s) t e v =
    put_chan-StoreInv s _ t.pool (v.named id s e).0 (v.named id s e).1
      (λ b n h.
        window_frame-Held mtu (ack_frame mtu (t.chan_pool s) t.out).0
          (ack_frame mtu (t.chan_pool s) t.out).1 t.pool
          (ack_frame-Held mtu (t.chan_pool s) t.out t.pool h))
      v

pub flush_feedback-TxInv :
    {used : ℕ → Bool} (mtu : ℕ) (table : ℕ → Option ℕ) (n : ℕ) (t : Tx)
    → TxInv table used t
    → TxInv table used (flush_feedback mtu table n t)
unfolding flush_feedback
flush_feedback-TxInv mtu table zero t v = v
flush_feedback-TxInv mtu table (suc n) t v =
    let t' = flush_feedback mtu table n t in
    elim (Bool-cases (leb (length t'.out + 6) mtu)) [
      | inl fits ↦
          rw fits (feedback_on-TxInv mtu n (table n) t' refl (flush_feedback-TxInv mtu table n t v))
      | inr full ↦ rw full (flush_feedback-TxInv mtu table n t v)
    ]

-- What holds of the packet if a fragment is sent.
abbrev SentInv : (ℕ → Option ℕ) → (ℕ → Bool) → Option Tx → Type 0
SentInv table used none = Unit
SentInv table used (some t) = TxInv table used t

send_frag-SentInv :
    {table : ℕ → Option ℕ} {used : ℕ → Bool} (frag_payload mtu now s : ℕ) (idx : Option ℕ) (t : Tx)
    → (s < max_chan) × (used s ≡ true)
    → ((i : ℕ) → idx ≡ some i → i < 64)
    → TxInv table used t
    → SentInv table used (send_frag frag_payload mtu now s idx t)
unfolding send_frag
send_frag-SentInv frag_payload mtu now s none t live lt v = v
send_frag-SentInv frag_payload mtu now s (some idx) t live lt v =
    let dlen = frag_len frag_payload ((t.chan_pool s).outgoing idx) in
    let avail = sub_size (sub_size mtu (length t.out)) 8 in
    elim (Bool-cases (avail == 0 || ltb avail dlen)) [
      | inl stop ↦ rw stop tt
      | inr fits ↦ rw fits (
          put_chan-StoreInv s _ _ live.0 live.1
            (λ b n h. after_sent-Held (t.chan_pool s) t.pool idx now (lt idx refl) h) v)
    ]

send_on-SentInv :
    {table : ℕ → Option ℕ} {used : ℕ → Bool} (frag_payload mtu now id : ℕ) (slot : Option ℕ)
    (t : Tx)
    → table id ≡ slot
    → TxInv table used t
    → SentInv table used (send_on frag_payload mtu now slot t)
unfolding send_on chan_next_sendable
send_on-SentInv frag_payload mtu now id none t e v = v
send_on-SentInv frag_payload mtu now id (some s) t e v =
    let ch = t.chan_pool s in
    elim (Bool-cases (ch.role == sender && ch.state == chan_opened)) [
      | inr idle ↦ rw idle v
      | inl ready ↦ rw ready (
          send_frag-SentInv frag_payload mtu now s _ t (v.named id s e)
            (λ i q.
              (scan_sendable_sound 64 ch.outgoing ch.out_tail ch.out_head i
                (v.in_shape s).out_head_lt q).0)
            v)
    ]

pub send_data-TxInv :
    {used : ℕ → Bool} (env : Env) (frag_payload mtu : ℕ) (table : ℕ → Option ℕ) (i n : ℕ) (t : Tx)
    → TxInv table used t
    → TxInv table used (send_data env frag_payload mtu table i n t)
unfolding send_data
send_data-TxInv env frag_payload mtu table i zero t v = v
send_data-TxInv env frag_payload mtu table i (suc n) t v =
    elim (Bool-cases (leb (length t.out + 9) mtu)) [
      | inr full ↦ rw (full, send_data) v
      | inl room ↦ elim (Option-cases (send_on frag_payload mtu (env.now i) (table i) t)) [
        | inl stop ↦ rw (room, stop, send_data) v
        | inr (t', sent) ↦
            rw (room, sent, send_data)
              (send_data-TxInv env frag_payload mtu table (i + 1) n t'
                (rw sent at (send_on-SentInv frag_payload mtu (env.now i) i (table i) t refl v)))
      ]
    ]

pub netchan_send_next-ConnInv :
    (env : Env) (c : Conn) (buflen : ℕ) → ConnInv c → ConnInv (netchan_send_next env c buflen).1
unfolding netchan_send_next build_packet
netchan_send_next-ConnInv env c buflen v =
    elim (Bool-cases
      (not (has_data c) || ltb buflen (if is_init c then hdr_init_size else hdr_full_size))) [
        | inl nothing ↦ rw nothing v
        | inr packet ↦
            rw packet (
              send_data-TxInv env _ _ c.channels 0 256 _
                (flush_feedback-TxInv _ c.channels 256 _ v))
      ]
