-- ===== src/Safety/Inside.antt =====
-- Connecting and building a packet leave pool_store alone.
use netchan.Base.{
  ltb, leb, ◌==◌, if◌then◌else◌, Bool-cases, Option-cases, ℕ, zero, suc, ◌+◌, ◌≡◌, ◌∙◌, inl, inr,
  Bool, not, ◌&&◌, ◌||◌, Option, none, some, length, List, sub_size,
}
use netchan.Connection.{random_id, netchan_connect, netchan_accept, netchan_disconnect}
use netchan.Ctrl.{ctrl_reserve, ctrl_connect_init, ctrl_connect_accept, ctrl_disconnect}
use netchan.Receive.Bounds.{pool_put-overrun}
use netchan.Send.{
  chan_next_sendable, has_data, Tx, feedback_on, flush_feedback, mark_sent, after_sent, frag_len,
  send_frag, send_on, send_data, is_init, build_packet, netchan_send_next,
}
use netchan.Types.{
  hdr_init_size, hdr_full_size, ctrl_buf_size, unreliable, sender, chan_opened, connecting, is_new,
  is_connecting, is_connected, Addr, Outgoing, Chan, Pool, Conn, Env,
}

module _ (k : Bool) where
  -- The flag of a connection, and of a packet in the making.
  abbrev pub FlagIs : Pool → Type 0
  FlagIs p = p.overrun ≡ k

  pub ctrl_reserve-FlagIs :
      (c : Conn) (frame : List ℕ) → FlagIs c.pool → FlagIs (ctrl_reserve c frame).pool
  unfolding ctrl_reserve
  ctrl_reserve-FlagIs c frame v =
      elim (Bool-cases (ltb ctrl_buf_size (length c.ctrl_buf + length frame))) [
        | inl full ↦ rw full v
        | inr fits ↦ rw fits v
      ]

  pub netchan_connect-FlagIs :
      (env : Env) (c : Conn) (addr : Addr)
      → FlagIs c.pool
      → FlagIs (netchan_connect env c addr).0.pool
  unfolding netchan_connect ctrl_connect_init
  netchan_connect-FlagIs env c addr v = elim (Bool-cases (c.server || not (is_new c.state))) [
    | inl refused ↦ rw refused v
    | inr starts ↦ rw starts (
        ctrl_reserve-FlagIs
          (record c { local_id = random_id env 0; peer_addr = addr; state = connecting }) _ v)
  ]

  pub netchan_accept-FlagIs : (c : Conn) → FlagIs c.pool → FlagIs (netchan_accept c).0.pool
  unfolding netchan_accept ctrl_connect_accept
  netchan_accept-FlagIs c v = elim (Bool-cases (c.server && is_connecting c.state)) [
    | inl granted ↦ rw granted (ctrl_reserve-FlagIs c _ v)
    | inr refused ↦ rw refused v
  ]

  pub netchan_disconnect-FlagIs : (c : Conn) → FlagIs c.pool → FlagIs (netchan_disconnect c).pool
  unfolding netchan_disconnect ctrl_disconnect
  netchan_disconnect-FlagIs c v = elim (Bool-cases (is_connected c.state)) [
    | inl live ↦ rw live (ctrl_reserve-FlagIs c _ v)
    | inr idle ↦ rw idle v
  ]

  feedback_on-FlagIs :
      (mtu : ℕ) (slot : Option ℕ) (t : Tx) → FlagIs t.pool → FlagIs (feedback_on mtu slot t).pool
  unfolding feedback_on
  feedback_on-FlagIs mtu none t v = v
  feedback_on-FlagIs mtu (some s) t v = v

  flush_feedback-FlagIs :
      (mtu : ℕ) (table : ℕ → Option ℕ) (n : ℕ) (t : Tx)
      → FlagIs t.pool
      → FlagIs (flush_feedback mtu table n t).pool
  unfolding flush_feedback
  flush_feedback-FlagIs mtu table zero t v = v
  flush_feedback-FlagIs mtu table (suc n) t v =
      let t' = flush_feedback mtu table n t in
      elim (Bool-cases (leb (length t'.out + 6) mtu)) [
        | inl fits ↦
            rw fits (feedback_on-FlagIs mtu (table n) t' (flush_feedback-FlagIs mtu table n t v))
        | inr full ↦ rw full (flush_feedback-FlagIs mtu table n t v)
      ]

  after_sent-FlagIs :
      (ch : Chan) (p : Pool) (idx : ℕ) (o : Outgoing) → FlagIs p → FlagIs (after_sent ch p idx o).1
  unfolding after_sent
  after_sent-FlagIs ch p idx o v =
      elim (Bool-cases (leb o.frag_total o.frag_sent && ch.type == unreliable)) [
        | inl done ↦ rw done (pool_put-overrun p o.buf ∙ v)
        | inr waits ↦ rw waits v
      ]

  abbrev SentFlagIs : Option Tx → Type 0
  SentFlagIs none = Unit
  SentFlagIs (some t) = FlagIs t.pool

  send_frag-SentFlagIs :
      (fp mtu now s : ℕ) (idx : Option ℕ) (t : Tx)
      → FlagIs t.pool
      → SentFlagIs (send_frag fp mtu now s idx t)
  unfolding send_frag
  send_frag-SentFlagIs fp mtu now s none t v = v
  send_frag-SentFlagIs fp mtu now s (some idx) t v =
      let dlen = frag_len fp ((t.chan_pool s).outgoing idx) in
      let avail = sub_size (sub_size mtu (length t.out)) 8 in
      elim (Bool-cases (avail == 0 || ltb avail dlen)) [
        | inl stop ↦ rw stop tt
        | inr fits ↦ rw fits (
            after_sent-FlagIs (t.chan_pool s) t.pool idx
              (mark_sent now ((t.chan_pool s).outgoing idx)) v)
      ]

  send_on-SentFlagIs :
      (fp mtu now : ℕ) (slot : Option ℕ) (t : Tx)
      → FlagIs t.pool
      → SentFlagIs (send_on fp mtu now slot t)
  unfolding send_on
  send_on-SentFlagIs fp mtu now none t v = v
  send_on-SentFlagIs fp mtu now (some s) t v =
      let ch = t.chan_pool s in
      elim (Bool-cases (ch.role == sender && ch.state == chan_opened)) [
        | inl talks ↦ rw talks (send_frag-SentFlagIs fp mtu now s (chan_next_sendable ch) t v)
        | inr idle ↦ rw idle v
      ]

  send_data-FlagIs :
      (env : Env) (fp mtu : ℕ) (table : ℕ → Option ℕ) (i n : ℕ) (t : Tx)
      → FlagIs t.pool
      → FlagIs (send_data env fp mtu table i n t).pool
  unfolding send_data
  send_data-FlagIs env fp mtu table i zero t v = v
  send_data-FlagIs env fp mtu table i (suc n) t v = elim (Bool-cases (leb (length t.out + 9) mtu)) [
    | inr full ↦ rw (full, send_data) v
    | inl room ↦ elim (Option-cases (send_on fp mtu (env.now i) (table i) t)) [
      | inl stop ↦ rw (room, stop, send_data) v
      | inr (t', sent) ↦
          rw (room, sent, send_data)
            (send_data-FlagIs env fp mtu table (i + 1) n t'
              (rw sent at (send_on-SentFlagIs fp mtu (env.now i) (table i) t v)))
    ]
  ]

  pub netchan_send_next-FlagIs :
      (env : Env) (c : Conn) (buflen : ℕ)
      → FlagIs c.pool
      → FlagIs (netchan_send_next env c buflen).1.pool
  unfolding netchan_send_next build_packet
  netchan_send_next-FlagIs env c buflen v =
      elim (Bool-cases
        (not (has_data c) || ltb buflen (if is_init c then hdr_init_size else hdr_full_size))) [
          | inl nothing ↦ rw nothing v
          | inr packet ↦ rw packet (
              send_data-FlagIs env _ _ c.channels 0 256 _
                (flush_feedback-FlagIs _ c.channels 256 _ v))
        ]
