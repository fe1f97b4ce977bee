-- ===== src/Send.antt =====
-- Packet output in src/netchan.c: chan_next_sendable and netchan_send_next.
pub mod Scan
pub mod Ownership
pub mod Size
use netchan.Base.{
  ltb, leb, ◌==◌, if◌then◌else◌, is_some, ℕ, zero, suc, ◌+◌, ◌-◌, ◌*◌, ◌%◌, min, Bool, true, false,
  not, ◌&&◌, ◌||◌, Option, none, some, update, length, take, drop, List, ◌∷◌, ◌++◌, inc8, inc16,
  add32, sub_size,
}
use netchan.Acks.{advance_head}
use netchan.BufferPool.{pool_put, pool_read}
use netchan.Channel.{max_frag_payload}
use netchan.Types.{
  pkt_flag_init, pkt_flag_pktnum, hdr_init_size, hdr_full_size, max_channels, outgoing_slots,
  unreliable, sender, receiver, chan_opened, is_connecting, Addr, Outgoing, Chan, Pool, Conn, Env,
}
use netchan.Wire.{wr16, wr32}

-- The scan of the window [head, tail), in at most as many rounds as slots: the index of the first
-- entry with a fragment to send.
unfoldable pub scan_sendable : ℕ → (ℕ → Outgoing) → ℕ → ℕ → Option ℕ
scan_sendable zero outgoing tail idx = none
scan_sendable (suc fuel) outgoing tail idx =
    let rest = scan_sendable fuel outgoing tail ((idx + 1) % outgoing_slots) in
    let o = outgoing idx in
    if idx == tail
    then none
    else if o.active && ltb o.frag_sent o.frag_total
    then some idx
    else rest

unfoldable pub chan_next_sendable : Chan → Option ℕ
chan_next_sendable ch = scan_sendable outgoing_slots ch.outgoing ch.out_tail ch.out_head

-- Whether a channel gives a packet something to carry.
unfoldable pub chan_pending : Chan → Bool
chan_pending ch =
    if ch.role == sender
    then (ch.state == chan_opened && is_some (chan_next_sendable ch))
      || (ch.need_ack || ch.need_window_update)
    else ch.role == receiver && (ch.need_ack || ch.need_window_update)

unfoldable pub pending_on : (ℕ → Chan) → Option ℕ → Bool
pending_on chan_pool none = false
pending_on chan_pool (some s) = chan_pending (chan_pool s)

unfoldable pub any_pending : ℕ → Conn → Bool
any_pending zero c = false
any_pending (suc n) c = pending_on c.chan_pool (c.channels n) || any_pending n c

unfoldable pub has_data : Conn → Bool
has_data c = ltb 0 (length c.ctrl_buf) || any_pending max_channels c

-- A packet in the making: the bytes written, whose number is `pos`, and what writing them changes.
pub record Tx : Type 0 where
  pub out : List ℕ
  pub chan_pool : ℕ → Chan
  pub pool : Pool

-- `n = ctrl_len < avail ? ctrl_len : avail` bytes of the queue go out, the others move up.
unfoldable pub flush_ctrl : ℕ → List ℕ → List ℕ → List ℕ × List ℕ
flush_ctrl mtu out ctrl_buf =
    let n = min (length ctrl_buf) (sub_size mtu (length out)) in
    (out ++ take n ctrl_buf, drop n ctrl_buf)

unfoldable pub ack_frame : ℕ → Chan → List ℕ → Chan × List ℕ
ack_frame mtu ch out =
    if ch.need_ack && leb (length out + 4) mtu
    then (record ch { need_ack = false }, out ++ (10 ∷ ch.id ∷ wr16 ch.ack_seq))
    else (ch, out)

unfoldable pub window_frame : ℕ → Chan → List ℕ → Chan × List ℕ
window_frame mtu ch out =
    if ch.need_window_update && leb (length out + 6) mtu
    then (
      record ch { need_window_update = false },
      out ++ (11 ∷ ch.id ∷ wr32 (ch.recv_window - ch.recv_buffered)),
    )
    else (ch, out)

unfoldable pub feedback_on : ℕ → Option ℕ → Tx → Tx
feedback_on mtu none t = t
feedback_on mtu (some s) t =
    let (ch₁, out₁) = ack_frame mtu (t.chan_pool s) t.out in
    let (ch₂, out₂) = window_frame mtu ch₁ out₁ in
    record t { out = out₂; chan_pool = update t.chan_pool s ch₂ }

-- The channels below n, in order, while six bytes fit. A packet only grows, so once they do not
-- fit, no later round does anything.
unfoldable pub flush_feedback : ℕ → (ℕ → Option ℕ) → ℕ → Tx → Tx
flush_feedback mtu channels zero t = t
flush_feedback mtu channels (suc n) t =
    let t' = flush_feedback mtu channels n t in
    if leb (length t'.out + 6) mtu then feedback_on mtu (channels n) t' else t'

-- The entry after one of its fragments went out at `now`.
unfoldable pub mark_sent : ℕ → Outgoing → Outgoing
mark_sent now o = record o {
  frag_sent = inc8 o.frag_sent;
  sent_ms = now;
  attempts = if o.attempts == 0 then 1 else o.attempts;
}

-- An unreliable message leaves the window with its last fragment.
unfoldable pub after_sent : Chan → Pool → ℕ → Outgoing → Chan × Pool
after_sent ch p idx o =
    if leb o.frag_total o.frag_sent && ch.type == unreliable
    then (
      advance_head (record ch {
        outgoing = update ch.outgoing idx (record o { buf = none; active = false });
      }),
      pool_put p o.buf,
    )
    else (record ch { outgoing = update ch.outgoing idx o }, p)

unfoldable pub data_frame : ℕ → Outgoing → List ℕ → List ℕ
data_frame id o payload =
    9 ∷ id ∷ (wr16 o.seq ++ (wr16 (length payload) ++ (o.frag_sent ∷ o.frag_total ∷ payload)))

-- The length of the fragment that goes out next.
abbrev pub frag_len : ℕ → Outgoing → ℕ
frag_len frag_payload o = min (sub_size o.len (o.frag_sent * frag_payload)) frag_payload

-- One fragment of entry idx. `none` is a `break`: the fragment does not fit.
unfoldable pub send_frag : ℕ → ℕ → ℕ → ℕ → Option ℕ → Tx → Option Tx
send_frag frag_payload mtu now s none t = some t
send_frag frag_payload mtu now s (some idx) t =
    let ch = t.chan_pool s in
    let o = ch.outgoing idx in
    let avail = sub_size (sub_size mtu (length t.out)) 8 in
    let dlen = frag_len frag_payload o in
    if avail == 0 || ltb avail dlen
    then none
    else let payload = pool_read t.pool o.buf (o.frag_sent * frag_payload) dlen in
      let (ch', p') = after_sent ch t.pool idx (mark_sent now o) in
      some (record {
        out = t.out ++ data_frame ch.id o payload;
        chan_pool = update t.chan_pool s ch';
        pool = p';
      })

unfoldable pub send_on : ℕ → ℕ → ℕ → Option ℕ → Tx → Option Tx
send_on frag_payload mtu now none t = some t
send_on frag_payload mtu now (some s) t =
    let ch = t.chan_pool s in
    if ch.role == sender && ch.state == chan_opened
    then send_frag frag_payload mtu now s (chan_next_sendable ch) t
    else some t

-- Channel i and the n - 1 after it; the clock is read once for each fragment.
unfoldable pub send_data : Env → ℕ → ℕ → (ℕ → Option ℕ) → ℕ → ℕ → Tx → Tx
send_data env frag_payload mtu channels i zero t = t
send_data env frag_payload mtu channels i (suc n) t = elim (leb (length t.out + 9) mtu) [
  | false ↦ t
  | true ↦ elim (send_on frag_payload mtu (env.now i) (channels i) t) [
    | none ↦ t
    | some t' ↦ send_data env frag_payload mtu channels (i + 1) n t'
  ]
]

unfoldable pub is_init : Conn → Bool
is_init c = is_connecting c.state && not c.server

unfoldable pub packet_header : Conn → List ℕ
packet_header c =
    if is_init c
    then pkt_flag_init ∷ wr32 c.local_id
    else pkt_flag_pktnum ∷ (wr32 c.remote_id ++ wr16 c.next_pkt_num)

unfoldable pub build_packet : Env → Conn → ℕ → List ℕ × Conn
build_packet env c buflen =
    let mtu = min c.cfg.mtu buflen in
    let (out, ctrl_buf) = flush_ctrl mtu (packet_header c) c.ctrl_buf in
    let t₁ =
      flush_feedback mtu c.channels max_channels
        (record { out = out; chan_pool = c.chan_pool; pool = c.pool }) in
    let t₂ = send_data env (max_frag_payload c.cfg) mtu c.channels 0 max_channels t₁ in
    (
      t₂.out,
      record c {
        next_pkt_num = if is_init c then c.next_pkt_num else inc16 c.next_pkt_num;
        ctrl_buf = ctrl_buf;
        chan_pool = t₂.chan_pool;
        pool = t₂.pool;
        last_send_ms = env.now max_channels;
        pkts_sent = add32 c.pkts_sent 1;
      },
    )

-- The packet and its destination; `none` where the source returns 0.
unfoldable pub netchan_send_next : Env → Conn → ℕ → Option (List ℕ × Addr) × Conn
netchan_send_next env c buflen =
    if not (has_data c) || ltb buflen (if is_init c then hdr_init_size else hdr_full_size)
    then (none, c)
    else (let (out, c') = build_packet env c buflen in (some (out, c.peer_addr), c'))
