-- ===== src/Service.antt =====
-- netchan_service of src/netchan.c: handshake retry, idle timeout, keepalive, retransmission.
use netchan.Base.{
  ltb, leb, ◌==◌, if◌then◌else◌, ℕ, zero, suc, ◌+◌, ◌-◌, ◌*◌, ◌%◌, ◌^◌, min, Bool, true, false, not,
  ◌&&◌, ◌||◌, Option, none, some, update, ℤ, pos, negsuc, ltb_ℤ, to_int, u32_mod, inc8, add32,
  sub32,
}
use netchan.Connection.{random_id}
use netchan.Ctrl.{ctrl_connect_init, ctrl_ping}
use netchan.Events.{ev_push}
use netchan.Types.{
  max_channels, outgoing_slots, max_rt_ms, max_rt_attempts, connect_retry_ms, connect_retries,
  ping_interval_ms, reliable, sender, chan_closed, closed, ev_disconnected, ev_chan_close,
  err_generic, Result, ok, err, trap, is_connecting, is_connected, Chan, EvQueue, Conn, Env,
}

abbrev pub idle_result : ℤ
idle_result = negsuc 0

-- `if (next_ms < 0 || remain < next_ms) next_ms = remain`
abbrev pub sooner : ℤ → ℤ → ℤ
sooner next_ms remain = if ltb_ℤ next_ms (pos 0) || ltb_ℤ remain next_ms then remain else next_ms

-- The timers of a connection pass on the connection with next_ms, or give it up with
-- NETCHAN_ERR.
abbrev pub Serviced : Type 0
Serviced = Conn × Result ℤ

unfoldable pub give_up : Conn → Serviced
give_up c = (record c { state = closed; evq = ev_push c.evq ev_disconnected none }, err err_generic)

unfoldable pub retry_connect : Conn → ℕ → Serviced
retry_connect c now_ms =
    if is_connecting c.state && not c.server
    then (let elapsed = sub32 now_ms c.connect_sent_ms in
        let remain = to_int (sub32 connect_retry_ms elapsed) in
        let next_ms = if ltb_ℤ remain (pos 0) then pos 0 else remain in
        if ltb elapsed connect_retry_ms
        then (c, ok next_ms)
        else if leb connect_retries c.connect_attempts
        then give_up c
        else (
          record (ctrl_connect_init c) {
            connect_sent_ms = now_ms;
            connect_attempts = inc8 c.connect_attempts;
          },
          ok next_ms,
        ))
    else (c, ok idle_result)

unfoldable pub check_idle : Conn → ℕ → ℤ → Serviced
check_idle c now_ms next_ms =
    if is_connected c.state && ltb 0 c.last_recv_ms
    then (let idle = sub32 now_ms c.last_recv_ms in
        if leb c.cfg.idle_timeout_ms idle
        then give_up c
        else (c, ok (sooner next_ms (to_int (sub32 c.cfg.idle_timeout_ms idle)))))
    else (c, ok next_ms)

unfoldable pub keepalive : Env → Conn → ℕ → ℤ → Conn × ℤ
keepalive env c now_ms next_ms =
    if is_connected c.state && ltb 0 c.last_send_ms
    then (let since_send = sub32 now_ms c.last_send_ms in
        if ltb since_send ping_interval_ms
        then (c, sooner next_ms (pos (ping_interval_ms - since_send)))
        else if c.ping_sent_ms == 0
        then (let opaque = random_id env 0 in
            (
              record (ctrl_ping (record c { ping_opaque = opaque }) opaque) {
                ping_sent_ms = now_ms;
              },
              next_ms,
            ))
        else (c, next_ms))
    else (c, next_ms)

-- What the retransmission loops change.
pub record Timer : Type 0 where
  pub chan_pool : ℕ → Chan
  pub evq : EvQueue
  pub next_ms : ℤ

-- The retransmission timeout: `retransmit_ms << (attempts - 1)`, at most a second.
unfoldable pub rt_timeout : ℕ → ℕ → ℕ
rt_timeout retransmit_ms attempts = min (retransmit_ms * 2 ^ (attempts - 1) % u32_mod) max_rt_ms

-- One entry of the channel in slot s. `false` is a `break`: the channel is given up.
unfoldable pub service_slot : ℕ → ℕ → ℕ → ℕ → Timer → Bool × Timer
service_slot retransmit_ms now_ms s j t =
    let ch = t.chan_pool s in
    let o = ch.outgoing j in
    let timeout = rt_timeout retransmit_ms o.attempts in
    let elapsed = sub32 now_ms o.sent_ms in
    if not o.active || o.sent_ms == 0
    then (true, t)
    else if ltb elapsed timeout
    then (true, record t { next_ms = sooner t.next_ms (pos (timeout - elapsed)) })
    else if leb max_rt_attempts o.attempts
    then (
      false,
      record t {
        chan_pool = update t.chan_pool s (record ch { state = chan_closed });
        evq = ev_push t.evq ev_chan_close (some s);
      },
    )
    else (
      true,
      record t {
        chan_pool = update t.chan_pool s (record ch {
          outgoing =
              update ch.outgoing j
                (record o { frag_sent = 0; sent_ms = now_ms; attempts = inc8 o.attempts });
          retransmissions = add32 ch.retransmissions 1;
        });
      },
    )

-- Entry j and the n - 1 after it.
unfoldable pub service_slots : ℕ → ℕ → ℕ → ℕ → ℕ → Timer → Timer
service_slots retransmit_ms now_ms s j zero t = t
service_slots retransmit_ms now_ms s j (suc n) t =
    let (go_on, t') = service_slot retransmit_ms now_ms s j t in
    elim go_on [ true ↦ service_slots retransmit_ms now_ms s (j + 1) n t' | false ↦ t' ]

unfoldable pub service_on : ℕ → ℕ → Option ℕ → Timer → Timer
service_on retransmit_ms now_ms none t = t
service_on retransmit_ms now_ms (some s) t =
    let ch = t.chan_pool s in
    if ch.role == sender && ch.type == reliable
    then service_slots retransmit_ms now_ms s 0 outgoing_slots t
    else t

-- The channels below n, in order.
unfoldable pub retransmit : ℕ → ℕ → (ℕ → Option ℕ) → ℕ → Timer → Timer
retransmit retransmit_ms now_ms channels zero t = t
retransmit retransmit_ms now_ms channels (suc n) t =
    service_on retransmit_ms now_ms (channels n) (retransmit retransmit_ms now_ms channels n t)

unfoldable pub service_channels : Env → Conn → ℕ → ℤ → Serviced
service_channels env c now_ms next_ms =
    let (c', next_ms') = keepalive env c now_ms next_ms in
    let t =
      retransmit c'.cfg.retransmit_ms now_ms c'.channels max_channels
        (record { chan_pool = c'.chan_pool; evq = c'.evq; next_ms = next_ms' }) in
    (record c' { chan_pool = t.chan_pool; evq = t.evq }, ok t.next_ms)

infixl 5 ◌then_timer◌
-- The next timer runs unless the one before gave the connection up.
abbrev pub ◌then_timer◌ : Serviced → (Conn → ℤ → Serviced) → Serviced
(c, ok next_ms) then_timer f = f c next_ms
(c, err e) then_timer f = (c, err e)
(c, trap) then_timer f = (c, trap)

unfoldable pub netchan_service : Env → Conn → ℕ → Serviced
netchan_service env c now_ms =
    retry_connect c now_ms
    then_timer (λ c₁ next₁. check_idle c₁ now_ms next₁)
    then_timer (λ c₂ next₂. service_channels env c₂ now_ms next₂)
