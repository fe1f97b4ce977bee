-- ===== src/Safety/Timers.antt =====
-- The timers of netchan_service keep the storage of a connection sound.
use netchan.Base.{
  ltb, leb, ◌==◌, Bool-cases, ℕ, zero, suc, ◌+◌, ◌≤◌, ◌<◌, ◌≡◌, refl, inl, inr, Bool, true, not,
  ◌&&◌, ◌||◌, Option, none, some, arith, update, ℤ, sub32,
}
use netchan.Channel.Ownership.{Held}
use netchan.Connection.{random_id}
use netchan.Ctrl.{ctrl_connect_init, ctrl_ping}
use netchan.Safety.{StoreInv, ConnInv, put_chan-StoreInv}
use netchan.Safety.Frames.{ctrl_reserve-ConnInv, fields-Held}
use netchan.Send.Ownership.{same_entry-Held}
use netchan.Service.{
  Serviced, give_up, retry_connect, check_idle, keepalive, Timer, rt_timeout, service_slot,
  service_slots, service_on, retransmit, service_channels, ◌then_timer◌, netchan_service,
}
use netchan.Types.{
  max_chan, max_rt_attempts, connect_retry_ms, connect_retries, ping_interval_ms, reliable, sender,
  chan_closed, ok, err, trap, is_connecting, is_connected, Chan, Pool, Conn, Env,
}

-- A retransmission, and giving a channel up, are none of its holdings.
retry-Held :
    (b n : ℕ) (ch : Chan) (p : Pool) (j sent_ms attempts retransmissions : ℕ)
    → j < 64
    → Held b n ch p
    → Held b n
        (record ch {
          outgoing =
              update ch.outgoing j
                (record (ch.outgoing j) { frag_sent = 0; sent_ms = sent_ms; attempts = attempts });
          retransmissions = retransmissions;
        })
        p
retry-Held b n ch p j sent_ms attempts retransmissions h v =
    let w =
      same_entry-Held ch p j
        (record (ch.outgoing j) { frag_sent = 0; sent_ms = sent_ms; attempts = attempts }) h refl
        refl v in
    record {
      inv = record {
        out_head_lt = w.inv.out_head_lt;
        out_tail_lt = w.inv.out_tail_lt;
        rq_head_lt = w.inv.rq_head_lt;
        rq_tail_lt = w.inv.rq_tail_lt;
        out_used = w.inv.out_used;
        out_window = w.inv.out_window;
        rq_used = w.inv.rq_used;
        reorder_used = w.inv.reorder_used;
        frag_used = w.inv.frag_used;
      };
      total = w.total;
    }

-- The channels during the loops, over a pool that they do not touch.
abbrev TimerInv : Pool → (ℕ → Option ℕ) → (ℕ → Bool) → Timer → Type 0
TimerInv p table used t = StoreInv t.chan_pool p table used

module _ {p : Pool} {table : ℕ → Option ℕ} {used : ℕ → Bool} (retransmit_ms now_ms : ℕ) where
  service_slot-TimerInv :
      (s j : ℕ) (t : Timer)
      → j < 64
      → (s < max_chan) × (used s ≡ true)
      → TimerInv p table used t
      → TimerInv p table used (service_slot retransmit_ms now_ms s j t).1
  unfolding service_slot
  service_slot-TimerInv s j t h live v =
      let ch = t.chan_pool s in
      let o = ch.outgoing j in
      elim (Bool-cases (not o.active || o.sent_ms == 0)) [
        | inl idle ↦ rw idle v
        | inr waits ↦
            elim (Bool-cases (ltb (sub32 now_ms o.sent_ms) (rt_timeout retransmit_ms o.attempts))) [
              | inl early ↦ rw (waits, early) v
              | inr late ↦ elim (Bool-cases (leb max_rt_attempts o.attempts)) [
                | inl dead ↦
                    rw (waits, late, dead)
                      (put_chan-StoreInv s _ p live.0 live.1
                        (λ b n w. fields-Held b n ch p chan_closed ch.send_window w) v)
                | inr again ↦
                    rw (waits, late, again)
                      (put_chan-StoreInv s _ p live.0 live.1
                        (λ b n w. retry-Held b n ch p j now_ms _ _ h w) v)
              ]
            ]
      ]

  service_slots-TimerInv :
      (s j n : ℕ) (t : Timer)
      → j + n ≤ 64
      → (s < max_chan) × (used s ≡ true)
      → TimerInv p table used t
      → TimerInv p table used (service_slots retransmit_ms now_ms s j n t)
  unfolding service_slots
  service_slots-TimerInv s j zero t h live v = v
  service_slots-TimerInv s j (suc n) t h live v =
      elim (Bool-cases (service_slot retransmit_ms now_ms s j t).0) [
        | inl more ↦
            rw (more, service_slots)
              (service_slots-TimerInv s (j + 1) n _ (omega arith) live
                (service_slot-TimerInv s j t (omega arith) live v))
        | inr stop ↦ rw (stop, service_slots) (service_slot-TimerInv s j t (omega arith) live v)
      ]

  service_on-TimerInv :
      (id : ℕ) (slot : Option ℕ) (t : Timer)
      → table id ≡ slot
      → TimerInv p table used t
      → TimerInv p table used (service_on retransmit_ms now_ms slot t)
  unfolding service_on
  service_on-TimerInv id none t e v = v
  service_on-TimerInv id (some s) t e v =
      elim (Bool-cases ((t.chan_pool s).role == sender && (t.chan_pool s).type == reliable)) [
        | inl ours ↦ rw ours (service_slots-TimerInv s 0 64 t (omega arith) (v.named id s e) v)
        | inr other ↦ rw other v
      ]

pub retransmit-TimerInv :
    {p : Pool} {used : ℕ → Bool} (retransmit_ms now_ms : ℕ) (table : ℕ → Option ℕ) (n : ℕ)
    (t : Timer)
    → TimerInv p table used t
    → TimerInv p table used (retransmit retransmit_ms now_ms table n t)
unfolding retransmit
retransmit-TimerInv retransmit_ms now_ms table zero t v = v
retransmit-TimerInv retransmit_ms now_ms table (suc n) t v =
    service_on-TimerInv retransmit_ms now_ms n (table n) _ refl
      (retransmit-TimerInv retransmit_ms now_ms table n t v)

-- What a timer passes on keeps what its connection had.
then_timer-ConnInv :
    (r : Serviced) (f : Conn → ℤ → Serviced)
    → ConnInv r.0
    → ((c : Conn) (t : ℤ) → ConnInv c → ConnInv (f c t).0)
    → ConnInv (r then_timer f).0
then_timer-ConnInv (c, ok t) f v keeps = keeps c t v
then_timer-ConnInv (c, err e) f v keeps = v
then_timer-ConnInv (c, trap) f v keeps = v

retry_connect-ConnInv : (c : Conn) (now_ms : ℕ) → ConnInv c → ConnInv (retry_connect c now_ms).0
unfolding retry_connect ctrl_connect_init give_up
retry_connect-ConnInv c now_ms v = elim (Bool-cases (is_connecting c.state && not c.server)) [
  | inr e₁ ↦ rw e₁ v
  | inl e₁ ↦ elim (Bool-cases (ltb (sub32 now_ms c.connect_sent_ms) connect_retry_ms)) [
    | inl e₂ ↦ rw (e₁, e₂) v
    | inr e₂ ↦ elim (Bool-cases (leb connect_retries c.connect_attempts)) [
      | inl e₃ ↦ rw (e₁, e₂, e₃) v
      | inr e₃ ↦ rw (e₁, e₂, e₃) (ctrl_reserve-ConnInv c _ v)
    ]
  ]
]

check_idle-ConnInv : (c : Conn) (now_ms : ℕ) (t : ℤ) → ConnInv c → ConnInv (check_idle c now_ms t).0
unfolding check_idle give_up
check_idle-ConnInv c now_ms t v = elim (Bool-cases (is_connected c.state && ltb 0 c.last_recv_ms)) [
  | inr e₁ ↦ rw e₁ v
  | inl e₁ ↦ elim (Bool-cases (leb c.cfg.idle_timeout_ms (sub32 now_ms c.last_recv_ms))) [
    | inl e₂ ↦ rw (e₁, e₂) v
    | inr e₂ ↦ rw (e₁, e₂) v
  ]
]

keepalive-ConnInv :
    (env : Env) (c : Conn) (now_ms : ℕ) (t : ℤ) → ConnInv c → ConnInv (keepalive env c now_ms t).0
unfolding keepalive ctrl_ping
keepalive-ConnInv env c now_ms t v =
    elim (Bool-cases (is_connected c.state && ltb 0 c.last_send_ms)) [
      | inr e₁ ↦ rw e₁ v
      | inl e₁ ↦ elim (Bool-cases (ltb (sub32 now_ms c.last_send_ms) ping_interval_ms)) [
        | inl e₂ ↦ rw (e₁, e₂) v
        | inr e₂ ↦ elim (Bool-cases (c.ping_sent_ms == 0)) [
          | inl e₃ ↦
              rw (e₁, e₂, e₃)
                (ctrl_reserve-ConnInv (record c { ping_opaque = random_id env 0 }) _ v)
          | inr e₃ ↦ rw (e₁, e₂, e₃) v
        ]
      ]
    ]

pub netchan_service-ConnInv :
    (env : Env) (c : Conn) (now_ms : ℕ) → ConnInv c → ConnInv (netchan_service env c now_ms).0
unfolding netchan_service service_channels
netchan_service-ConnInv env c now_ms v =
    then_timer-ConnInv _ _
      (then_timer-ConnInv (retry_connect c now_ms) _ (retry_connect-ConnInv c now_ms v)
        (λ c₁ t₁ v₁. check_idle-ConnInv c₁ now_ms t₁ v₁))
      (λ c₂ t₂ v₂. retransmit-TimerInv _ now_ms _ 256 _ (keepalive-ConnInv env c₂ now_ms t₂ v₂))
