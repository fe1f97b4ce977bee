-- ===== src/Microchan/Timers.antt =====
-- mc_service of microchan/src/microchan.c: what it keeps, and its intervals.
use netchan.Base.{
  ltb, leb, ◌==◌, if◌then◌else◌, Bool-cases, ℕ, zero, suc, ◌≤◌, ◌≡◌, refl, ap, inl, inr, false, not,
  ◌&&◌, none, arith, List, inc16, sub32,
}
use netchan.Microchan.Control.{SameData, SameData-refl, ev_push-SameData}
use netchan.Microchan.Delivery.{Receives, Receives-same}
use netchan.Microchan.Log.{Message}
use netchan.Microchan.Send.{
  backoff, service_connecting, retransmit_all, keep_alive, service_connected, mc_service,
}
use netchan.Microchan.Types.{
  rt_ms, rt_attempts, mc_connect_retries, keepalive_ms, idle_ms, is_opening, is_up,
  mc_ev_disconnected, McChan, Microchan,
}
use netchan.Microchan.Window.{Sends, Sends-same}

-- What is kept by changes of control data and by resending the whole window is kept by mc_service.
module _ (P : Microchan → Type 0) (still : (c d : Microchan) → SameData c d → P c → P d)
    (resend : (c : Microchan) → P c → P (record c { tx_unsent = c.tx_base })) where
  service_connecting-keeps : (c : Microchan) → P c → P (service_connecting c).1
  unfolding service_connecting SameData
  service_connecting-keeps c h = elim (Bool-cases (leb c.connect_timer c.now)) [
    | inr early ↦ rw early h
    | inl due ↦ elim (Bool-cases (ltb mc_connect_retries (inc16 c.connect_attempts))) [
      | inl dead ↦ rw (due, dead) (still c _ (ev_push-SameData _ mc_ev_disconnected none) h)
      | inr again ↦ rw (due, again) (still c _ (SameData-refl c) h)
    ]
  ]

  keep_alive-keeps : (c : Microchan) → P c → P (keep_alive c).1
  unfolding keep_alive SameData
  keep_alive-keeps c h = elim (Bool-cases (ltb keepalive_ms (sub32 c.now c.last_send))) [
    | inl quiet ↦ rw quiet (still c _ (SameData-refl c) h)
    | inr busy ↦ rw busy h
  ]

  retransmit_all-keeps : (c : Microchan) (attempts : ℕ) → P c → P (retransmit_all c attempts)
  unfolding retransmit_all SameData
  retransmit_all-keeps c attempts h =
      let c' = record c { tx_unsent = c.tx_base } in still c' _ (SameData-refl c') (resend c h)

  service_connected-keeps : (c : Microchan) → P c → P (service_connected c).1
  unfolding service_connected SameData
  service_connected-keeps c h = elim (Bool-cases (ltb idle_ms (sub32 c.now c.last_recv))) [
    | inl idle ↦ rw idle (still c _ (ev_push-SameData _ mc_ev_disconnected none) h)
    | inr heard ↦
        elim (Bool-cases
          (not (c.tx_base == c.tx_next) && (not (c.tx_timer == 0) && leb c.tx_timer c.now))) [
            | inr calm ↦ rw (heard, calm) (keep_alive-keeps c h)
            | inl due ↦ elim (Bool-cases (ltb rt_attempts (inc16 c.tx_attempts))) [
              | inl dead ↦
                  rw (heard, due, dead) (still c _ (ev_push-SameData _ mc_ev_disconnected none) h)
              | inr again ↦
                  rw (heard, due, again)
                    (keep_alive-keeps _ (retransmit_all-keeps c (inc16 c.tx_attempts) h))
            ]
          ]
  ]

  pub mc_service-keeps : (c : Microchan) (now_ms : ℕ) → P c → P (mc_service c now_ms).1
  unfolding mc_service SameData
  mc_service-keeps c now_ms h =
      let c' = record c { now = now_ms } in
      let h' = still c c' (SameData-refl c) h in
      elim (Bool-cases (is_opening c.state)) [
        | inl opening ↦ rw opening (service_connecting-keeps c' h')
        | inr other ↦ elim (Bool-cases (is_up c.state)) [
          | inl up ↦ rw (other, up) (service_connected-keeps c' h')
          | inr down ↦ rw (other, down) h'
        ]
      ]

-- A sender may be serviced at any time.
pub mc_service-Sends :
    (k : ℕ) (log : List Message) (c : Microchan) (now_ms : ℕ)
    → Sends k log c
    → Sends k log (mc_service c now_ms).1
mc_service-Sends k log c now_ms =
    mc_service-keeps (Sends k log) (Sends-same k log)
      (λ d v. (
        v.0,
        record {
          all = v.1.all;
          base_le = omega arith;
          unsent_le = omega (arith, v.1.base_le, v.1.unsent_le);
          room = v.1.room;
          slots = v.1.slots;
        },
        v.2,
      ))
      c now_ms

-- So may a receiver.
pub mc_service-Receives :
    (k : ℕ) (log : List Message) (got : List (List ℕ)) (c : Microchan) (now_ms : ℕ)
    → Receives k log got c
    → Receives k log got (mc_service c now_ms).1
unfolding SameData
mc_service-Receives k log got c now_ms =
    mc_service-keeps (Receives k log got)
      (λ x y e. Receives-same k log got x y (ap (λ (f : ℕ → McChan). f k) e.0) e.1) (λ d v. v) c
      now_ms

backoff_table :
    (n : ℕ)
    → backoff n ≡ (if n == 0 then 120 else if n == 1 then 240 else if n == 2 then 480 else 960)
unfolding backoff
backoff_table zero = refl
backoff_table (suc zero) = refl
backoff_table (suc (suc zero)) = refl
backoff_table (suc (suc (suc zero))) = refl
backoff_table (suc (suc (suc (suc n)))) =
    let big : ltb (suc (suc (suc (suc n)))) 4 ≡ false = ground arith in rw big (ground arith)

-- The retransmission interval is between 120 ms and 960 ms, and does not fall while attempts fail.
pub backoff-bounds :
    (m n : ℕ) → m ≤ n → (rt_ms ≤ backoff m) × (backoff m ≤ backoff n) × (backoff n ≤ 960)
backoff-bounds m n h = ground (arith, backoff_table m, backoff_table n)
