-- ===== src/Microchan/Timeout.antt =====
-- A connection of microchan/src/microchan.c that is never answered comes to its end.
use netchan.Base.{
  ltb, leb, Bool-cases, ℕ, suc, ◌+◌, ◌≤◌, ◌<◌, ◌≡◌, refl, ap, inl, inr, true, false, Option, none,
  arith, inc16,
}
use netchan.Microchan.{ev_push}
use netchan.Microchan.Send.{service_connecting, mc_service}
use netchan.Microchan.Types.{
  mc_connect_retries, mc_eventq, McState, state_closed, state_connecting, state_connected,
  state_closing, is_closed, is_opening, McEvType, mc_ev_disconnected, Microchan,
}

-- So many calls of mc_service, each when the timer of the handshake has run out, and no packet between.
pub data Unanswered (c : Microchan) : ℕ → Microchan → Type 0 where
  asked : Unanswered c 0 c
  asked_again :
      {n : ℕ} {d : Microchan} (now_ms : ℕ)
      → Unanswered c n d
      → d.connect_timer ≤ now_ms
      → Unanswered c (suc n) (mc_service d now_ms).1

ev_push-state : (c : Microchan) (t : McEvType) (o : Option ℕ) → (ev_push c t o).state ≡ c.state
unfolding ev_push
ev_push-state c t o = elim (Bool-cases (leb mc_eventq c.ev_count)) [
  | inl full ↦ rw full refl
  | inr room ↦ rw room refl
]

retry_again :
    (c : Microchan) (now_ms : ℕ)
    → is_opening c.state ≡ true
    → c.connect_timer ≤ now_ms
    → c.connect_attempts < 240
    → let d = (mc_service c now_ms).1 in
      (is_opening d.state ≡ true) × (d.connect_attempts ≡ c.connect_attempts + 1)
unfolding mc_service service_connecting
retry_again c now_ms opening due few =
    let over : leb c.connect_timer now_ms ≡ true = ground arith in
    let more : ltb mc_connect_retries (inc16 c.connect_attempts) ≡ false = ground arith in
    rw (opening, over, more) (opening, omega arith)

retry_last :
    (c : Microchan) (now_ms : ℕ)
    → is_opening c.state ≡ true
    → c.connect_timer ≤ now_ms
    → c.connect_attempts ≡ 240
    → ((mc_service c now_ms).0 ≡ none) × (is_closed (mc_service c now_ms).1.state ≡ true)
unfolding mc_service service_connecting
retry_last c now_ms opening due last =
    let over : leb c.connect_timer now_ms ≡ true = ground arith in
    let dead : ltb mc_connect_retries (inc16 c.connect_attempts) ≡ true = ground arith in
    rw (opening, over, dead)
      (refl, ap (λ (s : McState). is_closed s) (ev_push-state _ mc_ev_disconnected none))

still_asking :
    {c d : Microchan} (n : ℕ)
    → is_opening c.state ≡ true
    → c.connect_attempts ≡ 0
    → n ≤ 240
    → Unanswered c n d
    → (is_opening d.state ≡ true) × (d.connect_attempts ≡ n)
still_asking n opening fresh h asked = (opening, fresh)
still_asking (suc n) opening fresh h (asked_again {d = d} now_ms u due) =
    let before = still_asking n opening fresh (omega arith) u in
    let after = retry_again d now_ms before.0 due (omega (arith, before.1)) in
    (after.0, omega (arith, after.1, before.1))

closed_at_last :
    {c d : Microchan} (n : ℕ)
    → is_opening c.state ≡ true
    → c.connect_attempts ≡ 0
    → Unanswered c n d
    → n ≡ 241
    → is_closed d.state ≡ true
closed_at_last n opening fresh asked e = absurd (omega arith)
closed_at_last (suc n) opening fresh (asked_again {d = d} now_ms u due) e =
    let before = still_asking n opening fresh (omega arith) u in
    (retry_last d now_ms before.0 due (omega (arith, before.1))).1

opening_not_closed : (s : McState) → is_opening s ≡ true → is_closed s ≡ false
opening_not_closed state_closed h = cc
opening_not_closed state_connecting h = refl
opening_not_closed state_connected h = cc
opening_not_closed state_closing h = cc

closed_not_opening : (s : McState) → is_closed s ≡ true → is_opening s ≡ false
closed_not_opening state_closed h = refl
closed_not_opening state_connecting h = cc
closed_not_opening state_connected h = cc
closed_not_opening state_closing h = cc

-- A connection attempt that is never answered goes on for 240 retries and is closed by the next: it is
-- connecting after n calls up to 240, and closed after 241, whatever the times of the calls, if each
-- comes when the timer has run out.
pub mc_service_gives_up :
    {c d : Microchan} (n : ℕ)
    → is_opening c.state ≡ true
    → c.connect_attempts ≡ 0
    → n ≤ 241
    → Unanswered c n d
    → (is_opening d.state ≡ leb n 240) × (is_closed d.state ≡ ltb 240 n)
mc_service_gives_up {d = d} n opening fresh h u = elim (Bool-cases (leb n 240)) [
  | inl early ↦
      let asks = (still_asking n opening fresh (ground arith) u).0 in
      let no : ltb 240 n ≡ false = ground arith in
      rw (early, no) (asks, opening_not_closed d.state asks)
  | inr late ↦
      let ends = closed_at_last n opening fresh u (ground arith) in
      let yes : ltb 240 n ≡ true = ground arith in
      rw (late, yes) (closed_not_opening d.state ends, ends)
]
