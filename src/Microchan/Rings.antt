-- ===== src/Microchan/Rings.antt =====
-- The two rings of eight of microchan/src/microchan.c, a channel's rxq and the events, as queues.
use mathlib.Core.Path.{ap₂}
use native.Mathlib.Nat.{add-zero, mod-eq_of_lt}
use netchan.Base.{
  ltb, leb, ◌==◌, if◌then◌else◌, Bool-cases, ℕ, zero, suc, ◌+◌, ◌-◌, ◌%◌, ◌≤◌, ◌<◌, ◌≡◌, refl, ap,
  ◌∙◌, ◌⊎◌, inl, inr, true, false, Option, arith, update, length, take, take_all, List, [], ◌∷◌,
  ◌++◌, inc8,
}
use netchan.Microchan.{ev_push, rxq_push, rxq_full, read_msg}
use netchan.Microchan.Types.{
  mc_recvq, mc_maxmsg, McEvType, McError, mc_err_toobig, McEvent, McChan, Microchan, no_mc_event,
}

module _ {ℓ} {A : Type ℓ} where
  -- The n entries of a ring from i on.
  unfoldable pub ring8 : (ℕ → A) → ℕ → ℕ → List A
  ring8 f i zero = []
  ring8 f i (suc n) = f i ∷ ring8 f ((i + 1) % 8) n

  pub length-ring8 : (f : ℕ → A) (i n : ℕ) → length (ring8 f i n) ≡ n
  unfolding ring8
  length-ring8 f i zero = refl
  length-ring8 f i (suc n) = ap suc (length-ring8 f ((i + 1) % 8) n)

  -- A write at t is not among the n entries from i on, if t is at least n places ahead.
  ring8-update :
      (f : ℕ → A) (t : ℕ) (e : A) (i n : ℕ)
      → i < 8
      → t < 8
      → n ≤ (t + 8 - i) % 8
      → ring8 (update f t e) i n ≡ ring8 f i n
  unfolding ring8
  ring8-update f t e i zero h k l = refl
  ring8-update f t e i (suc n) h k l =
      ap₂ ◌∷◌ (ground arith) (ring8-update f t e ((i + 1) % 8) n (omega arith) k (omega arith))

  ring8-suc :
      (f : ℕ → A) (i n : ℕ) → i < 8 → ring8 f i (suc n) ≡ ring8 f i n ++ (f ((i + n) % 8) ∷ [])
  unfolding ring8
  ring8-suc f i zero h = rw (add-zero i, mod-eq_of_lt h)
  ring8-suc f i (suc n) h = ap (◌∷◌ (f i)) (
      ring8-suc f ((i + 1) % 8) n (omega arith)
      ∙ ap (λ (j : ℕ). ring8 f ((i + 1) % 8) n ++ (f j ∷ [])) (omega arith))

  -- The entry behind the n from i on.
  pub ring8-push :
      (f : ℕ → A) (e : A) (i n : ℕ)
      → i < 8
      → n < 8
      → ring8 (update f ((i + n) % 8) e) i (suc n) ≡ ring8 f i n ++ (e ∷ [])
  ring8-push f e i n h k =
      ring8-suc (update f ((i + n) % 8) e) i n h
      ∙ ap₂ (λ (l : List A) (x : A). l ++ (x ∷ []))
          (ring8-update f ((i + n) % 8) e i n h (omega arith) (omega arith)) (ground arith)

  -- A queue of at most eight.
  unfoldable pub enqueue8 : List A → A → List A
  enqueue8 l e = if ltb (length l) 8 then l ++ (e ∷ []) else l

  pub ring8-enqueue :
      (f : ℕ → A) (e : A) (i n : ℕ)
      → i < 8
      → n ≤ 8
      → ring8 (if leb 8 n then f else update f ((i + n) % 8) e) i (if leb 8 n then n else inc8 n)
        ≡ enqueue8 (ring8 f i n) e
  unfolding enqueue8
  ring8-enqueue f e i n h k = rw (length-ring8 f i n) (elim (Bool-cases (leb 8 n)) [
    | inl full ↦ let no : ltb n 8 ≡ false = ground arith in rw (full, no) refl
    | inr room ↦
        let yes : ltb n 8 ≡ true = ground arith in
        let more : inc8 n ≡ suc n = omega (arith, k) in
        rw (room, yes)
          (ap (ring8 (update f ((i + n) % 8) e) i) more ∙ ring8-push f e i n h (ground arith))
  ])

-- The messages of a channel that wait, oldest first.
unfoldable pub inbox8 : McChan → List (List ℕ)
inbox8 ch = ring8 ch.rxq ch.rx_head ch.rx_count

-- The ring's indices are in range.
pub record InRing8 (head size : ℕ) : Type 0 where
  pub head_lt : head < 8
  pub count_le : size ≤ 8

pub rxq_push-InRing8 :
    (ch : McChan) (bytes : List ℕ)
    → InRing8 ch.rx_head ch.rx_count
    → InRing8 (rxq_push ch bytes).rx_head (rxq_push ch bytes).rx_count
unfolding rxq_push
rxq_push-InRing8 ch bytes v = ground (arith, v.head_lt, v.count_le)

-- A message that arrives goes behind the others, cut to 532 bytes, or nowhere if eight wait.
pub inbox8-rxq_push :
    (ch : McChan) (bytes : List ℕ)
    → InRing8 ch.rx_head ch.rx_count
    → inbox8 (rxq_push ch bytes) ≡ enqueue8 (inbox8 ch) (take mc_maxmsg bytes)
unfolding rxq_push inbox8 enqueue8
inbox8-rxq_push ch bytes v =
    let pushed =
      ring8-enqueue ch.rxq (take mc_maxmsg bytes) ch.rx_head ch.rx_count v.head_lt v.count_le in
    elim (Bool-cases (leb 8 ch.rx_count)) [
      | inl full ↦ rw full (rw full at pushed)
      | inr room ↦ rw room (rw room at pushed)
    ]

pub rxq_push-used : (ch : McChan) (bytes : List ℕ) → (rxq_push ch bytes).used ≡ ch.used
unfolding rxq_push
rxq_push-used ch bytes = elim (Bool-cases (leb mc_recvq ch.rx_count)) [
  | inl full ↦ rw full refl
  | inr room ↦ rw room refl
]

pub inbox8-rxq_push_room :
    (ch : McChan) (bytes : List ℕ)
    → InRing8 ch.rx_head ch.rx_count
    → rxq_full ch ≡ false
    → length bytes ≤ mc_maxmsg
    → inbox8 (rxq_push ch bytes) ≡ inbox8 ch ++ (bytes ∷ [])
unfolding rxq_full enqueue8 inbox8
inbox8-rxq_push_room ch bytes v room fits =
    let yes : ltb (length (ring8 ch.rxq ch.rx_head ch.rx_count)) 8 ≡ true =
      ground (arith, length-ring8 ch.rxq ch.rx_head ch.rx_count) in
    inbox8-rxq_push ch bytes v ∙ rw (yes, take_all mc_maxmsg bytes fits) refl

-- What reading a queue of messages with a buffer of buflen bytes yields, and what is left of it.
unfoldable pub dequeue8 : List (List ℕ) → ℕ → (McError ⊎ List ℕ) × List (List ℕ)
dequeue8 [] buflen = (inr [], [])
dequeue8 (m ∷ l) buflen = if ltb buflen (length m) then (inl mc_err_toobig, m ∷ l) else (inr m, l)

-- The message at the head is the oldest that waits.
pub inbox8-oldest :
    (ch : McChan)
    → (ch.rx_count == 0) ≡ false
    → ring8 ch.rxq ch.rx_head ch.rx_count
      ≡ ch.rxq ch.rx_head ∷ ring8 ch.rxq ((ch.rx_head + 1) % 8) (ch.rx_count - 1)
unfolding ring8
inbox8-oldest ch more = ap (ring8 ch.rxq ch.rx_head) {y = suc (ch.rx_count - 1)} (ground arith)

-- If the ring's indices are in range, reading is dequeueing: the oldest message goes, whole; one longer
-- than the buffer stays, with an error; and an empty queue yields no bytes. The indices stay in range.
pub inbox8-read_msg :
    (ch : McChan) (buflen : ℕ)
    → InRing8 ch.rx_head ch.rx_count
    → let (reply, ch') = read_msg ch buflen in
      ((reply, inbox8 ch') ≡ dequeue8 (inbox8 ch) buflen) × InRing8 ch'.rx_head ch'.rx_count
unfolding read_msg inbox8 ring8 dequeue8
inbox8-read_msg ch buflen v = elim (Bool-cases (ch.rx_count == 0)) [
  | inl empty ↦
      let none_wait : ring8 ch.rxq ch.rx_head ch.rx_count ≡ [] =
        ap (ring8 ch.rxq ch.rx_head) {y = 0} (ground arith) in
      rw (empty, none_wait) (refl, v)
  | inr more ↦
      let oldest = inbox8-oldest ch more in
      elim (Bool-cases (ltb buflen (length (ch.rxq ch.rx_head)))) [
        | inl big ↦ rw (more, big, oldest, big) (refl, v)
        | inr fits ↦
            rw (more, fits, oldest, fits)
              (refl, record { head_lt = omega arith; count_le = omega (arith, v.count_le) })
      ]
]

-- The events that wait, oldest first.
unfoldable pub waiting : Microchan → List McEvent
waiting c = ring8 c.evq c.ev_head c.ev_count

-- The queue of events drops what does not fit and yields the oldest, if its indices are in range.
pub waiting-ev_push :
    (c : Microchan) (type : McEvType) (ch : Option ℕ)
    → InRing8 c.ev_head c.ev_count
    → waiting (ev_push c type ch)
      ≡ enqueue8 (waiting c) (record no_mc_event { type = type; ch = ch })
unfolding ev_push waiting enqueue8
waiting-ev_push c type ch v =
    let e = record no_mc_event { type = type; ch = ch } in
    let pushed = ring8-enqueue c.evq e c.ev_head c.ev_count v.head_lt v.count_le in
    elim (Bool-cases (leb 8 c.ev_count)) [
      | inl full ↦ rw full (rw full at pushed)
      | inr room ↦ rw room (rw room at pushed)
    ]
