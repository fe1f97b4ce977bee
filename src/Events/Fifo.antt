-- ===== src/Events/Fifo.antt =====
-- The event ring of src/netchan.c against a queue of at most 15 events: a push goes to the end, or
-- is dropped when 15 wait, and a poll takes the oldest.
use mathlib.Core.Path.{ap₂}
use native.Mathlib.Nat.{add-zero, mod-eq_of_lt}
use netchan.Base.{
  ltb, ◌==◌, if◌then◌else◌, Bool-cases, ℕ, zero, suc, ◌+◌, ◌-◌, ◌%◌, ◌≤◌, ◌<◌, ◌≡◌, refl, ap, ◌∙◌,
  ◌≢◌, inl, inr, true, Option, none, some, arith, update, length, List, [], ◌∷◌, ◌++◌,
}
use netchan.Events.{push_event, netchan_poll}
use netchan.Types.{Event, EvQueue}

unfoldable pub entries : (ℕ → Event) → ℕ → ℕ → List Event
entries f i zero = []
entries f i (suc n) = f i ∷ entries f ((i + 1) % 16) n

abbrev pub queued : EvQueue → ℕ
queued q = (q.ev_tail + 16 - q.ev_head) % 16

-- The events that wait, oldest first.
unfoldable pub to_list : EvQueue → List Event
to_list q = entries q.events q.ev_head (queued q)

pub record InRing (q : EvQueue) : Type 0 where
  pub head_lt : q.ev_head < 16
  pub tail_lt : q.ev_tail < 16

-- A queue of at most 15 events, as a list.
unfoldable pub enqueue : List Event → Event → List Event
enqueue l e = if ltb (length l) 15 then l ++ (e ∷ []) else l

unfoldable pub dequeue : List Event → Option Event × List Event
dequeue [] = (none, [])
dequeue (e ∷ l) = (some e, l)

length-entries : (f : ℕ → Event) (i n : ℕ) → length (entries f i n) ≡ n
unfolding entries
length-entries f i zero = refl
length-entries f i (suc n) = ap suc (length-entries f ((i + 1) % 16) n)

-- A write at t is not among the n entries from i on, if t is at least n places ahead.
entries-update :
    (f : ℕ → Event) (t : ℕ) (e : Event) (i n : ℕ)
    → i < 16
    → t < 16
    → n ≤ (t + 16 - i) % 16
    → entries (update f t e) i n ≡ entries f i n
unfolding entries
entries-update f t e i zero h k l = refl
entries-update f t e i (suc n) h k l =
    ap₂ ◌∷◌ (ground arith) (entries-update f t e ((i + 1) % 16) n (omega arith) k (omega arith))

entries-suc :
    (f : ℕ → Event) (i n : ℕ)
    → i < 16
    → entries f i (suc n) ≡ entries f i n ++ (f ((i + n) % 16) ∷ [])
unfolding entries
entries-suc f i zero h = rw (add-zero i, mod-eq_of_lt h)
entries-suc f i (suc n) h = ap (◌∷◌ (f i)) (
    entries-suc f ((i + 1) % 16) n (omega arith)
    ∙ ap (λ (j : ℕ). entries f ((i + 1) % 16) n ++ (f j ∷ [])) (omega arith))

push_event-InRing : (q : EvQueue) (e : Event) → InRing q → InRing (push_event q e)
unfolding push_event
push_event-InRing q e v = ground arith

netchan_poll-InRing : (q : EvQueue) → InRing q → InRing (netchan_poll q).1
unfolding netchan_poll
netchan_poll-InRing q v = ground arith

length-to_list : (q : EvQueue) → length (to_list q) ≡ queued q
unfolding to_list
length-to_list q = length-entries q.events q.ev_head (queued q)

-- Entry t, just behind the n from i on, joins them.
entries-push :
    (f : ℕ → Event) (t : ℕ) (e : Event) (i : ℕ)
    → i < 16
    → t < 16
    → entries (update f t e) i (suc ((t + 16 - i) % 16))
      ≡ entries f i ((t + 16 - i) % 16) ++ (e ∷ [])
entries-push f t e i h k =
    let n = (t + 16 - i) % 16 in
    entries-suc (update f t e) i n h
    ∙ ap₂ (λ (l : List Event) (x : Event). l ++ (x ∷ []))
        (entries-update f t e i n h k (omega arith)) (ground arith)

to_list-pushed :
    (q : EvQueue) (e : Event)
    → InRing q
    → (q.ev_tail + 1) % 16 ≢ q.ev_head
    → to_list (record q { events = update q.events q.ev_tail e; ev_tail = (q.ev_tail + 1) % 16 })
      ≡ to_list q ++ (e ∷ [])
unfolding to_list
to_list-pushed q e v room =
    ap (entries (update q.events q.ev_tail e) q.ev_head) (ground (arith, v.head_lt, v.tail_lt))
    ∙ entries-push q.events q.ev_tail e q.ev_head v.head_lt v.tail_lt

-- If the ring's indices are in range, pushing an event onto it is enqueueing it: at the end, or nowhere
-- if 15 events wait.
pub to_list-push_event :
    (q : EvQueue) (e : Event) → InRing q → to_list (push_event q e) ≡ enqueue (to_list q) e
unfolding push_event enqueue
to_list-push_event q e v = elim (Bool-cases ((q.ev_tail + 1) % 16 == q.ev_head)) [
  | inl full ↦ rw (full, length-to_list q) (ground (arith, v.head_lt, v.tail_lt))
  | inr room ↦
      let few : ltb (queued q) 15 ≡ true = ground (arith, v.head_lt, v.tail_lt) in
      rw (room, length-to_list q, few) (to_list-pushed q e v (ground arith))
]

-- If the ring's indices are in range, polling it is dequeueing: the oldest event goes, or none of an
-- empty queue.
pub to_list-netchan_poll :
    (q : EvQueue)
    → InRing q
    → ((netchan_poll q).0 ≡ (dequeue (to_list q)).0)
      × (to_list (netchan_poll q).1 ≡ (dequeue (to_list q)).1)
unfolding netchan_poll to_list dequeue entries
to_list-netchan_poll q v = elim (Bool-cases (q.ev_head == q.ev_tail)) [
  | inl empty ↦
      let e : queued q ≡ 0 = ground (arith, v.head_lt, v.tail_lt) in rw (empty, e) (refl, refl)
  | inr more ↦
      let e : queued q ≡ suc ((q.ev_tail + 16 - (q.ev_head + 1) % 16) % 16) =
        ground (arith, v.head_lt, v.tail_lt) in
      rw (more, e) (refl, refl)
]
