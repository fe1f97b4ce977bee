-- ===== src/Data/Order.antt =====
-- What process_data of src/netchan.c does with a reliable message, next in order or not.
use mathlib.Core.Path.{ap₂}
use netchan.Base.{
  ltb, leb, ◌==◌, if◌then◌else◌, lt→ltb, eq_self, Bool-cases, if_cases, ℕ, suc, ◌+◌, ◌%◌, ◌≤◌, ◌≡◌,
  refl, sym, ap, ◌∙◌, ◌≢◌, inl, inr, true, false, not, ◌&&◌, Option, none, some, arith, length,
  count, List, [], ◌∷◌, ◌++◌, inc16, sub16,
}
use netchan.BufferPool.{pool_get, pool_write}
use netchan.BufferPool.Laws.{holds, count-pool_get, pool_get-store}
use netchan.Data.{fill_slot, hold_back, next_message, accept_reliable, request_ack, receive_data}
use netchan.Receive.{
  Rx, store_entry, chan_recv_enqueue, deliver, next_waits, deliver_rounds, chan_deliver_reordered,
}
use netchan.Receive.Inbox.{
  ring-ext, message_at, backlog, inbox, InboxInv, message_at-pool_write, not_held,
}
use netchan.Receive.Mailbox.{inbox-store, has_room, inbox-chan_recv_enqueue}
use netchan.Receive.Ownership.{deliver-reorder}
use netchan.Types.{max_msg, reliable, unreliable, Reorder, Pool}

fill_slot-inbox :
    (r : Rx) (seq : ℕ) (bytes : List ℕ) (got : Option ℕ × Pool)
    → InboxInv r.ch r.pool
    → length bytes ≤ max_msg
    → got.1.store ≡ r.pool.store
    → ((b : ℕ) → count b got.1.free + holds b got.0 ≡ count b r.pool.free)
    → inbox (fill_slot r seq bytes got).ch (fill_slot r seq bytes got).pool ≡ inbox r.ch r.pool
unfolding fill_slot holds inbox
fill_slot-inbox r seq bytes (none, p) v fit store kept = inbox-store r.ch r.pool p store
fill_slot-inbox r seq bytes (some x, p) v fit store kept =
    ring-ext (message_at (pool_write p (some x) 0 bytes) r.ch.recv_queue)
      (message_at p r.ch.recv_queue) r.ch.rq_head (backlog r.ch.rq_head r.ch.rq_tail) v.head_lt
      (omega arith)
      (λ j h within.
        message_at-pool_write p x bytes (r.ch.recv_queue j) fit (v.fits j h)
          (sym (v.used j h) ∙ lt→ltb _ _ within)
          (not_held r.ch r.pool x j v (ground (arith, kept x)) h))
    ∙ inbox-store r.ch r.pool p store

hold_back-inbox :
    (r : Rx) (seq : ℕ) (bytes : List ℕ)
    → InboxInv r.ch r.pool
    → inbox (hold_back r seq bytes).ch (hold_back r seq bytes).pool ≡ inbox r.ch r.pool
unfolding hold_back
hold_back-inbox r seq bytes v =
    let diff = sub16 seq r.ch.recv_seq in
    elim (Bool-cases (
      (ltb 0 diff && ltb diff 64)
      && (not ((r.ch.reorder (seq % 64)).valid) && leb (length bytes) max_msg))) [
        | inl held ↦ rw held (
            fill_slot-inbox r seq bytes (pool_get r.pool) v (ground arith) (pool_get-store r.pool)
              (λ b. count-pool_get b r.pool))
        | inr refused ↦ rw refused refl
      ]

fill_slot-recv_seq :
    (r : Rx) (seq : ℕ) (bytes : List ℕ) (got : Option ℕ × Pool)
    → (fill_slot r seq bytes got).ch.recv_seq ≡ r.ch.recv_seq
unfolding fill_slot
fill_slot-recv_seq r seq bytes (none, p) = refl
fill_slot-recv_seq r seq bytes (some x, p) = refl

hold_back-recv_seq :
    (r : Rx) (seq : ℕ) (bytes : List ℕ) → (hold_back r seq bytes).ch.recv_seq ≡ r.ch.recv_seq
unfolding hold_back
hold_back-recv_seq r seq bytes =
    if_cases (λ (x : Rx). x.ch.recv_seq ≡ r.ch.recv_seq) _ (fill_slot r seq bytes (pool_get r.pool))
      r (λ held. fill_slot-recv_seq r seq bytes (pool_get r.pool)) (λ refused. refl)

-- An unfragmented message on a reliable channel that is not the next in order, be it early or a
-- duplicate, never reaches the receive queue, and the next in order stays the same; it asks for an
-- acknowledgement all the same. The receive queue has to be in shape.
pub receive_data_out_of_order :
    (s fp : ℕ) (r : Rx) (seq frag_idx frag_total : ℕ) (payload : List ℕ)
    → InboxInv r.ch r.pool
    → r.ch.type ≡ reliable
    → frag_total ≤ 1
    → seq ≢ r.ch.recv_seq
    → let r' = receive_data s fp r seq frag_idx frag_total payload in
      (inbox r'.ch r'.pool ≡ inbox r.ch r.pool)
      × (r'.ch.recv_seq ≡ r.ch.recv_seq)
      × (r'.ch.need_ack ≡ true)
unfolding receive_data accept_reliable request_ack inbox
receive_data_out_of_order s fp r seq frag_idx frag_total payload v kind single ne =
    let e₁ : (r.ch.type == unreliable) ≡ false = ground arith in
    let e₂ : leb frag_total 1 ≡ true = ground arith in
    let e₃ : (seq == r.ch.recv_seq) ≡ false = ground arith in
    rw (e₁, e₂, e₃) (hold_back-inbox r seq payload v, hold_back-recv_seq r seq payload, refl)

deliver-recv_seq :
    (s : ℕ) (r : Rx) (bytes : List ℕ) → (deliver s r bytes).ch.recv_seq ≡ r.ch.recv_seq
unfolding deliver chan_recv_enqueue store_entry
deliver-recv_seq s r bytes = elim (Bool-cases ((r.ch.rq_tail + 1) % 64 == r.ch.rq_head)) [
  | inl full ↦ rw (deliver, full) refl
  | inr room ↦ elim (Bool-cases (ltb max_msg (length bytes))) [
    | inl big ↦ rw (deliver, room, big) refl
    | inr short ↦ rw (deliver, room, short) (stored_recv_seq (pool_get r.pool))
  ]
]
  where
    stored_recv_seq :
        (got : Option ℕ × Pool)
        → (store_entry r ((r.ch.rq_tail + 1) % 64) bytes got).1.ch.recv_seq ≡ r.ch.recv_seq
    stored_recv_seq (none, p) = refl
    stored_recv_seq (some x, p) = refl

rounds_end : (s fuel : ℕ) (r : Rx) → next_waits r.ch ≡ false → deliver_rounds s (suc fuel) r ≡ r
unfolding deliver_rounds
rounds_end s fuel r h = rw (h, deliver_rounds) refl

none_follows : (s : ℕ) (r : Rx) → next_waits r.ch ≡ false → chan_deliver_reordered s r ≡ r
unfolding chan_deliver_reordered
none_follows s r h = rounds_end s 64 r h

deliver-next_waits :
    (s : ℕ) (r : Rx) (bytes : List ℕ)
    → let ch' = (deliver s r bytes).ch in
      next_waits (record ch' { recv_seq = inc16 ch'.recv_seq })
      ≡ next_waits (record (r.ch) { recv_seq = inc16 r.ch.recv_seq })
unfolding next_waits
deliver-next_waits s r bytes =
    ap₂
      (λ (xs : ℕ → Reorder) (q : ℕ).
        (xs (inc16 q % 64)).valid && (xs (inc16 q % 64)).seq == inc16 q)
      (deliver-reorder s r bytes) (deliver-recv_seq s r bytes)

-- An unfragmented message on a reliable channel that is the next in order, when the one after it does
-- not wait in the reorder buffer, goes behind the messages of the receive queue if fewer than 63 wait,
-- it has at most 2048 bytes and a buffer is free, and is lost otherwise; either way the channel moves
-- on to the next sequence number and asks for an acknowledgement. The queue has to be in shape.
pub receive_data_in_order :
    (s fp : ℕ) (r : Rx) (frag_idx frag_total : ℕ) (payload : List ℕ)
    → InboxInv r.ch r.pool
    → r.ch.type ≡ reliable
    → frag_total ≤ 1
    → next_waits (record (r.ch) { recv_seq = inc16 r.ch.recv_seq }) ≡ false
    → let r' = receive_data s fp r r.ch.recv_seq frag_idx frag_total payload in
      (inbox r'.ch r'.pool
        ≡ (if has_room r payload then inbox r.ch r.pool ++ (payload ∷ []) else inbox r.ch r.pool))
      × (r'.ch.recv_seq ≡ inc16 r.ch.recv_seq)
      × (r'.ch.need_ack ≡ true)
unfolding receive_data accept_reliable next_message request_ack inbox deliver
receive_data_in_order s fp r frag_idx frag_total payload v kind single last =
    let e₁ : (r.ch.type == unreliable) ≡ false = ground arith in
    let e₂ : leb frag_total 1 ≡ true = ground arith in
    let r' = deliver s r payload in
    let moved : Rx = record r' { ch = record (r'.ch) { recv_seq = inc16 r'.ch.recv_seq } } in
    let still : chan_deliver_reordered s moved ≡ moved =
      none_follows s moved (deliver-next_waits s r payload ∙ last) in
    rw (e₁, e₂, eq_self r.ch.recv_seq, still)
      (inbox-chan_recv_enqueue r payload v, ap inc16 (deliver-recv_seq s r payload), refl)
