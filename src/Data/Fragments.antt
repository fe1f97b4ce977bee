-- ===== src/Data/Fragments.antt =====
-- process_data writes only in pool_store, as long as no fragment is longer than its place.
use netchan.Base.{
  ltb, leb, ◌==◌, Bool-cases, ℕ, ◌+◌, ◌*◌, ◌%◌, ◌≤◌, ◌<◌, ◌≡◌, refl, ◌∙◌, inl, inr, Bool, not, ◌&&◌,
  Option, none, some, arith, update, length, List, inc16, sub16,
}
use netchan.BufferPool.{pool_get, pool_ptr, pool_read}
use netchan.BufferPool.Bounds.{last_buffer, pool_write-overrun}
use netchan.BufferPool.Laws.{holds-none}
use netchan.Channel.{no_frag}
use netchan.Channel.Ownership.{frag_held-update}
use netchan.Data.{
  fill_slot, hold_back, next_message, accept_reliable, has_bit, compact, finish_frag, store_frag,
  add_frag, take_frag, find_or_alloc, on_frag, request_ack, receive_data,
}
use netchan.Data.Bounds.{Fits, compact-inside}
use netchan.Data.Ownership.{
  recv_seq-Held, accept_reliable-Held, compact-free, same_free-Held, store_frag-Held,
}
use netchan.Receive.{
  Rx, deliver, first_frag, frag_find, place_frag, alloc_at, frag_alloc, frag_free,
}
use netchan.Receive.Bounds.{
  Sound, Kept, in_store, got_in_store, pool_get-overrun, pool_put-overrun, deliver-Kept,
  chan_deliver_reordered-Kept,
}
use netchan.Receive.Ownership.{
  HeldRx, deliver-Held, first_frag_sound, frag_alloc-lt, frag_alloc-Held,
}
use netchan.Types.{max_msg, unreliable, FragAsm, Pool}

-- No fragment of any assembly is longer than its place.
abbrev pub FragsFit : ℕ → (ℕ → FragAsm) → Type 0
FragsFit fp frags = (i j : ℕ) → Fits fp j ((frags i).offsets j)

-- No access has left pool_store, and no fragment is longer than its place.
abbrev pub StaysInside : ℕ → Rx → Rx → Type 0
StaysInside fp r r' = (r'.pool.overrun ≡ r.pool.overrun) × FragsFit fp r'.ch.frags

FragsFit-update :
    (fp : ℕ) (frags : ℕ → FragAsm) (i : ℕ) (f : FragAsm)
    → FragsFit fp frags
    → ((j : ℕ) → Fits fp j (f.offsets j))
    → FragsFit fp (update frags i f)
FragsFit-update fp frags i f fit added k j = elim (Bool-cases (i == k)) [
  | inl own ↦ rw own (added j)
  | inr other ↦ rw other (fit k j)
]

of_Kept : (fp : ℕ) (r r' : Rx) → FragsFit fp r.ch.frags → Kept r r' → StaysInside fp r r'
of_Kept fp r r' fit v = (v.0, λ i j. rw v.1 (fit i j))

fill_slot-Kept :
    (r : Rx) (seq : ℕ) (bytes : List ℕ) (got : Option ℕ × Pool)
    → pool_ptr got.0 ≤ last_buffer
    → length bytes ≤ max_msg
    → got.1.overrun ≡ r.pool.overrun
    → Kept r (fill_slot r seq bytes got)
unfolding fill_slot
fill_slot-Kept r seq bytes (none, p) h k e = (e, refl)
fill_slot-Kept r seq bytes (some x, p) h k e =
    (pool_write-overrun p (some x) 0 bytes h (λ _. omega arith) ∙ e, refl)

hold_back-Kept : (r : Rx) (seq : ℕ) (bytes : List ℕ) → Sound r → Kept r (hold_back r seq bytes)
unfolding hold_back
hold_back-Kept r seq bytes v = elim (Bool-cases guard) [
  | inl holds_back ↦ rw holds_back (
      fill_slot-Kept r seq bytes (pool_get r.pool) (got_in_store r v) (ground arith)
        (pool_get-overrun r.pool))
  | inr drops ↦ rw drops (refl, refl)
]
  where
    guard : Bool
    guard =
        (ltb 0 (sub16 seq r.ch.recv_seq) && ltb (sub16 seq r.ch.recv_seq) 64)
        && (not (r.ch.reorder (seq % 64)).valid && leb (length bytes) 2048)

accept_reliable-Kept :
    (s : ℕ) (r : Rx) (seq : ℕ) (bytes : List ℕ) → Sound r → Kept r (accept_reliable s r seq bytes)
unfolding accept_reliable next_message
accept_reliable-Kept s r seq bytes v = elim (Bool-cases (seq == r.ch.recv_seq)) [
  | inl now ↦ rw now (
      let r' = deliver s r bytes in
      let next = record r' { ch = record (r'.ch) { recv_seq = inc16 r'.ch.recv_seq } } in
      let sent = deliver-Kept s r bytes v in
      let rest =
        chan_deliver_reordered-Kept s next
          (λ b l. recv_seq-Held r' (inc16 r'.ch.recv_seq) (deliver-Held s r bytes (v b l))) in
      (rest.0 ∙ sent.0, rest.1 ∙ sent.1))
  | inr early ↦ rw early (hold_back-Kept r seq bytes v)
]

-- The buffer of an assembly is one of the 64.
frag_in_store : (r : Rx) (i : ℕ) → i < 4 → Sound r → pool_ptr (r.ch.frags i).buf ≤ last_buffer
frag_in_store r i h v =
    in_store (r.ch.frags i).buf
      (λ b l. omega (arith, frag_held-update b i r.ch.frags no_frag h, (v b l).total, holds-none b))

module _ (fp : ℕ) (take_message : Rx → List ℕ → Rx)
    (held : (b : ℕ) (r : Rx) (bytes : List ℕ) → HeldRx b 0 r → HeldRx b 0 (take_message r bytes))
    (kept : (r : Rx) (bytes : List ℕ) → Sound r → Kept r (take_message r bytes)) where
  finish_frag-StaysInside :
      (i : ℕ) (r : Rx)
      → i < 4
      → Sound r
      → FragsFit fp r.ch.frags
      → StaysInside fp r (finish_frag take_message fp i r)
  unfolding finish_frag frag_free
  finish_frag-StaysInside i r h v fit =
      let f = r.ch.frags i in
      let moved = compact f.buf f.offsets fp 0 f.total 0 r.pool in
      let r' = record r { pool = moved.1 } in
      let bytes = pool_read moved.1 f.buf 0 moved.0 in
      let inside =
        compact-inside f.buf f.offsets fp f.total r.pool (frag_in_store r i h v) (λ j l. fit i j) in
      let v' : Sound r' = λ b l.
        same_free-Held take_message (held b) r moved.1
          (compact-free f.buf f.offsets fp 0 f.total 0 r.pool) (v b l) in
      let taken = kept r' bytes v' in
      let r'' = take_message r' bytes in
      (
        pool_put-overrun r''.pool (r''.ch.frags i).buf ∙ taken.0 ∙ inside.0,
        FragsFit-update fp r''.ch.frags i no_frag (λ k j. rw taken.1 (fit k j))
            (λ j. (omega arith, λ some_bytes. absurd (omega arith))),
      )

  store_frag-StaysInside :
      (r : Rx) (i frag_idx : ℕ) (payload : List ℕ)
      → i < 4
      → Sound r
      → FragsFit fp r.ch.frags
      → length payload ≤ fp
      → frag_idx * fp + length payload ≤ max_msg
      → StaysInside fp r (store_frag fp r i frag_idx payload)
  unfolding store_frag
  store_frag-StaysInside r i frag_idx payload h v fit short ends = (
    pool_write-overrun r.pool (r.ch.frags i).buf (frag_idx * fp) payload (frag_in_store r i h v)
        (λ _. ends),
    FragsFit-update fp r.ch.frags i _ fit (λ j. elim (Bool-cases (frag_idx == j)) [
      | inl own ↦ let e : j ≡ frag_idx = ground arith in rw own (rw e (short, λ _. ends))
      | inr other ↦ rw other (fit i j)
    ]),
  )

  add_frag-StaysInside :
      (r : Rx) (i frag_idx : ℕ) (payload : List ℕ)
      → i < 4
      → Sound r
      → FragsFit fp r.ch.frags
      → length payload ≤ fp
      → frag_idx * fp + length payload ≤ max_msg
      → StaysInside fp r (add_frag take_message fp r i frag_idx payload)
  unfolding add_frag
  add_frag-StaysInside r i frag_idx payload h v fit short ends =
      let r' = store_frag fp r i frag_idx payload in
      let stored = store_frag-StaysInside r i frag_idx payload h v fit short ends in
      let v' : Sound r' =
        λ b l. store_frag-Held take_message (held b) fp r i frag_idx payload h (v b l) in
      elim (Bool-cases ((r'.ch.frags i).have == (r'.ch.frags i).total)) [
        | inl complete ↦
            rw complete
              (let done = finish_frag-StaysInside i r' h v' stored.1 in (done.0 ∙ stored.0, done.1))
        | inr partial ↦ rw partial stored
      ]

  take_frag-StaysInside :
      (frag_idx : ℕ) (payload : List ℕ) (i : Option ℕ) (r : Rx)
      → ((j : ℕ) → i ≡ some j → j < 4)
      → Sound r
      → FragsFit fp r.ch.frags
      → length payload ≤ fp
      → StaysInside fp r (take_frag take_message fp frag_idx payload (i, r))
  unfolding take_frag
  take_frag-StaysInside frag_idx payload none r h v fit short = (refl, fit)
  take_frag-StaysInside frag_idx payload (some i) r h v fit short =
      elim (Bool-cases (wanted (r.ch.frags i))) [
        | inl new_one ↦
            rw new_one
              (add_frag-StaysInside r i frag_idx payload (h i refl) v fit short (ground arith))
        | inr other ↦ rw other (refl, fit)
      ]
    where
      wanted : FragAsm → Bool
      wanted f =
          (ltb frag_idx f.total && not (has_bit f.bitmask frag_idx))
          && leb (frag_idx * fp + length payload) 2048

  -- frag_alloc empties the slot that it takes.
  frag_alloc-StaysInside :
      (r : Rx) (seq total : ℕ)
      → FragsFit fp r.ch.frags
      → StaysInside fp r (frag_alloc r seq total).1
  unfolding frag_alloc place_frag alloc_at
  frag_alloc-StaysInside r seq total fit = elim (Bool-cases (ltb 32 total)) [
    | inl many ↦ rw many (refl, fit)
    | inr few ↦ rw few (at (first_frag (λ f. not f.active) r.ch.frags 0 4))
  ]
    where
      place :
          (i : ℕ) (got : Option ℕ × Pool)
          → got.1.overrun ≡ r.pool.overrun
          → StaysInside fp r (place_frag r i seq total got).1
      place i (none, p) e = (e, fit)
      place i (some b, p) e = (
        e,
        FragsFit-update fp r.ch.frags i _ fit
            (λ j. (omega arith, λ some_bytes. absurd (omega arith))),
      )

      at : (o : Option ℕ) → StaysInside fp r (alloc_at r seq total o).1
      at none = (refl, fit)
      at (some i) = place i (pool_get r.pool) (pool_get-overrun r.pool)

  on_frag-StaysInside :
      (r : Rx) (seq frag_idx frag_total : ℕ) (payload : List ℕ)
      → Sound r
      → FragsFit fp r.ch.frags
      → length payload ≤ fp
      → StaysInside fp r (on_frag take_message fp r seq frag_idx frag_total payload)
  unfolding on_frag find_or_alloc frag_find
  on_frag-StaysInside r seq frag_idx frag_total payload v fit short = go (frag_find r.ch seq) refl
    where
      go :
          (i : Option ℕ)
          → frag_find r.ch seq ≡ i
          → StaysInside fp r
              (take_frag take_message fp frag_idx payload (find_or_alloc r seq frag_total i))
      go none e =
          let (found, r') = frag_alloc r seq frag_total in
          let made = frag_alloc-StaysInside r seq frag_total fit in
          let v' : Sound r' = λ b l. frag_alloc-Held r seq frag_total (v b l) in
          let taken =
            take_frag-StaysInside frag_idx payload found r' (frag_alloc-lt r seq frag_total) v'
              made.1 short in
          (taken.0 ∙ made.0, taken.1)
      go (some i) e =
          take_frag-StaysInside frag_idx payload (some i) r
            (λ j q.
              ground (arith, first_frag_sound (λ f. f.active && f.seq == seq) r.ch.frags 0 4 i e))
            v fit short

request_ack-StaysInside :
    (fp : ℕ) (r r' : Rx) → StaysInside fp r r' → StaysInside fp r (request_ack r')
unfolding request_ack
request_ack-StaysInside fp r r' v = v

-- While no fragment is longer than its place, a DATA frame is safe: if the buffers that the pool and the
-- channel hold are among the 64, no stored fragment is longer than its place and neither is the
-- payload, then nothing is written past pool_store, and again no stored fragment is longer than its place.
pub receive_data-StaysInside :
    (s fp : ℕ) (r : Rx) (seq frag_idx frag_total : ℕ) (payload : List ℕ)
    → Sound r
    → FragsFit fp r.ch.frags
    → length payload ≤ fp
    → StaysInside fp r (receive_data s fp r seq frag_idx frag_total payload)
unfolding receive_data
receive_data-StaysInside s fp r seq frag_idx frag_total payload v fit short =
    elim (Bool-cases (r.ch.type == unreliable)) [
      | inl u ↦ elim (Bool-cases (leb frag_total 1)) [
        | inl w ↦ rw (u, w) (of_Kept fp r (deliver s r payload) fit (deliver-Kept s r payload v))
        | inr f ↦
            rw (u, f)
              (on_frag-StaysInside fp (deliver s) (λ b. deliver-Held s) (deliver-Kept s) r seq
                frag_idx frag_total payload v fit short)
      ]
      | inr u ↦ elim (Bool-cases (leb frag_total 1)) [
        | inl w ↦
            rw (u, w)
              (let r' = accept_reliable s r seq payload in
                request_ack-StaysInside fp r r'
                  (of_Kept fp r r' fit (accept_reliable-Kept s r seq payload v)))
        | inr f ↦
            rw (u, f)
              (let take_message : Rx → List ℕ → Rx = λ r' bytes. accept_reliable s r' seq bytes in
                request_ack-StaysInside fp r
                  (on_frag take_message fp r seq frag_idx frag_total payload)
                  (on_frag-StaysInside fp take_message
                    (λ b r' bytes. accept_reliable-Held s r' seq bytes)
                    (λ r' bytes. accept_reliable-Kept s r' seq bytes) r seq frag_idx frag_total
                    payload v fit short))
      ]
    ]
