-- ===== src/Api/Outbox.antt =====
-- netchan_chan_write of src/netchan.c against a queue of at most 63 messages.
use mathlib.Core.Path.{ap₂, fun_ext}
use native.Mathlib.Nat.{div-lt_iff_lt-mul}
use netchan.Base.{
  ltb, leb, ◌==◌, if◌then◌else◌, eq_self, Bool-cases, is_some, ℕ, suc, ◌+◌, ◌-◌, ◌/◌, ◌%◌, ◌≤◌, ◌<◌,
  ◌≡◌, refl, ap, ◌∙◌, ◌≢◌, inl, inr, Bool, true, false, not, ◌&&◌, Option, none, some, arith,
  update, bytes_at, sum_below-le, length, count, List, [], ◌∷◌, ◌++◌, sub_size,
}
use netchan.Api.{frag_count, Written, queue_as, queue_entry, write_chan}
use netchan.Api.Ownership.{over_window}
use netchan.BufferPool.{pool_get, pool_ptr, pool_write, pool_read}
use netchan.BufferPool.Laws.{
  holds, count-pool_get, pool_get-store, pool_read-pool_write, pool_read-pool_write_apart,
}
use netchan.Channel.Ownership.{out_held}
use netchan.Receive.Inbox.{ring, length-ring, ring-ext, ring-suc, backlog}
use netchan.Receive.Mailbox.{pool_get-is_some}
use netchan.Types.{
  max_msg, sender, chan_closed, err_again, err_flow, Result, ok, err, trap, Outgoing, Chan, Pool,
}

-- The bytes of an entry; one that was acknowledged holds none.
unfoldable pub held_bytes : Pool → Option ℕ → ℕ → List ℕ
held_bytes p none n = []
held_bytes p (some x) n = pool_read p (some x) 0 n

abbrev pub contents : Pool → (ℕ → Outgoing) → ℕ → List ℕ
contents p q j = held_bytes p (q j).buf (q j).len

-- The entries from out_head on, oldest first.
unfoldable pub outbox : Chan → Pool → List (List ℕ)
outbox ch p = ring (contents p ch.outgoing) ch.out_head (backlog ch.out_head ch.out_tail)

-- The ring's indices are in range, its messages fit their buffers, and no buffer is free and in the ring,
-- or twice in it.
pub record OutboxInv (ch : Chan) (p : Pool) : Type 0 where
  pub head_lt : ch.out_head < 64
  pub tail_lt : ch.out_tail < 64
  pub fits : (i : ℕ) → i < 64 → (ch.outgoing i).len ≤ max_msg
  pub apart : (b : ℕ) → count b p.free + out_held b ch.outgoing ≤ 1

held_bytes-pool_write :
    (p p' : Pool) (x : ℕ) (bytes : List ℕ) (o : Option ℕ) (n : ℕ)
    → p'.store ≡ p.store
    → length bytes ≤ max_msg
    → n ≤ max_msg
    → holds x o ≡ 0
    → held_bytes (pool_write p' (some x) 0 bytes) o n ≡ held_bytes p o n
unfolding held_bytes holds pool_read
held_bytes-pool_write p p' x bytes none n e h k a = refl
held_bytes-pool_write p p' x bytes (some y) n e h k a =
    pool_read-pool_write_apart p' x y 0 bytes 0 n (ground arith) (omega arith) (omega arith)
    ∙ ap (λ (s : ℕ → ℕ). bytes_at s (pool_ptr (some y) + 0) n) e

outbox-store : (ch : Chan) (p p' : Pool) → p'.store ≡ p.store → outbox ch p' ≡ outbox ch p
unfolding outbox held_bytes pool_read
outbox-store ch p p' e =
    ap (λ (f : ℕ → List ℕ). ring f ch.out_head (backlog ch.out_head ch.out_tail))
      (fun_ext (λ j. same (ch.outgoing j).buf (ch.outgoing j).len))
  where
    same : (o : Option ℕ) (n : ℕ) → held_bytes p' o n ≡ held_bytes p o n
    same none n = refl
    same (some x) n = ap (λ (s : ℕ → ℕ). bytes_at s (pool_ptr (some x) + 0) n) e

not_in_outbox :
    (ch : Chan) (p : Pool) (x j : ℕ)
    → OutboxInv ch p
    → 1 ≤ count x p.free
    → j < 64
    → holds x (ch.outgoing j).buf ≡ 0
unfolding out_held
not_in_outbox ch p x j v free h =
    omega (arith, v.apart x, sum_below-le (λ i. holds x (ch.outgoing i).buf) 64 j h)

-- A message of 1 to 2048 bytes has at most 32 fragments of 64 bytes or more.
frag_count-few :
    (fp len : ℕ)
    → 64 ≤ fp
    → 0 < len
    → len ≤ max_msg
    → (total : ℕ) × (frag_count fp len ≡ some total) × (total ≤ 32)
unfolding frag_count
frag_count-few fp len big some_bytes fits =
    let room : (fp == 0) ≡ false = ground arith in
    let few : sub_size (len + fp) 1 / fp < 33 = (div-lt_iff_lt-mul (omega arith)).1 (omega arith) in
    let n = sub_size (len + fp) 1 / fp % 256 in
    ((if n == 0 then 1 else n), rw room refl, ground (arith, few))

-- The result of a write as a count.
abbrev pub sent_count : Result ℕ → ℕ
sent_count (ok n) = n
sent_count (err e) = 0
sent_count trap = 0

-- A write either leaves the messages as they are, or adds one behind them and returns its length.
abbrev Appended : Chan → Pool → List ℕ → Bool → Written → Type 0
Appended ch p bytes added (result, ch', p') =
    (outbox ch' p' ≡ (if added then outbox ch p ++ (bytes ∷ []) else outbox ch p))
    × (sent_count result ≡ (if added then length bytes else 0))

module _ (ch : Chan) (p : Pool) (bytes : List ℕ) (v : OutboxInv ch p) (fit : length bytes ≤ max_msg)
    (room : (ch.out_tail + 1) % 64 ≢ ch.out_head) (x : ℕ) (q : Pool) (store : q.store ≡ p.store)
    (free : 1 ≤ count x p.free) where
  -- The ring's contents after a message was put into buffer x and the entry at out_tail.
  queued : Outgoing → ℕ → List ℕ
  queued o = contents (pool_write q (some x) 0 bytes) (update ch.outgoing ch.out_tail o)

  queued-before :
      (o : Outgoing) (j : ℕ)
      → j < 64
      → (j + 64 - ch.out_head) % 64 < backlog ch.out_head ch.out_tail
      → queued o j ≡ contents p ch.outgoing j
  unfolding queued
  queued-before o j h within =
      let other : (ch.out_tail == j) ≡ false = ground (arith, v.head_lt, v.tail_lt) in
      rw other (
        held_bytes-pool_write p q x bytes (ch.outgoing j).buf (ch.outgoing j).len store fit
          (v.fits j h) (not_in_outbox ch p x j v free h))

  queued-tail :
      (o : Outgoing) → o.buf ≡ some x → o.len ≡ length bytes → queued o ch.out_tail ≡ bytes
  unfolding queued held_bytes
  queued-tail o b n = rw (eq_self ch.out_tail, b, n) (pool_read-pool_write q (some x) 0 bytes)

  queued-outbox :
      (o : Outgoing)
      → o.buf ≡ some x
      → o.len ≡ length bytes
      → ring (queued o) ch.out_head (backlog ch.out_head ((ch.out_tail + 1) % 64))
        ≡ outbox ch p ++ (bytes ∷ [])
  unfolding outbox
  queued-outbox o b m =
      let n = backlog ch.out_head ch.out_tail in
      let more : backlog ch.out_head ((ch.out_tail + 1) % 64) ≡ suc n =
        omega (arith, v.head_lt, v.tail_lt, room) in
      let last : (ch.out_head + n) % 64 ≡ ch.out_tail = omega (arith, v.head_lt, v.tail_lt) in
      ap (ring (queued o) ch.out_head) more
      ∙ ring-suc (queued o) ch.out_head n v.head_lt
      ∙ ap₂ (λ (l : List (List ℕ)) (k : List ℕ). l ++ (k ∷ []))
          (ring-ext (queued o) (contents p ch.outgoing) ch.out_head n v.head_lt (omega arith)
            (queued-before o))
          (ap (queued o) last ∙ queued-tail o b m)

  queue_as-Appended :
      (total : ℕ) → total ≤ 32 → Appended ch p bytes true (queue_as ch bytes x q (some total))
  unfolding queue_as outbox queued
  queue_as-Appended total few =
      let e : ltb 32 total ≡ false = ground arith in rw e (queued-outbox _ refl refl, refl)

got-Appended :
    (fp : ℕ) (ch : Chan) (p : Pool) (bytes : List ℕ) (got : Option ℕ × Pool)
    → 64 ≤ fp
    → OutboxInv ch p
    → 0 < length bytes
    → length bytes ≤ max_msg
    → (ch.out_tail + 1) % 64 ≢ ch.out_head
    → got.1.store ≡ p.store
    → ((b : ℕ) → count b got.1.free + holds b got.0 ≡ count b p.free)
    → Appended ch p bytes (is_some got.0) (queue_entry fp ch bytes got)
unfolding queue_entry holds
got-Appended fp ch p bytes (none, q) big v some_bytes fit room store kept =
    (outbox-store ch p q store, refl)
got-Appended fp ch p bytes (some x, q) big v some_bytes fit room store kept =
    let (total, e, few) = frag_count-few fp (length bytes) big some_bytes fit in
    rw e (queue_as-Appended ch p bytes v fit room x q store (ground (arith, kept x)) total few)

-- A message is taken by a sending channel that is not closed if it has 1 to 2048 bytes and fits the
-- peer's window, fewer than 63 entries are in the ring, and a buffer is free.
abbrev pub takes : Chan → Pool → List ℕ → Bool
takes ch p bytes =
    (ch.role == sender && not (ch.state == chan_closed))
    && ((ltb 0 (length bytes) && leb (length bytes) max_msg)
        && (not (over_window ch (length bytes))
            && (ltb (length (outbox ch p)) 63 && ltb 0 (length p.free))))

length-outbox : (ch : Chan) (p : Pool) → length (outbox ch p) ≡ backlog ch.out_head ch.out_tail
unfolding outbox
length-outbox ch p =
    length-ring (contents p ch.outgoing) ch.out_head (backlog ch.out_head ch.out_tail)

-- A write puts a message that the channel takes behind those in the ring, changes none of them and
-- returns its length; otherwise the ring's messages stay as they are and the result is an error or 0.
-- The ring has to be in shape and a fragment to have room for 64 bytes.
pub outbox-write_chan :
    (fp : ℕ) (ch : Chan) (p : Pool) (bytes : List ℕ)
    → 64 ≤ fp
    → OutboxInv ch p
    → let (result, ch', p') = write_chan fp ch p bytes in
      (outbox ch' p' ≡ (if takes ch p bytes then outbox ch p ++ (bytes ∷ []) else outbox ch p))
      × (sent_count result ≡ (if takes ch p bytes then length bytes else 0))
unfolding write_chan
outbox-write_chan fp ch p bytes big v = elim (Bool-cases (ch.role == sender)) [
  | inr e₁ ↦ rw e₁ (refl, refl)
  | inl e₁ ↦ elim (Bool-cases (ch.state == chan_closed)) [
    | inl e₂ ↦ rw (e₁, e₂) (refl, refl)
    | inr e₂ ↦ elim (Bool-cases (length bytes == 0)) [
      | inl e₃ ↦
          let f : ltb 0 (length bytes) ≡ false = ground arith in rw (e₁, e₂, e₃, f) (refl, refl)
      | inr e₃ ↦
          let f : ltb 0 (length bytes) ≡ true = ground arith in
          elim (Bool-cases (ltb max_msg (length bytes))) [
            | inl e₄ ↦
                let g : leb (length bytes) max_msg ≡ false = ground arith in
                rw (e₁, e₂, e₃, e₄, f, g) (refl, refl)
            | inr e₄ ↦
                let g : leb (length bytes) max_msg ≡ true = ground arith in
                rw (e₁, e₂, e₃, e₄, f, g) (fitting (ground arith) (ground arith))
          ]
    ]
  ]
]
  where
    fitting :
        0 < length bytes
        → length bytes ≤ max_msg
        → Appended ch p bytes
            (not (over_window ch (length bytes))
              && (ltb (length (outbox ch p)) 63 && ltb 0 (length p.free)))
            (if over_window ch (length bytes)
              then (err err_flow, ch, p)
              else if (ch.out_tail + 1) % 64 == ch.out_head
              then (err err_again, ch, p)
              else queue_entry fp ch bytes (pool_get p))
    fitting some_bytes fit = elim (Bool-cases (over_window ch (length bytes))) [
      | inl over ↦ rw over (refl, refl)
      | inr within ↦ elim (Bool-cases ((ch.out_tail + 1) % 64 == ch.out_head)) [
        | inl full ↦
            let e : ltb (length (outbox ch p)) 63 ≡ false =
              ground (arith, length-outbox ch p, v.head_lt, v.tail_lt) in
            rw (within, full, e) (refl, refl)
        | inr room ↦
            let e : ltb (length (outbox ch p)) 63 ≡ true =
              ground (arith, length-outbox ch p, v.head_lt, v.tail_lt) in
            rw (within, room, e, ← pool_get-is_some p)
              (got-Appended fp ch p bytes (pool_get p) big v some_bytes fit (ground arith)
                (pool_get-store p) (λ b. count-pool_get b p))
      ]
    ]
