-- ===== src/Receive/Bounds.antt =====
-- What the receiving functions of src/netchan.c write lies in pool_store.
use netchan.Base.{
  ltb, leb, ◌==◌, eq_self, Bool-cases, ℕ, zero, suc, ◌+◌, ◌%◌, ◌≤◌, ◌≡◌, refl, ◌∙◌, inl, inr,
  Option, none, some, arith, length, List, [], ◌∷◌,
}
use netchan.BufferPool.{pop_free, pool_get, pool_put, pool_ptr, pool_read}
use netchan.BufferPool.Bounds.{last_buffer, pool_write-overrun}
use netchan.BufferPool.Laws.{holds, count-pool_get}
use netchan.Receive.{
  Rx, store_entry, chan_recv_enqueue, deliver, deliver_slot, next_waits, deliver_rounds,
  chan_deliver_reordered,
}
use netchan.Receive.Ownership.{HeldRx, deliver_slot-Held}
use netchan.Types.{max_msg, pool_bufs, Pool}

-- Every buffer that the pool or the channel holds is one of the 64.
abbrev pub Sound : Rx → Type 0
Sound r = (b : ℕ) → pool_bufs ≤ b → HeldRx b 0 r

-- No access has left pool_store, and the assemblies are as they were.
abbrev pub Kept : Rx → Rx → Type 0
Kept r r' = (r'.pool.overrun ≡ r.pool.overrun) × (r'.ch.frags ≡ r.ch.frags)

-- An index that stands for none of the numbers from 64 on is below 64.
pub in_store : (o : Option ℕ) → ((b : ℕ) → 64 ≤ b → holds b o ≡ 0) → pool_ptr o ≤ last_buffer
unfolding holds pool_ptr
in_store none h = omega arith
in_store (some x) h = elim (Bool-cases (leb 64 x)) [
  | inl big ↦ absurd (ground (arith, h x (ground arith), eq_self x))
  | inr small ↦ ground arith
]

pub got_in_store : (r : Rx) → Sound r → pool_ptr (pool_get r.pool).0 ≤ last_buffer
got_in_store r v =
    in_store (pool_get r.pool).0 (λ b l. omega (arith, count-pool_get b r.pool, (v b l).total))

pub pool_get-overrun : (p : Pool) → (pool_get p).1.overrun ≡ p.overrun
unfolding pool_get pop_free
pool_get-overrun p = go p.free
  where
    go : (l : List ℕ) → (pop_free p l).1.overrun ≡ p.overrun
    go [] = refl
    go (x ∷ l) = refl

pub pool_put-overrun : (p : Pool) (o : Option ℕ) → (pool_put p o).overrun ≡ p.overrun
unfolding pool_put
pool_put-overrun p none = refl
pool_put-overrun p (some x) = refl

store_entry-Kept :
    (r : Rx) (next : ℕ) (bytes : List ℕ) (got : Option ℕ × Pool)
    → pool_ptr got.0 ≤ last_buffer
    → length bytes ≤ max_msg
    → got.1.overrun ≡ r.pool.overrun
    → Kept r (store_entry r next bytes got).1
unfolding store_entry
store_entry-Kept r next bytes (none, p) h k e = (e, refl)
store_entry-Kept r next bytes (some x, p) h k e =
    (pool_write-overrun p (some x) 0 bytes h (λ _. omega arith) ∙ e, refl)

pub chan_recv_enqueue-Kept :
    (r : Rx) (bytes : List ℕ) → Sound r → Kept r (chan_recv_enqueue r bytes).1
unfolding chan_recv_enqueue
chan_recv_enqueue-Kept r bytes v = elim (Bool-cases ((r.ch.rq_tail + 1) % 64 == r.ch.rq_head)) [
  | inl full ↦ rw full (refl, refl)
  | inr room ↦ elim (Bool-cases (ltb 2048 (length bytes))) [
    | inl big ↦ rw (room, big) (refl, refl)
    | inr fits ↦
        rw (room, fits)
          (store_entry-Kept r _ bytes (pool_get r.pool) (got_in_store r v) (ground arith)
            (pool_get-overrun r.pool))
  ]
]

pub deliver-Kept : (s : ℕ) (r : Rx) (bytes : List ℕ) → Sound r → Kept r (deliver s r bytes)
unfolding deliver
deliver-Kept s r bytes v = chan_recv_enqueue-Kept r bytes v

deliver_slot-Kept : (s : ℕ) (r : Rx) → Sound r → Kept r (deliver_slot s r)
unfolding deliver_slot
deliver_slot-Kept s r v =
    let e = r.ch.reorder (r.ch.recv_seq % 64) in
    let bytes = pool_read r.pool e.buf 0 e.len in
    let sent = deliver-Kept s r bytes v in
    (pool_put-overrun (deliver s r bytes).pool e.buf ∙ sent.0, sent.1)

deliver_rounds-Kept : (s fuel : ℕ) (r : Rx) → Sound r → Kept r (deliver_rounds s fuel r)
unfolding deliver_rounds
deliver_rounds-Kept s zero r v = (refl, refl)
deliver_rounds-Kept s (suc fuel) r v = elim (Bool-cases (next_waits r.ch)) [
  | inl more ↦
      rw (more, deliver_rounds)
        (let one = deliver_slot-Kept s r v in
          let rest =
            deliver_rounds-Kept s fuel (deliver_slot s r) (λ b l. deliver_slot-Held s r (v b l)) in
          (rest.0 ∙ one.0, rest.1 ∙ one.1))
  | inr over ↦ rw (over, deliver_rounds) (refl, refl)
]

pub chan_deliver_reordered-Kept : (s : ℕ) (r : Rx) → Sound r → Kept r (chan_deliver_reordered s r)
unfolding chan_deliver_reordered
chan_deliver_reordered-Kept s r v = deliver_rounds-Kept s 65 r v
