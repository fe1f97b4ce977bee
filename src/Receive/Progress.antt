-- ===== src/Receive/Progress.antt =====
-- The reorder buffer drains: chan_deliver_reordered stops only when the next message is missing.
use netchan.Base.{
  Bool-cases, ℕ, zero, suc, ◌+◌, ◌%◌, ◌≤◌, ◌<◌, ◌≡◌, ap, inl, inr, Bool, true, false, none, arith,
  sum_below, sum_below-update,
}
use netchan.BufferPool.{pool_read}
use netchan.Receive.{Rx, deliver, deliver_slot, next_waits, deliver_rounds, chan_deliver_reordered}
use netchan.Receive.Ownership.{deliver-reorder}
use netchan.Types.{reorder_slots, Reorder}

abbrev one_if : Bool → ℕ
one_if true = 1
one_if false = 0

-- The number of messages that wait in the reorder buffer.
unfoldable pub waiting : (ℕ → Reorder) → ℕ
waiting xs = sum_below reorder_slots (λ i. one_if (xs i).valid)

waiting-le : (n : ℕ) (xs : ℕ → Reorder) → sum_below n (λ i. one_if (xs i).valid) ≤ n
unfolding sum_below
waiting-le zero xs = omega arith
waiting-le (suc n) xs = ground (arith, waiting-le n xs)

one_waits : (r : Rx) → next_waits r.ch ≡ true → one_if (r.ch.reorder (r.ch.recv_seq % 64)).valid ≡ 1
unfolding next_waits
one_waits r h = ground arith

-- A round takes one message out of the buffer.
deliver_slot-waiting :
    (s : ℕ) (r : Rx)
    → next_waits r.ch ≡ true
    → waiting (deliver_slot s r).ch.reorder + 1 ≡ waiting r.ch.reorder
unfolding deliver_slot waiting next_waits
deliver_slot-waiting s r h =
    let slot = r.ch.recv_seq % 64 in
    let xs =
      (deliver s r
        (pool_read r.pool (r.ch.reorder slot).buf 0 (r.ch.reorder slot).len)).ch.reorder in
    let same : xs ≡ r.ch.reorder = deliver-reorder s r _ in
    omega (
      arith,
      sum_below-update (λ (e : Reorder). one_if e.valid) xs slot
          (record (xs slot) { buf = none; valid = false }) 64,
      ap waiting same,
      ap (λ (f : ℕ → Reorder). one_if (f slot).valid) same,
      one_waits r h,
    )

deliver_rounds_done :
    (s fuel : ℕ) (r : Rx)
    → waiting r.ch.reorder < fuel
    → next_waits (deliver_rounds s fuel r).ch ≡ false
unfolding deliver_rounds
deliver_rounds_done s zero r h = absurd (omega arith)
deliver_rounds_done s (suc fuel) r h = elim (Bool-cases (next_waits r.ch)) [
  | inl waits ↦
      rw (waits, deliver_rounds)
        (deliver_rounds_done s fuel (deliver_slot s r)
          (omega (arith, deliver_slot-waiting s r waits)))
  | inr done ↦ rw (done, deliver_rounds) done
]

-- chan_deliver_reordered drains the reorder buffer: when it ends, the message that is next in order is
-- not there.
pub chan_deliver_reordered_done :
    (s : ℕ) (r : Rx) → next_waits (chan_deliver_reordered s r).ch ≡ false
unfolding chan_deliver_reordered waiting
chan_deliver_reordered_done s r =
    deliver_rounds_done s 65 r (omega (arith, waiting-le 64 r.ch.reorder))
