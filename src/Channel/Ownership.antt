-- ===== src/Channel/Ownership.antt =====
-- Which buffers a channel's slots hold, and the shape of a channel: a slot holds a buffer exactly
-- when it is in use, and the ring indices are in range.
use netchan.Base.{
  ltb, ◌==◌, if◌then◌else◌, is_some, ℕ, ◌+◌, ◌-◌, ◌%◌, ◌<◌, ◌≡◌, ◌≢◌, Bool, true, false, arith,
  update, sum_below, sum_below-update, count,
}
use netchan.BufferPool.Laws.{holds}
use netchan.Types.{
  outgoing_slots, recv_queue_size, reorder_slots, frag_slots, Outgoing, RecvEntry, Reorder, FragAsm,
  Chan, Pool,
}

-- Slot i lies in the window [head, tail) of a ring of 64.
abbrev pub in_window : ℕ → ℕ → ℕ → Bool
in_window head tail i = ltb ((i + 64 - head) % 64) ((tail + 64 - head) % 64)

-- Adding an entry behind the last one widens the window by its slot.
pub window_push :
    (head tail i : ℕ)
    → head < 64
    → tail < 64
    → i < 64
    → (tail + 1) % 64 ≢ head
    → in_window head ((tail + 1) % 64) i ≡ (if tail == i then true else in_window head tail i)
window_push head tail i h k l ne = ground arith

-- Taking the first entry out narrows the window by its slot.
pub window_pop :
    (head tail i : ℕ)
    → head < 64
    → tail < 64
    → i < 64
    → head ≢ tail
    → in_window ((head + 1) % 64) tail i ≡ (if head == i then false else in_window head tail i)
window_pop head tail i h k l ne = ground arith

-- How often buffer b is held by the slots of each array.
unfoldable pub out_held : ℕ → (ℕ → Outgoing) → ℕ
out_held b xs = sum_below outgoing_slots (λ i. holds b (xs i).buf)

unfoldable pub recv_held : ℕ → (ℕ → RecvEntry) → ℕ
recv_held b xs = sum_below recv_queue_size (λ i. holds b (xs i).buf)

unfoldable pub reorder_held : ℕ → (ℕ → Reorder) → ℕ
reorder_held b xs = sum_below reorder_slots (λ i. holds b (xs i).buf)

unfoldable pub frag_held : ℕ → (ℕ → FragAsm) → ℕ
frag_held b xs = sum_below frag_slots (λ i. holds b (xs i).buf)

-- How often buffer b is held by the slots of a channel.
abbrev pub owned : ℕ → Chan → ℕ
owned b ch =
    out_held b ch.outgoing
    + recv_held b ch.recv_queue
    + reorder_held b ch.reorder
    + frag_held b ch.frags

module _ (b i : ℕ) where
  pub out_held-update :
      (xs : ℕ → Outgoing) (v : Outgoing)
      → i < 64
      → out_held b (update xs i v) + holds b (xs i).buf ≡ out_held b xs + holds b v.buf
  unfolding out_held
  out_held-update xs v h = sum_below-update (λ (o : Outgoing). holds b o.buf) xs i v 64 h

  pub recv_held-update :
      (xs : ℕ → RecvEntry) (v : RecvEntry)
      → i < 64
      → recv_held b (update xs i v) + holds b (xs i).buf ≡ recv_held b xs + holds b v.buf
  unfolding recv_held
  recv_held-update xs v h = sum_below-update (λ (o : RecvEntry). holds b o.buf) xs i v 64 h

  pub reorder_held-update :
      (xs : ℕ → Reorder) (v : Reorder)
      → i < 64
      → reorder_held b (update xs i v) + holds b (xs i).buf ≡ reorder_held b xs + holds b v.buf
  unfolding reorder_held
  reorder_held-update xs v h = sum_below-update (λ (o : Reorder). holds b o.buf) xs i v 64 h

  pub frag_held-update :
      (xs : ℕ → FragAsm) (v : FragAsm)
      → i < 4
      → frag_held b (update xs i v) + holds b (xs i).buf ≡ frag_held b xs + holds b v.buf
  unfolding frag_held
  frag_held-update xs v h = sum_below-update (λ (o : FragAsm). holds b o.buf) xs i v 4 h

-- The invariant of a channel.
pub record ChanInv (ch : Chan) : Type 0 where
  pub out_head_lt : ch.out_head < 64
  pub out_tail_lt : ch.out_tail < 64
  pub rq_head_lt : ch.rq_head < 64
  pub rq_tail_lt : ch.rq_tail < 64
  pub out_used : (i : ℕ) → (ch.outgoing i).active ≡ is_some (ch.outgoing i).buf
  pub out_window :
      (i : ℕ) → i < 64 → (ch.outgoing i).active ≡ true → in_window ch.out_head ch.out_tail i ≡ true
  pub rq_used : (i : ℕ) → i < 64 → in_window ch.rq_head ch.rq_tail i ≡ is_some (ch.recv_queue i).buf
  pub reorder_used : (i : ℕ) → (ch.reorder i).valid ≡ is_some (ch.reorder i).buf
  pub frag_used : (i : ℕ) → (ch.frags i).active ≡ is_some (ch.frags i).buf

-- A channel in shape, whose buffer b together with the pool's is counted n times.
pub record Held (b n : ℕ) (ch : Chan) (p : Pool) : Type 0 where
  pub inv : ChanInv ch
  pub total : count b p.free + owned b ch ≡ n
