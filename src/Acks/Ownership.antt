-- ===== src/Acks/Ownership.antt =====
-- Acknowledgements keep the sending channel in shape, lose or duplicate no buffer, and leave
-- out_head at an unacknowledged message or at out_tail.
use netchan.Base.{
  ◌==◌, Bool-cases, ℕ, zero, suc, ◌+◌, ◌%◌, ◌≤◌, ◌<◌, ◌≡◌, ap, ◌≢◌, inl, inr, true, false, ◌&&◌,
  ◌||◌, none, arith, diff_le_zero,
}
use netchan.Acks.{ack_slot, ack_slots, clear_head, advance_head, acknowledge}
use netchan.BufferPool.Laws.{holds-none, count-pool_put}
use netchan.Channel.Ownership.{in_window, out_held-update, Held}
use netchan.Types.{Outgoing, Chan, Pool}

module _ {b n : ℕ} where
  ack_slot-Held :
      (acked_seq i : ℕ) (st : Chan × Pool)
      → i < 64
      → Held b n st.0 st.1
      → Held b n (ack_slot acked_seq i st).0 (ack_slot acked_seq i st).1
  unfolding ack_slot
  ack_slot-Held acked_seq i (ch, p) h v =
      elim (Bool-cases ((ch.outgoing i).active && diff_le_zero (ch.outgoing i).seq acked_seq)) [
        | inr stays ↦ rw stays v
        | inl acked ↦ rw acked (record {
          inv = record {
            out_head_lt = v.inv.out_head_lt;
            out_tail_lt = v.inv.out_tail_lt;
            rq_head_lt = v.inv.rq_head_lt;
            rq_tail_lt = v.inv.rq_tail_lt;
            out_used = λ j. ground (arith, v.inv.out_used j);
            out_window = λ j l a. ground (arith, v.inv.out_window j l);
            rq_used = v.inv.rq_used;
            reorder_used = v.inv.reorder_used;
            frag_used = v.inv.frag_used;
          };
          total = omega (
            arith,
            out_held-update b i ch.outgoing (record (ch.outgoing i) { buf = none; active = false })
                h,
            count-pool_put b p (ch.outgoing i).buf,
            holds-none b,
            v.total,
          );
        })
      ]

  ack_slots-Held :
      (acked_seq m : ℕ) (st : Chan × Pool)
      → m ≤ 64
      → Held b n st.0 st.1
      → Held b n (ack_slots acked_seq m st).0 (ack_slots acked_seq m st).1
  unfolding ack_slots
  ack_slots-Held acked_seq zero st h v = v
  ack_slots-Held acked_seq (suc m) st h v =
      ack_slot-Held acked_seq m (ack_slots acked_seq m st) h
        (ack_slots-Held acked_seq m st (omega arith) v)

-- How far the loop over the head goes: it stays in the ring, and every slot that was in the window
-- and is in use still is.
abbrev HeadOk : (ℕ → Outgoing) → ℕ → ℕ → ℕ → Type 0
HeadOk outgoing tail head head' =
    (head' < 64)
    × ((i : ℕ)
        → i < 64
        → (outgoing i).active ≡ true
        → in_window head tail i ≡ true
        → in_window head' tail i ≡ true)

window_skip :
    (head tail i : ℕ)
    → head < 64
    → tail < 64
    → i < 64
    → head ≢ tail
    → i ≢ head
    → in_window head tail i ≡ true
    → in_window ((head + 1) % 64) tail i ≡ true
window_skip head tail i h k l ne skip w = ground arith

clear_head-HeadOk :
    (fuel : ℕ) (outgoing : ℕ → Outgoing) (tail head : ℕ)
    → head < 64
    → tail < 64
    → HeadOk outgoing tail head (clear_head fuel outgoing tail head)
unfolding clear_head
clear_head-HeadOk zero outgoing tail head h k = (h, λ i l a w. w)
clear_head-HeadOk (suc fuel) outgoing tail head h k =
    elim (Bool-cases (head == tail || (outgoing head).active)) [
      | inl stop ↦ rw stop (h, λ i l a w. w)
      | inr skip ↦ rw skip (
          let (lt, keep) = clear_head-HeadOk fuel outgoing tail ((head + 1) % 64) (omega arith) k in
          (
            lt,
            λ i l a w. keep i l a (
                window_skip head tail i h k l (ground arith)
                  (λ e. cc (ap (λ j. (outgoing j).active) e, passed head tail skip)) w),
          ))
    ]
  where
    passed :
        (head tail : ℕ)
        → (head == tail || (outgoing head).active) ≡ false
        → (outgoing head).active ≡ false
    passed head tail e = ground arith

pub advance_head-Held :
    {b n : ℕ} {ch : Chan} {p : Pool} → Held b n ch p → Held b n (advance_head ch) p
unfolding advance_head
advance_head-Held {ch = ch} v =
    let (lt, keep) =
      clear_head-HeadOk 64 ch.outgoing ch.out_tail ch.out_head v.inv.out_head_lt
        v.inv.out_tail_lt in
    record {
      inv = record {
        out_head_lt = lt;
        out_tail_lt = v.inv.out_tail_lt;
        rq_head_lt = v.inv.rq_head_lt;
        rq_tail_lt = v.inv.rq_tail_lt;
        out_used = v.inv.out_used;
        out_window = λ i l a. keep i l a (v.inv.out_window i l a);
        rq_used = v.inv.rq_used;
        reorder_used = v.inv.reorder_used;
        frag_used = v.inv.frag_used;
      };
      total = v.total;
    }

-- An acknowledgement keeps the sending channel in shape and conserves every buffer.
pub acknowledge-Held :
    {b n : ℕ} (acked_seq : ℕ) (ch : Chan) (p : Pool)
    → Held b n ch p
    → Held b n (acknowledge acked_seq ch p).0 (acknowledge acked_seq ch p).1
unfolding acknowledge
acknowledge-Held acked_seq ch p v =
    advance_head-Held (ack_slots-Held acked_seq 64 (ch, p) (omega arith) v)
