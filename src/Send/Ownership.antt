-- ===== src/Send/Ownership.antt =====
-- Sending keeps a channel in shape and loses or duplicates no buffer.
use netchan.Base.{
  leb, ◌==◌, Bool-cases, ℕ, zero, suc, ◌+◌, ◌%◌, ◌<◌, ◌≡◌, refl, ap, inl, inr, Bool, true, false,
  ◌&&◌, none, some, arith, update, length, List, inc8,
}
use netchan.Acks.Ownership.{advance_head-Held}
use netchan.BufferPool.{pool_put}
use netchan.BufferPool.Laws.{holds, holds-none, count-pool_put}
use netchan.Channel.Ownership.{out_held-update, Held}
use netchan.Send.{scan_sendable, ack_frame, window_frame, mark_sent, after_sent}
use netchan.Types.{unreliable, Outgoing, Chan, Pool}

-- What the scan finds lies in the ring, is in use and has a fragment to send.
pub scan_sendable_sound :
    (fuel : ℕ) (outgoing : ℕ → Outgoing) (tail idx i : ℕ)
    → idx < 64
    → scan_sendable fuel outgoing tail idx ≡ some i
    → (i < 64) × ((outgoing i).active ≡ true) × ((outgoing i).frag_sent < (outgoing i).frag_total)
unfolding scan_sendable
scan_sendable_sound zero outgoing tail idx i h e = absurd (ground arith)
scan_sendable_sound (suc fuel) outgoing tail idx i h e =
    ground (arith, scan_sendable_sound fuel outgoing tail ((idx + 1) % 64) i)

module _ {b n : ℕ} where
  -- An entry is replaced by one that holds the same buffer and is as active.
  pub same_entry-Held :
      (ch : Chan) (p : Pool) (idx : ℕ) (o : Outgoing)
      → idx < 64
      → o.buf ≡ (ch.outgoing idx).buf
      → o.active ≡ (ch.outgoing idx).active
      → Held b n ch p
      → Held b n (record ch { outgoing = update ch.outgoing idx o }) p
  same_entry-Held ch p idx o h e a v = record {
    inv = record {
      out_head_lt = v.inv.out_head_lt;
      out_tail_lt = v.inv.out_tail_lt;
      rq_head_lt = v.inv.rq_head_lt;
      rq_tail_lt = v.inv.rq_tail_lt;
      out_used = λ j. ground (arith, v.inv.out_used j, v.inv.out_used idx);
      out_window = λ j l a'. ground (arith, v.inv.out_window j l);
      rq_used = v.inv.rq_used;
      reorder_used = v.inv.reorder_used;
      frag_used = v.inv.frag_used;
    };
    total = omega (arith, out_held-update b idx ch.outgoing o h, ap (holds b) e, v.total);
  }

  -- An entry gives its buffer back.
  clear_entry-Held :
      (ch : Chan) (p : Pool) (idx : ℕ) (o : Outgoing)
      → idx < 64
      → o.buf ≡ (ch.outgoing idx).buf
      → Held b n ch p
      → Held b n
          (record ch {
            outgoing = update ch.outgoing idx (record o { buf = none; active = false });
          })
          (pool_put p o.buf)
  clear_entry-Held ch p idx o h e v = record {
    inv = record {
      out_head_lt = v.inv.out_head_lt;
      out_tail_lt = v.inv.out_tail_lt;
      rq_head_lt = v.inv.rq_head_lt;
      rq_tail_lt = v.inv.rq_tail_lt;
      out_used = λ j. ground (arith, v.inv.out_used j);
      out_window = λ j l a'. ground (arith, v.inv.out_window j l);
      rq_used = v.inv.rq_used;
      reorder_used = v.inv.reorder_used;
      frag_used = v.inv.frag_used;
    };
    total = omega (
      arith,
      out_held-update b idx ch.outgoing (record o { buf = none; active = false }) h,
      count-pool_put b p o.buf,
      ap (holds b) e,
      holds-none b,
      v.total,
    );
  }

  pub after_sent-Held :
      (ch : Chan) (p : Pool) (idx now : ℕ)
      → idx < 64
      → Held b n ch p
      → Held b n
          (after_sent ch p idx (mark_sent now (ch.outgoing idx))).0
          (after_sent ch p idx (mark_sent now (ch.outgoing idx))).1
  unfolding after_sent mark_sent
  after_sent-Held ch p idx now h v =
      elim (Bool-cases (
        leb (ch.outgoing idx).frag_total (inc8 (ch.outgoing idx).frag_sent)
        && ch.type == unreliable)) [
          | inl done ↦ rw done (
              advance_head-Held
                (clear_entry-Held ch p idx (mark_sent now (ch.outgoing idx)) h refl v))
          | inr waits ↦
              rw waits (same_entry-Held ch p idx (mark_sent now (ch.outgoing idx)) h refl refl v)
        ]

  -- Two flags are no part of what a channel holds.
  flags-Held :
      (ch : Chan) (p : Pool) (need_ack need_update : Bool)
      → Held b n ch p
      → Held b n (record ch { need_ack = need_ack; need_window_update = need_update }) p
  flags-Held ch p need_ack need_update v = record {
    inv = record {
      out_head_lt = v.inv.out_head_lt;
      out_tail_lt = v.inv.out_tail_lt;
      rq_head_lt = v.inv.rq_head_lt;
      rq_tail_lt = v.inv.rq_tail_lt;
      out_used = v.inv.out_used;
      out_window = v.inv.out_window;
      rq_used = v.inv.rq_used;
      reorder_used = v.inv.reorder_used;
      frag_used = v.inv.frag_used;
    };
    total = v.total;
  }

  pub ack_frame-Held :
      (mtu : ℕ) (ch : Chan) (out : List ℕ) (p : Pool)
      → Held b n ch p
      → Held b n (ack_frame mtu ch out).0 p
  unfolding ack_frame
  ack_frame-Held mtu ch out p v = elim (Bool-cases (ch.need_ack && leb (length out + 4) mtu)) [
    | inl e ↦ rw e (flags-Held ch p false ch.need_window_update v)
    | inr e ↦ rw e v
  ]

  pub window_frame-Held :
      (mtu : ℕ) (ch : Chan) (out : List ℕ) (p : Pool)
      → Held b n ch p
      → Held b n (window_frame mtu ch out).0 p
  unfolding window_frame
  window_frame-Held mtu ch out p v =
      elim (Bool-cases (ch.need_window_update && leb (length out + 6) mtu)) [
        | inl e ↦ rw e (flags-Held ch p ch.need_ack false v)
        | inr e ↦ rw e v
      ]
