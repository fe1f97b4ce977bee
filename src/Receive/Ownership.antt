-- ===== src/Receive/Ownership.antt =====
-- The receiving functions keep a channel in shape and lose or duplicate no buffer.
use netchan.Base.{
  ltb, ◌==◌, Bool-cases, ℕ, zero, suc, ◌+◌, ◌%◌, ◌≤◌, ◌<◌, ◌≡◌, refl, ap, ◌≢◌, inl, inr, Bool, true,
  false, not, Option, none, some, arith, update, length, count, List, inc16,
}
use netchan.BufferPool.{pool_get, pool_put, pool_write, pool_read}
use netchan.BufferPool.Laws.{holds, holds-none, count-pool_get, count-pool_put}
use netchan.Channel.{no_frag}
use netchan.Channel.Ownership.{
  window_push, owned, recv_held-update, reorder_held-update, frag_held-update, ChanInv, Held,
}
use netchan.Receive.{
  Rx, store_entry, chan_recv_enqueue, deliver, deliver_slot, next_waits, deliver_rounds,
  chan_deliver_reordered, first_frag, place_frag, alloc_at, frag_alloc, frag_free,
}
use netchan.Types.{max_frags, max_msg, Reorder, FragAsm, Pool}

-- A channel beside the pool, as the receiving functions see them.
abbrev pub HeldRx : ℕ → ℕ → Rx → Type 0
HeldRx b n r = Held b n r.ch r.pool

-- The slot behind the queue's last entry is empty.
empty_tail : (r : Rx) → ChanInv r.ch → (r.ch.recv_queue r.ch.rq_tail).buf ≡ none
empty_tail r v = ground (arith, v.rq_used r.ch.rq_tail v.rq_tail_lt)

module _ {b n : ℕ} where
  store_entry-Held :
      (r : Rx) (next : ℕ) (bytes : List ℕ) (got : Option ℕ × Pool)
      → next ≡ (r.ch.rq_tail + 1) % 64
      → next ≢ r.ch.rq_head
      → ChanInv r.ch
      → count b got.1.free + holds b got.0 + owned b r.ch ≡ n
      → HeldRx b n (store_entry r next bytes got).1
  unfolding store_entry pool_write
  store_entry-Held r next bytes (none, p) e ne v t = record {
    inv = v;
    total = omega (arith, holds-none b);
  }
  store_entry-Held r next bytes (some x, p) e ne v t = record {
    inv = record {
      out_head_lt = v.out_head_lt;
      out_tail_lt = v.out_tail_lt;
      rq_head_lt = v.rq_head_lt;
      rq_tail_lt = omega arith;
      out_used = v.out_used;
      out_window = v.out_window;
      rq_used = λ i h. ground (
        arith,
        window_push r.ch.rq_head r.ch.rq_tail i v.rq_head_lt v.rq_tail_lt h,
        v.rq_used i h,
      );
      reorder_used = v.reorder_used;
      frag_used = v.frag_used;
    };
    total = ground (
      arith,
      recv_held-update b r.ch.rq_tail r.ch.recv_queue (record { buf = some x; len = length bytes }),
      empty_tail r v,
      holds-none b,
    );
  }

  pub chan_recv_enqueue-Held :
      (r : Rx) (bytes : List ℕ) → HeldRx b n r → HeldRx b n (chan_recv_enqueue r bytes).1
  unfolding chan_recv_enqueue
  chan_recv_enqueue-Held r bytes v = elim (Bool-cases (next == r.ch.rq_head)) [
    | inl full ↦ rw full v
    | inr room ↦ elim (Bool-cases (ltb max_msg (length bytes))) [
      | inl long ↦ rw (room, long) v
      | inr fits ↦
          rw (room, fits)
            (store_entry-Held r next bytes (pool_get r.pool) refl (ground arith) v.inv
              (omega (arith, count-pool_get b r.pool, v.total)))
    ]
  ]
    where
      next : ℕ
      next = (r.ch.rq_tail + 1) % 64

  pub deliver-Held :
      (s : ℕ) (r : Rx) (bytes : List ℕ) → HeldRx b n r → HeldRx b n (deliver s r bytes)
  unfolding deliver
  deliver-Held s r bytes v = record {
    inv = (chan_recv_enqueue-Held r bytes v).inv;
    total = (chan_recv_enqueue-Held r bytes v).total;
  }

  -- A slot of the reorder buffer is emptied and its buffer goes back to the pool.
  release_slot-Held :
      (r : Rx) (slot recv_seq : ℕ) (x : Option ℕ)
      → slot < 64
      → (r.ch.reorder slot).buf ≡ x
      → HeldRx b n r
      → Held b n
          (record (r.ch) {
            reorder =
                update r.ch.reorder slot (record (r.ch.reorder slot) { buf = none; valid = false });
            recv_seq = recv_seq;
          })
          (pool_put r.pool x)
  release_slot-Held r slot recv_seq x h e v = record {
    inv = record {
      out_head_lt = v.inv.out_head_lt;
      out_tail_lt = v.inv.out_tail_lt;
      rq_head_lt = v.inv.rq_head_lt;
      rq_tail_lt = v.inv.rq_tail_lt;
      out_used = v.inv.out_used;
      out_window = v.inv.out_window;
      rq_used = v.inv.rq_used;
      reorder_used = λ i. ground (arith, v.inv.reorder_used i);
      frag_used = v.inv.frag_used;
    };
    total = omega (
      arith,
      reorder_held-update b slot r.ch.reorder
          (record (r.ch.reorder slot) { buf = none; valid = false }) h,
      holds-none b,
      count-pool_put b r.pool x,
      ap (holds b) e,
      v.total,
    );
  }

  pub frag_free-Held : (r : Rx) (i : ℕ) → i < 4 → HeldRx b n r → HeldRx b n (frag_free r i)
  unfolding frag_free
  frag_free-Held r i h v = record {
    inv = record {
      out_head_lt = v.inv.out_head_lt;
      out_tail_lt = v.inv.out_tail_lt;
      rq_head_lt = v.inv.rq_head_lt;
      rq_tail_lt = v.inv.rq_tail_lt;
      out_used = v.inv.out_used;
      out_window = v.inv.out_window;
      rq_used = v.inv.rq_used;
      reorder_used = v.inv.reorder_used;
      frag_used = λ j. ground (arith, v.inv.frag_used j);
    };
    total = omega (
      arith,
      frag_held-update b i r.ch.frags no_frag h,
      holds-none b,
      count-pool_put b r.pool (r.ch.frags i).buf,
      v.total,
    );
  }

store_entry-reorder :
    (r : Rx) (next : ℕ) (bytes : List ℕ) (got : Option ℕ × Pool)
    → (store_entry r next bytes got).1.ch.reorder ≡ r.ch.reorder
unfolding store_entry
store_entry-reorder r next bytes (none, p) = refl
store_entry-reorder r next bytes (some x, p) = refl

chan_recv_enqueue-reorder :
    (r : Rx) (bytes : List ℕ) → (chan_recv_enqueue r bytes).1.ch.reorder ≡ r.ch.reorder
unfolding chan_recv_enqueue
chan_recv_enqueue-reorder r bytes =
    ground (arith, store_entry-reorder r ((r.ch.rq_tail + 1) % 64) bytes (pool_get r.pool))

-- Delivery touches the receive queue and nothing else of the channel.
pub deliver-reorder :
    (s : ℕ) (r : Rx) (bytes : List ℕ) → (deliver s r bytes).ch.reorder ≡ r.ch.reorder
unfolding deliver
deliver-reorder s r bytes = chan_recv_enqueue-reorder r bytes

module _ {b n : ℕ} where
  pub deliver_slot-Held : (s : ℕ) (r : Rx) → HeldRx b n r → HeldRx b n (deliver_slot s r)
  unfolding deliver_slot
  deliver_slot-Held s r v =
      let slot = r.ch.recv_seq % 64 in
      let e = r.ch.reorder slot in
      let r' = deliver s r (pool_read r.pool e.buf 0 e.len) in
      release_slot-Held r' slot (inc16 r'.ch.recv_seq) e.buf (omega arith)
        (ap (λ (f : ℕ → Reorder). (f slot).buf) (deliver-reorder s r _)) (deliver-Held s r _ v)

  deliver_rounds-Held : (s fuel : ℕ) (r : Rx) → HeldRx b n r → HeldRx b n (deliver_rounds s fuel r)
  unfolding deliver_rounds
  deliver_rounds-Held s zero r v = v
  deliver_rounds-Held s (suc fuel) r v = elim (Bool-cases (next_waits r.ch)) [
    | inl waits ↦
        rw (waits, deliver_rounds)
          (deliver_rounds-Held s fuel (deliver_slot s r) (deliver_slot-Held s r v))
    | inr done ↦ rw (done, deliver_rounds) v
  ]

  pub chan_deliver_reordered-Held :
      (s : ℕ) (r : Rx) → HeldRx b n r → HeldRx b n (chan_deliver_reordered s r)
  unfolding chan_deliver_reordered
  chan_deliver_reordered-Held s r v = deliver_rounds-Held s 65 r v

  place_frag-Held :
      (r : Rx) (i seq total : ℕ) (got : Option ℕ × Pool)
      → i < 4
      → (r.ch.frags i).active ≡ false
      → ChanInv r.ch
      → count b got.1.free + holds b got.0 + owned b r.ch ≡ n
      → HeldRx b n (place_frag r i seq total got).1
  unfolding place_frag
  place_frag-Held r i seq total (none, p) h idle v t = record {
    inv = v;
    total = omega (arith, holds-none b);
  }
  place_frag-Held r i seq total (some x, p) h idle v t = record {
    inv = record {
      out_head_lt = v.out_head_lt;
      out_tail_lt = v.out_tail_lt;
      rq_head_lt = v.rq_head_lt;
      rq_tail_lt = v.rq_tail_lt;
      out_used = v.out_used;
      out_window = v.out_window;
      rq_used = v.rq_used;
      reorder_used = v.reorder_used;
      frag_used = λ j. ground (arith, v.frag_used j);
    };
    total = ground (
      arith,
      frag_held-update b i r.ch.frags
          (record no_frag { seq = seq; total = total; active = true; buf = some x }),
      v.frag_used i,
      holds-none b,
    );
  }

  alloc_at-Held :
      (r : Rx) (seq total : ℕ) (i : Option ℕ)
      → ((j : ℕ) → i ≡ some j → (j < 4) × ((r.ch.frags j).active ≡ false))
      → HeldRx b n r
      → HeldRx b n (alloc_at r seq total i).1
  unfolding alloc_at
  alloc_at-Held r seq total none h v = v
  alloc_at-Held r seq total (some i) h v =
      place_frag-Held r i seq total (pool_get r.pool) (h i refl).0 (h i refl).1 v.inv
        (omega (arith, count-pool_get b r.pool, v.total))

-- What first_frag finds is in range and passes the test.
pub first_frag_sound :
    (test : FragAsm → Bool) (frags : ℕ → FragAsm) (i n j : ℕ)
    → first_frag test frags i n ≡ some j
    → (i ≤ j) × (j < i + n) × (test (frags j) ≡ true)
unfolding first_frag
first_frag_sound test frags i zero j h = absurd (ground arith)
first_frag_sound test frags i (suc n) j h = ground (arith, first_frag_sound test frags (i + 1) n j)

place_frag-index :
    (r : Rx) (j seq total i : ℕ) (got : Option ℕ × Pool)
    → (place_frag r j seq total got).0 ≡ some i
    → j ≡ i
unfolding place_frag
place_frag-index r j seq total i (none, p) h = absurd (ground arith)
place_frag-index r j seq total i (some x, p) h = ground arith

alloc_at-lt :
    (r : Rx) (seq total i : ℕ) (o : Option ℕ)
    → ((j : ℕ) → o ≡ some j → j < 4)
    → (alloc_at r seq total o).0 ≡ some i
    → i < 4
unfolding alloc_at
alloc_at-lt r seq total i none lt h = absurd (ground arith)
alloc_at-lt r seq total i (some j) lt h =
    omega (arith, lt j refl, place_frag-index r j seq total i (pool_get r.pool) h)

-- The slot that frag_alloc hands out is one of the four.
pub frag_alloc-lt : (r : Rx) (seq total i : ℕ) → (frag_alloc r seq total).0 ≡ some i → i < 4
unfolding frag_alloc
frag_alloc-lt r seq total i h = elim (Bool-cases (ltb max_frags total)) [
  | inl many ↦ absurd (ground arith)
  | inr few ↦
      alloc_at-lt r seq total i _
        (λ j e. (first_frag_sound (λ f. not f.active) r.ch.frags 0 4 j e).1) (ground arith)
]

pub frag_alloc-Held :
    {b n : ℕ} (r : Rx) (seq total : ℕ) → HeldRx b n r → HeldRx b n (frag_alloc r seq total).1
unfolding frag_alloc
frag_alloc-Held r seq total v = elim (Bool-cases (ltb max_frags total)) [
  | inl many ↦ rw many v
  | inr few ↦ rw few (alloc_at-Held r seq total _ found v)
]
  where
    found :
        (j : ℕ)
        → first_frag (λ f. not f.active) r.ch.frags 0 4 ≡ some j
        → (j < 4) × ((r.ch.frags j).active ≡ false)
    found j e = ground (arith, first_frag_sound (λ f. not f.active) r.ch.frags 0 4 j e)
