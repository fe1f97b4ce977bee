-- ===== src/Data/Ownership.antt =====
-- process_data keeps the receiving channel in shape and loses or duplicates no buffer.
use netchan.Base.{
  ltb, leb, ◌==◌, Bool-cases, ℕ, zero, suc, ◌+◌, ◌*◌, ◌%◌, ◌^◌, ◌<◌, ◌≡◌, refl, ◌∙◌, inl, inr, Bool,
  true, false, not, ◌&&◌, Option, none, some, arith, update, length, count, List, inc8, inc16,
  sub16,
}
use netchan.BufferPool.{pool_get, pool_write}
use netchan.BufferPool.Laws.{holds, holds-none, count-pool_get}
use netchan.Channel.Ownership.{owned, reorder_held-update, frag_held-update, ChanInv}
use netchan.Data.{
  fill_slot, hold_back, next_message, accept_reliable, has_bit, move_frag, compact, finish_frag,
  store_frag, add_frag, take_frag, find_or_alloc, on_frag, request_ack, receive_data,
}
use netchan.Receive.{Rx, deliver, frag_find, frag_alloc}
use netchan.Receive.Ownership.{
  HeldRx, deliver-Held, frag_free-Held, chan_deliver_reordered-Held, first_frag_sound,
  frag_alloc-lt, frag_alloc-Held,
}
use netchan.Types.{unreliable, FragAsm, Pool}

module _ {b n : ℕ} where
  -- Counters and sequence numbers are no part of what a channel holds.
  pub recv_seq-Held :
      (r : Rx) (seq : ℕ)
      → HeldRx b n r
      → HeldRx b n (record r { ch = record (r.ch) { recv_seq = seq } })
  recv_seq-Held r seq v = record {
    inv = record {
      out_head_lt = v.inv.out_head_lt;
      out_tail_lt = v.inv.out_tail_lt;
      rq_head_lt = v.inv.rq_head_lt;
      rq_tail_lt = v.inv.rq_tail_lt;
      out_used = v.inv.out_used;
      out_window = v.inv.out_window;
      rq_used = v.inv.rq_used;
      reorder_used = v.inv.reorder_used;
      frag_used = v.inv.frag_used;
    };
    total = v.total;
  }

  request_ack-Held : (r : Rx) → HeldRx b n r → HeldRx b n (request_ack r)
  unfolding request_ack
  request_ack-Held r v = record {
    inv = record {
      out_head_lt = v.inv.out_head_lt;
      out_tail_lt = v.inv.out_tail_lt;
      rq_head_lt = v.inv.rq_head_lt;
      rq_tail_lt = v.inv.rq_tail_lt;
      out_used = v.inv.out_used;
      out_window = v.inv.out_window;
      rq_used = v.inv.rq_used;
      reorder_used = v.inv.reorder_used;
      frag_used = v.inv.frag_used;
    };
    total = v.total;
  }

  fill_slot-Held :
      (r : Rx) (seq : ℕ) (bytes : List ℕ) (got : Option ℕ × Pool)
      → (r.ch.reorder (seq % 64)).valid ≡ false
      → ChanInv r.ch
      → count b got.1.free + holds b got.0 + owned b r.ch ≡ n
      → HeldRx b n (fill_slot r seq bytes got)
  unfolding fill_slot pool_write
  fill_slot-Held r seq bytes (none, p) idle v t = record {
    inv = v;
    total = omega (arith, holds-none b);
  }
  fill_slot-Held r seq bytes (some x, p) idle v t = record {
    inv = record {
      out_head_lt = v.out_head_lt;
      out_tail_lt = v.out_tail_lt;
      rq_head_lt = v.rq_head_lt;
      rq_tail_lt = v.rq_tail_lt;
      out_used = v.out_used;
      out_window = v.out_window;
      rq_used = v.rq_used;
      reorder_used = λ i. ground (arith, v.reorder_used i);
      frag_used = v.frag_used;
    };
    total = ground (
      arith,
      reorder_held-update b (seq % 64) r.ch.reorder
          (record { seq = seq; buf = some x; len = length bytes; valid = true }),
      v.reorder_used (seq % 64),
      holds-none b,
    );
  }

  hold_back-Held :
      (r : Rx) (seq : ℕ) (bytes : List ℕ) → HeldRx b n r → HeldRx b n (hold_back r seq bytes)
  unfolding hold_back
  hold_back-Held r seq bytes v = elim (Bool-cases guard) [
    | inl holds_back ↦ rw holds_back (
        fill_slot-Held r seq bytes (pool_get r.pool) (ground arith) v.inv
          (omega (arith, count-pool_get b r.pool, v.total)))
    | inr drops ↦ rw drops v
  ]
    where
      guard : Bool
      guard =
          (ltb 0 (sub16 seq r.ch.recv_seq) && ltb (sub16 seq r.ch.recv_seq) 64)
          && (not (r.ch.reorder (seq % 64)).valid && leb (length bytes) 2048)

  pub accept_reliable-Held :
      (s : ℕ) (r : Rx) (seq : ℕ) (bytes : List ℕ)
      → HeldRx b n r
      → HeldRx b n (accept_reliable s r seq bytes)
  unfolding accept_reliable next_message
  accept_reliable-Held s r seq bytes v = elim (Bool-cases (seq == r.ch.recv_seq)) [
    | inl now ↦ rw now (
        let r' = deliver s r bytes in
        chan_deliver_reordered-Held s _
          (recv_seq-Held r' (inc16 r'.ch.recv_seq) (deliver-Held s r bytes v)))
    | inr early ↦ rw early (hold_back-Held r seq bytes v)
  ]

-- Moving bytes about leaves the free stack alone.
pub compact-free :
    (x : Option ℕ) (offsets : ℕ → ℕ) (fp i m at : ℕ) (p : Pool)
    → (compact x offsets fp i m at p).1.free ≡ p.free
unfolding compact move_frag pool_write
compact-free x offsets fp i zero at p = refl
compact-free x offsets fp i (suc m) at p = compact-free x offsets fp (i + 1) m _ _ ∙ ground arith

module _ {b n : ℕ} (take_message : Rx → List ℕ → Rx)
    (keeps : (r : Rx) (bytes : List ℕ) → HeldRx b n r → HeldRx b n (take_message r bytes)) where
  -- Only the free stack of the pool matters.
  pub same_free-Held :
      (r : Rx) (p : Pool) → p.free ≡ r.pool.free → HeldRx b n r → HeldRx b n (record r { pool = p })
  same_free-Held r p e v = record { inv = v.inv; total = rw e v.total }

  finish_frag-Held :
      (fp i : ℕ) (r : Rx) → i < 4 → HeldRx b n r → HeldRx b n (finish_frag take_message fp i r)
  unfolding finish_frag
  finish_frag-Held fp i r h v =
      let f = r.ch.frags i in
      frag_free-Held _ i h
        (keeps _ _ (same_free-Held r _ (compact-free f.buf f.offsets fp 0 f.total 0 r.pool) v))

  pub store_frag-Held :
      (fp : ℕ) (r : Rx) (i frag_idx : ℕ) (payload : List ℕ)
      → i < 4
      → HeldRx b n r
      → HeldRx b n (store_frag fp r i frag_idx payload)
  unfolding store_frag pool_write
  store_frag-Held fp r i frag_idx payload h v = record {
    inv = record {
      out_head_lt = v.inv.out_head_lt;
      out_tail_lt = v.inv.out_tail_lt;
      rq_head_lt = v.inv.rq_head_lt;
      rq_tail_lt = v.inv.rq_tail_lt;
      out_used = v.inv.out_used;
      out_window = v.inv.out_window;
      rq_used = v.inv.rq_used;
      reorder_used = v.inv.reorder_used;
      frag_used = λ j. ground (arith, v.inv.frag_used j);
    };
    total = omega (
      arith,
      frag_held-update b i r.ch.frags
          (let f = r.ch.frags i in
            record f {
              offsets = update f.offsets frag_idx (length payload);
              bitmask = f.bitmask + 2 ^ frag_idx;
              have = inc8 f.have;
            })
          h,
      v.total,
    );
  }

  add_frag-Held :
      (fp : ℕ) (r : Rx) (i frag_idx : ℕ) (payload : List ℕ)
      → i < 4
      → HeldRx b n r
      → HeldRx b n (add_frag take_message fp r i frag_idx payload)
  unfolding add_frag
  add_frag-Held fp r i frag_idx payload h v =
      let r' = store_frag fp r i frag_idx payload in
      let v' = store_frag-Held fp r i frag_idx payload h v in
      elim (Bool-cases ((r'.ch.frags i).have == (r'.ch.frags i).total)) [
        | inl complete ↦ rw complete (finish_frag-Held fp i r' h v')
        | inr partial ↦ rw partial v'
      ]

  take_frag-Held :
      (fp frag_idx : ℕ) (payload : List ℕ) (i : Option ℕ) (r : Rx)
      → ((j : ℕ) → i ≡ some j → j < 4)
      → HeldRx b n r
      → HeldRx b n (take_frag take_message fp frag_idx payload (i, r))
  unfolding take_frag
  take_frag-Held fp frag_idx payload none r h v = v
  take_frag-Held fp frag_idx payload (some i) r h v = elim (Bool-cases (wanted (r.ch.frags i))) [
    | inl new_one ↦ rw new_one (add_frag-Held fp r i frag_idx payload (h i refl) v)
    | inr other ↦ rw other v
  ]
    where
      wanted : FragAsm → Bool
      wanted f =
          (ltb frag_idx f.total && not (has_bit f.bitmask frag_idx))
          && leb (frag_idx * fp + length payload) 2048

  find_or_alloc-Held :
      (fp : ℕ) (r : Rx) (seq frag_idx frag_total : ℕ) (payload : List ℕ) (i : Option ℕ)
      → frag_find r.ch seq ≡ i
      → HeldRx b n r
      → HeldRx b n (take_frag take_message fp frag_idx payload (find_or_alloc r seq frag_total i))
  unfolding find_or_alloc frag_find
  find_or_alloc-Held fp r seq frag_idx frag_total payload none e v =
      take_frag-Held fp frag_idx payload (frag_alloc r seq frag_total).0
        (frag_alloc r seq frag_total).1 (frag_alloc-lt r seq frag_total)
        (frag_alloc-Held r seq frag_total v)
  find_or_alloc-Held fp r seq frag_idx frag_total payload (some i) e v =
      take_frag-Held fp frag_idx payload (some i) r
        (λ j q. ground (arith, first_frag_sound (λ f. f.active && f.seq == seq) r.ch.frags 0 4 i e))
        v

  on_frag-Held :
      (fp : ℕ) (r : Rx) (seq frag_idx frag_total : ℕ) (payload : List ℕ)
      → HeldRx b n r
      → HeldRx b n (on_frag take_message fp r seq frag_idx frag_total payload)
  unfolding on_frag
  on_frag-Held fp r seq frag_idx frag_total payload v =
      find_or_alloc-Held fp r seq frag_idx frag_total payload (frag_find r.ch seq) refl v

-- Until a copy leaves pool_store, a DATA frame keeps a channel that is in shape in shape, and conserves
-- every buffer: the number of places that hold it, in the pool and the channel together, stays the same.
pub receive_data-Held :
    {b n : ℕ} (s fp : ℕ) (r : Rx) (seq frag_idx frag_total : ℕ) (payload : List ℕ)
    → HeldRx b n r
    → HeldRx b n (receive_data s fp r seq frag_idx frag_total payload)
unfolding receive_data
receive_data-Held s fp r seq frag_idx frag_total payload v =
    elim (Bool-cases (r.ch.type == unreliable)) [
      | inl u ↦ elim (Bool-cases (leb frag_total 1)) [
        | inl w ↦ rw (u, w) (deliver-Held s r payload v)
        | inr f ↦
            rw (u, f)
              (on_frag-Held (deliver s) (deliver-Held s) fp r seq frag_idx frag_total payload v)
      ]
      | inr u ↦ elim (Bool-cases (leb frag_total 1)) [
        | inl w ↦ rw (u, w) (request_ack-Held _ (accept_reliable-Held s r seq payload v))
        | inr f ↦
            rw (u, f)
              (request_ack-Held _ (
                on_frag-Held _ (λ r' bytes. accept_reliable-Held s r' seq bytes) fp r seq frag_idx
                  frag_total payload v))
      ]
    ]
