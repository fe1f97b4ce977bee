-- ===== src/Api/Ownership.antt =====
-- Writing and reading keep a channel in shape and lose or duplicate no buffer.
use netchan.Base.{
  ltb, ◌==◌, Bool-cases, is_some, ℕ, ◌+◌, ◌%◌, ◌≤◌, ◌<◌, ◌≡◌, refl, ap, ◌≢◌, inl, inr, Bool, true,
  false, ◌&&◌, Option, none, some, arith, update, length, count, List,
}
use netchan.Api.{frag_count, Written, queue_as, queue_entry, write_chan, read_chan}
use netchan.BufferPool.{pool_get, pool_put, pool_write}
use netchan.BufferPool.Laws.{holds, holds-none, count-pool_get, count-pool_put}
use netchan.Channel.{no_outgoing, no_recv_entry}
use netchan.Channel.Ownership.{
  in_window, window_push, window_pop, owned, out_held-update, recv_held-update, ChanInv, Held,
}
use netchan.Receive.Progress.{waiting}
use netchan.Types.{
  max_msg, reliable, sender, receiver, chan_opened, chan_closed, Result, ok, Outgoing, Chan, Pool,
}

-- A slot that is about to be filled holds nothing.
free_out_tail : (ch : Chan) → ChanInv ch → (ch.outgoing ch.out_tail).buf ≡ none
free_out_tail ch v = ground (arith, v.out_used ch.out_tail, v.out_window ch.out_tail v.out_tail_lt)

-- Whether a write would exceed the peer's window.
abbrev pub over_window : Chan → ℕ → Bool
over_window ch len =
    (ch.type == reliable && ch.state == chan_opened)
    && ltb ch.send_window (ch.bytes_in_flight + len)

-- Writing changes nothing, or the message is not too long, fits the peer's window, finds room among the
-- entries, and goes on to a buffer.
pub write_chan_cases {ℓ} :
    (P : Written → Type ℓ) (frag_payload : ℕ) (ch : Chan) (p : Pool) (bytes : List ℕ)
    → ((result : Result ℕ) → P (result, ch, p))
    → ((ch.out_tail + 1) % 64 ≢ ch.out_head
        → over_window ch (length bytes) ≡ false
        → length bytes ≤ max_msg
        → P (queue_entry frag_payload ch bytes (pool_get p)))
    → P (write_chan frag_payload ch p bytes)
unfolding write_chan
write_chan_cases P frag_payload ch p bytes fails queues = elim (Bool-cases (ch.role == sender)) [
  | inr e₁ ↦ rw e₁ (fails _)
  | inl e₁ ↦ elim (Bool-cases (ch.state == chan_closed)) [
    | inl e₂ ↦ rw (e₁, e₂) (fails _)
    | inr e₂ ↦ elim (Bool-cases (length bytes == 0)) [
      | inl e₃ ↦ rw (e₁, e₂, e₃) (fails (ok 0))
      | inr e₃ ↦ elim (Bool-cases (ltb max_msg (length bytes))) [
        | inl e₄ ↦ rw (e₁, e₂, e₃, e₄) (fails _)
        | inr e₄ ↦ elim (Bool-cases (over_window ch (length bytes))) [
          | inl e₅ ↦ rw (e₁, e₂, e₃, e₄, e₅) (fails _)
          | inr e₅ ↦ elim (Bool-cases ((ch.out_tail + 1) % 64 == ch.out_head)) [
            | inl e₆ ↦ rw (e₁, e₂, e₃, e₄, e₅, e₆) (fails _)
            | inr e₆ ↦ rw (e₁, e₂, e₃, e₄, e₅, e₆) (queues (ground arith) e₅ (ground arith))
          ]
        ]
      ]
    ]
  ]
]

-- The outcome of writing, as a state of the channel and the pool.
abbrev pub HeldWritten : ℕ → ℕ → Written → Type 0
HeldWritten b n w = Held b n w.1 w.2

module _ {b n : ℕ} where
  -- The entry at out_tail is replaced, and the window grows or stays.
  fill_tail-Held :
      (ch : Chan) (p : Pool) (o : Outgoing) (tail send_seq in_flight msgs : ℕ)
      → o.active ≡ is_some o.buf
      → tail < 64
      → ((j : ℕ)
          → j < 64
          → (update ch.outgoing ch.out_tail o j).active ≡ true
          → in_window ch.out_head tail j ≡ true)
      → ChanInv ch
      → count b p.free + holds b o.buf + owned b ch ≡ n
      → Held b n
          (record ch {
            outgoing = update ch.outgoing ch.out_tail o;
            out_tail = tail;
            send_seq = send_seq;
            bytes_in_flight = in_flight;
            msgs_sent = msgs;
          })
          p
  fill_tail-Held ch p o tail send_seq in_flight msgs used lt window v t = record {
    inv = record {
      out_head_lt = v.out_head_lt;
      out_tail_lt = lt;
      rq_head_lt = v.rq_head_lt;
      rq_tail_lt = v.rq_tail_lt;
      out_used = λ j. ground (arith, v.out_used j);
      out_window = window;
      rq_used = v.rq_used;
      reorder_used = v.reorder_used;
      frag_used = v.frag_used;
    };
    total = omega (
      arith,
      out_held-update b ch.out_tail ch.outgoing o v.out_tail_lt,
      ap (holds b) (free_out_tail ch v),
      holds-none b,
      t,
    );
  }

  queue_as-Held :
      (ch : Chan) (bytes : List ℕ) (x : ℕ) (p : Pool) (frags : Option ℕ)
      → (ch.out_tail + 1) % 64 ≢ ch.out_head
      → ChanInv ch
      → count b p.free + holds b (some x) + owned b ch ≡ n
      → HeldWritten b n (queue_as ch bytes x p frags)
  unfolding queue_as pool_write
  queue_as-Held ch bytes x p none room v t = record {
    inv = v;
    total = omega (arith, count-pool_put b p (some x));
  }
  queue_as-Held ch bytes x p (some total) room v t = elim (Bool-cases (ltb 32 total)) [
    | inl many ↦ rw many (
        fill_tail-Held ch _ no_outgoing ch.out_tail _ _ _ refl v.out_tail_lt
          (λ j l a. ground (arith, v.out_window j l)) v
          (omega (arith, count-pool_put b (pool_write p (some x) 0 bytes) (some x), holds-none b)))
    | inr few ↦ rw few (
        fill_tail-Held ch _ _ ((ch.out_tail + 1) % 64) _ _ _ refl (omega arith)
          (λ j l a. ground (
            arith,
            v.out_window j l,
            window_push ch.out_head ch.out_tail j v.out_head_lt v.out_tail_lt l room,
          ))
          v t)
  ]

  queue_entry-Held :
      (frag_payload : ℕ) (ch : Chan) (bytes : List ℕ) (got : Option ℕ × Pool)
      → (ch.out_tail + 1) % 64 ≢ ch.out_head
      → ChanInv ch
      → count b got.1.free + holds b got.0 + owned b ch ≡ n
      → HeldWritten b n (queue_entry frag_payload ch bytes got)
  unfolding queue_entry
  queue_entry-Held frag_payload ch bytes (none, p) room v t = record {
    inv = v;
    total = omega (arith, holds-none b);
  }
  queue_entry-Held frag_payload ch bytes (some x, p) room v t =
      queue_as-Held ch bytes x p (frag_count frag_payload (length bytes)) room v t

  pub write_chan-Held :
      (frag_payload : ℕ) (ch : Chan) (p : Pool) (bytes : List ℕ)
      → Held b n ch p
      → HeldWritten b n (write_chan frag_payload ch p bytes)
  write_chan-Held frag_payload ch p bytes v =
      write_chan_cases (HeldWritten b n) frag_payload ch p bytes (λ result. v)
        (λ room fits short.
          queue_entry-Held frag_payload ch bytes (pool_get p) room v.inv
            (omega (arith, count-pool_get b p, v.total)))

  -- The first entry of the receive queue is taken out.
  read_first :
      (ch : Chan) (p : Pool) (buffered : ℕ) (update_due : Bool)
      → ch.rq_head ≢ ch.rq_tail
      → Held b n ch p
      → Held b n
          (record ch {
            recv_queue = update ch.recv_queue ch.rq_head no_recv_entry;
            rq_head = (ch.rq_head + 1) % 64;
            recv_buffered = buffered;
            need_window_update = update_due;
          })
          (pool_put p (ch.recv_queue ch.rq_head).buf)
  read_first ch p buffered update_due some_wait v = record {
    inv = record {
      out_head_lt = v.inv.out_head_lt;
      out_tail_lt = v.inv.out_tail_lt;
      rq_head_lt = omega arith;
      rq_tail_lt = v.inv.rq_tail_lt;
      out_used = v.inv.out_used;
      out_window = v.inv.out_window;
      rq_used = λ i h. ground (
        arith,
        window_pop ch.rq_head ch.rq_tail i v.inv.rq_head_lt v.inv.rq_tail_lt h,
        v.inv.rq_used i h,
      );
      reorder_used = v.inv.reorder_used;
      frag_used = v.inv.frag_used;
    };
    total = omega (
      arith,
      recv_held-update b ch.rq_head ch.recv_queue no_recv_entry v.inv.rq_head_lt,
      count-pool_put b p (ch.recv_queue ch.rq_head).buf,
      holds-none b,
      v.total,
    );
  }

  pub read_chan-Held :
      (ch : Chan) (p : Pool) (buflen : ℕ)
      → Held b n ch p
      → Held b n (read_chan ch p buflen).1 (read_chan ch p buflen).2
  unfolding read_chan
  read_chan-Held ch p buflen v = elim (Bool-cases (ch.role == receiver)) [
    | inr other ↦ rw other v
    | inl ours ↦ elim (Bool-cases (ch.rq_head == ch.rq_tail)) [
      | inl empty ↦ rw (ours, empty) v
      | inr waiting ↦ rw (ours, waiting) (read_first ch p _ _ (ground arith) v)
    ]
  ]
