-- ===== src/Microchan/Receiver.antt =====
-- The calls of microchan/src/microchan.c that a receiver makes besides mc_feed keep the order of what it
-- has read.
use netchan.Base.{
  ltb, leb, ◌==◌, if◌then◌else◌, eq_self, Bool-cases, if_cases, ℕ, ◌≡◌, refl, sym, ap, ◌∙◌, ◌⊎◌,
  inl, inr, false, not, ◌&&◌, ◌||◌, arith, length, List, [], ◌∷◌, ◌++◌, append_assoc, append-nil,
  sub16,
}
use netchan.Microchan.{read_msg, mc_read, write_reliable, make_room, write_unreliable, mc_write}
use netchan.Microchan.Delivery.{InOrder, Receives}
use netchan.Microchan.Log.{Message}
use netchan.Microchan.Rings.{inbox8, inbox8-oldest, waiting}
use netchan.Microchan.Send.{
  send_data, with_reliable, with_unreliable, send_reliable, send_unreliable, nothing_to_say,
  send_queued, mc_send_next,
}
use netchan.Microchan.Types.{
  mc_window, mc_unrel_txq, mc_hdr, mc_maxmsg, mc_reliable, is_up, McError, mc_err, mc_err_again,
  mc_err_closed, mc_err_toobig, McChan, Microchan,
}

-- What mc_read of channel i adds to what was read on channel k.
unfoldable pub read_by : ℕ → ℕ → ℕ → McError ⊎ List ℕ → List (List ℕ)
read_by k i waiting (inl e) = []
read_by k i waiting (inr m) = if i == k && not (waiting == 0) then m ∷ [] else []

pub mc_write-Receives :
    (k : ℕ) (log : List Message) (got : List (List ℕ)) (c : Microchan) (i : ℕ) (bytes : List ℕ)
    → Receives k log got c
    → Receives k log got (mc_write c i bytes).1
unfolding mc_write write_reliable write_unreliable make_room
mc_write-Receives k log got c i bytes v =
    let P : (McError ⊎ ℕ) × Microchan → Type 0 = λ r. Receives k log got r.1 in
    if_cases P (not (c.chan i).used) (inl mc_err, c) _ (λ e. v)
      (λ e.
        if_cases P (not (is_up c.state)) (inl mc_err_closed, c) _ (λ e. v)
          (λ e.
            if_cases P (ltb mc_maxmsg (length bytes)) (inl mc_err_toobig, c) _ (λ e. v)
              (λ e.
                if_cases P ((c.chan i).type == mc_reliable) _ _
                  (λ e.
                    if_cases P (leb mc_window (sub16 c.tx_next c.tx_base)) (inl mc_err_again, c) _
                      (λ e. v) (λ e. v))
                  (λ e. elim (Bool-cases (leb mc_unrel_txq c.txu_count)) [
                    | inl full ↦ rw full v
                    | inr room ↦ rw room v
                  ]))))

send_queued-Receives :
    (k : ℕ) (log : List Message) (got : List (List ℕ)) (c : Microchan) (buflen : ℕ)
    → Receives k log got c
    → Receives k log got (send_queued c buflen).1
unfolding send_queued send_data send_unreliable send_reliable with_unreliable with_reliable
send_queued-Receives k log got c buflen v =
    elim (Bool-cases (not (is_up c.state) || nothing_to_say c)) [
      | inl quiet ↦ rw quiet v
      | inr talks ↦ rw talks v
    ]

pub mc_send_next-Receives :
    (k : ℕ) (log : List Message) (got : List (List ℕ)) (c : Microchan) (buflen : ℕ)
    → Receives k log got c
    → Receives k log got (mc_send_next c buflen).1
unfolding mc_send_next
mc_send_next-Receives k log got c buflen v = elim (Bool-cases (ltb buflen mc_hdr)) [
  | inl short ↦ rw short v
  | inr long ↦ elim (Bool-cases c.send_synack) [
    | inl e ↦ rw (long, e) v
    | inr e₁ ↦ elim (Bool-cases c.send_ack) [
      | inl e ↦ rw (long, e₁, e) v
      | inr e₂ ↦ elim (Bool-cases c.send_syn) [
        | inl e ↦ rw (long, e₁, e₂, e) v
        | inr e₃ ↦ rw (long, e₁, e₂, e₃) (send_queued-Receives k log got _ buflen v)
      ]
    ]
  ]
]

-- The oldest message goes from the ring to what was read.
read_msg-InOrder :
    (k : ℕ) (log : List Message) (got : List (List ℕ)) (ch : McChan) (n buflen : ℕ)
    → InOrder k log got ch n
    → let (reply, ch') = read_msg ch buflen in
      InOrder k log (got ++ read_by k k ch.rx_count reply) ch' n
unfolding read_msg read_by inbox8
read_msg-InOrder k log got ch n buflen v = elim (Bool-cases (ch.rx_count == 0)) [
  | inl empty ↦ rw (empty, eq_self k, empty, append-nil got) v
  | inr more ↦ elim (Bool-cases (ltb buflen (length (ch.rxq ch.rx_head)))) [
    | inl big ↦ rw (more, big, append-nil got) v
    | inr fits ↦
        rw (more, fits, eq_self k, more)
          (record {
            used = v.used;
            ring = record { head_lt = omega arith; count_le = omega (arith, v.ring.count_le) };
            next_le = v.next_le;
            so_far =
                v.so_far
                ∙ ap (◌++◌ got) (inbox8-oldest ch more)
                ∙ sym (append_assoc got (ch.rxq ch.rx_head ∷ []) _);
          })
  ]
]

read_by-other : (k i w : ℕ) (reply : McError ⊎ List ℕ) → (i == k) ≡ false → read_by k i w reply ≡ []
unfolding read_by
read_by-other k i w (inl e) other = refl
read_by-other k i w (inr m) other = rw other refl

pub mc_read-Receives :
    (k : ℕ) (log : List Message) (got : List (List ℕ)) (c : Microchan) (i buflen : ℕ)
    → Receives k log got c
    → let (reply, c') = mc_read c i buflen in
      Receives k log (got ++ read_by k i (c.chan i).rx_count reply) c'
unfolding mc_read
mc_read-Receives k log got c i buflen v = elim (Bool-cases (i == k)) [
  | inl own ↦
      let e : i ≡ k = ground arith in
      rw own (rw e (read_msg-InOrder k log got (c.chan k) c.rx_next buflen v))
  | inr other ↦
      let nothing : read_by k i (c.chan i).rx_count (read_msg (c.chan i) buflen).0 ≡ [] =
        read_by-other k i (c.chan i).rx_count (read_msg (c.chan i) buflen).0 other in
      rw (other, nothing, append-nil got) v
]
