-- ===== src/Api/Mailbox.antt =====
-- netchan_chan_read of src/netchan.c takes the oldest message of the receive queue.
use netchan.Base.{
  ltb, ◌==◌, if◌then◌else◌, Bool-cases, ℕ, zero, suc, ◌+◌, ◌%◌, ◌≡◌, refl, sym, ap, ◌∙◌, ◌≢◌, inl,
  inr, true, false, arith, update, bytes_at, get_or, take, drop, List, [], ◌∷◌,
}
use netchan.Api.{read_chan}
use netchan.BufferPool.{pool_put, pool_ptr, pool_read}
use netchan.Channel.{no_recv_entry}
use netchan.Receive.Inbox.{ring, ring-ext, message_at, backlog, inbox, InboxInv}
use netchan.Receive.Mailbox.{pool_put-store, inbox-store}
use netchan.Types.{receiver, ok, Chan, Pool}

take-bytes_at :
    (m : ℕ → ℕ) (k a n : ℕ) → take k (bytes_at m a n) ≡ bytes_at m a (if ltb n k then n else k)
unfolding bytes_at
take-bytes_at m zero a n = ground arith
take-bytes_at m (suc k) a zero = ground arith
take-bytes_at m (suc k) a (suc n) = elim (Bool-cases (ltb n k)) [
  | inl few ↦
      let e : ltb (suc n) (suc k) ≡ true = ground arith in
      rw e (ap (◌∷◌ (m a)) (take-bytes_at m k (a + 1) n ∙ rw few refl))
  | inr many ↦
      let e : ltb (suc n) (suc k) ≡ false = ground arith in
      rw e (ap (◌∷◌ (m a)) (take-bytes_at m k (a + 1) n ∙ rw many refl))
]

abbrev no_message : List ℕ
no_message = []

take-nil : (k : ℕ) → take k no_message ≡ no_message
take-nil zero = refl
take-nil (suc k) = refl

inbox_empty : (ch : Chan) (p : Pool) → backlog ch.rq_head ch.rq_tail ≡ 0 → inbox ch p ≡ []
unfolding inbox ring
inbox_empty ch p e = ap (ring (message_at p ch.recv_queue) ch.rq_head) e

inbox_more :
    (ch : Chan) (p : Pool) (n : ℕ)
    → backlog ch.rq_head ch.rq_tail ≡ suc n
    → inbox ch p
      ≡ message_at p ch.recv_queue ch.rq_head
        ∷ ring (message_at p ch.recv_queue) ((ch.rq_head + 1) % 64) n
unfolding inbox ring
inbox_more ch p n e = ap (ring (message_at p ch.recv_queue) ch.rq_head) e

-- The entries behind the first do not change when the first is cleared.
ring-rest :
    (ch : Chan) (p : Pool)
    → InboxInv ch p
    → ch.rq_head ≢ ch.rq_tail
    → let next = (ch.rq_head + 1) % 64 in
      ring
        (message_at p (update ch.recv_queue ch.rq_head no_recv_entry))
        next
        (backlog next ch.rq_tail)
      ≡ ring (message_at p ch.recv_queue) next (backlog next ch.rq_tail)
ring-rest ch p v more =
    let q = update ch.recv_queue ch.rq_head no_recv_entry in
    ring-ext (message_at p q) (message_at p ch.recv_queue) ((ch.rq_head + 1) % 64) _ (omega arith)
      (omega arith)
      (λ j l m.
        let other : (ch.rq_head == j) ≡ false = ground (arith, v.head_lt, v.tail_lt) in
        rw other refl)

-- If the queue is in shape, reading at a receiver returns the oldest message, cut to the caller's
-- buffer, or nothing if none waits, and leaves the others as they are.
pub inbox-read_chan :
    (ch : Chan) (p : Pool) (buflen : ℕ)
    → ch.role ≡ receiver
    → InboxInv ch p
    → let (result, ch', p') = read_chan ch p buflen in
      (result ≡ ok (take buflen (get_or (inbox ch p) 0 []))) × (inbox ch' p' ≡ drop 1 (inbox ch p))
unfolding read_chan pool_read inbox
inbox-read_chan ch p buflen role v =
    let ours : (ch.role == receiver) ≡ true = ground arith in
    elim (Bool-cases (ch.rq_head == ch.rq_tail)) [
      | inl empty ↦
          let e : inbox ch p ≡ [] = inbox_empty ch p (ground (arith, v.head_lt, v.tail_lt)) in
          rw (ours, empty, e, take-nil buflen) (refl, refl)
      | inr more ↦
          let next = (ch.rq_head + 1) % 64 in
          let first = ch.recv_queue ch.rq_head in
          let ch' : Chan = record ch {
            recv_queue = update ch.recv_queue ch.rq_head no_recv_entry;
            rq_head = next;
          } in
          let e =
            inbox_more ch p (backlog next ch.rq_tail) (ground (arith, v.head_lt, v.tail_lt)) in
          rw (ours, more, e)
            (
              ap ok (sym (take-bytes_at p.store buflen (pool_ptr first.buf + 0) first.len)),
              inbox-store ch' p (pool_put p first.buf) (pool_put-store p first.buf)
                  ∙ ring-rest ch p v (ground arith),
            )
    ]
