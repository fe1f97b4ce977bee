-- ===== src/Microchan/Delivery.antt =====
-- The receive path of microchan/src/microchan.c puts a log of messages together in order.
use netchan.Base.{
  ltb, leb, ◌==◌, eq_self, Bool-cases, ℕ, zero, suc, ◌+◌, ◌≤◌, ◌<◌, ◌≡◌, refl, ap, ◌∙◌, ◌≢◌, inl,
  inr, true, false, not, ◌&&◌, Option, some, arith, update, length, take, drop, length-append,
  take-append, drop-append, take-append_le, List, [], ◌∷◌, ◌++◌, append_assoc, append-nil, u16_mod,
  inc16,
}
use netchan.Microchan.{seq_after, ev_push, rxq_push, rxq_full}
use netchan.Microchan.Control.{SameData, mc_feed-keeps}
use netchan.Microchan.Log.{
  Message, At, of_chan, of_chan-append, Good, logged, elsewhere, Body, no_more, record_then,
  PacketOk,
}
use netchan.Microchan.Receive.{
  deliver, process_ack, chan_by_id, acked_to, hand_over, deliver_next, deliver_unreliable, records,
  feed_records, mc_feed,
}
use netchan.Microchan.Rings.{inbox8, InRing8, rxq_push-InRing8, rxq_push-used, inbox8-rxq_push_room}
use netchan.Microchan.Send.{record_bytes}
use netchan.Microchan.Types.{
  mc_max_chan, mc_rec, mc_maxmsg, mc_eventq, McEvType, mc_ev_data, McAddr, McChan, Microchan,
}
use netchan.Wire.{byte_at, wr16, rd16}

-- Reading back a record, whatever follows it.
record-parts :
    (chan mt seq : ℕ) (bytes rest : List ℕ)
    → seq < u16_mod
    → length bytes < u16_mod
    → let q = record_bytes chan mt seq bytes ++ rest in
      (byte_at q 0 ≡ chan)
      × (byte_at q 1 ≡ mt)
      × (rd16 q 2 ≡ seq)
      × (rd16 q 4 ≡ length bytes)
      × (drop 6 q ≡ bytes ++ rest)
      × (length q ≡ 6 + (length bytes + length rest))
unfolding record_bytes wr16 rd16
record-parts chan mt seq bytes rest h k =
    (refl, refl, omega arith, omega arith, refl, omega (arith, length-append bytes rest))

-- The loop of mc_feed delivers a record that mc_send_next writes as it was written, if its sequence
-- number and its length fit 16 bits, and goes on with the bytes that follow it.
pub records-record_bytes :
    (n chan mt seq : ℕ) (bytes rest : List ℕ) (c : Microchan)
    → seq < u16_mod
    → length bytes < u16_mod
    → records (suc n) c (record_bytes chan mt seq bytes ++ rest)
      ≡ records n (deliver c chan mt seq bytes) rest
unfolding records
records-record_bytes n chan mt seq bytes rest c h k =
    let (p0, p1, p2, p4, body, size) = record-parts chan mt seq bytes rest h k in
    let q = record_bytes chan mt seq bytes ++ rest in
    let long : ltb (length q) mc_rec ≡ false = ground (arith, size) in
    let whole : ltb (length (bytes ++ rest)) (length bytes) ≡ false =
      ground (arith, length-append bytes rest) in
    rw (long, p0, p1, p2, p4, body, whole, take-append bytes rest, drop-append bytes rest) refl

pub ev_push-chan : (c : Microchan) (t : McEvType) (o : Option ℕ) → (ev_push c t o).chan ≡ c.chan
unfolding ev_push
ev_push-chan c t o = elim (Bool-cases (leb mc_eventq c.ev_count)) [
  | inl full ↦ rw full refl
  | inr room ↦ rw room refl
]

pub ev_push-rx_next :
    (c : Microchan) (t : McEvType) (o : Option ℕ) → (ev_push c t o).rx_next ≡ c.rx_next
unfolding ev_push
ev_push-rx_next c t o = elim (Bool-cases (leb mc_eventq c.ev_count)) [
  | inl full ↦ rw full refl
  | inr room ↦ rw room refl
]

-- The messages of channel k among the first of the log that the connection has accepted are those that
-- were read before and those that wait.
pub record InOrder (k : ℕ) (log : List Message) (got : List (List ℕ)) (ch : McChan) (n : ℕ)
    : Type 0 where
  pub used : ch.used ≡ true
  pub ring : InRing8 ch.rx_head ch.rx_count
  pub next_le : n ≤ length log
  pub so_far : of_chan k (take n log) ≡ got ++ inbox8 ch

abbrev pub Receives : ℕ → List Message → List (List ℕ) → Microchan → Type 0
Receives k log got c = InOrder k log got (c.chan k) c.rx_next

-- What has the same channel and expects the same number.
pub Receives-same :
    (k : ℕ) (log : List Message) (got : List (List ℕ)) (c d : Microchan)
    → d.chan k ≡ c.chan k
    → d.rx_next ≡ c.rx_next
    → Receives k log got c
    → Receives k log got d
Receives-same k log got c d e e' v = rw (e, e') v

module _ (k : ℕ) (log : List Message) (small : length log < u16_mod) (got : List (List ℕ)) where
  -- The expected message is for another channel.
  next-other :
      (ch : McChan) (n chan : ℕ) (bytes : List ℕ)
      → chan ≢ k
      → At log n (chan, bytes)
      → InOrder k log got ch n
      → InOrder k log got ch (inc16 n)
  unfolding of_chan
  next-other ch n chan bytes other a v =
      let e : inc16 n ≡ suc n = omega (arith, a.within, small) in
      let no : (chan == k) ≡ false = ground arith in
      rw e (record {
        used = v.used;
        ring = v.ring;
        next_le = omega (arith, a.within);
        so_far =
            ap (of_chan k) a.next
            ∙ of_chan-append k (take n log) ((chan, bytes) ∷ [])
            ∙ rw no (append-nil (of_chan k (take n log)) ∙ v.so_far);
      })

  -- The expected message goes into the channel's ring.
  next-own :
      (ch : McChan) (n : ℕ) (bytes : List ℕ)
      → length bytes ≤ mc_maxmsg
      → rxq_full ch ≡ false
      → At log n (k, bytes)
      → InOrder k log got ch n
      → InOrder k log got (rxq_push ch bytes) (inc16 n)
  unfolding of_chan
  next-own ch n bytes fits room a v =
      let e : inc16 n ≡ suc n = omega (arith, a.within, small) in
      rw e (record {
        used = rxq_push-used ch bytes ∙ v.used;
        ring = rxq_push-InRing8 ch bytes v.ring;
        next_le = omega (arith, a.within);
        so_far =
            ap (of_chan k) a.next
            ∙ of_chan-append k (take n log) ((k, bytes) ∷ [])
            ∙ rw (eq_self k, inbox8-rxq_push_room ch bytes v.ring room fits)
                (ap (λ (l : List (List ℕ)). l ++ (bytes ∷ [])) v.so_far
                  ∙ append_assoc got (inbox8 ch) (bytes ∷ []));
      })

  hand_over-chan :
      (c : Microchan) (i : ℕ) (bytes : List ℕ)
      → (hand_over c i bytes).chan ≡ update c.chan i (rxq_push (c.chan i) bytes)
  unfolding hand_over
  hand_over-chan c i bytes = ev_push-chan _ mc_ev_data (some i)

  hand_over-rx_next :
      (c : Microchan) (i : ℕ) (bytes : List ℕ) → (hand_over c i bytes).rx_next ≡ c.rx_next
  unfolding hand_over
  hand_over-rx_next c i bytes = ev_push-rx_next _ mc_ev_data (some i)

  hand_over-other :
      (c : Microchan) (i : ℕ) (bytes : List ℕ) → i ≢ k → (hand_over c i bytes).chan k ≡ c.chan k
  hand_over-other c i bytes other =
      let no : (i == k) ≡ false = ground arith in rw (hand_over-chan c i bytes, no) refl

  hand_over-own :
      (c : Microchan) (bytes : List ℕ) → (hand_over c k bytes).chan k ≡ rxq_push (c.chan k) bytes
  hand_over-own c bytes = rw (hand_over-chan c k bytes, eq_self k) refl

  -- The expected message is taken in order, or waits for room.
  deliver_next-Receives :
      (c : Microchan) (chan : ℕ) (bytes : List ℕ)
      → k < mc_max_chan
      → length bytes ≤ mc_maxmsg
      → At log c.rx_next (chan, bytes)
      → Receives k log got c
      → Receives k log got (deliver_next c (chan_by_id c chan) bytes)
  unfolding deliver_next chan_by_id
  deliver_next-Receives c chan bytes kept fits a v =
      elim (Bool-cases (ltb chan mc_max_chan && (c.chan chan).used)) [
        | inr absent ↦
            let other : chan ≢ k = λ same. ground (arith, v.used) in
            rw absent (next-other (c.chan k) c.rx_next chan bytes other a v)
        | inl present ↦ elim (Bool-cases (rxq_full (c.chan chan))) [
          | inl full ↦ rw (present, full) v
          | inr room ↦ elim (Bool-cases (chan == k)) [
            | inr other ↦
                let ne : chan ≢ k = ground arith in
                rw (present, room, hand_over-rx_next c chan bytes, hand_over-other c chan bytes ne)
                  (next-other (c.chan k) c.rx_next chan bytes ne a v)
            | inl own ↦
                let e : chan ≡ k = ground arith in
                rw (present, room, hand_over-rx_next c chan bytes)
                  (rw e (
                    rw (hand_over-own c bytes)
                      (next-own (c.chan k) c.rx_next bytes fits (rw e at room) (rw e at a) v)))
          ]
        ]
      ]

  -- What a good record does.
  deliver-Receives :
      (c : Microchan) (chan mt seq : ℕ) (bytes : List ℕ)
      → k < mc_max_chan
      → length bytes ≤ mc_maxmsg
      → Good k log chan mt seq bytes
      → Receives k log got c
      → Receives k log got (deliver c chan mt seq bytes)
  unfolding deliver deliver_unreliable chan_by_id
  deliver-Receives c chan mt seq bytes kept fits (logged a) v =
      elim (Bool-cases (seq == c.rx_next)) [
        | inl due ↦
            let e : seq ≡ c.rx_next = ground arith in
            rw due (deliver_next-Receives c chan bytes kept fits (rw e at a) v)
        | inr early ↦ rw early v
      ]
  deliver-Receives c chan mt seq bytes kept fits (elsewhere other) v =
      elim (Bool-cases (ltb chan mc_max_chan && (c.chan chan).used)) [
        | inr absent ↦ rw absent v
        | inl present ↦
            rw (present, hand_over-rx_next c chan bytes, hand_over-other c chan bytes other) v
      ]

  records-Receives :
      (n : ℕ) (c : Microchan) {q : List ℕ}
      → k < mc_max_chan
      → Body k log q
      → Receives k log got c
      → Receives k log got (records n c q)
  unfolding records
  records-Receives zero c kept b v = v
  records-Receives (suc n) c kept no_more v = v
  records-Receives (suc n) c kept (record_then {chan} {mt} {seq} {bytes} {rest} g s l b) v =
      rw (records-record_bytes n chan mt seq bytes rest c s (omega (arith, l))) (
        records-Receives n (deliver c chan mt seq bytes) kept b
          (deliver-Receives c chan mt seq bytes kept l g v))

  pub process_ack-Receives :
      (c : Microchan) (n : ℕ) → Receives k log got c → Receives k log got (process_ack c n)
  unfolding process_ack acked_to
  process_ack-Receives c n v =
      elim (Bool-cases (not (c.tx_base == c.tx_next) && seq_after n c.tx_base)) [
        | inl moved ↦ rw moved v
        | inr stays ↦ rw stays v
      ]

  -- A packet that the sender of the log may send keeps the order, whatever it holds otherwise.
  pub mc_feed-Receives :
      (c : Microchan) (p : List ℕ) (from : Option McAddr)
      → k < mc_max_chan
      → PacketOk k log p
      → Receives k log got c
      → Receives k log got (mc_feed c p from).1
  unfolding feed_records SameData
  mc_feed-Receives c p from kept good =
      mc_feed-keeps (Receives k log got)
        (λ x y e. Receives-same k log got x y (ap (λ (f : ℕ → McChan). f k) e.0) e.1) c p from
        (λ d tag v. elim good [
          | inl other ↦ absurd (other tag)
          | inr body ↦
              records-Receives (length p) (process_ack d (rd16 p 6)) kept body
                (process_ack-Receives d (rd16 p 6) v)
        ])

pub Receives-append :
    (k : ℕ) (log ext : List Message) (got : List (List ℕ)) (c : Microchan)
    → Receives k log got c
    → Receives k (log ++ ext) got c
Receives-append k log ext got c v = record {
  used = v.used;
  ring = v.ring;
  next_le = omega (arith, v.next_le, length-append log ext);
  so_far = ap (of_chan k) (take-append_le c.rx_next log ext v.next_le) ∙ v.so_far;
}
