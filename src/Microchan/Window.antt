-- ===== src/Microchan/Window.antt =====
-- The send window of microchan/src/microchan.c holds the log's messages from tx_base on.
use netchan.Base.{
  ltb, leb, ◌==◌, if◌then◌else◌, Bool-cases, if_cases, ℕ, zero, suc, ◌+◌, ◌-◌, ◌%◌, ◌≤◌, ◌<◌, ◌≡◌,
  refl, ◌≢◌, inl, inr, true, not, ◌&&◌, Option, none, some, arith, update, length, drop, List,
  u16_mod, inc16, sub16,
}
use netchan.Microchan.{seq_after, rxq_push, rxq_full}
use netchan.Microchan.Control.{SameData, ev_push-SameData, mc_feed-keeps}
use netchan.Microchan.Log.{Message, At}
use netchan.Microchan.Receive.{
  deliver, process_ack, chan_by_id, advance_base, acked_to, hand_over, deliver_next,
  deliver_unreliable, records, feed_records, mc_feed,
}
use netchan.Microchan.Types.{
  mc_recvq, mc_rec, mc_maxmsg, mt_rel, mc_reliable, mc_ev_data, McAddr, McChan, TxSlot, Microchan,
}
use netchan.Wire.{rd16}

-- A slot that holds message s of the log.
pub record HoldsAt (log : List Message) (s : ℕ) (slot : TxSlot) : Type 0 where
  pub number : slot.seq ≡ s
  pub message : At log s (slot.chan, slot.bytes)
  pub fits : length slot.bytes ≤ mc_maxmsg

-- Every open channel has its index as its id, and channel k is an open reliable one.
pub record Named (k : ℕ) (chan : ℕ → McChan) : Type 0 where
  pub ids : (i : ℕ) → (chan i).used ≡ true → (chan i).id ≡ i
  pub used : (chan k).used ≡ true
  pub reliable : (chan k).type ≡ mc_reliable

-- The numbers from base to next are those of the log's last messages, at most eight, which stand in
-- their slots, and those from unsent on are not yet on the wire.
pub record Window (log : List Message) (txw : ℕ → TxSlot) (base next unsent : ℕ) : Type 0 where
  pub all : next ≡ length log
  pub base_le : base ≤ unsent
  pub unsent_le : unsent ≤ next
  pub room : next ≤ base + 8
  pub slots : (s : ℕ) → base ≤ s → s < next → HoldsAt log s (txw (s % 8))

-- No datagram that waits in the unreliable ring is for channel k.
pub record Apart (k : ℕ) (txu : ℕ → List ℕ) (txu_chan : ℕ → ℕ) (head size : ℕ) : Type 0 where
  pub head_lt : head < 4
  pub size_le : size ≤ 4
  pub other : (j : ℕ) → j < 4 → (j + 4 - head) % 4 < size → txu_chan j ≢ k
  pub fits : (j : ℕ) → j < 4 → (j + 4 - head) % 4 < size → length (txu j) ≤ mc_maxmsg

abbrev pub Sends : ℕ → List Message → Microchan → Type 0
Sends k log c =
    Named k c.chan
    × Window log c.txw c.tx_base c.tx_next c.tx_unsent
    × Apart k c.txu c.txu_chan c.txu_head c.txu_count

pub Sends-same :
    (k : ℕ) (log : List Message) (c d : Microchan) → SameData c d → Sends k log c → Sends k log d
unfolding SameData
Sends-same k log c d e v =
    let (chan, _, txw, base, next, unsent, txu, txu_chan, head, size) = e in
    rw (chan, txw, base, next, unsent, txu, txu_chan, head, size) v

rxq_push-static :
    (ch : McChan) (bytes : List ℕ)
    → ((rxq_push ch bytes).used ≡ ch.used)
      × ((rxq_push ch bytes).type ≡ ch.type)
      × ((rxq_push ch bytes).id ≡ ch.id)
unfolding rxq_push
rxq_push-static ch bytes = elim (Bool-cases (leb mc_recvq ch.rx_count)) [
  | inl full ↦ rw full (refl, refl, refl)
  | inr room ↦ rw room (refl, refl, refl)
]

Named-rxq_push :
    (k : ℕ) (chan : ℕ → McChan) (i : ℕ) (bytes : List ℕ)
    → Named k chan
    → Named k (update chan i (rxq_push (chan i) bytes))
Named-rxq_push k chan i bytes v = record {
  ids = λ j u. elim (Bool-cases (i == j)) [
    | inl own ↦ ground (arith, rxq_push-static (chan i) bytes, v.ids i)
    | inr other ↦ ground (arith, v.ids j)
  ];
  used = ground (arith, rxq_push-static (chan i) bytes, v.used);
  reliable = ground (arith, rxq_push-static (chan i) bytes, v.reliable);
}

-- The loop of process_ack stops between tx_base and tx_next, where no number has wrapped.
advance_base_between :
    (n a next base : ℕ)
    → next < u16_mod
    → base ≤ next
    → (base ≤ advance_base n a next base) × (advance_base n a next base ≤ next)
unfolding advance_base
advance_base_between zero a next base small h = (omega arith, h)
advance_base_between (suc n) a next base small h =
    elim (Bool-cases (not (base == next) && seq_after a base)) [
      | inr stops ↦ rw (advance_base, stops) (omega arith, h)
      | inl goes ↦
          let apart : base ≢ next = ground arith in
          let up : inc16 base ≡ base + 1 = omega arith in
          let ih = advance_base_between n a next (inc16 base) small (omega arith) in
          rw (advance_base, goes) (omega (arith, ih.0), ih.1)
    ]

module _ (k : ℕ) (log : List Message) (small : length log < u16_mod) where
  -- The window after an acknowledgement, whatever number it carries.
  acked-Window :
      (txw : ℕ → TxSlot) (base next unsent base' : ℕ)
      → base ≤ base'
      → base' ≤ next
      → Window log txw base next unsent
      → Window log txw base' next (if seq_after base' unsent then base' else unsent)
  unfolding seq_after
  acked-Window txw base next unsent base' lo hi v =
      let after : (base' ≤ (if seq_after base' unsent then base' else unsent))
          × ((if seq_after base' unsent then base' else unsent) ≤ next) =
        ground (arith, v.all, v.base_le, v.unsent_le, v.room) in
      record {
        all = v.all;
        base_le = after.0;
        unsent_le = after.1;
        room = omega (arith, v.room);
        slots = λ s h. v.slots s (omega arith);
      }

  process_ack-Sends : (c : Microchan) (a : ℕ) → Sends k log c → Sends k log (process_ack c a)
  unfolding process_ack acked_to
  process_ack-Sends c a v =
      let (names, window, apart) = v in
      let between =
        advance_base_between (sub16 c.tx_next c.tx_base) a c.tx_next c.tx_base
          (omega (arith, window.all)) (omega (arith, window.base_le, window.unsent_le)) in
      let after = acked-Window c.txw c.tx_base c.tx_next c.tx_unsent _ between.0 between.1 window in
      elim (Bool-cases (not (c.tx_base == c.tx_next) && seq_after a c.tx_base)) [
        | inl moved ↦ rw moved (names, after, apart)
        | inr stays ↦ rw stays (names, after, apart)
      ]

  -- Handing a message over changes no channel's name and nothing that is sent.
  hand_over-Sends :
      (c : Microchan) (i : ℕ) (bytes : List ℕ) → Sends k log c → Sends k log (hand_over c i bytes)
  unfolding hand_over
  hand_over-Sends c i bytes (names, window, apart) =
      Sends-same k log (record c { chan = update c.chan i (rxq_push (c.chan i) bytes) }) _
        (ev_push-SameData _ mc_ev_data (some i))
        (Named-rxq_push k c.chan i bytes names, window, apart)

  deliver-Sends :
      (c : Microchan) (chan mt seq : ℕ) (bytes : List ℕ)
      → Sends k log c
      → Sends k log (deliver c chan mt seq bytes)
  unfolding deliver deliver_next deliver_unreliable
  deliver-Sends c chan mt seq bytes v =
      if_cases (Sends k log) (mt == mt_rel) _ _
        (λ rel.
          if_cases (Sends k log) (seq == c.rx_next) _ _ (λ due. next (chan_by_id c chan))
            (λ early. v))
        (λ unrel. any (chan_by_id c chan))
    where
      next : (o : Option ℕ) → Sends k log (deliver_next c o bytes)
      next none = v
      next (some i) =
          if_cases (Sends k log) (rxq_full (c.chan i)) _ _ (λ full. v)
            (λ room. hand_over-Sends c i bytes v)

      any : (o : Option ℕ) → Sends k log (deliver_unreliable c o bytes)
      any none = v
      any (some i) = hand_over-Sends c i bytes v

  records-Sends : (n : ℕ) (c : Microchan) (q : List ℕ) → Sends k log c → Sends k log (records n c q)
  unfolding records
  records-Sends zero c q v = v
  records-Sends (suc n) c q v =
      if_cases (Sends k log) (ltb (length q) mc_rec) _ _ (λ short. v)
        (λ long.
          if_cases (Sends k log) (ltb (length (drop mc_rec q)) (rd16 q 4)) _ _ (λ cut. v)
            (λ whole. records-Sends n _ _ (deliver-Sends c _ _ _ _ v)))

  -- If the send window holds the messages of the log from tx_base on, at most eight, it does so after
  -- mc_feed of any bytes at all, whatever they acknowledge; no sequence number has wrapped.
  pub mc_feed-Sends :
      (c : Microchan) (p : List ℕ) (from : Option McAddr)
      → Sends k log c
      → Sends k log (mc_feed c p from).1
  unfolding feed_records
  mc_feed-Sends c p from =
      mc_feed-keeps (Sends k log) (Sends-same k log) c p from
        (λ d tag v. records-Sends (length p) _ _ (process_ack-Sends d (rd16 p 6) v))
