-- ===== src/Microchan/Control.antt =====
-- The parts of microchan/src/microchan.c that touch neither messages nor sequence numbers.
use netchan.Base.{
  ltb, leb, ◌==◌, Bool-cases, if_cases, ℕ, ◌+◌, ◌≡◌, refl, inl, inr, not, ◌&&◌, ◌||◌, Option, none,
  some, arith, length, List,
}
use netchan.Microchan.{ev_push}
use netchan.Microchan.Receive.{
  go_up, feed_syn, feed_synack, feed_ack, feed_records, feed_data, feed_fin, feed_as, or_refused,
  mc_feed,
}
use netchan.Microchan.Types.{
  mc_hdr, mc_eventq, pkt_syn, pkt_synack, pkt_ack, pkt_data, pkt_fin, is_closed, is_opening, is_up,
  McEvType, mc_ev_connected, mc_ev_disconnected, McAddr, Microchan,
}
use netchan.Wire.{byte_at, rd32}

-- The channels, the numbers and the messages that wait to be sent are the same.
unfoldable pub SameData : Microchan → Microchan → Type 0
SameData c d =
    (d.chan ≡ c.chan)
    × (d.rx_next ≡ c.rx_next)
    × (d.txw ≡ c.txw)
    × (d.tx_base ≡ c.tx_base)
    × (d.tx_next ≡ c.tx_next)
    × (d.tx_unsent ≡ c.tx_unsent)
    × (d.txu ≡ c.txu)
    × (d.txu_chan ≡ c.txu_chan)
    × (d.txu_head ≡ c.txu_head)
    × (d.txu_count ≡ c.txu_count)

pub SameData-refl : (c : Microchan) → SameData c c
unfolding SameData
SameData-refl c = (refl, refl, refl, refl, refl, refl, refl, refl, refl, refl)

pub ev_push-SameData : (c : Microchan) (t : McEvType) (o : Option ℕ) → SameData c (ev_push c t o)
unfolding ev_push SameData
ev_push-SameData c t o = elim (Bool-cases (leb mc_eventq c.ev_count)) [
  | inl full ↦ rw full (SameData-refl c)
  | inr room ↦ rw room (SameData-refl c)
]

-- What a call other than the DATA handler leaves alone.
abbrev Keeps : Microchan → Option Microchan → Type 0
Keeps c none = Unit
Keeps c (some d) = SameData c d

feed_syn-Keeps : (c : Microchan) (p : List ℕ) (from : Option McAddr) → Keeps c (feed_syn c p from)
unfolding feed_syn SameData
feed_syn-Keeps c p from = elim (Bool-cases (not c.is_server || ltb (length p) (mc_hdr + 4))) [
  | inl bad ↦ rw bad tt
  | inr good ↦ elim (Bool-cases (is_closed c.state)) [
    | inl first ↦ rw (good, first) (SameData-refl c)
    | inr later ↦ elim (Bool-cases (is_opening c.state)) [
      | inl opening ↦ rw (good, later, opening) (SameData-refl c)
      | inr other ↦ rw (good, later, other) (SameData-refl c)
    ]
  ]
]

feed_synack-Keeps :
    (c : Microchan) (p : List ℕ) (from : Option McAddr) → Keeps c (feed_synack c p from)
unfolding feed_synack SameData
feed_synack-Keeps c p from =
    elim (Bool-cases (c.is_server || not (rd32 p 0 == c.local_id) || ltb (length p) (mc_hdr + 4))) [
      | inl bad ↦ rw bad tt
      | inr good ↦ elim (Bool-cases (is_opening c.state)) [
        | inl first ↦ rw (good, first) (ev_push-SameData _ mc_ev_connected none)
        | inr later ↦ rw (good, later) (SameData-refl c)
      ]
    ]

feed_ack-Keeps : (c : Microchan) (p : List ℕ) → Keeps c (feed_ack c p)
unfolding feed_ack SameData
feed_ack-Keeps c p = elim (Bool-cases (not c.is_server || not (rd32 p 0 == c.local_id))) [
  | inl bad ↦ rw bad tt
  | inr good ↦ elim (Bool-cases (is_opening c.state)) [
    | inl first ↦ rw (good, first) (ev_push-SameData _ mc_ev_connected none)
    | inr later ↦ rw (good, later) (SameData-refl c)
  ]
]

feed_fin-Keeps : (c : Microchan) (p : List ℕ) → Keeps c (feed_fin c p)
unfolding feed_fin SameData
feed_fin-Keeps c p = elim (Bool-cases (not (rd32 p 0 == c.local_id))) [
  | inl bad ↦ rw bad tt
  | inr good ↦ elim (Bool-cases (is_closed c.state)) [
    | inl down ↦ rw (good, down) (SameData-refl c)
    | inr up ↦ rw (good, up) (ev_push-SameData _ mc_ev_disconnected none)
  ]
]

-- What a call keeps that is kept by changes of control data and by the records of a DATA packet.
module _ (P : Microchan → Type 0) (still : (c d : Microchan) → SameData c d → P c → P d) where
  unfoldable Holds : Option Microchan → Type 0
  Holds none = Unit
  Holds (some d) = P d

  Keeps-Holds : (c : Microchan) (o : Option Microchan) → Keeps c o → P c → Holds o
  unfolding Holds
  Keeps-Holds c none k h = tt
  Keeps-Holds c (some d) k h = still c d k h

  feed_data-Holds :
      (c : Microchan) (p : List ℕ)
      → ((d : Microchan) → P d → P (feed_records d p))
      → P c
      → Holds (feed_data c p)
  unfolding feed_data Holds SameData
  feed_data-Holds c p carries h = elim (Bool-cases (not (rd32 p 0 == c.local_id))) [
    | inl bad ↦ rw bad tt
    | inr good ↦ elim (Bool-cases (c.is_server && is_opening c.state)) [
      | inl first ↦
          let up = still c (go_up c) (ev_push-SameData _ mc_ev_connected none) h in
          rw (good, first)
            (if_cases P (is_up (go_up c).state) (feed_records (go_up c) p) (go_up c)
              (λ e. carries (go_up c) up) (λ e. up))
      | inr later ↦
          rw (good, later)
            (if_cases P (is_up c.state) (feed_records c p) c (λ e. carries c h) (λ e. h))
    ]
  ]

  feed_as-Holds :
      (c : Microchan) (p : List ℕ) (from : Option McAddr)
      → ((d : Microchan) → byte_at p 4 ≡ pkt_data → P d → P (feed_records d p))
      → P c
      → Holds (feed_as c p from)
  unfolding feed_as Holds
  feed_as-Holds c p from carries h =
      if_cases Holds (byte_at p 4 == pkt_syn) _ _ (λ e. Keeps-Holds c _ (feed_syn-Keeps c p from) h)
        (λ e.
          if_cases Holds (byte_at p 4 == pkt_synack) _ _
            (λ e. Keeps-Holds c _ (feed_synack-Keeps c p from) h)
            (λ e.
              if_cases Holds (byte_at p 4 == pkt_ack) _ _
                (λ e. Keeps-Holds c _ (feed_ack-Keeps c p) h)
                (λ e.
                  if_cases Holds (byte_at p 4 == pkt_data) _ _
                    (λ e. feed_data-Holds c p (λ d. carries d (ground arith)) h)
                    (λ e.
                      if_cases Holds (byte_at p 4 == pkt_fin) _ _
                        (λ e. Keeps-Holds c _ (feed_fin-Keeps c p) h) (λ e. tt)))))

  pub mc_feed-keeps :
      (c : Microchan) (p : List ℕ) (from : Option McAddr)
      → ((d : Microchan) → byte_at p 4 ≡ pkt_data → P d → P (feed_records d p))
      → P c
      → P (mc_feed c p from).1
  unfolding mc_feed SameData Holds
  mc_feed-keeps c p from carries h = elim (Bool-cases (ltb (length p) mc_hdr)) [
    | inl short ↦ rw short h
    | inr whole ↦
        let c' = record c { last_recv = c.now } in
        let heard = still c c' (SameData-refl c) h in
        rw whole (refused c' (feed_as c' p from) heard (feed_as-Holds c' p from carries heard))
  ]
    where
      refused : (d : Microchan) (o : Option Microchan) → P d → Holds o → P (or_refused d o).1
      refused d none h k = h
      refused d (some e) h k = k
