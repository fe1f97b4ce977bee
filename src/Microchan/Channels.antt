-- ===== src/Microchan/Channels.antt =====
-- Opening and closing other channels of microchan/src/microchan.c, and polling, leave the messages of
-- channel k alone.
use netchan.Base.{
  ◌==◌, Bool-cases, ℕ, ◌%◌, ◌≡◌, refl, ◌≢◌, inl, inr, true, false, arith, update, List, u8_mod,
}
use netchan.Microchan.{mc_poll, open_at, mc_chan_open, mc_chan_close}
use netchan.Microchan.Control.{SameData, SameData-refl}
use netchan.Microchan.Delivery.{Receives}
use netchan.Microchan.Log.{Message}
use netchan.Microchan.Types.{McChan, Microchan, no_mc_chan}
use netchan.Microchan.Window.{Sends}

pub mc_poll-SameData : (c : Microchan) → SameData c (mc_poll c).1
unfolding mc_poll SameData
mc_poll-SameData c = elim (Bool-cases (c.ev_count == 0)) [
  | inl none_waits ↦ rw none_waits (SameData-refl c)
  | inr waits ↦ rw waits (SameData-refl c)
]

pub mc_poll-Receives :
    (k : ℕ) (log : List Message) (got : List (List ℕ)) (c : Microchan)
    → Receives k log got c
    → Receives k log got (mc_poll c).1
unfolding mc_poll
mc_poll-Receives k log got c v = elim (Bool-cases (c.ev_count == 0)) [
  | inl none_waits ↦ rw none_waits v
  | inr waits ↦ rw waits v
]

-- A channel other than k is closed, or opened with its index as its id.
pub mc_chan_close-Sends :
    (k : ℕ) (log : List Message) (c : Microchan) (i : ℕ)
    → i ≢ k
    → Sends k log c
    → Sends k log (mc_chan_close c i)
unfolding mc_chan_close
mc_chan_close-Sends k log c i other v = (
  record {
    ids = λ j u. ground (arith, v.0.ids j);
    used = ground (arith, v.0.used);
    reliable = ground (arith, v.0.reliable);
  },
  v.1,
  v.2,
)

open_at-Sends :
    (k : ℕ) (log : List Message) (c : Microchan) (type i : ℕ)
    → (c.chan i).used ≡ false
    → Sends k log c
    → Sends k log (open_at c type i)
unfolding open_at
open_at-Sends k log c type i idle v = (
  record {
    ids = λ j u. ground (arith, v.0.ids j);
    used = ground (arith, v.0.used);
    reliable = ground (arith, v.0.used, v.0.reliable);
  },
  v.1,
  v.2,
)

pub mc_chan_open-Sends :
    (k : ℕ) (log : List Message) (c : Microchan) (type : ℕ)
    → Sends k log c
    → Sends k log (mc_chan_open c type).1
unfolding mc_chan_open
mc_chan_open-Sends k log c type v = elim (Bool-cases (c.chan 0).used) [
  | inr free₀ ↦ rw free₀ (open_at-Sends k log c type 0 free₀ v)
  | inl used₀ ↦ elim (Bool-cases (c.chan 1).used) [
    | inr free₁ ↦ rw (used₀, free₁) (open_at-Sends k log c type 1 free₁ v)
    | inl used₁ ↦ rw (used₀, used₁) v
  ]
]

other_channel : (k i : ℕ) (chan : ℕ → McChan) (ch : McChan) → i ≢ k → update chan i ch k ≡ chan k
other_channel k i chan ch other = ground arith

pub mc_chan_close-Receives :
    (k : ℕ) (log : List Message) (got : List (List ℕ)) (c : Microchan) (i : ℕ)
    → i ≢ k
    → Receives k log got c
    → Receives k log got (mc_chan_close c i)
unfolding mc_chan_close
mc_chan_close-Receives k log got c i other v =
    rw (other_channel k i c.chan (record (c.chan i) { used = false }) other) v

used_ne : (ch ch' : McChan) → ch.used ≡ true → ch'.used ≡ false → ch'.used ≡ ch.used → ⊥
used_ne ch ch' u idle e = cc

open_at-Receives :
    (k : ℕ) (log : List Message) (got : List (List ℕ)) (c : Microchan) (type i : ℕ)
    → (c.chan i).used ≡ false
    → Receives k log got c
    → Receives k log got (open_at c type i)
unfolding open_at
open_at-Receives k log got c type i idle v =
    let opened = record no_mc_chan { used = true; type = type % u8_mod; id = i } in
    rw
      (other_channel k i c.chan opened (λ e. used_ne (c.chan k) (c.chan i) v.used idle (rw e refl)))
      v

pub mc_chan_open-Receives :
    (k : ℕ) (log : List Message) (got : List (List ℕ)) (c : Microchan) (type : ℕ)
    → Receives k log got c
    → Receives k log got (mc_chan_open c type).1
unfolding mc_chan_open
mc_chan_open-Receives k log got c type v = elim (Bool-cases (c.chan 0).used) [
  | inr free₀ ↦ rw free₀ (open_at-Receives k log got c type 0 free₀ v)
  | inl used₀ ↦ elim (Bool-cases (c.chan 1).used) [
    | inr free₁ ↦ rw (used₀, free₁) (open_at-Receives k log got c type 1 free₁ v)
    | inl used₁ ↦ rw (used₀, used₁) v
  ]
]
