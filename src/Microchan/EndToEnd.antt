-- ===== src/Microchan/EndToEnd.antt =====
-- Two connections of microchan/src/microchan.c and the network between them, as steps: any packet that
-- was sent may arrive at any time, more than once, or never, and in any order.
use mathlib.Core.List.{Memᴰ}
use netchan.Base.{
  ◌==◌, if◌then◌else◌, ℕ, ◌+◌, ◌<◌, ◌≡◌, refl, ◌≢◌, Bool, Option, none, some, arith, length, List,
  [], ◌∷◌, ◌++◌, u16_mod,
}
use netchan.Microchan.{
  mc_poll, mc_open, mc_connect, open_at, mc_chan_open, mc_chan_close, mc_read, mc_write,
}
use netchan.Microchan.Delivery.{Receives}
use netchan.Microchan.Log.{Message, PacketOk}
use netchan.Microchan.Receive.{mc_feed}
use netchan.Microchan.Receiver.{read_by}
use netchan.Microchan.Send.{mc_send_next, mc_service}
use netchan.Microchan.Sending.{logged_by}
use netchan.Microchan.Types.{mc_max_chan, mc_reliable, McAddr, Microchan}
use netchan.Microchan.Window.{Sends}

-- The two ends; every packet that the sender has made; every message that mc_write has taken on a
-- reliable channel of the sender, in order; and what mc_read has yielded for the receiver's channel k.
pub record Link : Type 0 where
  pub sender : Microchan
  pub receiver : Microchan
  pub wire : List (List ℕ)
  pub written : List Message
  pub got : List (List ℕ)

abbrev on_wire : List (List ℕ) → Option (List ℕ × McAddr) → List (List ℕ)
on_wire wire none = wire
on_wire wire (some x) = x.0 ∷ wire

-- One call at either end; channel k is never closed. The sender may be fed any bytes at all.
pub data Step (k : ℕ) (l : Link) : Link → Type 0 where
  writes :
      (i : ℕ) (bytes : List ℕ)
      → length l.written + 1 < u16_mod
      → Step k l (record l {
        sender = (mc_write l.sender i bytes).1;
        written =
            l.written ++ logged_by (l.sender.chan i).type i bytes (mc_write l.sender i bytes).0;
      })
  transmits :
      (buflen : ℕ)
      → Step k l (record l {
        sender = (mc_send_next l.sender buflen).1;
        wire = on_wire l.wire (mc_send_next l.sender buflen).0;
      })
  hears :
      (p : List ℕ) (from : Option McAddr)
      → Step k l (record l { sender = (mc_feed l.sender p from).1 })
  connects : (addr : McAddr) → Step k l (record l { sender = mc_connect l.sender addr })
  polls : Step k l (record l { sender = (mc_poll l.sender).1 })
  opens : (type : ℕ) → Step k l (record l { sender = (mc_chan_open l.sender type).1 })
  closes : (i : ℕ) → i ≢ k → Step k l (record l { sender = mc_chan_close l.sender i })
  ticks : (now_ms : ℕ) → Step k l (record l { sender = (mc_service l.sender now_ms).1 })
  arrives :
      (p : List ℕ) (from : Option McAddr)
      → Memᴰ p l.wire
      → Step k l (record l { receiver = (mc_feed l.receiver p from).1 })
  reads :
      (i buflen : ℕ)
      → Step k l (record l {
        receiver = (mc_read l.receiver i buflen).1;
        got = l.got ++ read_by k i (l.receiver.chan i).rx_count (mc_read l.receiver i buflen).0;
      })
  connects_back : (addr : McAddr) → Step k l (record l { receiver = mc_connect l.receiver addr })
  answers : (buflen : ℕ) → Step k l (record l { receiver = (mc_send_next l.receiver buflen).1 })
  writes_back :
      (i : ℕ) (bytes : List ℕ) → Step k l (record l { receiver = (mc_write l.receiver i bytes).1 })
  polls_back : Step k l (record l { receiver = (mc_poll l.receiver).1 })
  opens_back : (type : ℕ) → Step k l (record l { receiver = (mc_chan_open l.receiver type).1 })
  closes_back : (i : ℕ) → i ≢ k → Step k l (record l { receiver = mc_chan_close l.receiver i })
  ticks_back : (now_ms : ℕ) → Step k l (record l { receiver = (mc_service l.receiver now_ms).1 })

pub data Run (k : ℕ) (l : Link) : Link → Type 0 where
  done : Run k l l
  then_step : {m n : Link} → Run k l m → Step k m n → Run k l n

-- What every run keeps.
pub record LinkOk (k : ℕ) (l : Link) : Type 0 where
  pub small : length l.written < u16_mod
  pub sends : Sends k l.written l.sender
  pub receives : Receives k l.written l.got l.receiver
  pub packets : (p : List ℕ) → Memᴰ p l.wire → PacketOk k l.written p

-- An end as mc_open makes it, with both channels opened.
unfoldable pub fresh_end : Bool → ℕ → ℕ → ℕ → Microchan
fresh_end is_server id type₀ type₁ =
    (mc_chan_open (mc_chan_open (mc_open is_server id) type₀).1 type₁).1

abbrev pub fresh_link : Microchan → Microchan → Link
fresh_link c d = record { sender = c; receiver = d; wire = []; written = []; got = [] }

pub fresh_end-Sends :
    (k : ℕ) (is_server : Bool) (id type₀ type₁ : ℕ)
    → k < mc_max_chan
    → (if k == 0 then type₀ else type₁) ≡ mc_reliable
    → Sends k [] (fresh_end is_server id type₀ type₁)
unfolding fresh_end mc_chan_open open_at mc_open
fresh_end-Sends k is_server id type₀ type₁ kept rel = (
  record { ids = λ i u. ground arith; used = ground arith; reliable = ground arith },
  record {
    all = refl;
    base_le = omega arith;
    unsent_le = omega arith;
    room = omega arith;
    slots = λ s lo hi. absurd (omega arith);
  },
  record {
    head_lt = omega arith;
    size_le = omega arith;
    other = λ j h l. absurd (omega arith);
    fits = λ j h l. absurd (omega arith);
  },
)
