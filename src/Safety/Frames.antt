-- ===== src/Safety/Frames.antt =====
-- Every frame handler keeps the storage of a connection sound.
use netchan.Base.{
  ltb, ◌==◌, Bool-cases, ℕ, ◌+◌, ◌≡◌, refl, inl, inr, Option, none, some, length, List,
}
use netchan.Acks.{ack_on}
use netchan.Acks.Ownership.{acknowledge-Held}
use netchan.Channel.{max_frag_payload}
use netchan.Channel.Ownership.{Held}
use netchan.Ctrl.{ctrl_reserve}
use netchan.Data.{with_rx, data_on}
use netchan.Data.Ownership.{receive_data-Held}
use netchan.Frames.{set_chan_state, close_on, window_on}
use netchan.Safety.{ConnInv, Live, put_chan-StoreInv}
use netchan.Types.{ctrl_buf_size, sender, receiver, chan_closed, Chan, Pool, Conn}

pub ctrl_reserve-ConnInv : (c : Conn) (frame : List ℕ) → ConnInv c → ConnInv (ctrl_reserve c frame)
unfolding ctrl_reserve
ctrl_reserve-ConnInv c frame v =
    elim (Bool-cases (ltb ctrl_buf_size (length c.ctrl_buf + length frame))) [
      | inl full ↦ rw full v
      | inr fits ↦ rw fits v
    ]

-- A change of a channel's state or window is none of its holdings.
pub fields-Held :
    (b n : ℕ) (ch : Chan) (p : Pool) (state window : ℕ)
    → Held b n ch p
    → Held b n (record ch { state = state; send_window = window }) p
fields-Held b n ch p state window v = record {
  inv = record {
    out_head_lt = v.inv.out_head_lt;
    out_tail_lt = v.inv.out_tail_lt;
    rq_head_lt = v.inv.rq_head_lt;
    rq_tail_lt = v.inv.rq_tail_lt;
    out_used = v.inv.out_used;
    out_window = v.inv.out_window;
    rq_used = v.inv.rq_used;
    reorder_used = v.inv.reorder_used;
    frag_used = v.inv.frag_used;
  };
  total = v.total;
}

pub set_chan_state-ConnInv :
    (c : Conn) (s state : ℕ) → Live c s → ConnInv c → ConnInv (set_chan_state c s state)
unfolding set_chan_state
set_chan_state-ConnInv c s state live v =
    put_chan-StoreInv s _ c.pool live.0 live.1
      (λ b n h. fields-Held b n (c.chan_pool s) c.pool state (c.chan_pool s).send_window h) v

pub data_on-ConnInv :
    (c : Conn) (slot : Option ℕ) (seq frag_idx frag_total : ℕ) (payload : List ℕ)
    → ((s : ℕ) → slot ≡ some s → Live c s)
    → ConnInv c
    → ConnInv (data_on c slot seq frag_idx frag_total payload)
unfolding data_on with_rx
data_on-ConnInv c none seq frag_idx frag_total payload live v = v
data_on-ConnInv c (some s) seq frag_idx frag_total payload live v =
    elim (Bool-cases ((c.chan_pool s).role == receiver)) [
      | inr other ↦ rw other v
      | inl ours ↦ rw ours (
          put_chan-StoreInv s _ _ (live s refl).0 (live s refl).1
            (λ b n h.
              receive_data-Held s (max_frag_payload c.cfg)
                (record { pool = c.pool; evq = c.evq; ch = c.chan_pool s }) seq frag_idx frag_total
                payload h)
            v)
    ]

pub ack_on-ConnInv :
    (c : Conn) (slot : Option ℕ) (acked_seq : ℕ)
    → ((s : ℕ) → slot ≡ some s → Live c s)
    → ConnInv c
    → ConnInv (ack_on c slot acked_seq)
unfolding ack_on
ack_on-ConnInv c none acked_seq live v = v
ack_on-ConnInv c (some s) acked_seq live v = elim (Bool-cases ((c.chan_pool s).role == sender)) [
  | inr other ↦ rw other v
  | inl ours ↦ rw ours (
      put_chan-StoreInv s _ _ (live s refl).0 (live s refl).1
        (λ b n h. acknowledge-Held acked_seq (c.chan_pool s) c.pool h) v)
]

pub window_on-ConnInv :
    (c : Conn) (slot : Option ℕ) (window : ℕ)
    → ((s : ℕ) → slot ≡ some s → Live c s)
    → ConnInv c
    → ConnInv (window_on c slot window)
unfolding window_on
window_on-ConnInv c none window live v = v
window_on-ConnInv c (some s) window live v = elim (Bool-cases ((c.chan_pool s).role == sender)) [
  | inr other ↦ rw other v
  | inl ours ↦ rw ours (
      put_chan-StoreInv s _ c.pool (live s refl).0 (live s refl).1
        (λ b n h. fields-Held b n (c.chan_pool s) c.pool _ window h) v)
]

pub close_on-ConnInv :
    (c : Conn) (slot : Option ℕ)
    → ((s : ℕ) → slot ≡ some s → Live c s)
    → ConnInv c
    → ConnInv (close_on c slot)
unfolding close_on
close_on-ConnInv c none live v = v
close_on-ConnInv c (some s) live v = set_chan_state-ConnInv c s chan_closed (live s refl) v
