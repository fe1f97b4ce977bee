-- ===== src/Safety/Opening.antt =====
-- Opening a channel keeps the storage of a connection sound, and the slot that it hands out is in
-- use.
use netchan.Base.{
  ◌==◌, if◌then◌else◌, Bool-cases, ℕ, zero, suc, ◌+◌, ◌<◌, ◌≡◌, refl, inl, inr, Bool, true, false,
  Option, none, some, arith, sum_below, sum_below-update, List,
}
use netchan.BufferPool.Laws.{holds}
use netchan.Channel.{chan_reset_bufs, find_slot, name_of, place_chan, chan_new}
use netchan.Channel.Ownership.{out_held, recv_held, reorder_held, frag_held, owned, ChanInv}
use netchan.Ctrl.{ctrl_channel_close, ctrl_window_update}
use netchan.Frames.{set_chan_state, opened_by_peer, open_request}
use netchan.Safety.{ConnInv, Live}
use netchan.Safety.Frames.{ctrl_reserve-ConnInv, set_chan_state-ConnInv}
use netchan.Types.{max_chan, dir_send, sender, receiver, chan_opening, chan_opened, Chan, Conn}

-- A fresh channel is in shape and holds nothing.
pub fresh-ChanInv :
    (id type dir role state send_window recv_window : ℕ) (content_type : List ℕ)
    → ChanInv (record chan_reset_bufs {
      id = id;
      type = type;
      dir = dir;
      role = role;
      state = state;
      content_type = content_type;
      send_window = send_window;
      recv_window = recv_window;
    })
unfolding chan_reset_bufs
fresh-ChanInv id type dir role state send_window recv_window content_type = record {
  out_head_lt = omega arith;
  out_tail_lt = omega arith;
  rq_head_lt = omega arith;
  rq_tail_lt = omega arith;
  out_used = λ i. refl;
  out_window = λ i l a. cc;
  rq_used = λ i l. ground arith;
  reorder_used = λ i. refl;
  frag_used = λ i. refl;
}

pub fresh-owned : (b : ℕ) → owned b chan_reset_bufs ≡ 0
unfolding chan_reset_bufs out_held recv_held reorder_held frag_held sum_below holds
fresh-owned b = refl

find_slot_sound :
    (used : ℕ → Bool) (i n s : ℕ) → find_slot used i n ≡ some s → (s < i + n) × (used s ≡ false)
unfolding find_slot
find_slot_sound used i zero s h = absurd (ground arith)
find_slot_sound used i (suc n) s h = ground (arith, find_slot_sound used (i + 1) n s)

place_chan-ConnInv :
    (c : Conn) (slot : Option ℕ) (id type dir role : ℕ) (name : Option (List ℕ))
    → ((s : ℕ) → slot ≡ some s → (s < max_chan) × (c.chan_used s ≡ false))
    → ConnInv c
    → ConnInv (place_chan c slot id type dir role name).1
unfolding place_chan
place_chan-ConnInv c none id type dir role name free v = v
place_chan-ConnInv c (some s) id type dir role name free v = record {
  in_shape = λ i. elim (s == i) as (λ here. ChanInv (if here then ch else c.chan_pool i)) [
    | true ↦ fresh-ChanInv id type dir role 0 0 c.cfg.chan_window (name_of name)
    | false ↦ v.in_shape i
  ];
  total = λ b. omega (
    arith,
    sum_below-update (owned b) c.chan_pool s ch max_chan (free s refl).0,
    v.unused s b (free s refl).0 (free s refl).1,
    fresh-owned b,
    v.total b,
  );
  named = λ j i e. ground (arith, v.named j i, free s refl);
  unused = λ i b l f. ground (arith, v.unused i b l);
}
  where
    ch : Chan
    ch = record chan_reset_bufs {
      id = id;
      type = type;
      dir = dir;
      role = role;
      state = chan_opening;
      content_type = name_of name;
      send_window = 0;
      recv_window = c.cfg.chan_window;
    }

place_chan-Live :
    (c : Conn) (slot : Option ℕ) (id type dir role : ℕ) (name : Option (List ℕ)) (s : ℕ)
    → ((i : ℕ) → slot ≡ some i → (i < max_chan) × (c.chan_used i ≡ false))
    → (place_chan c slot id type dir role name).0 ≡ some s
    → Live (place_chan c slot id type dir role name).1 s
unfolding place_chan
place_chan-Live c none id type dir role name s free e = absurd (ground arith)
place_chan-Live c (some i) id type dir role name s free e = ground (arith, free i refl)

pub chan_new-ConnInv :
    (c : Conn) (id type dir role : ℕ) (name : Option (List ℕ))
    → ConnInv c
    → ConnInv (chan_new c id type dir role name).1
unfolding chan_new
chan_new-ConnInv c id type dir role name v =
    place_chan-ConnInv c _ id type dir role name (find_slot_sound c.chan_used 0 16) v

pub chan_new-Live :
    (c : Conn) (id type dir role : ℕ) (name : Option (List ℕ)) (s : ℕ)
    → (chan_new c id type dir role name).0 ≡ some s
    → Live (chan_new c id type dir role name).1 s
unfolding chan_new
chan_new-Live c id type dir role name s e =
    place_chan-Live c _ id type dir role name s (find_slot_sound c.chan_used 0 16) e

opened_by_peer-ConnInv :
    (chan_id local_role : ℕ) (made : Option ℕ × Conn)
    → ((s : ℕ) → made.0 ≡ some s → Live made.1 s)
    → ConnInv made.1
    → ConnInv (opened_by_peer chan_id local_role made)
unfolding opened_by_peer ctrl_channel_close ctrl_window_update
opened_by_peer-ConnInv chan_id local_role (none, c) live v = ctrl_reserve-ConnInv c _ v
opened_by_peer-ConnInv chan_id local_role (some s, c) live v =
    elim (Bool-cases (local_role == receiver)) [
      | inl ours ↦ rw ours (ctrl_reserve-ConnInv (set_chan_state c s chan_opened) _ opened)
      | inr theirs ↦ rw theirs opened
    ]
  where
    opened : ConnInv (set_chan_state c s chan_opened)
    opened = set_chan_state-ConnInv c s chan_opened (live s refl) v

pub open_request-ConnInv :
    (c : Conn) (slot : Option ℕ) (chan_id type dir : ℕ) (ct : List ℕ)
    → ConnInv c
    → ConnInv (open_request c slot chan_id type dir ct)
unfolding open_request ctrl_channel_close
open_request-ConnInv c (some s) chan_id type dir ct v = ctrl_reserve-ConnInv c _ v
open_request-ConnInv c none chan_id type dir ct v =
    let role = if dir == dir_send then receiver else sender in
    opened_by_peer-ConnInv chan_id role (chan_new c chan_id type dir role (some ct))
      (chan_new-Live c chan_id type dir role (some ct))
      (chan_new-ConnInv c chan_id type dir role (some ct) v)
