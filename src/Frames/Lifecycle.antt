-- ===== src/Frames/Lifecycle.antt =====
-- The life cycle of a connection in src/netchan.c as a relation between states, and what one frame
-- can do to it.
use netchan.Base.{
  ltb, ◌==◌, if◌then◌else◌, Bool-cases, ℕ, ◌≡◌, refl, ◌∙◌, ◌⊎◌, inl, inr, Bool, true, false, not,
  Option, none, some, arith, length, take, drop, List, ◌∷◌,
}
use netchan.Acks.{ack_on, process_ack}
use netchan.Channel.{place_chan, chan_new}
use netchan.Ctrl.{ctrl_reserve, ctrl_pong, ctrl_channel_close, ctrl_window_update}
use netchan.Data.{Reply, with_rx, data_on, process_data}
use netchan.Events.{ev_push}
use netchan.Frames.{
  hello, process_connect_init, process_connect_accept, process_connect_redirect, disconnected,
  process_disconnect, process_ping, process_pong, set_chan_state, opened_by_peer, open_request,
  process_channel_open, close_on, process_channel_close, window_on, process_window_update,
}
use netchan.Packet.{process_frame}
use netchan.Packet.Cases.{process_frame_cases}
use netchan.Types.{
  version, receiver, chan_opened, ConnState, new, connecting, connected, closing, closed,
  ev_connected, err_proto, ok, err, Conn, Env,
}
use netchan.Wire.{byte_at, wr32, rd16, rd32}

-- What may follow what.
pub data Follows : ConnState → ConnState → Type 0 where
  unchanged : (s : ConnState) → Follows s s
  greeted : Follows new connecting
  hung_up : Follows connected closing
  aborted : Follows connecting closed
  dropped : Follows connected closed
  wound_up : Follows closing closed

stays_at : (s t : ConnState) → t ≡ s → Follows s t
stays_at s t e = rw e (unchanged s)

disconnected-Follows : (c : Conn) (s : ConnState) → c.state ≡ s → Follows s (disconnected c s).state
unfolding disconnected
disconnected-Follows c new e = rw e (unchanged new)
disconnected-Follows c connecting e = aborted
disconnected-Follows c connected e = dropped
disconnected-Follows c closing e = wound_up
disconnected-Follows c closed e = rw e (unchanged closed)

hello-Follows :
    (env : Env) (k : ℕ) (c : Conn) (s : ConnState) → c.state ≡ s → Follows s (hello env k c s).state
unfolding hello
hello-Follows env k c new e = greeted
hello-Follows env k c connecting e = rw e (unchanged connecting)
hello-Follows env k c connected e = rw e (unchanged connected)
hello-Follows env k c closing e = rw e (unchanged closing)
hello-Follows env k c closed e = rw e (unchanged closed)

ctrl_reserve-state : (c : Conn) (frame : List ℕ) → (ctrl_reserve c frame).state ≡ c.state
unfolding ctrl_reserve
ctrl_reserve-state c frame = ground arith

opened_by_peer-state :
    (chan_id role : ℕ) (made : Option ℕ × Conn)
    → (opened_by_peer chan_id role made).state ≡ made.1.state
unfolding opened_by_peer ctrl_channel_close ctrl_window_update set_chan_state
opened_by_peer-state chan_id role (none, c) = ctrl_reserve-state c _
opened_by_peer-state chan_id role (some s, c) = elim (Bool-cases (role == receiver)) [
  | inl ours ↦ rw ours (ctrl_reserve-state (set_chan_state c s chan_opened) _)
  | inr theirs ↦ rw theirs refl
]

place_chan-state :
    (c : Conn) (slot : Option ℕ) (id type dir role : ℕ) (name : Option (List ℕ))
    → (place_chan c slot id type dir role name).1.state ≡ c.state
unfolding place_chan
place_chan-state c none id type dir role name = refl
place_chan-state c (some s) id type dir role name = refl

open_request-state :
    (c : Conn) (slot : Option ℕ) (chan_id type dir : ℕ) (ct : List ℕ)
    → (open_request c slot chan_id type dir ct).state ≡ c.state
unfolding open_request ctrl_channel_close chan_new
open_request-state c (some s) chan_id type dir ct = ctrl_reserve-state c _
open_request-state c none chan_id type dir ct =
    opened_by_peer-state chan_id _ _ ∙ place_chan-state c _ chan_id type dir _ (some ct)

data_on-state :
    (c : Conn) (slot : Option ℕ) (seq frag_idx frag_total : ℕ) (payload : List ℕ)
    → (data_on c slot seq frag_idx frag_total payload).state ≡ c.state
unfolding data_on with_rx
data_on-state c none seq frag_idx frag_total payload = refl
data_on-state c (some s) seq frag_idx frag_total payload = ground arith

ack_on-state : (c : Conn) (slot : Option ℕ) (seq : ℕ) → (ack_on c slot seq).state ≡ c.state
unfolding ack_on
ack_on-state c none seq = refl
ack_on-state c (some s) seq = ground arith

window_on-state : (c : Conn) (slot : Option ℕ) (w : ℕ) → (window_on c slot w).state ≡ c.state
unfolding window_on
window_on-state c none w = refl
window_on-state c (some s) w = ground arith

close_on-state : (c : Conn) (slot : Option ℕ) → (close_on c slot).state ≡ c.state
unfolding close_on set_chan_state
close_on-state c none = refl
close_on-state c (some s) = refl

-- What a frame does to the state of a connection.
abbrev pub Moved : Conn → Reply → Type 0
Moved c reply = Follows c.state reply.0.state ⊎ (c.server ≡ false) × (reply.0.state ≡ connected)

kept : (c : Conn) (reply : Reply) → reply.0.state ≡ c.state → Moved c reply
kept c reply e = inl (stays_at c.state reply.0.state e)

process_connect_init-Moved :
    (env : Env) (k : ℕ) (c : Conn) (p : List ℕ) → Moved c (process_connect_init env k c p)
unfolding process_connect_init
process_connect_init-Moved env k c p = elim (Bool-cases (ltb (length p) 6)) [
  | inl e₁ ↦ rw e₁ (inl (unchanged c.state))
  | inr e₁ ↦ elim (Bool-cases (not c.server)) [
    | inl e₂ ↦ rw (e₁, e₂) (inl (unchanged c.state))
    | inr e₂ ↦ elim (Bool-cases (not (byte_at p 5 == version))) [
      | inl e₃ ↦ rw (e₁, e₂, e₃) (inl (unchanged c.state))
      | inr e₃ ↦
          rw (e₁, e₂, e₃)
            (inl (hello-Follows env k (record c { remote_id = rd32 p 1 }) c.state refl))
    ]
  ]
]

process_connect_accept-Moved : (c : Conn) (p : List ℕ) → Moved c (process_connect_accept c p)
unfolding process_connect_accept
process_connect_accept-Moved c p = elim (Bool-cases (ltb (length p) 10)) [
  | inl e₁ ↦ rw e₁ (inl (unchanged c.state))
  | inr e₁ ↦ rw e₁ (by_role c.server refl)
]
  where
    by_role :
        (b : Bool)
        → c.server ≡ b
        → Moved c (
            if b then (c, err err_proto) else (
              record c {
                remote_id = rd32 p 1;
                state = connected;
                evq = ev_push c.evq ev_connected none;
              },
              ok 10,
            ))
    by_role true e = inl (unchanged c.state)
    by_role false e = inr (e, refl)

process_disconnect-Moved : (c : Conn) (p : List ℕ) → Moved c (process_disconnect c p)
unfolding process_disconnect
process_disconnect-Moved c p = elim (Bool-cases (ltb (length p) 3)) [
  | inl e₁ ↦ rw e₁ (inl (unchanged c.state))
  | inr e₁ ↦ rw e₁ (inl (disconnected-Follows c c.state refl))
]

process_connect_redirect-state :
    (c : Conn) (p : List ℕ) → (process_connect_redirect c p).0.state ≡ c.state
unfolding process_connect_redirect
process_connect_redirect-state c p = ground arith

process_ping-state : (c : Conn) (p : List ℕ) → (process_ping c p).0.state ≡ c.state
unfolding process_ping ctrl_pong
process_ping-state c p = ground (arith, ctrl_reserve-state c (6 ∷ wr32 (rd32 p 1)))

process_pong-state :
    (env : Env) (k : ℕ) (c : Conn) (p : List ℕ) → (process_pong env k c p).0.state ≡ c.state
unfolding process_pong
process_pong-state env k c p = ground arith

process_channel_open-state : (c : Conn) (p : List ℕ) → (process_channel_open c p).0.state ≡ c.state
unfolding process_channel_open
process_channel_open-state c p = ground (
  arith,
  open_request-state c (c.channels (byte_at p 1)) (byte_at p 1) (byte_at p 2) (byte_at p 3)
      (take (if ltb (byte_at p 4) 63 then byte_at p 4 else 63) (drop 5 p)),
)

process_channel_close-state :
    (c : Conn) (p : List ℕ) → (process_channel_close c p).0.state ≡ c.state
unfolding process_channel_close
process_channel_close-state c p = ground (arith, close_on-state c (c.channels (byte_at p 1)))

process_data-state : (c : Conn) (p : List ℕ) → (process_data c p).0.state ≡ c.state
unfolding process_data
process_data-state c p = ground (
  arith,
  data_on-state c (c.channels (byte_at p 1)) (rd16 p 2) (byte_at p 6) (byte_at p 7)
      (take (rd16 p 4) (drop 8 p)),
)

process_ack-state : (c : Conn) (p : List ℕ) → (process_ack c p).0.state ≡ c.state
unfolding process_ack
process_ack-state c p = ground (arith, ack_on-state c (c.channels (byte_at p 1)) (rd16 p 2))

process_window_update-state :
    (c : Conn) (p : List ℕ) → (process_window_update c p).0.state ≡ c.state
unfolding process_window_update
process_window_update-state c p =
    ground (arith, window_on-state c (c.channels (byte_at p 1)) (rd32 p 2))

-- Whatever a frame says, it leaves the connection's state alone or moves it along the life cycle: new
-- to connecting, connected to closing, and connecting, connected or closing to closed; or it connects a
-- client, from whatever state.
pub process_frame-Moved :
    (env : Env) (k : ℕ) (c : Conn) (p : List ℕ) → Moved c (process_frame env k c p)
process_frame-Moved env k c p =
    process_frame_cases (Moved c) env k c p (process_connect_init-Moved env k c p)
      (process_connect_accept-Moved c p)
      (kept c (process_connect_redirect c p) (process_connect_redirect-state c p))
      (process_disconnect-Moved c p) (kept c (process_ping c p) (process_ping-state c p))
      (kept c (process_pong env k c p) (process_pong-state env k c p))
      (kept c (process_channel_open c p) (process_channel_open-state c p))
      (kept c (process_channel_close c p) (process_channel_close-state c p))
      (kept c (process_data c p) (process_data-state c p))
      (kept c (process_ack c p) (process_ack-state c p))
      (kept c (process_window_update c p) (process_window_update-state c p))
      (inl (unchanged c.state))
