-- ===== src/Packet/Termination.antt =====
-- The parser of src/netchan.c stays inside the packet and comes to an end on every input.
use netchan.Base.{
  ltb, ◌==◌, Bool-cases, ℕ, zero, suc, ◌+◌, ◌%◌, ◌≤◌, ◌<◌, ◌≡◌, refl, inl, inr, Option, some, arith,
  length, drop, length-drop, List, [], ◌∷◌,
}
use netchan.Acks.{process_ack}
use netchan.Data.{Reply, process_data}
use netchan.Frames.{
  process_connect_init, process_connect_accept, process_connect_redirect, process_disconnect,
  process_ping, process_pong, process_channel_open, process_channel_close, process_window_update,
}
use netchan.Packet.{process_frame, continue, frames_from, parse_frames, accept_packet, netchan_feed}
use netchan.Packet.Cases.{process_frame_cases}
use netchan.Types.{
  pkt_flag_init, hdr_init_size, hdr_full_size, Result, ok, err, trap, Addr, Conn, Env,
}
use netchan.Wire.{byte_at, rd32}

-- A handler's answer on p: an error, or a frame of at least one byte that lies in p.
abbrev pub FrameWithin : List ℕ → Result ℕ → Type 0
FrameWithin p (ok n) = (0 < n) × (n ≤ length p)
FrameWithin p (err e) = Unit
FrameWithin p trap = ⊥

connect_init-FrameWithin :
    (env : Env) (k : ℕ) (c : Conn) (p : List ℕ) → FrameWithin p (process_connect_init env k c p).1
unfolding process_connect_init
connect_init-FrameWithin env k c p = ground arith

connect_accept-FrameWithin : (c : Conn) (p : List ℕ) → FrameWithin p (process_connect_accept c p).1
unfolding process_connect_accept
connect_accept-FrameWithin c p = ground arith

connect_redirect-FrameWithin :
    (c : Conn) (p : List ℕ) → FrameWithin p (process_connect_redirect c p).1
unfolding process_connect_redirect
connect_redirect-FrameWithin c p = ground arith

pong-FrameWithin :
    (env : Env) (k : ℕ) (c : Conn) (p : List ℕ) → FrameWithin p (process_pong env k c p).1
unfolding process_pong
pong-FrameWithin env k c p = ground arith

channel_open-FrameWithin : (c : Conn) (p : List ℕ) → FrameWithin p (process_channel_open c p).1
unfolding process_channel_open
channel_open-FrameWithin c p = ground arith

data-FrameWithin : (c : Conn) (p : List ℕ) → FrameWithin p (process_data c p).1
unfolding process_data
data-FrameWithin c p = ground arith

-- Whatever is left of a packet, a frame that is accepted has at least one byte and ends inside it.
pub process_frame-FrameWithin :
    (env : Env) (k : ℕ) (c : Conn) (p : List ℕ) → FrameWithin p (process_frame env k c p).1
unfolding process_disconnect process_ping process_channel_close process_ack process_window_update
process_frame-FrameWithin env k c p =
    process_frame_cases (λ (reply : Reply). FrameWithin p reply.1) env k c p
      (connect_init-FrameWithin env k c p) (connect_accept-FrameWithin c p)
      (connect_redirect-FrameWithin c p) (ground arith) (ground arith) (pong-FrameWithin env k c p)
      (channel_open-FrameWithin c p) (ground arith) (data-FrameWithin c p) (ground arith)
      (ground arith) tt

continue_total :
    (loop : ℕ → Conn → List ℕ → Option (Conn × Result (Unit {0}))) (k : ℕ) (p : List ℕ)
    (reply : Reply)
    → FrameWithin p reply.1
    → ((k : ℕ) (c : Conn) (rest : List ℕ)
        → length rest < length p
        → (r : Conn × Result (Unit {0})) × (loop k c rest ≡ some r))
    → (r : Conn × Result (Unit {0})) × (continue loop k p reply ≡ some r)
unfolding continue
continue_total loop k p (c, ok n) h ih = ih (k + n) c (drop n p) (omega (arith, length-drop n p))
continue_total loop k p (c, err e) h ih = ((c, err e), refl)
continue_total loop k p (c, trap) h ih = absurd h

frames_from_total :
    (fuel : ℕ) (env : Env) (k : ℕ) (c : Conn) (p : List ℕ)
    → length p < fuel
    → (r : Conn × Result (Unit {0})) × (frames_from fuel env k c p ≡ some r)
unfolding frames_from
frames_from_total zero env k c p h = absurd (omega arith)
frames_from_total (suc fuel) env k c [] h = ((c, ok tt), refl)
frames_from_total (suc fuel) env k c (b ∷ rest) h = elim (Bool-cases (b == 0)) [
  | inl padding ↦
      rw (padding, frames_from) (frames_from_total fuel env (k + 1) c rest (omega arith))
  | inr frame ↦
      rw (frame, frames_from)
        (continue_total (frames_from fuel env) k (b ∷ rest) (process_frame env k c (b ∷ rest))
          (process_frame-FrameWithin env k c (b ∷ rest))
          (λ k' c' rest' l. frames_from_total fuel env k' c' rest' (omega arith)))
]

-- Whatever the packet, netchan_feed comes to an end with a result: the loop of parse_frames never runs
-- out of the model's fuel.
pub netchan_feed_total :
    (env : Env) (c : Conn) (pkt : List ℕ) (from : Option Addr)
    → (r : Conn × Result (Unit {0})) × (netchan_feed env c pkt from ≡ some r)
unfolding netchan_feed accept_packet parse_frames
netchan_feed_total env c pkt from = elim (Bool-cases (ltb (length pkt) hdr_init_size)) [
  | inl e₁ ↦ rw e₁ (_, refl)
  | inr e₁ ↦ elim (Bool-cases (byte_at pkt 0 % 2 == pkt_flag_init)) [
    | inl e₂ ↦ rw (e₁, e₂) (frames_from_total _ env _ _ _ (omega arith))
    | inr e₂ ↦ elim (Bool-cases (ltb (length pkt) hdr_full_size)) [
      | inl e₃ ↦ rw (e₁, e₂, e₃) (_, refl)
      | inr e₃ ↦ elim (Bool-cases (rd32 pkt 1 == c.local_id)) [
        | inl e₄ ↦ rw (e₁, e₂, e₃, e₄) (frames_from_total _ env _ _ _ (omega arith))
        | inr e₄ ↦ rw (e₁, e₂, e₃, e₄) (_, refl)
      ]
    ]
  ]
]
