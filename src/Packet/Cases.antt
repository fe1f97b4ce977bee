-- ===== src/Packet/Cases.antt =====
-- The switch of parse_frames, once for all properties of frames.
use netchan.Base.{
  ltb, ◌==◌, Bool-cases, ℕ, zero, suc, ◌+◌, ◌%◌, inl, inr, Option, none, some, length, drop, List,
  [], ◌∷◌,
}
use netchan.Acks.{process_ack}
use netchan.Data.{Reply, process_data}
use netchan.Frames.{
  process_connect_init, process_connect_accept, process_connect_redirect, process_disconnect,
  process_ping, process_pong, process_channel_open, process_channel_close, process_window_update,
}
use netchan.Packet.{
  FrameType, connect_init, connect_accept, connect_redirect, disconnect, ping, pong, channel_open,
  channel_close, channel_data, ack, window_update, unknown, frame_type, process_as, process_frame,
  continue, frames_from, parse_frames, accept_packet, netchan_feed,
}
use netchan.Types.{
  pkt_flag_init, hdr_init_size, hdr_full_size, err_proto, Result, ok, err, trap, Addr, Conn, Env,
}
use netchan.Wire.{byte_at, rd32}

-- What holds of each handler's answer and of a refusal holds of the frame's.
pub process_frame_cases {ℓ} :
    (P : Reply → Type ℓ) (env : Env) (k : ℕ) (c : Conn) (p : List ℕ)
    → P (process_connect_init env k c p)
    → P (process_connect_accept c p)
    → P (process_connect_redirect c p)
    → P (process_disconnect c p)
    → P (process_ping c p)
    → P (process_pong env k c p)
    → P (process_channel_open c p)
    → P (process_channel_close c p)
    → P (process_data c p)
    → P (process_ack c p)
    → P (process_window_update c p)
    → P (c, err err_proto)
    → P (process_frame env k c p)
unfolding process_frame process_as
process_frame_cases P env k c p p₁ p₂ p₃ p₄ p₅ p₆ p₇ p₈ p₉ p₁₀ p₁₁ p₁₂ =
    go (frame_type (byte_at p 0))
  where
    go : (t : FrameType) → P (process_as env k c p t)
    go connect_init = p₁
    go connect_accept = p₂
    go connect_redirect = p₃
    go disconnect = p₄
    go ping = p₅
    go pong = p₆
    go channel_open = p₇
    go channel_close = p₈
    go channel_data = p₉
    go ack = p₁₀
    go window_update = p₁₁
    go unknown = p₁₂

-- The connection that the parser leaves behind, if it comes to an end.
abbrev pub After : (Conn → Type 0) → Option (Conn × Result (Unit {0})) → Type 0
After P none = Unit
After P (some (c, _)) = P c

continue-After :
    (P : Conn → Type 0) (loop : ℕ → Conn → List ℕ → Option (Conn × Result (Unit {0}))) (k : ℕ)
    (p : List ℕ) (reply : Reply)
    → ((k : ℕ) (c : Conn) (p : List ℕ) → P c → After P (loop k c p))
    → P reply.0
    → After P (continue loop k p reply)
unfolding continue
continue-After P loop k p (c, ok consumed) ih h = ih (k + consumed) c (drop consumed p) h
continue-After P loop k p (c, err e) ih h = h
continue-After P loop k p (c, trap) ih h = h

module _ (P : Conn → Type 0) (env : Env)
    (keeps : (k : ℕ) (c : Conn) (p : List ℕ) → P c → P (process_frame env k c p).0) where
  -- What every frame keeps, a packet keeps.
  pub frames_from_inv :
      (fuel k : ℕ) (c : Conn) (p : List ℕ) → P c → After P (frames_from fuel env k c p)
  unfolding frames_from
  frames_from_inv zero k c p h = tt
  frames_from_inv (suc fuel) k c [] h = h
  frames_from_inv (suc fuel) k c (b ∷ rest) h = elim (Bool-cases (b == 0)) [
    | inl padding ↦ rw (padding, frames_from) (frames_from_inv fuel (k + 1) c rest h)
    | inr frame ↦
        rw (frame, frames_from)
          (continue-After P (frames_from fuel env) k (b ∷ rest) (process_frame env k c (b ∷ rest))
            (frames_from_inv fuel) (keeps k c (b ∷ rest) h))
  ]

  -- An answer of netchan_feed is P of the connection, if P does not see the peer's address and the
  -- counters of received packets.
  pub netchan_feed_inv :
      (c : Conn) (pkt : List ℕ) (from : Option Addr)
      → ((a : Addr) (t n : ℕ)
          → P c
          → P (record c { peer_addr = a; last_recv_ms = t; pkts_recv = n }))
      → P c
      → After P (netchan_feed env c pkt from)
  unfolding netchan_feed accept_packet parse_frames
  netchan_feed_inv c pkt from blind h = elim (Bool-cases (ltb (length pkt) hdr_init_size)) [
    | inl e₁ ↦ rw e₁ h
    | inr e₁ ↦ elim (Bool-cases (byte_at pkt 0 % 2 == pkt_flag_init)) [
      | inl e₂ ↦ rw (e₁, e₂) (frames_from_inv _ _ _ _ (blind _ _ _ h))
      | inr e₂ ↦ elim (Bool-cases (ltb (length pkt) hdr_full_size)) [
        | inl e₃ ↦ rw (e₁, e₂, e₃) h
        | inr e₃ ↦ elim (Bool-cases (rd32 pkt 1 == c.local_id)) [
          | inl e₄ ↦ rw (e₁, e₂, e₃, e₄) (frames_from_inv _ _ _ _ (blind _ _ _ h))
          | inr e₄ ↦ rw (e₁, e₂, e₃, e₄) h
        ]
      ]
    ]
  ]
