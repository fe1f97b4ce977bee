-- ===== src/Safety/Packets.antt =====
-- Every frame, and so every packet, keeps the storage of a connection sound.
use netchan.Base.{ltb, ◌==◌, Bool-cases, ℕ, ◌+◌, inl, inr, not, ◌&&◌, Option, length, List}
use netchan.Acks.{process_ack}
use netchan.Ctrl.{ctrl_pong}
use netchan.Data.{Reply, process_data}
use netchan.Frames.{
  hello, process_connect_init, process_connect_accept, process_connect_redirect, disconnected,
  process_disconnect, process_ping, process_pong, process_channel_open, process_channel_close,
  process_window_update,
}
use netchan.Packet.{process_frame, netchan_feed}
use netchan.Packet.Cases.{process_frame_cases, After, netchan_feed_inv}
use netchan.Safety.{ConnInv}
use netchan.Safety.Frames.{
  ctrl_reserve-ConnInv, data_on-ConnInv, ack_on-ConnInv, window_on-ConnInv, close_on-ConnInv,
}
use netchan.Safety.Opening.{open_request-ConnInv}
use netchan.Types.{version, ConnState, new, connecting, connected, closing, closed, Addr, Conn, Env}
use netchan.Wire.{byte_at, rd16, rd32}

disconnected-ConnInv : (c : Conn) (state : ConnState) → ConnInv c → ConnInv (disconnected c state)
unfolding disconnected
disconnected-ConnInv c new v = v
disconnected-ConnInv c connecting v = v
disconnected-ConnInv c connected v = v
disconnected-ConnInv c closing v = v
disconnected-ConnInv c closed v = v

hello-ConnInv :
    (env : Env) (k : ℕ) (c : Conn) (state : ConnState) → ConnInv c → ConnInv (hello env k c state)
unfolding hello
hello-ConnInv env k c new v = v
hello-ConnInv env k c connecting v = v
hello-ConnInv env k c connected v = v
hello-ConnInv env k c closing v = v
hello-ConnInv env k c closed v = v

process_connect_init-ConnInv :
    (env : Env) (k : ℕ) (c : Conn) (p : List ℕ)
    → ConnInv c
    → ConnInv (process_connect_init env k c p).0
unfolding process_connect_init
process_connect_init-ConnInv env k c p v = elim (Bool-cases (ltb (length p) 6)) [
  | inl e₁ ↦ rw e₁ v
  | inr e₁ ↦ elim (Bool-cases (not c.server)) [
    | inl e₂ ↦ rw (e₁, e₂) v
    | inr e₂ ↦ elim (Bool-cases (not (byte_at p 5 == version))) [
      | inl e₃ ↦ rw (e₁, e₂, e₃) v
      | inr e₃ ↦ rw (e₁, e₂, e₃) (hello-ConnInv env k _ c.state v)
    ]
  ]
]

process_channel_open-ConnInv :
    (c : Conn) (p : List ℕ) → ConnInv c → ConnInv (process_channel_open c p).0
unfolding process_channel_open
process_channel_open-ConnInv c p v = elim (Bool-cases (ltb (length p) 5)) [
  | inl short ↦ rw short v
  | inr long ↦ elim (Bool-cases (ltb (length p) (5 + byte_at p 4))) [
    | inl short ↦ rw (long, short) v
    | inr whole ↦ rw (long, whole) (open_request-ConnInv c _ _ _ _ _ v)
  ]
]

process_data-ConnInv : (c : Conn) (p : List ℕ) → ConnInv c → ConnInv (process_data c p).0
unfolding process_data
process_data-ConnInv c p v = elim (Bool-cases (ltb (length p) 8)) [
  | inl short ↦ rw short v
  | inr long ↦ elim (Bool-cases (ltb (length p) (8 + rd16 p 4))) [
    | inl short ↦ rw (long, short) v
    | inr whole ↦ rw (long, whole) (data_on-ConnInv c _ _ _ _ _ (v.named (byte_at p 1)) v)
  ]
]

process_connect_accept-ConnInv :
    (c : Conn) (p : List ℕ) → ConnInv c → ConnInv (process_connect_accept c p).0
unfolding process_connect_accept
process_connect_accept-ConnInv c p v = elim (Bool-cases (ltb (length p) 10)) [
  | inl e₁ ↦ rw e₁ v
  | inr e₁ ↦ elim (Bool-cases c.server) [ inl e₂ ↦ rw (e₁, e₂) v | inr e₂ ↦ rw (e₁, e₂) v ]
]

process_connect_redirect-ConnInv :
    (c : Conn) (p : List ℕ) → ConnInv c → ConnInv (process_connect_redirect c p).0
unfolding process_connect_redirect
process_connect_redirect-ConnInv c p v = elim (Bool-cases (ltb (length p) 12)) [
  | inl e₁ ↦ rw e₁ v
  | inr e₁ ↦ elim (Bool-cases (byte_at p 5 == 4)) [
    | inl e₂ ↦ rw (e₁, e₂) v
    | inr e₂ ↦ elim (Bool-cases (byte_at p 5 == 6)) [
      | inr e₃ ↦ rw (e₁, e₂, e₃) v
      | inl e₃ ↦ elim (Bool-cases (ltb (length p) 24)) [
        | inl e₄ ↦ rw (e₁, e₂, e₃, e₄) v
        | inr e₄ ↦ rw (e₁, e₂, e₃, e₄) v
      ]
    ]
  ]
]

process_disconnect-ConnInv :
    (c : Conn) (p : List ℕ) → ConnInv c → ConnInv (process_disconnect c p).0
unfolding process_disconnect
process_disconnect-ConnInv c p v = elim (Bool-cases (ltb (length p) 3)) [
  | inl short ↦ rw short v
  | inr whole ↦ rw whole (disconnected-ConnInv c c.state v)
]

process_ping-ConnInv : (c : Conn) (p : List ℕ) → ConnInv c → ConnInv (process_ping c p).0
unfolding process_ping ctrl_pong
process_ping-ConnInv c p v = elim (Bool-cases (ltb (length p) 5)) [
  | inl short ↦ rw short v
  | inr whole ↦ rw whole (ctrl_reserve-ConnInv c _ v)
]

process_pong-ConnInv :
    (env : Env) (k : ℕ) (c : Conn) (p : List ℕ) → ConnInv c → ConnInv (process_pong env k c p).0
unfolding process_pong
process_pong-ConnInv env k c p v = elim (Bool-cases (ltb (length p) 5)) [
  | inl e₁ ↦ rw e₁ v
  | inr e₁ ↦ elim (Bool-cases (rd32 p 1 == c.ping_opaque && not (c.ping_sent_ms == 0))) [
    | inl e₂ ↦ rw (e₁, e₂) v
    | inr e₂ ↦ rw (e₁, e₂) v
  ]
]

process_channel_close-ConnInv :
    (c : Conn) (p : List ℕ) → ConnInv c → ConnInv (process_channel_close c p).0
unfolding process_channel_close
process_channel_close-ConnInv c p v = elim (Bool-cases (ltb (length p) 4)) [
  | inl short ↦ rw short v
  | inr whole ↦ rw whole (close_on-ConnInv c _ (v.named (byte_at p 1)) v)
]

process_ack-ConnInv : (c : Conn) (p : List ℕ) → ConnInv c → ConnInv (process_ack c p).0
unfolding process_ack
process_ack-ConnInv c p v = elim (Bool-cases (ltb (length p) 4)) [
  | inl short ↦ rw short v
  | inr whole ↦ rw whole (ack_on-ConnInv c _ _ (v.named (byte_at p 1)) v)
]

process_window_update-ConnInv :
    (c : Conn) (p : List ℕ) → ConnInv c → ConnInv (process_window_update c p).0
unfolding process_window_update
process_window_update-ConnInv c p v = elim (Bool-cases (ltb (length p) 6)) [
  | inl short ↦ rw short v
  | inr whole ↦ rw whole (window_on-ConnInv c _ _ (v.named (byte_at p 1)) v)
]

pub process_frame-ConnInv :
    (env : Env) (k : ℕ) (c : Conn) (p : List ℕ) → ConnInv c → ConnInv (process_frame env k c p).0
process_frame-ConnInv env k c p v =
    process_frame_cases (λ (reply : Reply). ConnInv reply.0) env k c p
      (process_connect_init-ConnInv env k c p v) (process_connect_accept-ConnInv c p v)
      (process_connect_redirect-ConnInv c p v) (process_disconnect-ConnInv c p v)
      (process_ping-ConnInv c p v) (process_pong-ConnInv env k c p v)
      (process_channel_open-ConnInv c p v) (process_channel_close-ConnInv c p v)
      (process_data-ConnInv c p v) (process_ack-ConnInv c p v) (process_window_update-ConnInv c p v)
      v

-- Until a copy leaves pool_store, no packet breaks the storage of a connection: if it was sound before
-- netchan_feed, it is sound in the connection that netchan_feed returns.
pub netchan_feed-ConnInv :
    (env : Env) (c : Conn) (pkt : List ℕ) (from : Option Addr)
    → ConnInv c
    → After ConnInv (netchan_feed env c pkt from)
netchan_feed-ConnInv env c pkt from v =
    netchan_feed_inv ConnInv env (process_frame-ConnInv env) c pkt from (λ a t n h. h) v
