-- ===== src/Packet.antt =====
-- Packet input in src/netchan.c: parse_frames, validate_migration, netchan_peek_id, netchan_feed.
pub mod Admission
pub mod Cases
pub mod Termination
pub mod Roundtrip
use netchan.Base.{
  ltb, leb, ◌==◌, if◌then◌else◌, is_some, ℕ, zero, suc, ◌+◌, ◌%◌, Bool, true, false, not, ◌&&◌,
  ◌||◌, Option, none, some, length, take, drop, bytes_eq, List, [], ◌∷◌, add32,
}
use netchan.Acks.{process_ack}
use netchan.Data.{Reply, process_data}
use netchan.Frames.{
  process_connect_init, process_connect_accept, process_connect_redirect, process_disconnect,
  process_ping, process_pong, process_channel_open, process_channel_close, process_window_update,
}
use netchan.Types.{
  pkt_flag_init, hdr_init_size, hdr_full_size, err_proto, Result, ok, err, trap, is_connected, Addr,
  Conn, Env,
}
use netchan.Wire.{byte_at, rd32}

pub data FrameType : Type 0 where
  connect_init connect_accept connect_redirect disconnect ping pong : FrameType
  channel_open channel_close channel_data ack window_update unknown : FrameType

-- The NC_FRAME_ constants.
unfoldable pub frame_type : ℕ → FrameType
frame_type b =
    if b == 1
    then connect_init
    else if b == 2
    then connect_accept
    else if b == 3
    then connect_redirect
    else if b == 4
    then disconnect
    else if b == 5
    then ping
    else if b == 6
    then pong
    else if b == 7
    then channel_open
    else if b == 8
    then channel_close
    else if b == 9
    then channel_data
    else if b == 10
    then ack
    else if b == 11
    then window_update
    else unknown

-- The switch on a frame's type.
unfoldable pub process_as : Env → ℕ → Conn → List ℕ → FrameType → Reply
process_as env k c p connect_init = process_connect_init env k c p
process_as env k c p connect_accept = process_connect_accept c p
process_as env k c p connect_redirect = process_connect_redirect c p
process_as env k c p disconnect = process_disconnect c p
process_as env k c p ping = process_ping c p
process_as env k c p pong = process_pong env k c p
process_as env k c p channel_open = process_channel_open c p
process_as env k c p channel_close = process_channel_close c p
process_as env k c p channel_data = process_data c p
process_as env k c p ack = process_ack c p
process_as env k c p window_update = process_window_update c p
process_as env k c p unknown = (c, err err_proto)

unfoldable pub process_frame : Env → ℕ → Conn → List ℕ → Reply
process_frame env k c p = process_as env k c p (frame_type (byte_at p 0))

-- After a frame at position k of the packet, where p is what is left: `pos += consumed`, or return.
unfoldable pub continue :
    (ℕ → Conn → List ℕ → Option (Conn × Result (Unit {0})))
    → ℕ
    → List ℕ
    → Reply
    → Option (Conn × Result (Unit {0}))
continue loop k p (c, ok consumed) = loop (k + consumed) c (drop consumed p)
continue loop k p (c, err e) = some (c, err e)
continue loop k p (c, trap) = some (c, trap)

-- The loop over the frames. `none` means that the fuel ran out.
unfoldable pub frames_from : ℕ → Env → ℕ → Conn → List ℕ → Option (Conn × Result (Unit {0}))
frames_from zero env k c p = none
frames_from (suc fuel) env k c [] = some (c, ok tt)
frames_from (suc fuel) env k c (b ∷ rest) = elim (b == 0) [
  | true ↦ frames_from fuel env (k + 1) c rest
  | false ↦ continue (frames_from fuel env) k (b ∷ rest) (process_frame env k c (b ∷ rest))
]

unfoldable pub parse_frames : Env → ℕ → Conn → List ℕ → Option (Conn × Result (Unit {0}))
parse_frames env k c p = frames_from (suc (length p)) env k c p

-- The loop of the source leaves in its first round.
unfoldable pub validate_migration : Conn → List ℕ → Bool
validate_migration c frames =
    let known = is_some (c.channels (byte_at frames 1)) in
    let n = length frames in
    ltb 0 n
    && ((byte_at frames 0 == 9 && leb 4 n && known) || (byte_at frames 0 == 10 && leb 2 n && known))

unfoldable pub netchan_peek_id : List ℕ → ℕ
netchan_peek_id pkt = if ltb (length pkt) hdr_init_size then 0 else rd32 pkt 1

unfoldable pub same_addr : Addr → Addr → Bool
same_addr x y = x.len == y.len && bytes_eq (take x.len x.a) (take x.len y.a)

-- The peer's address after a packet from `from`: a connected session follows its peer to another
-- address if the packet starts with DATA or ACK on an open channel; the first address is kept.
unfoldable pub peer_after : Conn → Option Addr → List ℕ → Addr
peer_after c none frames = c.peer_addr
peer_after c (some from) frames =
    if ltb 0 from.len && (ltb 0 c.peer_addr.len && is_connected c.state)
    then if not (same_addr from c.peer_addr) && validate_migration c frames
      then from
      else c.peer_addr
    else if c.peer_addr.len == 0 && ltb 0 from.len
    then from
    else c.peer_addr

unfoldable pub accept_packet :
    Env → Conn → List ℕ → ℕ → Option Addr → Option (Conn × Result (Unit {0}))
accept_packet env c pkt hdr_size from =
    let frames = drop hdr_size pkt in
    parse_frames env hdr_size
      (record c {
        peer_addr = peer_after c from frames;
        last_recv_ms = env.now 0;
        pkts_recv = add32 c.pkts_recv 1;
      })
      frames

unfoldable pub netchan_feed : Env → Conn → List ℕ → Option Addr → Option (Conn × Result (Unit {0}))
netchan_feed env c pkt from =
    if ltb (length pkt) hdr_init_size
    then some (c, err err_proto)
    else if byte_at pkt 0 % 2 == pkt_flag_init
    then accept_packet env c pkt hdr_init_size from
    else if ltb (length pkt) hdr_full_size
    then some (c, err err_proto)
    else if rd32 pkt 1 == c.local_id
    then accept_packet env c pkt hdr_full_size from
    else some (c, err err_proto)
