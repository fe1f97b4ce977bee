-- ===== src/WebSocket.antt =====
-- The frame codec of transport/nc_ws.c: nc_ws_frame_parse and nc_ws_frame_build. A buffer is the list
-- of its bytes, and size_t has 64 bits. The two-byte length is written and read as by wr16 and rd16.
pub mod Roundtrip
pub mod Bounds
use Prim.Native.Nat.{bit_xor}
use netchan.Base.{
  ltb, leb, ◌==◌, if◌then◌else◌, is_some, ℕ, ◌+◌, ◌-◌, ◌*◌, ◌/◌, ◌%◌, Bool, ◌&&◌, ◌||◌, Option,
  none, some, length, take, drop, List, [], ◌∷◌, ◌++◌, add_size,
}
use netchan.Wire.{byte_at, wr16, wr32, rd16, rd32}

-- `struct nc_ws_frame`, and whether the loop that unmasks has left the buffer, as it does where the size
-- wraps around: it then writes behind the buffer, and what follows is undefined and not modelled.
pub record WsFrame : Type 0 where
  pub opcode : ℕ
  pub fin : Bool
  pub payload : List ℕ
  pub payload_len : ℕ
  pub overrun : Bool

-- `x[i] ^ mask4[i & 3]` for each byte, from index i on.
unfoldable pub mask_bytes : List ℕ → ℕ → List ℕ → List ℕ
mask_bytes mask4 i [] = []
mask_bytes mask4 i (x ∷ xs) = bit_xor x (byte_at mask4 (i % 4)) ∷ mask_bytes mask4 (i + 1) xs

-- A 64-bit integer in eight bytes, the highest first.
unfoldable pub rd64 : List ℕ → ℕ → ℕ
rd64 p i = rd32 p i * 4294967296 + rd32 p (i + 4)

unfoldable pub wr64 : ℕ → List ℕ
wr64 v = wr32 (v / 4294967296) ++ wr32 v

-- The payload's length and the header's before the mask, unless they have not arrived.
unfoldable pub payload_size : List ℕ → Option (ℕ × ℕ)
payload_size buf =
    let plen = byte_at buf 1 % 128 in
    if plen == 126
    then (if ltb (length buf) 4 then none else some (rd16 buf 2, 4))
    else if plen == 127
    then (if ltb (length buf) 10 then none else some (rd64 buf 2, 10))
    else some (plen, 2)

-- The frame behind a header of hdr bytes; `payload` has the bytes that lie in the buffer.
unfoldable pub frame_at : List ℕ → Bool → ℕ → ℕ → WsFrame
frame_at buf masked plen hdr =
    let bytes = take plen (drop hdr buf) in
    record {
      opcode = byte_at buf 0 % 16;
      fin = leb 128 (byte_at buf 0);
      payload = if masked then mask_bytes (take 4 (drop (hdr - 4) buf)) 0 bytes else bytes;
      payload_len = plen;
      overrun = masked && ltb (length buf) (hdr + plen);
    }

unfoldable pub parse_body : List ℕ → Bool → Option (ℕ × ℕ) → Option (WsFrame × ℕ)
parse_body buf masked none = none
parse_body buf masked (some (plen, short)) =
    let hdr = if masked then short + 4 else short in
    if ltb (length buf) (add_size hdr plen) || add_size hdr plen == 0
    then none
    else some (frame_at buf masked plen hdr, add_size hdr plen)

-- `none` where the code returns 0, which the caller takes for a frame that is not there yet; else the
-- frame and its size.
unfoldable pub nc_ws_frame_parse : List ℕ → Option (WsFrame × ℕ)
nc_ws_frame_parse buf =
    if ltb (length buf) 2 then none else parse_body buf (leb 128 (byte_at buf 1)) (payload_size buf)

unfoldable pub header_size : ℕ → Bool → ℕ
header_size payload_len masked =
    let short = if ltb 65535 payload_len then 10 else if leb 126 payload_len then 4 else 2 in
    if masked then short + 4 else short

-- The second byte and the extended length.
unfoldable pub length_bytes : ℕ → ℕ → List ℕ
length_bytes mbit payload_len =
    if ltb 65535 payload_len
    then (mbit + 127) ∷ wr64 payload_len
    else if leb 126 payload_len
    then (mbit + 126) ∷ wr16 payload_len
    else (mbit + payload_len) ∷ []

unfoldable pub frame_bytes : ℕ → List ℕ → Option (List ℕ) → List ℕ
frame_bytes opcode payload none = (128 + opcode % 16) ∷ (length_bytes 0 (length payload) ++ payload)
frame_bytes opcode payload (some mask4) =
    (128 + opcode % 16)
    ∷ (length_bytes 128 (length payload) ++ (take 4 mask4 ++ mask_bytes mask4 0 payload))

-- `none` where the code returns 0, the frame does not fit; else the frame.
unfoldable pub nc_ws_frame_build : ℕ → ℕ → List ℕ → Option (List ℕ) → Option (List ℕ)
nc_ws_frame_build cap opcode payload mask4 =
    if ltb cap (add_size (header_size (length payload) (is_some mask4)) (length payload))
    then none
    else some (frame_bytes opcode payload mask4)
