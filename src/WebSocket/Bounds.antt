-- ===== src/WebSocket/Bounds.antt =====
-- Where a frame that nc_ws_frame_parse accepts lies.
use netchan.Base.{
  ltb, ◌==◌, if◌then◌else◌, Bool-cases, ℕ, ◌+◌, ◌-◌, ◌≤◌, ◌<◌, ◌≡◌, refl, sym, ◌∙◌, inl, inr, Bool,
  true, false, Option, none, some, arith, length, take, drop, length-take, length-drop, List,
  size_mod, add_size,
}
use netchan.WebSocket.{WsFrame, payload_size, frame_at, parse_body, nc_ws_frame_parse}
use netchan.WebSocket.Roundtrip.{length-mask_bytes}

-- The payload lies whole behind the header in the buffer, unmasking stays there, and the frame's size
-- is theirs.
abbrev pub Inside : List ℕ → Option (WsFrame × ℕ) → Type 0
Inside buf none = Unit
Inside buf (some (f, n)) =
    (n ≤ length buf)
    × (f.overrun ≡ false)
    × (length f.payload ≡ f.payload_len)
    × (f.payload_len + 2 ≤ n)

-- The length that a frame declares, 0 if it has not arrived.
abbrev pub declared : Option (ℕ × ℕ) → ℕ
declared none = 0
declared (some (plen, short)) = plen

length-frame_at :
    (buf : List ℕ) (masked : Bool) (plen hdr : ℕ)
    → hdr + plen ≤ length buf
    → length (frame_at buf masked plen hdr).payload ≡ plen
unfolding frame_at
length-frame_at buf true plen hdr h = omega (
  arith,
  length-mask_bytes (take 4 (drop (hdr - 4) buf)) 0 (take plen (drop hdr buf)),
  length-take plen (drop hdr buf),
  length-drop hdr buf,
)
length-frame_at buf false plen hdr h =
    omega (arith, length-take plen (drop hdr buf), length-drop hdr buf)

frame_at-payload_len :
    (buf : List ℕ) (masked : Bool) (plen hdr : ℕ)
    → (frame_at buf masked plen hdr).payload_len ≡ plen
unfolding frame_at
frame_at-payload_len buf masked plen hdr = refl

frame_at-overrun :
    (buf : List ℕ) (masked : Bool) (plen hdr : ℕ)
    → hdr + plen ≤ length buf
    → (frame_at buf masked plen hdr).overrun ≡ false
unfolding frame_at
frame_at-overrun buf masked plen hdr h = ground arith

-- A header without its mask has two to ten bytes.
abbrev ShortHeader : Option (ℕ × ℕ) → Type 0
ShortHeader none = Unit
ShortHeader (some (plen, short)) = (2 ≤ short) × (short ≤ 10)

payload_size-ShortHeader : (buf : List ℕ) → ShortHeader (payload_size buf)
unfolding payload_size
payload_size-ShortHeader buf = ground arith

parse_body-Inside :
    (buf : List ℕ) (masked : Bool) (size : Option (ℕ × ℕ))
    → ShortHeader size
    → declared size + 14 < size_mod
    → Inside buf (parse_body buf masked size)
unfolding parse_body
parse_body-Inside buf masked none s small = tt
parse_body-Inside buf masked (some (plen, short)) s small =
    let hdr = if masked then short + 4 else short in
    let low : short ≤ hdr = ground arith in
    let high : hdr ≤ short + 4 = ground arith in
    let sum : add_size hdr plen ≡ hdr + plen = omega (arith, s.1) in
    let more : (hdr + plen == 0) ≡ false = ground (arith, s.1) in
    elim (Bool-cases (ltb (length buf) (hdr + plen))) [
      | inl part ↦ rw (sum, part) tt
      | inr all ↦
          rw (sum, all, more)
            (
              ground arith,
              frame_at-overrun buf masked plen hdr (ground arith),
              length-frame_at buf masked plen hdr (ground arith)
                  ∙ sym (frame_at-payload_len buf masked plen hdr),
              omega (arith, frame_at-payload_len buf masked plen hdr, s.0),
            )
    ]

-- If the length that a frame declares plus 14 is below 2^64, then a frame that is accepted lies in the
-- buffer: its size is at most the buffer's, unmasking stays in it, the payload has the declared length, and the two bytes at
-- least of its header come on top.
pub nc_ws_frame_parse-Inside :
    (buf : List ℕ)
    → declared (payload_size buf) + 14 < size_mod
    → Inside buf (nc_ws_frame_parse buf)
unfolding nc_ws_frame_parse
nc_ws_frame_parse-Inside buf small = elim (Bool-cases (ltb (length buf) 2)) [
  | inl part ↦ rw part tt
  | inr more ↦ rw more (parse_body-Inside buf _ _ (payload_size-ShortHeader buf) small)
]
