-- ===== src/WebSocket/Roundtrip.antt =====
-- Frames that nc_ws_frame_build builds and nc_ws_frame_parse reads.
use Prim.Native.Nat.add
use mathlib.Core.Path.{ap₂}
use netchan.Base.{
  ltb, leb, ◌==◌, if◌then◌else◌, Bool-cases, some_else, ℕ, zero, suc, ◌+◌, ◌-◌, ◌%◌, ◌≤◌, ◌<◌, ◌≡◌,
  refl, sym, ap, ◌∙◌, inl, inr, Bool, true, false, Option, none, some, arith, bit_xor_twice, length,
  take, drop, length-append, take-append, List, [], ◌∷◌, ◌++◌, append_assoc, size_mod, add_size,
}
use netchan.WebSocket.{
  WsFrame, mask_bytes, rd64, wr64, payload_size, frame_at, parse_body, nc_ws_frame_parse,
  header_size, length_bytes, frame_bytes, nc_ws_frame_build,
}
use netchan.Wire.{byte_at, wr16, wr32, rd16, rd32}

mask_bytes_twice :
    (mask4 : List ℕ) (i : ℕ) (xs : List ℕ) → mask_bytes mask4 i (mask_bytes mask4 i xs) ≡ xs
unfolding mask_bytes
mask_bytes_twice mask4 i [] = refl
mask_bytes_twice mask4 i (x ∷ xs) =
    ap₂ ◌∷◌ (bit_xor_twice x (byte_at mask4 (i % 4))) (mask_bytes_twice mask4 (i + 1) xs)

pub length-mask_bytes :
    (mask4 : List ℕ) (i : ℕ) (xs : List ℕ) → length (mask_bytes mask4 i xs) ≡ length xs
unfolding mask_bytes
length-mask_bytes mask4 i [] = refl
length-mask_bytes mask4 i (x ∷ xs) = ap suc (length-mask_bytes mask4 (i + 1) xs)

rd64-wr64 : (b₀ b₁ v : ℕ) (xs : List ℕ) → v < size_mod → rd64 (b₀ ∷ b₁ ∷ (wr64 v ++ xs)) 2 ≡ v
unfolding rd64 wr64 rd32 wr32
rd64-wr64 b₀ b₁ v xs h = omega arith

abbrev head_bit : Bool → ℕ
head_bit masked = if masked then 128 else 0

-- A buffer that starts with a header of `short` bytes, for a payload of n bytes, as the parser sees it.
pub record Header (masked : Bool) (n short : ℕ) (buf xs : List ℕ) : Type 0 where
  pub size : payload_size buf ≡ some (n, short)
  pub bit : leb 128 (byte_at buf 1) ≡ masked
  pub rest : drop short buf ≡ xs
  pub whole : length buf ≡ short + length xs
  pub two : 2 ≤ short

pub Header-long :
    (b₀ n : ℕ) (masked : Bool) (xs : List ℕ)
    → n < size_mod
    → Header masked n 10 (b₀ ∷ (head_bit masked + 127) ∷ (wr64 n ++ xs)) xs
unfolding payload_size wr64 wr32
Header-long b₀ n masked xs h = record {
  size = ground (arith, rd64-wr64 b₀ (head_bit masked + 127) n xs h);
  bit = ground arith;
  rest = refl;
  whole = omega arith;
  two = omega arith;
}

Header-middle :
    (b₀ n : ℕ) (masked : Bool) (xs : List ℕ)
    → n < 65536
    → Header masked n 4 (b₀ ∷ (head_bit masked + 126) ∷ (wr16 n ++ xs)) xs
unfolding payload_size wr16 rd16
Header-middle b₀ n masked xs h = record {
  size = ground arith;
  bit = ground arith;
  rest = refl;
  whole = omega arith;
  two = omega arith;
}

Header-short :
    (b₀ n : ℕ) (masked : Bool) (xs : List ℕ)
    → n < 126
    → Header masked n 2 (b₀ ∷ (head_bit masked + n) ∷ xs) xs
unfolding payload_size
Header-short b₀ n masked xs h = record {
  size = ground arith;
  bit = ground arith;
  rest = refl;
  whole = omega arith;
  two = omega arith;
}

length_bytes-Header :
    (b₀ n : ℕ) (masked : Bool) (xs : List ℕ)
    → n < size_mod
    → Header masked n (header_size n false) (b₀ ∷ (length_bytes (head_bit masked) n ++ xs)) xs
unfolding header_size length_bytes
length_bytes-Header b₀ n masked xs h = elim (Bool-cases (ltb 65535 n)) [
  | inl long_ ↦ rw long_ (Header-long b₀ n masked xs h)
  | inr e ↦ elim (Bool-cases (leb 126 n)) [
    | inl middle ↦ rw (e, middle) (Header-middle b₀ n masked xs (ground arith))
    | inr small ↦ rw (e, small) (Header-short b₀ n masked xs (ground arith))
  ]
]

parse_whole :
    (buf : List ℕ) (masked : Bool) (plen short : ℕ)
    → 2 ≤ length buf
    → 0 < short
    → leb 128 (byte_at buf 1) ≡ masked
    → payload_size buf ≡ some (plen, short)
    → (let hdr = if masked then short + 4 else short in hdr + plen < size_mod)
    → (let hdr = if masked then short + 4 else short in hdr + plen ≤ length buf)
    → let hdr = if masked then short + 4 else short in
      nc_ws_frame_parse buf ≡ some (frame_at buf masked plen hdr, hdr + plen)
unfolding nc_ws_frame_parse parse_body
parse_whole buf masked plen short two more bit size small whole =
    let hdr = if masked then short + 4 else short in
    let e₁ : ltb (length buf) 2 ≡ false = ground arith in
    let e₂ : add_size hdr plen ≡ hdr + plen = omega arith in
    let e₃ : ltb (length buf) (hdr + plen) ≡ false = ground arith in
    let low : short ≤ hdr = ground arith in
    let e₄ : (hdr + plen == 0) ≡ false = ground arith in rw (e₁, bit, size, e₂, e₃, e₄) refl

-- The frame that parsing a built one gives.
abbrev pub built : ℕ → List ℕ → WsFrame
built opcode payload = record {
  opcode = opcode % 16;
  fin = true;
  payload = payload;
  payload_len = length payload;
  overrun = false;
}

abbrev no_bytes : List ℕ
no_bytes = []

drop-nil : (k : ℕ) → drop k [] ≡ no_bytes
drop-nil zero = refl
drop-nil (suc k) = refl

drop-drop : (n k : ℕ) (xs : List ℕ) → drop (n + k) xs ≡ drop k (drop n xs)
drop-drop zero k xs = rw (add.zero k)
drop-drop (suc n) k [] = rw (add.suc n k) (sym (drop-nil k))
drop-drop (suc n) k (x ∷ xs) = rw (add.suc n k) (drop-drop n k xs)

module _ (opcode : ℕ) (payload rest buf : List ℕ) (short : ℕ)
    (first : byte_at buf 0 ≡ 128 + opcode % 16) where
  low : (128 + opcode % 16) % 16 ≡ opcode % 16
  low = omega arith

  top : leb 128 (128 + opcode % 16) ≡ true
  top = ground arith

  plain_frame :
      Header false (length payload) short buf (payload ++ rest)
      → short + length payload < size_mod
      → nc_ws_frame_parse buf ≡ some (built opcode payload, short + length payload)
  unfolding frame_at
  plain_frame v small =
      parse_whole buf false (length payload) short (omega (arith, v.two, v.whole))
        (omega (arith, v.two)) v.bit v.size small
        (omega (arith, v.whole, length-append payload rest))
      ∙ rw (frame_at, first, v.rest, take-append payload rest, low, top) refl

  masked_frame :
      (m₀ m₁ m₂ m₃ : ℕ)
      → let mask4 = m₀ ∷ m₁ ∷ m₂ ∷ m₃ ∷ [] in
        Header true (length payload) short buf (mask4 ++ (mask_bytes mask4 0 payload ++ rest))
        → short + 4 + length payload < size_mod
        → nc_ws_frame_parse buf ≡ some (built opcode payload, short + 4 + length payload)
  unfolding frame_at
  masked_frame m₀ m₁ m₂ m₃ v small =
      let mask4 = m₀ ∷ m₁ ∷ m₂ ∷ m₃ ∷ [] in
      let hidden = mask_bytes mask4 0 payload in
      let same : length hidden ≡ length payload = length-mask_bytes mask4 0 payload in
      let back : short + 4 - 4 ≡ short = omega arith in
      let body : drop (short + 4) buf ≡ hidden ++ rest =
        drop-drop short 4 buf ∙ ap (drop 4) v.rest in
      let bytes : take (length payload) (hidden ++ rest) ≡ hidden =
        ap (λ (k : ℕ). take k (hidden ++ rest)) (sym same) ∙ take-append hidden rest in
      let fits : ltb (length buf) (short + 4 + length payload) ≡ false =
        ground (arith, v.whole, length-append hidden rest, same) in
      parse_whole buf true (length payload) short (omega (arith, v.two, v.whole))
        (omega (arith, v.two)) v.bit v.size small
        (omega (arith, v.whole, length-append hidden rest, same))
      ∙ rw
          (
            frame_at,
            first,
            body,
            bytes,
            back,
            v.rest,
            mask_bytes_twice mask4 0 payload,
            low,
            top,
            fits,
          )
          refl

length-length_bytes :
    (masked : Bool) (n : ℕ) → suc (length (length_bytes (head_bit masked) n)) ≡ header_size n false
unfolding length_bytes header_size wr64 wr32 wr16
length-length_bytes masked n = ground arith

-- A masking key has four bytes.
abbrev pub IsMask : Option (List ℕ) → Type 0
IsMask none = Unit
IsMask (some mask4) = length mask4 ≡ 4

header_size-le : (n : ℕ) → header_size n false ≤ 10
unfolding header_size
header_size-le n = ground arith

parse-frame_bytes :
    (opcode : ℕ) (payload rest : List ℕ) (mask4 : Option (List ℕ))
    → IsMask mask4
    → length payload + 14 < size_mod
    → nc_ws_frame_parse (frame_bytes opcode payload mask4 ++ rest)
      ≡ some (built opcode payload, length (frame_bytes opcode payload mask4))
unfolding frame_bytes
parse-frame_bytes opcode payload rest none m small =
    let n = length payload in
    let head = length_bytes 0 n in
    let whole : suc (length (head ++ payload)) ≡ header_size n false + n =
      omega (arith, length-append head payload, length-length_bytes false n) in
    rw (append_assoc head payload rest, whole)
      (plain_frame opcode payload rest _ (header_size n false) refl
        (length_bytes-Header (128 + opcode % 16) n false (payload ++ rest) (omega arith))
        (omega (arith, header_size-le n)))
parse-frame_bytes opcode payload rest (some (m₀ ∷ m₁ ∷ m₂ ∷ m₃ ∷ [])) m small =
    let n = length payload in
    let head = length_bytes 128 n in
    let mask4 = m₀ ∷ m₁ ∷ m₂ ∷ m₃ ∷ [] in
    let hidden = mask_bytes mask4 0 payload in
    let whole : suc (length (head ++ (mask4 ++ hidden))) ≡ header_size n false + 4 + n = omega (
      arith,
      length-append head (mask4 ++ hidden),
      length-mask_bytes mask4 0 payload,
      length-length_bytes true n,
    ) in
    rw (append_assoc head (mask4 ++ hidden) rest, whole)
      (masked_frame opcode payload rest _ (header_size n false) refl m₀ m₁ m₂ m₃
        (length_bytes-Header (128 + opcode % 16) n true (mask4 ++ (hidden ++ rest)) (omega arith))
        (omega (arith, header_size-le n)))
parse-frame_bytes opcode payload rest (some []) m small = absurd (omega arith)
parse-frame_bytes opcode payload rest (some (m₀ ∷ [])) m small = absurd (omega arith)
parse-frame_bytes opcode payload rest (some (m₀ ∷ m₁ ∷ [])) m small = absurd (omega arith)
parse-frame_bytes opcode payload rest (some (m₀ ∷ m₁ ∷ m₂ ∷ [])) m small = absurd (omega arith)
parse-frame_bytes opcode payload rest (some (m₀ ∷ m₁ ∷ m₂ ∷ m₃ ∷ m₄ ∷ ms)) m small =
    absurd (omega arith)

-- A frame that nc_ws_frame_build builds is parsed back, whatever follows it, if the mask, if any, has
-- four bytes and the payload's length plus 14 is below 2^64: its opcode's low four bits, the FIN bit
-- and the unmasked payload, and the size is the built frame's.
pub nc_ws_frame_parse-nc_ws_frame_build :
    (cap opcode : ℕ) (payload rest out : List ℕ) (mask4 : Option (List ℕ))
    → IsMask mask4
    → length payload + 14 < size_mod
    → nc_ws_frame_build cap opcode payload mask4 ≡ some out
    → nc_ws_frame_parse (out ++ rest) ≡ some (built opcode payload, length out)
unfolding nc_ws_frame_build
nc_ws_frame_parse-nc_ws_frame_build cap opcode payload rest out mask4 m small e =
    let same = some_else _ _ _ e in
    rw (← same) (parse-frame_bytes opcode payload rest mask4 m small)
