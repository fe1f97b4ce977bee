-- ===== src/Microser.antt =====
-- The readers and writers of idl/microser.h for unsigned values and byte strings. A writer adds to the
-- bytes written so far, whose number is its position, and yields `none` for MS_ERR; a reader takes the
-- bytes from its position to `end`, and yields the value and the bytes behind it.
use netchan.Base.{
  ltb, leb, ◌==◌, if◌then◌else◌, ℕ, ◌+◌, ◌*◌, ◌/◌, ◌%◌, ◌^◌, ◌||◌, Option, none, some, length, take,
  drop, List, [], ◌∷◌, ◌++◌, u8_mod,
}
use netchan.Wire.{byte_at}

abbrev pub ms_wire_8 : ℕ
ms_wire_8 = 0

abbrev pub ms_wire_16 : ℕ
ms_wire_16 = 1

abbrev pub ms_wire_32 : ℕ
ms_wire_32 = 2

abbrev pub ms_wire_64 : ℕ
ms_wire_64 = 3

abbrev pub ms_wire_bytes : ℕ
ms_wire_bytes = 4

-- `(uint8_t)((field << 3) | wire)`
abbrev pub tag_of : ℕ → ℕ → ℕ
tag_of field wire = (field * 8 + wire) % u8_mod

-- Little-endian bytes.
abbrev pub le16 : ℕ → List ℕ
le16 v = v % 256 ∷ v / 256 % 256 ∷ []

abbrev pub le32 : ℕ → List ℕ
le32 v = v % 256 ∷ v / 256 % 256 ∷ v / 65536 % 256 ∷ v / 16777216 % 256 ∷ []

-- The bytes join those written if there is room for them.
unfoldable pub write_field : List ℕ → ℕ → List ℕ → Option (List ℕ)
write_field out room bytes =
    if ltb room (length out + length bytes) then none else some (out ++ bytes)

unfoldable pub ms_write_tag_u8 : List ℕ → ℕ → ℕ → ℕ → Option (List ℕ)
ms_write_tag_u8 out room field v = write_field out room (tag_of field ms_wire_8 ∷ v ∷ [])

unfoldable pub ms_write_tag_u16 : List ℕ → ℕ → ℕ → ℕ → Option (List ℕ)
ms_write_tag_u16 out room field v = write_field out room (tag_of field ms_wire_16 ∷ le16 v)

unfoldable pub ms_write_tag_u32 : List ℕ → ℕ → ℕ → ℕ → Option (List ℕ)
ms_write_tag_u32 out room field v = write_field out room (tag_of field ms_wire_32 ∷ le32 v)

unfoldable pub ms_write_tag_u64 : List ℕ → ℕ → ℕ → ℕ → Option (List ℕ)
ms_write_tag_u64 out room field v =
    write_field out room (tag_of field ms_wire_64 ∷ (le32 v ++ le32 (v / 4294967296)))

unfoldable pub ms_write_tag_bytes : List ℕ → ℕ → ℕ → List ℕ → Option (List ℕ)
ms_write_tag_bytes out room field bytes =
    write_field out room (tag_of field ms_wire_bytes ∷ (le16 (length bytes) ++ bytes))

abbrev pub rd_le16 : List ℕ → ℕ
rd_le16 q = byte_at q 0 + byte_at q 1 * 256

abbrev pub rd_le32 : List ℕ → ℕ
rd_le32 q = byte_at q 0 + byte_at q 1 * 256 + byte_at q 2 * 65536 + byte_at q 3 * 16777216

unfoldable pub ms_read_u8 : List ℕ → Option (ℕ × List ℕ)
ms_read_u8 q = if ltb (length q) 1 then none else some (byte_at q 0, drop 1 q)

unfoldable pub ms_read_u16 : List ℕ → Option (ℕ × List ℕ)
ms_read_u16 q = if ltb (length q) 2 then none else some (rd_le16 q, drop 2 q)

unfoldable pub ms_read_u32 : List ℕ → Option (ℕ × List ℕ)
ms_read_u32 q = if ltb (length q) 4 then none else some (rd_le32 q, drop 4 q)

unfoldable pub ms_read_u64 : List ℕ → Option (ℕ × List ℕ)
ms_read_u64 q =
    if ltb (length q) 8 then none else some (rd_le32 q + rd_le32 (drop 4 q) * 4294967296, drop 8 q)

unfoldable pub ms_read_bytes : List ℕ → ℕ → Option (List ℕ × List ℕ)
ms_read_bytes q dmax =
    if ltb (length q) 2
    then none
    else (let dlen = rd_le16 q in
        let body = drop 2 q in
        if ltb (length body) dlen || ltb dmax dlen
        then none
        else some (take dlen body, drop dlen body))

-- The bytes behind a field of this wire type.
unfoldable pub ms_skip : List ℕ → ℕ → Option (List ℕ)
ms_skip q wire =
    if leb wire ms_wire_64
    then if ltb (length q) (2 ^ wire) then none else some (drop (2 ^ wire) q)
    else if wire == ms_wire_bytes
    then if ltb (length q) 2 || ltb (length q) (2 + rd_le16 q)
      then none
      else some (drop (2 + rd_le16 q) q)
    else none
