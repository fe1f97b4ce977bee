-- ===== src/Beacon.antt =====
-- The discovery packet of discovery/nc_beacon.c. A string field is the list of its bytes: what stands in
-- the array behind a NUL that take_str writes is left out. A packet is the list of its bytes, of fewer
-- than 2^31.
pub mod Fields
pub mod Size
pub mod Fuel
pub mod Roundtrip
use netchan.Base.{
  ltb, ◌==◌, if◌then◌else◌, ℕ, zero, suc, ◌/◌, ◌%◌, Bool, true, false, not, ◌&&◌, ◌||◌, Option,
  none, some, length, drop, replicate, List, [], ◌∷◌,
}
use netchan.Microser.{
  ms_wire_16, ms_wire_32, ms_wire_bytes, ms_write_tag_u16, ms_write_tag_u32, ms_write_tag_bytes,
  rd_le32, ms_read_u16, ms_read_u32, ms_read_bytes, ms_skip,
}
use netchan.Wire.{byte_at}

abbrev pub beacon_hdr : ℕ
beacon_hdr = 5

abbrev pub nc_beacon_max : ℕ
nc_beacon_max = 512

abbrev pub nc_beacon_max_name : ℕ
nc_beacon_max_name = 64

abbrev pub nc_beacon_max_contact : ℕ
nc_beacon_max_contact = 64

abbrev pub nc_beacon_announce : ℕ
nc_beacon_announce = 1

abbrev pub nc_beacon_probe_kind : ℕ
nc_beacon_probe_kind = 2

pub record Beacon : Type 0 where
  pub game : ℕ
  pub wire : ℕ
  pub major : ℕ
  pub minor : ℕ
  pub port : ℕ
  pub players : ℕ
  pub capacity : ℕ
  pub modes : ℕ
  pub flags : ℕ
  pub instance_id : ℕ
  pub name : List ℕ
  pub contact : List ℕ
  pub key : List ℕ
  pub has_key : Bool

-- After memset.
abbrev pub no_beacon : Beacon
no_beacon = record {
  game = 0;
  wire = 0;
  major = 0;
  minor = 0;
  port = 0;
  players = 0;
  capacity = 0;
  modes = 0;
  flags = 0;
  instance_id = 0;
  name = [];
  contact = [];
  key = replicate 32 0;
  has_key = false;
}

-- The bytes before the first NUL, at most so many.
unfoldable pub bounded : List ℕ → ℕ → List ℕ
bounded s zero = []
bounded [] (suc n) = []
bounded (x ∷ s) (suc n) = let rest = bounded s n in if x == 0 then [] else x ∷ rest

-- The magic, NC_BEACON_MAGIC in little-endian order, and the kind.
abbrev pub put_header : ℕ → List ℕ
put_header kind = 78 ∷ 67 ∷ 66 ∷ 49 ∷ kind ∷ []

-- `none` for NC_BEACON_ERR.
unfoldable pub nc_beacon_kind : List ℕ → Option ℕ
nc_beacon_kind p =
    if ltb (length p) beacon_hdr || ltb nc_beacon_max (length p)
    then none
    else if not (rd_le32 p == 826426190)
    then none
    else if not (byte_at p 4 == nc_beacon_announce) && not (byte_at p 4 == nc_beacon_probe_kind)
    then none
    else some (byte_at p 4)

-- A zero field is absent; `none` where an earlier write failed.
unfoldable pub put_u16 : ℕ → ℕ → ℕ → Option (List ℕ) → Option (List ℕ)
put_u16 room field v none = none
put_u16 room field v (some out) = if v == 0 then some out else ms_write_tag_u16 out room field v

unfoldable pub put_u32 : ℕ → ℕ → ℕ → Option (List ℕ) → Option (List ℕ)
put_u32 room field v none = none
put_u32 room field v (some out) = if v == 0 then some out else ms_write_tag_u32 out room field v

-- A string that is empty or has more bytes than its limit is absent.
unfoldable pub put_str : ℕ → ℕ → List ℕ → Option (List ℕ) → Option (List ℕ)
put_str room field s none = none
put_str room field s (some out) =
    let bytes = bounded s 65 in
    if length bytes == 0 || ltb 64 (length bytes)
    then some out
    else ms_write_tag_bytes out room field bytes

unfoldable pub put_key : ℕ → Beacon → Option (List ℕ) → Option (List ℕ)
put_key room b none = none
put_key room b (some out) = if b.has_key then ms_write_tag_bytes out room 13 b.key else some out

-- The packet, `none` for NC_BEACON_ERR.
unfoldable pub nc_beacon_build : ℕ → Beacon → Option (List ℕ)
nc_beacon_build outlen b =
    let room = if ltb outlen nc_beacon_max then outlen else nc_beacon_max in
    if ltb room beacon_hdr
    then none
    else put_key room b (
        put_str room 12 b.contact (
          put_str room 11 b.name (
            put_u32 room 10 b.instance_id (
              put_u32 room 9 b.flags (
                put_u32 room 8 b.modes (
                  put_u16 room 7 b.capacity (
                    put_u16 room 6 b.players (
                      put_u16 room 5 b.port (
                        put_u16 room 4 b.minor (
                          put_u16 room 3 b.major (
                            put_u16 room 2 b.wire (
                              put_u32 room 1 b.game
                                (some (put_header nc_beacon_announce))))))))))))))

unfoldable pub nc_beacon_probe : ℕ → ℕ → Option (List ℕ)
nc_beacon_probe outlen game =
    let room = if ltb outlen nc_beacon_max then outlen else nc_beacon_max in
    if ltb room beacon_hdr
    then none
    else ms_write_tag_u32 (put_header nc_beacon_probe_kind) room 1 game

-- The switches of nc_beacon_parse; `none` for a field that is refused.
unfoldable pub take_bytes : Beacon → ℕ → List ℕ → Option Beacon
take_bytes b field bytes =
    if field == 11
    then if ltb nc_beacon_max_name (length bytes) then none else some (record b { name = bytes })
    else if field == 12
    then if ltb nc_beacon_max_contact (length bytes)
      then none
      else some (record b { contact = bytes })
    else if field == 13
    then if length bytes == 32 then some (record b { key = bytes; has_key = true }) else none
    else some b

unfoldable pub take_u16 : Beacon → ℕ → ℕ → Beacon
take_u16 b field v =
    if field == 2
    then record b { wire = v }
    else if field == 3
    then record b { major = v }
    else if field == 4
    then record b { minor = v }
    else if field == 5
    then record b { port = v }
    else if field == 6
    then record b { players = v }
    else if field == 7
    then record b { capacity = v }
    else b

unfoldable pub take_u32 : Beacon → ℕ → ℕ → Beacon
take_u32 b field v =
    if field == 1
    then record b { game = v }
    else if field == 8
    then record b { modes = v }
    else if field == 9
    then record b { flags = v }
    else if field == 10
    then record b { instance_id = v }
    else b

unfoldable pub on_bytes : Beacon → ℕ → Option (List ℕ × List ℕ) → Option (Beacon × List ℕ)
on_bytes b field none = none
on_bytes b field (some (bytes, rest)) = elim (take_bytes b field bytes) [
  | none ↦ none
  | some b' ↦ some (b', rest)
]

unfoldable pub on_value :
    (Beacon → ℕ → ℕ → Beacon) → Beacon → ℕ → Option (ℕ × List ℕ) → Option (Beacon × List ℕ)
on_value set b field none = none
on_value set b field (some (v, rest)) = some (set b field v, rest)

unfoldable pub on_skip : Beacon → Option (List ℕ) → Option (Beacon × List ℕ)
on_skip b none = none
on_skip b (some rest) = some (b, rest)

-- One round of the loop, on the bytes behind the tag.
unfoldable pub parse_field : Beacon → ℕ → List ℕ → Option (Beacon × List ℕ)
parse_field b tag q =
    let field = tag / 8 in
    let wire = tag % 8 in
    if wire == ms_wire_bytes
    then on_bytes b field (ms_read_bytes q 65535)
    else if wire == ms_wire_16
    then on_value take_u16 b field (ms_read_u16 q)
    else if wire == ms_wire_32
    then on_value take_u32 b field (ms_read_u32 q)
    else on_skip b (ms_skip q wire)

-- The loop; the fuel is the number of bytes, of which every round takes one or more.
unfoldable pub parse_fields : ℕ → Beacon → List ℕ → Option Beacon
parse_fields zero b q = some b
parse_fields (suc n) b [] = some b
parse_fields (suc n) b (tag ∷ q) = elim (parse_field b tag q) [
  | none ↦ none
  | some (b', rest) ↦ parse_fields n b' rest
]

-- `none` for NC_BEACON_ERR.
unfoldable pub nc_beacon_parse : List ℕ → Option Beacon
nc_beacon_parse p = elim (nc_beacon_kind p) [
  | none ↦ none
  | some kind ↦
      if kind == nc_beacon_announce
      then parse_fields (length p) no_beacon (drop beacon_hdr p)
      else none
]

-- The loop of nc_beacon_probe_game, on the same fuel.
unfoldable pub probe_fields : ℕ → ℕ → List ℕ → Option ℕ
probe_fields zero game q = some game
probe_fields (suc n) game [] = some game
probe_fields (suc n) game (tag ∷ q) = elim (tag / 8 == 1 && tag % 8 == ms_wire_32) [
  | true ↦ elim (ms_read_u32 q) [ none ↦ none | some (v, rest) ↦ probe_fields n v rest ]
  | false ↦ elim (ms_skip q (tag % 8)) [ none ↦ none | some rest ↦ probe_fields n game rest ]
]

-- The game, `none` for NC_BEACON_ERR.
unfoldable pub nc_beacon_probe_game : List ℕ → Option ℕ
nc_beacon_probe_game p = elim (nc_beacon_kind p) [
  | none ↦ none
  | some kind ↦
      if kind == nc_beacon_probe_kind then probe_fields (length p) 0 (drop beacon_hdr p) else none
]
