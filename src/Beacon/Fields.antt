-- ===== src/Beacon/Fields.antt =====
-- The fields that nc_beacon_build of discovery/nc_beacon.c writes are those that nc_beacon_parse reads.
use netchan.Base.{
  ltb, ◌==◌, Bool-cases, if_cases, ℕ, zero, suc, ◌+◌, ◌*◌, ◌/◌, ◌%◌, ◌≤◌, ◌<◌, ◌≡◌, refl, sym, ap,
  ◌∙◌, inl, inr, Bool, true, false, Option, none, some, arith, length, replicate, length-append,
  take-append, drop-append, List, [], ◌∷◌, ◌++◌, append_assoc, u16_mod, u32_mod,
}
use netchan.Beacon.{
  nc_beacon_announce, Beacon, no_beacon, bounded, put_header, put_u16, put_u32, put_str, put_key,
  take_bytes, take_u16, take_u32, on_bytes, on_value, parse_field, parse_fields,
}
use netchan.Microser.{
  ms_wire_16, ms_wire_32, ms_wire_bytes, tag_of, le16, le32, write_field, ms_write_tag_u16,
  ms_write_tag_u32, ms_write_tag_bytes, rd_le16, rd_le32, ms_read_u16, ms_read_u32, ms_read_bytes,
}

-- The loop reads these bytes to the end, with any fuel that is enough.
abbrev pub Parses : Beacon → List ℕ → Beacon → Type 0
Parses b q b' = (n : ℕ) → length q ≤ n → parse_fields n b q ≡ some b'

pub Parses-nil : (b : Beacon) → Parses b [] b
unfolding parse_fields
Parses-nil b zero h = refl
Parses-nil b (suc n) h = refl

-- One field, and those behind it.
Parses-field :
    (b c b' : Beacon) (tag : ℕ) (payload rest : List ℕ)
    → parse_field b tag (payload ++ rest) ≡ some (c, rest)
    → Parses c rest b'
    → Parses b (tag ∷ (payload ++ rest)) b'
unfolding parse_fields
Parses-field b c b' tag payload rest e h zero k = absurd (omega arith)
Parses-field b c b' tag payload rest e h (suc n) k =
    rw (parse_fields, e) (h n (omega (arith, length-append payload rest)))

parse_field-u16 :
    (b : Beacon) (field v : ℕ) (rest : List ℕ)
    → field < 32
    → v < u16_mod
    → parse_field b (tag_of field ms_wire_16) (le16 v ++ rest) ≡ some (take_u16 b field v, rest)
unfolding parse_field ms_read_u16 on_value
parse_field-u16 b field v rest f h =
    let wire : (field * 8 + 1) % 256 % 8 ≡ 1 = omega arith in
    let number : (field * 8 + 1) % 256 / 8 ≡ field = omega arith in
    let long : ltb (length (le16 v ++ rest)) 2 ≡ false = ground arith in
    let value : rd_le16 (le16 v ++ rest) ≡ v = omega arith in rw (wire, number, long, value) refl

parse_field-u32 :
    (b : Beacon) (field v : ℕ) (rest : List ℕ)
    → field < 32
    → v < u32_mod
    → parse_field b (tag_of field ms_wire_32) (le32 v ++ rest) ≡ some (take_u32 b field v, rest)
unfolding parse_field ms_read_u32 on_value
parse_field-u32 b field v rest f h =
    let wire : (field * 8 + 2) % 256 % 8 ≡ 2 = omega arith in
    let number : (field * 8 + 2) % 256 / 8 ≡ field = omega arith in
    let long : ltb (length (le32 v ++ rest)) 4 ≡ false = ground arith in
    let value : rd_le32 (le32 v ++ rest) ≡ v = omega arith in rw (wire, number, long, value) refl

parse_field-bytes :
    (b c : Beacon) (field : ℕ) (bytes rest : List ℕ)
    → field < 32
    → length bytes < u16_mod
    → take_bytes b field bytes ≡ some c
    → parse_field b (tag_of field ms_wire_bytes) ((le16 (length bytes) ++ bytes) ++ rest)
      ≡ some (c, rest)
unfolding parse_field ms_read_bytes on_bytes
parse_field-bytes b c field bytes rest f h e =
    let wire : (field * 8 + 4) % 256 % 8 ≡ 4 = omega arith in
    let number : (field * 8 + 4) % 256 / 8 ≡ field = omega arith in
    let long : ltb (length ((le16 (length bytes) ++ bytes) ++ rest)) 2 ≡ false = ground arith in
    let value : rd_le16 ((le16 (length bytes) ++ bytes) ++ rest) ≡ length bytes = omega arith in
    let whole : ltb (length (bytes ++ rest)) (length bytes) ≡ false =
      ground (arith, length-append bytes rest) in
    let small : ltb 65535 (length bytes) ≡ false = ground arith in
    rw (wire, number, long, value, whole, small, take-append bytes rest, drop-append bytes rest)
      (ap (λ (o : Option Beacon). elim o [ none ↦ none | some b' ↦ some (b', rest) ]) e)

-- What has been written so far: a header and fields from which b is read, whatever follows.
pub record Good (room : ℕ) (b : Beacon) (out : List ℕ) : Type 0 where
  pub body : List ℕ
  pub shape : put_header nc_beacon_announce ++ body ≡ out
  pub within : length out ≤ room
  pub reads : (rest : List ℕ) (b' : Beacon) → Parses b rest b' → Parses no_beacon (body ++ rest) b'

unfoldable pub GoodOption : ℕ → Beacon → Option (List ℕ) → Type 0
GoodOption room b none = Unit
GoodOption room b (some out) = Good room b out

Good-field :
    (room : ℕ) (b c : Beacon) (out : List ℕ) (tag : ℕ) (payload : List ℕ)
    → ((rest : List ℕ) → parse_field b tag (payload ++ rest) ≡ some (c, rest))
    → Good room b out
    → GoodOption room c (write_field out room (tag ∷ payload))
unfolding write_field GoodOption
Good-field room b c out tag payload field g =
    elim (Bool-cases (ltb room (length out + length (tag ∷ payload)))) [
      | inl full ↦ rw full tt
      | inr fits ↦ rw fits (record {
        body = g.body ++ (tag ∷ payload);
        shape =
            sym (append_assoc (put_header nc_beacon_announce) g.body (tag ∷ payload))
            ∙ ap (λ (l : List ℕ). l ++ (tag ∷ payload)) g.shape;
        within = ground (arith, length-append out (tag ∷ payload));
        reads = λ rest b' h. rw (append_assoc g.body (tag ∷ payload) rest) (
            g.reads (tag ∷ (payload ++ rest)) b'
              (Parses-field b c b' tag payload rest (field rest) h));
      })
    ]

pub put_u16-Good :
    (room : ℕ) (b : Beacon) (field v : ℕ) (o : Option (List ℕ))
    → field < 32
    → v < u16_mod
    → (v ≡ 0 → take_u16 b field v ≡ b)
    → GoodOption room b o
    → GoodOption room (take_u16 b field v) (put_u16 room field v o)
unfolding put_u16 ms_write_tag_u16 GoodOption
put_u16-Good room b field v none f h same g = tt
put_u16-Good room b field v (some out) f h same g = elim (Bool-cases (v == 0)) [
  | inl zeroed ↦ let e = same (ground arith) in rw (zeroed, e) g
  | inr given ↦ rw given (
      Good-field room b (take_u16 b field v) out _ _ (λ rest. parse_field-u16 b field v rest f h) g)
]

pub put_u32-Good :
    (room : ℕ) (b : Beacon) (field v : ℕ) (o : Option (List ℕ))
    → field < 32
    → v < u32_mod
    → (v ≡ 0 → take_u32 b field v ≡ b)
    → GoodOption room b o
    → GoodOption room (take_u32 b field v) (put_u32 room field v o)
unfolding put_u32 ms_write_tag_u32 GoodOption
put_u32-Good room b field v none f h same g = tt
put_u32-Good room b field v (some out) f h same g = elim (Bool-cases (v == 0)) [
  | inl zeroed ↦ let e = same (ground arith) in rw (zeroed, e) g
  | inr given ↦ rw given (
      Good-field room b (take_u32 b field v) out _ _ (λ rest. parse_field-u32 b field v rest f h) g)
]

empty_of_length : (s : List ℕ) → (length s == 0) ≡ true → s ≡ []
empty_of_length [] h = refl
empty_of_length (x ∷ s) h = absurd (ground arith)

-- A string of at most 64 bytes without NUL.
pub record Printable (s : List ℕ) : Type 0 where
  pub no_nul : bounded s 65 ≡ s
  pub size : length s ≤ 64

pub put_str-Good :
    (room : ℕ) (b c : Beacon) (field : ℕ) (s : List ℕ) (o : Option (List ℕ))
    → field < 32
    → Printable s
    → take_bytes b field s ≡ some c
    → (s ≡ [] → c ≡ b)
    → GoodOption room b o
    → GoodOption room c (put_str room field s o)
unfolding put_str ms_write_tag_bytes GoodOption
put_str-Good room b c field s none f p e same g = tt
put_str-Good room b c field s (some out) f p e same g =
    let short : ltb 64 (length s) ≡ false = ground (arith, p.size) in
    rw p.no_nul (elim (Bool-cases (length s == 0)) [
      | inl empty ↦ rw (empty, same (empty_of_length s empty)) g
      | inr given ↦
          rw (given, short)
            (Good-field room b c out _ _
              (λ rest. parse_field-bytes b c field s rest f (omega (arith, p.size)) e) g)
    ])

-- A beacon whose fields have the widths of `struct nc_beacon`, with printable strings, and with a key of
-- 32 bytes or the zeros of memset.
pub record WellFormed (b : Beacon) : Type 0 where
  pub game : b.game < u32_mod
  pub wire : b.wire < u16_mod
  pub major : b.major < u16_mod
  pub minor : b.minor < u16_mod
  pub port : b.port < u16_mod
  pub players : b.players < u16_mod
  pub capacity : b.capacity < u16_mod
  pub modes : b.modes < u32_mod
  pub flags : b.flags < u32_mod
  pub instance_id : b.instance_id < u32_mod
  pub name : Printable b.name
  pub contact : Printable b.contact
  pub size : length b.key ≡ 32
  pub absent : b.has_key ≡ false → b.key ≡ replicate 32 0

-- What has been read before the key.
abbrev pub before_key : Beacon → Beacon
before_key b = record b { key = replicate 32 0; has_key = false }

pub put_key-Good :
    (room : ℕ) (b : Beacon) (o : Option (List ℕ))
    → WellFormed b
    → GoodOption room (before_key b) o
    → GoodOption room b (put_key room b o)
unfolding put_key ms_write_tag_bytes GoodOption take_bytes
put_key-Good room b none w g = tt
put_key-Good room b (some out) w g =
    if_cases (GoodOption room b) b.has_key _ (some out)
      (λ named.
        let size : (length b.key == 32) ≡ true = ground (arith, w.size) in
        let taken : take_bytes (before_key b) 13 b.key ≡ some b =
          rw size (ap (λ (h : Bool). some (record b { has_key = h })) (sym named)) in
        Good-field room (before_key b) b out _ _
          (λ rest.
            parse_field-bytes (before_key b) b 13 b.key rest (omega arith) (omega (arith, w.size))
              taken)
          g)
      (λ anonymous.
        let e : before_key b ≡ b =
          ap (λ (h : Bool). record b { key = replicate 32 0; has_key = h }) (sym anonymous)
          ∙ ap (λ (k : List ℕ). record b { key = k }) (sym (w.absent anonymous)) in
        rw e at g)
