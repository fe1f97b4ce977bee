-- ===== src/Beacon/Roundtrip.antt =====
-- What nc_beacon_build of discovery/nc_beacon.c announces, nc_beacon_parse reads.
use netchan.Base.{
  ltb, if◌then◌else◌, if_cases, ℕ, ◌+◌, ◌≤◌, ◌<◌, ◌≡◌, refl, sym, ap, ◌∙◌, false, Option, none,
  some, arith, length, List, [], ◌++◌, append-nil, u32_mod,
}
use netchan.Beacon.{
  beacon_hdr, nc_beacon_max, nc_beacon_announce, Beacon, no_beacon, put_header, nc_beacon_kind,
  nc_beacon_build, nc_beacon_probe, take_bytes, take_u16, take_u32, nc_beacon_parse, probe_fields,
  nc_beacon_probe_game,
}
use netchan.Beacon.Fields.{
  Good, Parses, Parses-nil, GoodOption, put_u16-Good, put_u32-Good, put_str-Good, WellFormed,
  put_key-Good,
}
use netchan.Beacon.Size.{Fits, build-Fits}
use netchan.Microser.{le32, write_field, ms_write_tag_u32, rd_le32, ms_read_u32}

build-Good :
    (outlen : ℕ) (b : Beacon)
    → WellFormed b
    → GoodOption
        (if ltb outlen nc_beacon_max then outlen else nc_beacon_max)
        b
        (nc_beacon_build outlen b)
unfolding nc_beacon_build take_u16 take_u32 take_bytes GoodOption
build-Good outlen b w =
    let room = if ltb outlen nc_beacon_max then outlen else nc_beacon_max in
    if_cases (GoodOption room b) (ltb room beacon_hdr) none _ (λ small. tt)
      (λ enough.
        let start : Good room no_beacon (put_header nc_beacon_announce) = record {
          body = [];
          shape = refl;
          within = ground arith;
          reads = λ rest b' h. h;
        } in
        let named : ltb 64 (length b.name) ≡ false = ground (arith, w.name.size) in
        let reached : ltb 64 (length b.contact) ≡ false = ground (arith, w.contact.size) in
        let b₁ = record no_beacon { game = b.game } in
        let b₂ = record b₁ { wire = b.wire } in
        let b₃ = record b₂ { major = b.major } in
        let b₄ = record b₃ { minor = b.minor } in
        let b₅ = record b₄ { port = b.port } in
        let b₆ = record b₅ { players = b.players } in
        let b₇ = record b₆ { capacity = b.capacity } in
        let b₈ = record b₇ { modes = b.modes } in
        let b₉ = record b₈ { flags = b.flags } in
        let b₁₀ = record b₉ { instance_id = b.instance_id } in
        let b₁₁ = record b₁₀ { name = b.name } in
        let g₁ =
          put_u32-Good room no_beacon 1 b.game _ (omega arith) w.game
            (λ e. ap (λ (v : ℕ). record no_beacon { game = v }) e) start in
        let g₂ =
          put_u16-Good room b₁ 2 b.wire _ (omega arith) w.wire
            (λ e. ap (λ (v : ℕ). record b₁ { wire = v }) e) g₁ in
        let g₃ =
          put_u16-Good room b₂ 3 b.major _ (omega arith) w.major
            (λ e. ap (λ (v : ℕ). record b₂ { major = v }) e) g₂ in
        let g₄ =
          put_u16-Good room b₃ 4 b.minor _ (omega arith) w.minor
            (λ e. ap (λ (v : ℕ). record b₃ { minor = v }) e) g₃ in
        let g₅ =
          put_u16-Good room b₄ 5 b.port _ (omega arith) w.port
            (λ e. ap (λ (v : ℕ). record b₄ { port = v }) e) g₄ in
        let g₆ =
          put_u16-Good room b₅ 6 b.players _ (omega arith) w.players
            (λ e. ap (λ (v : ℕ). record b₅ { players = v }) e) g₅ in
        let g₇ =
          put_u16-Good room b₆ 7 b.capacity _ (omega arith) w.capacity
            (λ e. ap (λ (v : ℕ). record b₆ { capacity = v }) e) g₆ in
        let g₈ =
          put_u32-Good room b₇ 8 b.modes _ (omega arith) w.modes
            (λ e. ap (λ (v : ℕ). record b₇ { modes = v }) e) g₇ in
        let g₉ =
          put_u32-Good room b₈ 9 b.flags _ (omega arith) w.flags
            (λ e. ap (λ (v : ℕ). record b₈ { flags = v }) e) g₈ in
        let g₁₀ =
          put_u32-Good room b₉ 10 b.instance_id _ (omega arith) w.instance_id
            (λ e. ap (λ (v : ℕ). record b₉ { instance_id = v }) e) g₉ in
        let g₁₁ =
          put_str-Good room b₁₀ b₁₁ 11 b.name _ (omega arith) w.name (rw named refl)
            (λ e. ap (λ (s : List ℕ). record b₁₀ { name = s }) e) g₁₀ in
        let g₁₂ =
          put_str-Good room b₁₁ (record b₁₁ { contact = b.contact }) 12 b.contact _ (omega arith)
            w.contact (rw reached refl) (λ e. ap (λ (s : List ℕ). record b₁₁ { contact = s }) e)
            g₁₁ in
        put_key-Good room b _ w g₁₂)

announced_kind :
    (body : List ℕ)
    → length body ≤ 507
    → nc_beacon_kind (put_header nc_beacon_announce ++ body) ≡ some nc_beacon_announce
unfolding nc_beacon_kind
announced_kind body h =
    let long : ltb (length (put_header nc_beacon_announce ++ body)) beacon_hdr ≡ false =
      ground arith in
    let short : ltb nc_beacon_max (length (put_header nc_beacon_announce ++ body)) ≡ false =
      ground arith in
    rw (long, short) refl

Good-parse :
    (room : ℕ) (b : Beacon) (out : List ℕ)
    → room ≤ nc_beacon_max
    → Good room b out
    → nc_beacon_parse out ≡ some b
unfolding nc_beacon_parse
Good-parse room b out r g =
    let size : 5 + length g.body ≤ 512 =
      omega (arith, ap (λ (l : List ℕ). length l) g.shape, g.within) in
    let whole : Parses no_beacon g.body b =
      rw (append-nil g.body) at (g.reads [] b (Parses-nil b)) in
    let kind = announced_kind g.body (omega (arith, size)) in
    ap nc_beacon_parse (sym g.shape)
    ∙ rw (nc_beacon_parse, kind) (whole (length out_of) (omega arith))
  where
    out_of : List ℕ
    out_of = put_header nc_beacon_announce ++ g.body

-- What nc_beacon_build makes of a well-formed beacon and a buffer of 212 bytes or more, nc_beacon_parse
-- reads as that beacon: all the fields are as they were, the absent ones zero.
pub nc_beacon_parse-nc_beacon_build :
    (outlen : ℕ) (b : Beacon)
    → WellFormed b
    → 212 ≤ outlen
    → elim (nc_beacon_build outlen b) [ none ↦ none | some pkt ↦ nc_beacon_parse pkt ] ≡ some b
unfolding Fits GoodOption
nc_beacon_parse-nc_beacon_build outlen b w h =
    read (nc_beacon_build outlen b) (build-Good outlen b w) (build-Fits outlen b w h)
  where
    read :
        (o : Option (List ℕ))
        → GoodOption (if ltb outlen nc_beacon_max then outlen else nc_beacon_max) b o
        → Fits 212 o
        → elim o [ none ↦ none | some pkt ↦ nc_beacon_parse pkt ] ≡ some b
    read none g f = absurd f
    read (some out) g f = Good-parse _ b out (ground arith) g

-- What nc_beacon_probe makes of a game and a buffer of 10 bytes or more, nc_beacon_probe_game reads as
-- that game, and nc_beacon_parse refuses; the game has 32 bits.
pub nc_beacon_probe_game-nc_beacon_probe :
    (outlen game : ℕ)
    → game < u32_mod
    → 10 ≤ outlen
    → (elim (nc_beacon_probe outlen game) [ none ↦ none | some pkt ↦ nc_beacon_probe_game pkt ]
        ≡ some game)
      × (elim (nc_beacon_probe outlen game) [ none ↦ none | some pkt ↦ nc_beacon_parse pkt ] ≡ none)
unfolding nc_beacon_probe ms_write_tag_u32 write_field nc_beacon_probe_game nc_beacon_kind
    nc_beacon_parse probe_fields ms_read_u32
nc_beacon_probe_game-nc_beacon_probe outlen game h k =
    let room = if ltb outlen nc_beacon_max then outlen else nc_beacon_max in
    let enough : ltb room beacon_hdr ≡ false = ground arith in
    let fits : ltb room 10 ≡ false = ground arith in
    let value : rd_le32 (le32 game) ≡ game = omega arith in
    rw (enough, fits) (ap (λ (v : ℕ). some v) value, refl)
