-- ===== src/Beacon/Size.antt =====
-- The size of what nc_beacon_build of discovery/nc_beacon.c writes.
use netchan.Base.{
  ltb, ◌==◌, if◌then◌else◌, if_cases, ℕ, ◌+◌, ◌≤◌, ◌≡◌, false, ◌||◌, Option, none, some, arith,
  length, length-append, List,
}
use netchan.Beacon.{
  beacon_hdr, nc_beacon_max, nc_beacon_announce, Beacon, bounded, put_header, put_u16, put_u32,
  put_str, put_key, nc_beacon_build,
}
use netchan.Beacon.Fields.{WellFormed}
use netchan.Microser.{write_field, ms_write_tag_u16, ms_write_tag_u32, ms_write_tag_bytes}

-- Written, in so many bytes at most.
unfoldable pub Fits : ℕ → Option (List ℕ) → Type 0
Fits k none = ⊥
Fits k (some out) = length out ≤ k

write_field-Fits :
    (k room : ℕ) (out bytes : List ℕ)
    → length out + length bytes ≤ k
    → k ≤ room
    → Fits k (write_field out room bytes)
unfolding write_field Fits
write_field-Fits k room out bytes h r =
    let short : ltb room (length out + length bytes) ≡ false = ground arith in
    rw short (omega (arith, length-append out bytes))

put_u16-Fits :
    (k room field v : ℕ) (o : Option (List ℕ))
    → k + 3 ≤ room
    → Fits k o
    → Fits (k + 3) (put_u16 room field v o)
unfolding put_u16 ms_write_tag_u16 Fits
put_u16-Fits k room field v none r h = h
put_u16-Fits k room field v (some out) r h =
    if_cases (Fits (k + 3)) (v == 0) (some out) _ (λ e. omega arith)
      (λ e. write_field-Fits (k + 3) room out _ (omega arith) r)

put_u32-Fits :
    (k room field v : ℕ) (o : Option (List ℕ))
    → k + 5 ≤ room
    → Fits k o
    → Fits (k + 5) (put_u32 room field v o)
unfolding put_u32 ms_write_tag_u32 Fits
put_u32-Fits k room field v none r h = h
put_u32-Fits k room field v (some out) r h =
    if_cases (Fits (k + 5)) (v == 0) (some out) _ (λ e. omega arith)
      (λ e. write_field-Fits (k + 5) room out _ (omega arith) r)

put_str-Fits :
    (k room field : ℕ) (s : List ℕ) (o : Option (List ℕ))
    → k + 67 ≤ room
    → Fits k o
    → Fits (k + 67) (put_str room field s o)
unfolding put_str ms_write_tag_bytes Fits
put_str-Fits k room field s none r h = h
put_str-Fits k room field s (some out) r h =
    if_cases (Fits (k + 67)) (length (bounded s 65) == 0 || ltb 64 (length (bounded s 65)))
      (some out) _ (λ e. omega arith) (λ e. write_field-Fits (k + 67) room out _ (ground arith) r)

put_key-Fits :
    (k room : ℕ) (b : Beacon) (o : Option (List ℕ))
    → length b.key ≡ 32
    → k + 35 ≤ room
    → Fits k o
    → Fits (k + 35) (put_key room b o)
unfolding put_key ms_write_tag_bytes Fits
put_key-Fits k room b none size r h = h
put_key-Fits k room b (some out) size r h =
    if_cases (Fits (k + 35)) b.has_key _ (some out)
      (λ e. write_field-Fits (k + 35) room out _ (omega (arith, size)) r) (λ e. omega arith)

-- Every announcement fits 212 bytes.
pub build-Fits :
    (outlen : ℕ) (b : Beacon) → WellFormed b → 212 ≤ outlen → Fits 212 (nc_beacon_build outlen b)
unfolding nc_beacon_build Fits
build-Fits outlen b w h =
    let room = if ltb outlen nc_beacon_max then outlen else nc_beacon_max in
    let big : 212 ≤ room = ground arith in
    let enough : ltb room beacon_hdr ≡ false = ground arith in
    rw enough (
      put_key-Fits 177 room b _ w.size big (
        put_str-Fits 110 room 12 b.contact _ (omega (arith, big)) (
          put_str-Fits 43 room 11 b.name _ (omega (arith, big)) (
            put_u32-Fits 38 room 10 b.instance_id _ (omega (arith, big)) (
              put_u32-Fits 33 room 9 b.flags _ (omega (arith, big)) (
                put_u32-Fits 28 room 8 b.modes _ (omega (arith, big)) (
                  put_u16-Fits 25 room 7 b.capacity _ (omega (arith, big)) (
                    put_u16-Fits 22 room 6 b.players _ (omega (arith, big)) (
                      put_u16-Fits 19 room 5 b.port _ (omega (arith, big)) (
                        put_u16-Fits 16 room 4 b.minor _ (omega (arith, big)) (
                          put_u16-Fits 13 room 3 b.major _ (omega (arith, big)) (
                            put_u16-Fits 10 room 2 b.wire _ (omega (arith, big)) (
                              put_u32-Fits 5 room 1 b.game _ (omega (arith, big)) start)))))))))))))
  where
    start : Fits 5 (some (put_header nc_beacon_announce))
    start = omega arith
