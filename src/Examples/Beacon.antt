-- ===== src/Examples/Beacon.antt =====
-- Concrete inputs for the theorems about discovery/nc_beacon.c.
use netchan.Base.{ℕ, ◌≡◌, refl, true, none, some, arith, replicate, List, [], ◌∷◌}
use netchan.Beacon.{Beacon, no_beacon, bounded, nc_beacon_build, nc_beacon_parse}
use netchan.Beacon.Fields.{WellFormed}
use netchan.Beacon.Roundtrip.{nc_beacon_parse-nc_beacon_build}

abbrev arena : Beacon
arena = record no_beacon {
  game = 70000;
  wire = 1;
  port = 4433;
  players = 3;
  capacity = 8;
  name = 66 ∷ 111 ∷ 98 ∷ [];
  key = replicate 32 9;
  has_key = true;
}

arena-WellFormed : WellFormed arena
unfolding bounded
arena-WellFormed = record {
  game = omega arith;
  wire = omega arith;
  major = omega arith;
  minor = omega arith;
  port = omega arith;
  players = omega arith;
  capacity = omega arith;
  modes = omega arith;
  flags = omega arith;
  instance_id = omega arith;
  name = record { no_nul = refl; size = omega arith };
  contact = record { no_nul = refl; size = omega arith };
  size = refl;
  absent = λ e. cc;
}

nc_beacon_parse-nc_beacon_build_example :
    elim (nc_beacon_build 300 arena) [ none ↦ none | some pkt ↦ nc_beacon_parse pkt ] ≡ some arena
nc_beacon_parse-nc_beacon_build_example =
    nc_beacon_parse-nc_beacon_build 300 arena arena-WellFormed (omega arith)

-- A field that is not known, then a port that is cut short.
abbrev cut_fields : List ℕ
cut_fields = 160 ∷ 7 ∷ 41 ∷ 1 ∷ []
