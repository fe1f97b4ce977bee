-- ===== src/Beacon/Fuel.antt =====
-- The loop of nc_beacon_parse in discovery/nc_beacon.c comes to its end: every round takes a byte.
use netchan.Base.{
  ltb, ◌==◌, if_cases, ℕ, zero, suc, ◌+◌, ◌/◌, ◌%◌, ◌^◌, ◌≤◌, ◌≡◌, refl, ◌||◌, Option, none, some,
  arith, length, drop, length-drop, List, [], ◌∷◌,
}
use netchan.Beacon.{
  Beacon, take_bytes, take_u16, take_u32, on_bytes, on_value, on_skip, parse_field, parse_fields,
}
use netchan.Microser.{
  ms_wire_16, ms_wire_32, ms_wire_bytes, rd_le16, ms_read_u16, ms_read_u32, ms_read_bytes, ms_skip,
}

-- The bytes that a round leaves are no more than those behind the tag.
Shrinks : {A : Type 0} → List ℕ → Option (A × List ℕ) → Type 0
Shrinks q none = Unit
Shrinks q (some (a, rest)) = length rest ≤ length q

ms_read_u16-Shrinks : (q : List ℕ) → Shrinks q (ms_read_u16 q)
unfolding ms_read_u16 Shrinks
ms_read_u16-Shrinks q =
    if_cases (Shrinks q) (ltb (length q) 2) none _ (λ e. tt) (λ e. omega (arith, length-drop 2 q))

ms_read_u32-Shrinks : (q : List ℕ) → Shrinks q (ms_read_u32 q)
unfolding ms_read_u32 Shrinks
ms_read_u32-Shrinks q =
    if_cases (Shrinks q) (ltb (length q) 4) none _ (λ e. tt) (λ e. omega (arith, length-drop 4 q))

ms_read_bytes-Shrinks : (q : List ℕ) (dmax : ℕ) → Shrinks q (ms_read_bytes q dmax)
unfolding ms_read_bytes Shrinks
ms_read_bytes-Shrinks q dmax =
    if_cases (Shrinks q) (ltb (length q) 2) none _ (λ e. tt)
      (λ e.
        if_cases (Shrinks q) (ltb (length (drop 2 q)) (rd_le16 q) || ltb dmax (rd_le16 q)) none _
          (λ e. tt) (λ e. omega (arith, length-drop (rd_le16 q) (drop 2 q), length-drop 2 q)))

ms_skip-Shrinks : (b : Beacon) (q : List ℕ) (wire : ℕ) → Shrinks q (on_skip b (ms_skip q wire))
unfolding ms_skip on_skip Shrinks
ms_skip-Shrinks b q wire = ground (arith, length-drop (2 ^ wire) q, length-drop (2 + rd_le16 q) q)

on_value-Shrinks :
    (set : Beacon → ℕ → ℕ → Beacon) (b : Beacon) (field : ℕ) (q : List ℕ) (o : Option (ℕ × List ℕ))
    → Shrinks q o
    → Shrinks q (on_value set b field o)
unfolding on_value Shrinks
on_value-Shrinks set b field q none h = h
on_value-Shrinks set b field q (some x) h = h

on_bytes-Shrinks :
    (b : Beacon) (field : ℕ) (q : List ℕ) (o : Option (List ℕ × List ℕ))
    → Shrinks q o
    → Shrinks q (on_bytes b field o)
unfolding on_bytes Shrinks
on_bytes-Shrinks b field q none h = h
on_bytes-Shrinks b field q (some (bytes, rest)) h = go (take_bytes b field bytes)
  where
    go : (o : Option Beacon) → Shrinks q (elim o [ none ↦ none | some b' ↦ some (b', rest) ])
    go none = tt
    go (some b') = h

parse_field-Shrinks : (b : Beacon) (tag : ℕ) (q : List ℕ) → Shrinks q (parse_field b tag q)
unfolding parse_field
parse_field-Shrinks b tag q =
    if_cases (Shrinks q) (tag % 8 == ms_wire_bytes) _ _
      (λ e. on_bytes-Shrinks b (tag / 8) q _ (ms_read_bytes-Shrinks q 65535))
      (λ e.
        if_cases (Shrinks q) (tag % 8 == ms_wire_16) _ _
          (λ e. on_value-Shrinks take_u16 b (tag / 8) q _ (ms_read_u16-Shrinks q))
          (λ e.
            if_cases (Shrinks q) (tag % 8 == ms_wire_32) _ _
              (λ e. on_value-Shrinks take_u32 b (tag / 8) q _ (ms_read_u32-Shrinks q))
              (λ e. ms_skip-Shrinks b q (tag % 8))))

-- More fuel than there are bytes changes nothing: the loop of nc_beacon_parse ends at the last byte or
-- at a field that is refused, whatever the packet.
pub parse_fields_enough :
    (n k : ℕ) (b : Beacon) (q : List ℕ)
    → length q ≤ n
    → length q ≤ k
    → parse_fields n b q ≡ parse_fields k b q
unfolding parse_fields Shrinks
parse_fields_enough zero zero b q h l = refl
parse_fields_enough zero (suc k) b [] h l = refl
parse_fields_enough (suc n) zero b [] h l = refl
parse_fields_enough (suc n) (suc k) b [] h l = refl
parse_fields_enough zero k b (tag ∷ q) h l = absurd (omega arith)
parse_fields_enough (suc n) zero b (tag ∷ q) h l = absurd (omega arith)
parse_fields_enough (suc n) (suc k) b (tag ∷ q) h l =
    rest (parse_field b tag q) (parse_field-Shrinks b tag q)
      (λ b' r s. parse_fields_enough n k b' r (omega (arith, s)) (omega (arith, s)))
  where
    rest :
        (o : Option (Beacon × List ℕ))
        → Shrinks q o
        → ((b' : Beacon) (r : List ℕ)
            → length r ≤ length q
            → parse_fields n b' r ≡ parse_fields k b' r)
        → elim o [ none ↦ none | some (b', r) ↦ parse_fields n b' r ]
          ≡ elim o [ none ↦ none | some (b', r) ↦ parse_fields k b' r ]
    rest none s ih = refl
    rest (some (b', r)) s ih = ih b' r s
