-- ===== src/Microchan/Fuel.antt =====
-- The loops of microchan/src/microchan.c come to their ends on the fuel they are given.
use netchan.Base.{
  ltb, ◌==◌, Bool-cases, ℕ, zero, suc, ◌≤◌, ◌<◌, ◌≡◌, refl, ◌≢◌, inl, inr, true, false, not, ◌&&◌,
  arith, length, take, drop, length-drop, List, u16_mod, inc16, sub16,
}
use netchan.Microchan.{seq_after}
use netchan.Microchan.Receive.{deliver, advance_base, records}
use netchan.Microchan.Types.{mc_rec, Microchan}
use netchan.Wire.{byte_at, rd16}

-- More fuel than there are bytes changes nothing: the loop of mc_feed ends at the last whole record.
pub records_enough :
    (n k : ℕ) (c : Microchan) (q : List ℕ)
    → length q ≤ n
    → length q ≤ k
    → records n c q ≡ records k c q
unfolding records
records_enough zero zero c q h l = refl
records_enough zero (suc k) c q h l =
    let short : ltb (length q) mc_rec ≡ true = ground arith in rw short refl
records_enough (suc n) zero c q h l =
    let short : ltb (length q) mc_rec ≡ true = ground arith in rw short refl
records_enough (suc n) (suc k) c q h l = elim (Bool-cases (ltb (length q) mc_rec)) [
  | inl short ↦ rw short refl
  | inr long ↦
      let body = drop mc_rec q in
      let rest = drop (rd16 q 4) body in
      let less : length rest < length q =
        ground (arith, length-drop (rd16 q 4) body, length-drop mc_rec q) in
      let ih =
        records_enough n k (deliver c (byte_at q 0) (byte_at q 1) (rd16 q 2) (take (rd16 q 4) body))
          rest (omega (arith, less)) (omega (arith, less)) in
      rw (long, ih) refl
]

-- The distance to tx_next is enough fuel for the loop of process_ack: it stops where the code's does, at
-- tx_next or at a number that the acknowledgement does not come after.
pub advance_base_done :
    (n a next base : ℕ)
    → next < u16_mod
    → base < u16_mod
    → sub16 next base ≤ n
    → let stop = advance_base n a next base in (not (stop == next) && seq_after a stop) ≡ false
unfolding advance_base
advance_base_done zero a next base h k l = let e : (base == next) ≡ true = ground arith in rw e refl
advance_base_done (suc n) a next base h k l =
    elim (Bool-cases (not (base == next) && seq_after a base)) [
      | inr stops ↦ rw (advance_base, stops) stops
      | inl goes ↦
          let apart : base ≢ next = ground arith in
          rw (advance_base, goes)
            (advance_base_done n a next (inc16 base) h (omega arith) (omega (arith, apart)))
    ]
