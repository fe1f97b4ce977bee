-- ===== src/Crypto/Bits.antt =====
-- Single bits of a number: what a shift, a truncation and an addition of 2 ^ d do to them.
use native.Mathlib.Nat.{
  zero-add, suc-add, pow-zero, pow-suc, pow-succ', two-pow-succ, one-le-pow, div-one, mul-one,
  div-div-eq-div-mul, div-add-mod, mod-lt, mul-add-mod_self_left, mod-eq_of_lt, mul_assoc,
}
use netchan.Base.{
  ◌==◌, if◌then◌else◌, ℕ, zero, suc, ◌+◌, ◌*◌, ◌/◌, ◌%◌, ◌^◌, ◌<◌, ◌≡◌, refl, sym, ◌∙◌, false,
  arith,
}

abbrev pub bit : ℕ → ℕ → ℕ
bit w d = w / 2 ^ d % 2

pow_pos : (k : ℕ) → 0 < 2 ^ k
pow_pos k = omega (arith, one-le-pow k 2)

bit-zero : (w : ℕ) → bit w zero ≡ w % 2
bit-zero w = rw (pow-zero 2, div-one w)

bit-suc : (w d : ℕ) → bit w (suc d) ≡ bit (w / 2) d
bit-suc w d = rw (pow-succ' 2 d, ← div-div-eq-div-mul w 2 (2 ^ d)) refl

half-mod : (w m : ℕ) → 0 < m → w % (2 * m) / 2 ≡ w / 2 % m
half-mod w m h =
    let q = w / (2 * m) in
    let r = w % (2 * m) in
    let parts : 2 * (m * q) + r ≡ w = rw (← mul_assoc 2 m q) (div-add-mod w (2 * m)) in
    let small : r < 2 * m = mod-lt w (omega arith) in
    let half : w / 2 ≡ m * q + r / 2 = omega (arith, parts) in
    rw (half, mul-add-mod_self_left m q (r / 2)) (sym (mod-eq_of_lt (omega (arith, small))))

-- The bits below k survive a truncation to k bits.
pub bit-mod : (d k w : ℕ) → d < k → bit (w % 2 ^ k) d ≡ bit w d
bit-mod d zero w h = absurd (omega arith)
bit-mod zero (suc k) w h =
    let m = 2 ^ k in
    let parts : 2 * (m * (w / (2 * m))) + w % (2 * m) ≡ w =
      rw (← mul_assoc 2 m (w / (2 * m))) (div-add-mod w (2 * m)) in
    rw (pow-succ' 2 k) (omega (arith, parts))
bit-mod (suc d) (suc k) w h =
    bit-suc (w % 2 ^ suc k) d
    ∙ rw (pow-succ' 2 k, half-mod w (2 ^ k) (pow_pos k)) (bit-mod d k (w / 2) (omega arith))
    ∙ sym (bit-suc w d)

bit-double : (w d : ℕ) → bit (2 * w) (suc d) ≡ bit w d
bit-double w d = let half : 2 * w / 2 ≡ w = omega arith in bit-suc (2 * w) d ∙ rw half refl

double : (s w : ℕ) → w * 2 ^ suc s ≡ 2 * (w * 2 ^ s)
double s w = rw (pow-suc 2 s) (grind arith)

-- A shift moves the bits up and fills with zeros.
pub bit-shift : (s d w : ℕ) → bit (w * 2 ^ s) (s + d) ≡ bit w d
bit-shift zero d w = rw (pow-zero 2, mul-one w, zero-add d) refl
bit-shift (suc s) d w =
    rw (suc-add s d, double s w) (bit-double (w * 2 ^ s) (s + d) ∙ bit-shift s d w)

pub bit-shift_low : (s j w : ℕ) → j < s → bit (w * 2 ^ s) j ≡ 0
bit-shift_low zero j w h = absurd (omega arith)
bit-shift_low (suc s) zero w h = rw (double s w) (omega arith)
bit-shift_low (suc s) (suc j) w h =
    rw (double s w) (bit-double (w * 2 ^ s) j ∙ bit-shift_low s j w (omega arith))

-- Adding 2 ^ d sets bit d, if it is clear, and no other.
pub bit-set : (d j w : ℕ) → bit w d ≡ 0 → bit (w + 2 ^ d) j ≡ (if j == d then 1 else bit w j)
bit-set zero zero w h = omega arith
bit-set zero (suc j) w h =
    let other : (suc j == 0) ≡ false = ground arith in
    let half : (w + 1) / 2 ≡ w / 2 = omega arith in
    rw other (bit-suc (w + 1) j ∙ rw half (sym (bit-suc w j)))
bit-set (suc d) zero w h = ground (arith, two-pow-succ d)
bit-set (suc d) (suc j) w h =
    let same : (suc j == suc d) ≡ (j == d) = ground arith in
    let half : (w + 2 ^ suc d) / 2 ≡ w / 2 + 2 ^ d = omega (arith, two-pow-succ d) in
    rw same (
      bit-suc (w + 2 ^ suc d) j
      ∙ rw (half, bit-suc w j) (bit-set d j (w / 2) (sym (bit-suc w d) ∙ h)))
