-- ===== src/Base/Bits.antt =====
-- Exclusive or of numbers, digit by digit.
use Prim.Native.Nat.{bit_xor, digits, bit_xor-bitwise, differ}
use netchan.Base.Tests.{ℕ, zero, suc, ◌+◌, ◌*◌, ◌/◌, ◌%◌, ◌≤◌, ◌<◌, ◌≡◌, refl, ◌∙◌, arith}

abbrev xor_digits : ℕ → ℕ → ℕ → ℕ
xor_digits n a b = digits (λ b. b) differ n a b

xor_digits_fuel : (n m a b : ℕ) → a ≤ n → a ≤ m → xor_digits n a b ≡ xor_digits m a b
xor_digits_fuel zero zero a b p q = refl
xor_digits_fuel zero (suc m) zero b p q = refl
xor_digits_fuel zero (suc m) (suc a) b p q = absurd (omega arith)
xor_digits_fuel (suc n) zero zero b p q = refl
xor_digits_fuel (suc n) zero (suc a) b p q = absurd (omega arith)
xor_digits_fuel (suc n) (suc m) zero b p q = refl
xor_digits_fuel (suc n) (suc m) (suc a) b p q =
    omega (arith, xor_digits_fuel n m (suc a / 2) (b / 2) (omega arith) (omega arith))

zero-bit_xor : (b : ℕ) → bit_xor 0 b ≡ b
zero-bit_xor b = bit_xor-bitwise 0 b

differ-zero : (v : ℕ) → differ 0 v ≡ v
differ-zero v = refl

bit_xor_step : (a b : ℕ) → bit_xor a b ≡ bit_xor (a / 2) (b / 2) * 2 + differ (a % 2) (b % 2)
bit_xor_step zero b = omega (arith, zero-bit_xor b, zero-bit_xor (b / 2), differ-zero (b % 2))
bit_xor_step (suc a) b = omega (
  arith,
  bit_xor-bitwise (suc a) b,
  bit_xor-bitwise (suc a / 2) (b / 2),
  xor_digits_fuel a (suc a / 2) (suc a / 2) (b / 2) (omega arith) (omega arith),
)

differ-lt : (u v : ℕ) → u < 2 → v < 2 → differ u v < 2
differ-lt zero v h k = k
differ-lt (suc zero) zero h k = h
differ-lt (suc zero) (suc v) h k = omega arith
differ-lt (suc (suc u)) v h k = absurd (omega arith)

differ_twice : (u v : ℕ) → u < 2 → v < 2 → differ (differ u v) v ≡ u
differ_twice zero zero h k = refl
differ_twice zero (suc zero) h k = refl
differ_twice (suc zero) zero h k = refl
differ_twice (suc zero) (suc zero) h k = refl
differ_twice u (suc (suc v)) h k = absurd (omega arith)
differ_twice (suc (suc u)) v h k = absurd (omega arith)

bit_xor_twice_fuel : (n a b : ℕ) → a ≤ n → b ≤ n → bit_xor (bit_xor a b) b ≡ a
bit_xor_twice_fuel zero zero zero h k = refl
bit_xor_twice_fuel zero zero (suc b) h k = absurd (omega arith)
bit_xor_twice_fuel zero (suc a) b h k = absurd (omega arith)
bit_xor_twice_fuel (suc n) a b h k =
    let u_lt : a % 2 < 2 = omega arith in
    let v_lt : b % 2 < 2 = omega arith in
    let bound = differ-lt (a % 2) (b % 2) u_lt v_lt in
    let half : bit_xor a b / 2 ≡ bit_xor (a / 2) (b / 2) = omega (arith, bit_xor_step a b, bound) in
    let digit : bit_xor a b % 2 ≡ differ (a % 2) (b % 2) = omega (arith, bit_xor_step a b, bound) in
    bit_xor_step (bit_xor a b) b
    ∙ rw
        (
          half,
          digit,
          bit_xor_twice_fuel n (a / 2) (b / 2) (omega arith) (omega arith),
          differ_twice (a % 2) (b % 2) u_lt v_lt,
        )
        (omega arith)

-- The same number twice is no change.
pub bit_xor_twice : (a b : ℕ) → bit_xor (bit_xor a b) b ≡ a
bit_xor_twice a b = bit_xor_twice_fuel (a + b) a b (omega arith) (omega arith)
