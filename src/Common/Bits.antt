-- ===== src/Common/Bits.antt =====
-- Laws of the bit operations at variables, from the digit recursion that the native ones stand for.
use Prim.Native.Nat.{
  ℕ, zero, suc, ◌+◌, ◌*◌, ◌/◌, ◌%◌, ◌^◌, ◌≤◌, bit_xor, digits, differ, bit_xor-bitwise,
}
use mathlib.Core.Path.{◌≡◌, refl, ◌∙◌}
use native.Mathlib.Nat.{two-pow-succ}
use native.Mathlib.Omega.{arith}

abbrev xor_digits : ℕ → ℕ → ℕ → ℕ
xor_digits = digits (λ b. b) differ

-- More fuel than digits changes nothing.
xor_digits_fuel : (n m a b : ℕ) → a ≤ n → a ≤ m → xor_digits n a b ≡ xor_digits m a b
xor_digits_fuel zero zero a b p q = refl
xor_digits_fuel zero (suc m) zero b p q = refl
xor_digits_fuel zero (suc m) (suc a) b p q = absurd (omega arith)
xor_digits_fuel (suc n) zero zero b p q = refl
xor_digits_fuel (suc n) zero (suc a) b p q = absurd (omega arith)
xor_digits_fuel (suc n) (suc m) zero b p q = refl
xor_digits_fuel (suc n) (suc m) (suc a) b p q =
    rw (xor_digits_fuel n m (suc a / 2) (b / 2) (omega arith) (omega arith))

zero-bit_xor : (b : ℕ) → bit_xor 0 b ≡ b
zero-bit_xor b = bit_xor-bitwise 0 b

differ-zero : (a : ℕ) → differ a 0 ≡ a
differ-zero zero = refl
differ-zero (suc a) = refl

bit_xor_step-suc :
    (a b : ℕ) → bit_xor (suc a) b ≡ bit_xor (suc a / 2) (b / 2) * 2 + differ (suc a % 2) (b % 2)
bit_xor_step-suc a b = omega (
  arith,
  bit_xor-bitwise (suc a) b,
  bit_xor-bitwise (suc a / 2) (b / 2),
  xor_digits_fuel a (suc a / 2) (suc a / 2) (b / 2) (omega arith) (omega arith),
)

pub bit_xor_step : (a b : ℕ) → bit_xor a b ≡ bit_xor (a / 2) (b / 2) * 2 + differ (a % 2) (b % 2)
bit_xor_step zero b = omega (arith, zero-bit_xor b, zero-bit_xor (b / 2))
bit_xor_step (suc a) b = bit_xor_step-suc a b

bit_xor-zero_fuel : (n a : ℕ) → a ≤ n → bit_xor a 0 ≡ a
bit_xor-zero_fuel n zero h = refl
bit_xor-zero_fuel zero (suc a) h = absurd (omega arith)
bit_xor-zero_fuel (suc n) (suc a) h =
    rw (bit_xor_step (suc a) 0, bit_xor-zero_fuel n (suc a / 2) (omega arith))
      (ground (arith, differ-zero (suc a % 2)))

-- Two even numbers.
bit_xor-double : (x y : ℕ) → bit_xor (x + x) (y + y) ≡ bit_xor x y + bit_xor x y
bit_xor-double x y =
    let half : (n : ℕ) → (n + n) / 2 ≡ n = λ n. omega arith in
    let even : (n : ℕ) → (n + n) % 2 ≡ 0 = λ n. omega arith in
    rw (bit_xor_step (x + x) (y + y), half x, half y, even x, even y) (omega arith)

bit_xor-one_even : (x : ℕ) → bit_xor (x + x) 1 ≡ x + x + 1
bit_xor-one_even x =
    let half : (x + x) / 2 ≡ x = omega arith in
    let even : (x + x) % 2 ≡ 0 = omega arith in
    rw (bit_xor_step (x + x) 1, half, even, bit_xor-zero_fuel x x (omega arith)) (omega arith)

bit_xor-one_odd : (x : ℕ) → bit_xor (x + x + 1) 1 ≡ x + x
bit_xor-one_odd x =
    let half : (x + x + 1) / 2 ≡ x = omega arith in
    let odd : (x + x + 1) % 2 ≡ 1 = omega arith in
    rw (bit_xor_step (x + x + 1) 1, half, odd, bit_xor-zero_fuel x x (omega arith)) (omega arith)

-- Flipping the digit of weight 2^k sets it where it is clear, and clears it where it is set.
pub bit_xor_set : (k m : ℕ) → bit_xor (2 * m * 2 ^ k) (2 ^ k) ≡ 2 * m * 2 ^ k + 2 ^ k
bit_xor_set zero m = let e : 2 * m * 1 ≡ m + m = omega arith in rw e (bit_xor-one_even m)
bit_xor_set (suc k) m =
    let e : 2 * m * (2 ^ k + 2 ^ k) ≡ 2 * m * 2 ^ k + 2 * m * 2 ^ k = omega arith in
    rw (two-pow-succ k, e, bit_xor-double (2 * m * 2 ^ k) (2 ^ k), bit_xor_set k m) (omega arith)

pub bit_xor_clear : (k m : ℕ) → bit_xor ((2 * m + 1) * 2 ^ k) (2 ^ k) ≡ 2 * m * 2 ^ k
bit_xor_clear zero m =
    let e : (2 * m + 1) * 1 ≡ m + m + 1 = omega arith in rw e (bit_xor-one_odd m ∙ omega arith)
bit_xor_clear (suc k) m =
    let e : (2 * m + 1) * (2 ^ k + 2 ^ k) ≡ (2 * m + 1) * 2 ^ k + (2 * m + 1) * 2 ^ k =
      omega arith in
    rw (two-pow-succ k, e, bit_xor-double ((2 * m + 1) * 2 ^ k) (2 ^ k), bit_xor_clear k m)
      (omega arith)
