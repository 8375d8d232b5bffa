-- ===== src/Base/Words.antt =====
-- Unsigned 64-bit words as native numbers: wrapping subtraction and the bitwise `|` of a field that
-- lies above the other operand.
use Prim.Native.Nat.{
  ℕ, zero, suc, ◌+◌, ◌-◌, ◌*◌, ◌/◌, ◌%◌, ◌^◌, ◌≤◌, ◌<◌, max, bit_or, digits, bit_or-bitwise,
}
use mathlib.Core.Path.{◌≡◌, refl}
use native.Mathlib.Nat.{pow-suc}
use native.Mathlib.Omega.{arith}

abbrev pub u64_mod : ℕ
u64_mod = 2 ^ 64

-- UINT64_MAX
abbrev pub u64_max : ℕ
u64_max = 2 ^ 64 - 1

-- INT64_MAX
abbrev pub i64_max : ℕ
i64_max = 2 ^ 63 - 1

-- uint64_t a - b
abbrev pub sub64 : ℕ → ℕ → ℕ
sub64 a b = (a + u64_mod - b) % u64_mod

-- uint64_t a + b
abbrev pub add64 : ℕ → ℕ → ℕ
add64 a b = (a + b) % u64_mod

pub sub64-eq-sub : (a b : ℕ) → b ≤ a → a < 2 ^ 64 → sub64 a b ≡ a - b
sub64-eq-sub a b p q = omega arith

pub add64-eq-add : (a b : ℕ) → a + b < 2 ^ 64 → add64 a b ≡ a + b
add64-eq-add a b q = omega arith

abbrev or_digits : ℕ → ℕ → ℕ → ℕ
or_digits = digits (λ y. y) max

or_digits_fuel : (n m a b : ℕ) → a ≤ n → a ≤ m → or_digits n a b ≡ or_digits m a b
or_digits_fuel zero zero a b p q = refl
or_digits_fuel zero (suc m) zero b p q = refl
or_digits_fuel zero (suc m) (suc a) b p q = absurd (omega arith)
or_digits_fuel (suc n) zero zero b p q = refl
or_digits_fuel (suc n) zero (suc a) b p q = absurd (omega arith)
or_digits_fuel (suc n) (suc m) zero b p q = refl
or_digits_fuel (suc n) (suc m) (suc a) b p q =
    omega (arith, or_digits_fuel n m (suc a / 2) (b / 2) (omega arith) (omega arith))

zero-bit_or : (b : ℕ) → bit_or 0 b ≡ b
zero-bit_or b = bit_or-bitwise 0 b

bit_or_halves : (a b : ℕ) → bit_or a b ≡ bit_or (a / 2) (b / 2) * 2 + max (a % 2) (b % 2)
bit_or_halves zero b = omega (arith, zero-bit_or b, zero-bit_or (b / 2))
bit_or_halves (suc a) b = omega (
  arith,
  bit_or-bitwise (suc a) b,
  bit_or-bitwise (suc a / 2) (b / 2),
  or_digits_fuel a (suc a / 2) (suc a / 2) (b / 2) (omega arith) (omega arith),
)

bit_or-zero_fuel : (n a : ℕ) → a ≤ n → bit_or a 0 ≡ a
bit_or-zero_fuel n zero h = zero-bit_or 0
bit_or-zero_fuel zero (suc a) h = absurd (omega arith)
bit_or-zero_fuel (suc n) (suc a) h =
    omega (arith, bit_or_halves (suc a) 0, bit_or-zero_fuel n (suc a / 2) (omega arith))

bit_or-zero : (a : ℕ) → bit_or a 0 ≡ a
bit_or-zero a = bit_or-zero_fuel a a (omega arith)

-- `(k << n) | x` is a sum where `x` has at most `n` bits.
pub bit_or_field : (n k x : ℕ) → x < 2 ^ n → bit_or (k * 2 ^ n) x ≡ k * 2 ^ n + x
bit_or_field zero k x h = let e : x ≡ 0 = omega arith in rw e (omega (arith, bit_or-zero (k * 1)))
bit_or_field (suc n) k x h =
    let p : 2 ^ suc n ≡ 2 ^ n * 2 = pow-suc 2 n in
    let q : k * 2 ^ suc n ≡ k * 2 ^ n * 2 = rw p (omega arith) in
    let half : k * 2 ^ suc n / 2 ≡ k * 2 ^ n = omega (arith, q) in
    let even : k * 2 ^ suc n % 2 ≡ 0 = omega (arith, q) in
    let step : bit_or (k * 2 ^ suc n) x
        ≡ bit_or (k * 2 ^ n) (x / 2) * 2 + max (k * 2 ^ suc n % 2) (x % 2) =
      rw half at (bit_or_halves (k * 2 ^ suc n) x) in
    omega (arith, step, even, q, bit_or_field n k (x / 2) (omega (arith, p)))
