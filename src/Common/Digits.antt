-- ===== src/Common/Digits.antt =====
-- `|` by its lowest digit, and of numbers whose digits do not overlap, at every width.
use Prim.Native.Nat.{
  ℕ, zero, suc, ◌+◌, ◌*◌, ◌/◌, ◌%◌, ◌^◌, ◌≤◌, ◌<◌, bit_or, max, digits, bit_or-bitwise,
}
use mathlib.Core.Path.{◌≡◌, refl, ap}
use native.Mathlib.Nat.{pow-suc}
use native.Mathlib.Omega.{arith}

-- The native operation is a recursion on as many digits as the first number counts; any count
-- that is no smaller gives the same.
abbrev or_digits : ℕ → ℕ → ℕ → ℕ
or_digits count a b = digits (λ y. y) max count a b

or_digits_count : (x y k l : ℕ) → x ≤ k → x ≤ l → or_digits k x y ≡ or_digits l x y
or_digits_count (suc x) y (suc k) (suc l) enough more =
    omega (arith, or_digits_count (suc x / 2) (y / 2) k l (omega arith) (omega arith))
or_digits_count (suc x) y zero l enough more = absurd (omega (arith, enough))
or_digits_count (suc x) y (suc k) zero enough more = absurd (omega (arith, more))
or_digits_count zero y (suc k) (suc l) enough more = refl
or_digits_count zero y (suc k) zero enough more = refl
or_digits_count zero y zero (suc l) enough more = refl
or_digits_count zero y zero zero enough more = refl

zero-bit_or : (b : ℕ) → bit_or 0 b ≡ b
zero-bit_or b = bit_or-bitwise 0 b

bit_or_digit : (a b : ℕ) → bit_or a b ≡ bit_or (a / 2) (b / 2) * 2 + max (a % 2) (b % 2)
bit_or_digit zero b = omega (arith, zero-bit_or b, zero-bit_or (b / 2))
bit_or_digit (suc a) b = omega (
  arith,
  bit_or-bitwise (suc a) b,
  bit_or-bitwise (suc a / 2) (b / 2),
  or_digits_count (suc a / 2) (b / 2) a (suc a / 2) (omega arith) (omega arith),
)

-- A number below 2^k, and one shifted by k places.
pub bit_or_shifted : (k low high : ℕ) → low < 2 ^ k → bit_or low (high * 2 ^ k) ≡ low + high * 2 ^ k
bit_or_shifted zero low high h = ground (arith, zero-bit_or (high * 2 ^ 0))
bit_or_shifted (suc k) low high h = ground (
  arith,
  bit_or_digit low (high * 2 ^ suc k),
  ap (λ (t : ℕ). high * t) (pow-suc 2 k),
  pow-suc 2 k,
  bit_or_shifted k (low / 2) high (omega (arith, pow-suc 2 k)),
)
