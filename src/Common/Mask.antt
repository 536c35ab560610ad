-- ===== src/Common/Mask.antt =====
-- `&` with the k lowest digits, at every width.
use Prim.Native.Nat.{
  ℕ, zero, suc, ◌+◌, ◌-◌, ◌*◌, ◌/◌, ◌%◌, ◌^◌, ◌≤◌, ◌<◌, bit_and, min, digits, bit_and-bitwise,
}
use mathlib.Core.Path.{◌≡◌, refl, ap, ◌∙◌}
use native.Mathlib.Nat.{pow-suc}
use native.Mathlib.Omega.{arith}

abbrev and_digits : ℕ → ℕ → ℕ → ℕ
and_digits count a b = digits (λ y. 0) min count a b

-- More rounds than the first number has digits change nothing.
and_digits_enough : (k l x y : ℕ) → x ≤ k → x ≤ l → and_digits k x y ≡ and_digits l x y
and_digits_enough zero zero zero y h m = refl
and_digits_enough zero (suc l) zero y h m = refl
and_digits_enough (suc k) zero zero y h m = refl
and_digits_enough (suc k) (suc l) zero y h m = refl
and_digits_enough zero l (suc x) y h m = absurd (omega (arith, h))
and_digits_enough (suc k) zero (suc x) y h m = absurd (omega (arith, m))
and_digits_enough (suc k) (suc l) (suc x) y h m =
    omega (arith, and_digits_enough k l (suc x / 2) (y / 2) (omega arith) (omega arith))

pub zero-bit_and : (b : ℕ) → bit_and 0 b ≡ 0
zero-bit_and b = bit_and-bitwise 0 b

pub bit_and_digit : (a b : ℕ) → bit_and a b ≡ bit_and (a / 2) (b / 2) * 2 + min (a % 2) (b % 2)
bit_and_digit zero b = omega (arith, zero-bit_and b, zero-bit_and (b / 2))
bit_and_digit (suc a) b = omega (
  arith,
  bit_and-bitwise (suc a) b,
  bit_and-bitwise (suc a / 2) (b / 2),
  and_digits_enough a (suc a / 2) (suc a / 2) (b / 2) (omega arith) (omega arith),
)

no_mask_below : (k a : ℕ) → a ≤ k → bit_and a 0 ≡ 0
no_mask_below zero a h = ground (arith, zero-bit_and 0)
no_mask_below (suc k) a h = omega (arith, bit_and_digit a 0, no_mask_below k (a / 2) (omega arith))

no_mask : (a : ℕ) → bit_and a 0 ≡ 0
no_mask a = no_mask_below a a (omega arith)

-- The digits below the k-th.
pub bit_and_mask : (k p r : ℕ) → r < 2 ^ k → bit_and (p * 2 ^ k + r) (2 ^ k - 1) ≡ r
bit_and_mask zero p r h = omega (arith, bit_and_digit (p * 2 ^ 0 + r) 0, no_mask (p * 2 ^ 0 + r))
bit_and_mask (suc k) p r h =
    let double : p * 2 ^ suc k ≡ p * 2 ^ k * 2 =
      ap (λ (t : ℕ). p * t) (pow-suc 2 k) ∙ grind arith in
    let left : (p * 2 ^ suc k + r) / 2 ≡ p * 2 ^ k + r / 2 = omega (arith, double) in
    let right : (2 ^ suc k - 1) / 2 ≡ 2 ^ k - 1 = omega (arith, pow-suc 2 k) in
    omega (
      arith,
      double,
      pow-suc 2 k,
      rw (left, right) at (bit_and_digit (p * 2 ^ suc k + r) (2 ^ suc k - 1)),
      bit_and_mask k p (r / 2) (omega (arith, pow-suc 2 k)),
    )
