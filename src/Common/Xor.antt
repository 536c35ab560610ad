-- ===== src/Common/Xor.antt =====
-- `^` of numbers by its lowest digit: an exclusive or is a group in which each number is its own
-- inverse, at every width.
use Prim.Native.Nat.{
  ℕ, zero, suc, ◌+◌, ◌*◌, ◌/◌, ◌%◌, ◌^◌, ◌≤◌, ◌<◌, bit_xor, differ, digits, bit_xor-bitwise,
}
use mathlib.Core.Path.{◌≡◌, refl, ap, sym, ◌∙◌}
use native.Mathlib.Nat.{pow-suc}
use native.Mathlib.Omega.{arith}

abbrev xor_digits : ℕ → ℕ → ℕ → ℕ
xor_digits count a b = digits (λ y. y) differ count a b

xor_digits_count : (x y k l : ℕ) → x ≤ k → x ≤ l → xor_digits k x y ≡ xor_digits l x y
xor_digits_count zero y zero zero enough more = refl
xor_digits_count zero y zero (suc l) enough more = refl
xor_digits_count zero y (suc k) zero enough more = refl
xor_digits_count zero y (suc k) (suc l) enough more = refl
xor_digits_count (suc x) y zero l enough more = absurd (omega (arith, enough))
xor_digits_count (suc x) y (suc k) zero enough more = absurd (omega (arith, more))
xor_digits_count (suc x) y (suc k) (suc l) enough more =
    ap (λ (t : ℕ). t * 2 + differ (suc x % 2) (y % 2))
      (xor_digits_count (suc x / 2) (y / 2) k l (omega arith) (omega arith))

pub zero-bit_xor : (b : ℕ) → bit_xor 0 b ≡ b
zero-bit_xor b = bit_xor-bitwise 0 b

bit_xor_digits : (a b : ℕ) → bit_xor a b ≡ bit_xor (a / 2) (b / 2) * 2 + differ (a % 2) (b % 2)
bit_xor_digits zero b = omega (arith, zero-bit_xor b, zero-bit_xor (b / 2))
bit_xor_digits (suc a) b =
    bit_xor-bitwise (suc a) b
    ∙ ap (λ (t : ℕ). t * 2 + differ (suc a % 2) (b % 2))
        (xor_digits_count (suc a / 2) (b / 2) a (suc a / 2) (omega arith) (omega arith)
          ∙ sym (bit_xor-bitwise (suc a / 2) (b / 2)))

differ_bits : (x y : ℕ) → x < 2 → y < 2 → differ x y ≡ (x + y) % 2
differ_bits zero y h k = omega arith
differ_bits (suc zero) zero h k = refl
differ_bits (suc zero) (suc zero) h k = refl
differ_bits (suc zero) (suc (suc y)) h k = absurd (omega arith)
differ_bits (suc (suc x)) y h k = absurd (omega arith)

pub bit_xor_digit : (a b : ℕ) → bit_xor a b ≡ bit_xor (a / 2) (b / 2) * 2 + (a % 2 + b % 2) % 2
bit_xor_digit a b =
    bit_xor_digits a b
    ∙ ap (λ (t : ℕ). bit_xor (a / 2) (b / 2) * 2 + t)
        (differ_bits (a % 2) (b % 2) (omega arith) (omega arith))

-- What one digit is to the halves.
pub half-bit_xor : (a b : ℕ) → bit_xor a b / 2 ≡ bit_xor (a / 2) (b / 2)
half-bit_xor a b = omega (arith, bit_xor_digit a b)

bit_xor_comm_below : (k a b : ℕ) → a ≤ k → b ≤ k → bit_xor a b ≡ bit_xor b a
bit_xor_comm_below zero a b p q = ground arith
bit_xor_comm_below (suc k) a b p q = omega (
  arith,
  bit_xor_digit a b,
  bit_xor_digit b a,
  bit_xor_comm_below k (a / 2) (b / 2) (omega arith) (omega arith),
)

pub bit_xor_comm : (a b : ℕ) → bit_xor a b ≡ bit_xor b a
bit_xor_comm a b = bit_xor_comm_below (a + b) a b (omega arith) (omega arith)

bit_xor_assoc_below :
    (k a b c : ℕ) → a ≤ k → b ≤ k → c ≤ k → bit_xor (bit_xor a b) c ≡ bit_xor a (bit_xor b c)
bit_xor_assoc_below zero a b c p q r = ground arith
bit_xor_assoc_below (suc k) a b c p q r = omega (
  arith,
  bit_xor_digit a b,
  bit_xor_digit b c,
  rw (half-bit_xor a b) at (bit_xor_digit (bit_xor a b) c),
  rw (half-bit_xor b c) at (bit_xor_digit a (bit_xor b c)),
  bit_xor_assoc_below k (a / 2) (b / 2) (c / 2) (omega arith) (omega arith) (omega arith),
)

pub bit_xor_assoc : (a b c : ℕ) → bit_xor (bit_xor a b) c ≡ bit_xor a (bit_xor b c)
bit_xor_assoc a b c =
    bit_xor_assoc_below (a + b + c) a b c (omega arith) (omega arith) (omega arith)

pub bit_xor-zero : (a : ℕ) → bit_xor a 0 ≡ a
bit_xor-zero a = bit_xor_comm a 0 ∙ zero-bit_xor a

bit_xor_self_below : (k a : ℕ) → a ≤ k → bit_xor a a ≡ 0
bit_xor_self_below zero a p = ground arith
bit_xor_self_below (suc k) a p =
    omega (arith, bit_xor_digit a a, bit_xor_self_below k (a / 2) (omega arith))

pub bit_xor_self : (a : ℕ) → bit_xor a a ≡ 0
bit_xor_self a = bit_xor_self_below a a (omega arith)

pub bit_xor_lt : (k a b : ℕ) → a < 2 ^ k → b < 2 ^ k → bit_xor a b < 2 ^ k
bit_xor_lt zero a b p q = ground arith
bit_xor_lt (suc k) a b p q = omega (
  arith,
  pow-suc 2 k,
  bit_xor_digit a b,
  bit_xor_lt k (a / 2) (b / 2) (omega (arith, pow-suc 2 k)) (omega (arith, pow-suc 2 k)),
)

-- The digits from the k-th on and those below it do not mix.
pub bit_xor_split :
    (k p q r s : ℕ)
    → r < 2 ^ k
    → s < 2 ^ k
    → bit_xor (p * 2 ^ k + r) (q * 2 ^ k + s) ≡ bit_xor p q * 2 ^ k + bit_xor r s
bit_xor_split zero p q r s hr hs =
    let left : p * 2 ^ 0 + r ≡ p = omega arith in
    let right : q * 2 ^ 0 + s ≡ q = omega arith in
    let low : bit_xor r s ≡ 0 = ground arith in rw (left, right) (omega (arith, low))
bit_xor_split (suc k) p q r s hr hs =
    let double : (x : ℕ) → x * 2 ^ suc k ≡ x * 2 ^ k * 2 =
      λ x. ap (λ (t : ℕ). x * t) (pow-suc 2 k) ∙ grind arith in
    let left : (p * 2 ^ suc k + r) / 2 ≡ p * 2 ^ k + r / 2 = omega (arith, double p) in
    let right : (q * 2 ^ suc k + s) / 2 ≡ q * 2 ^ k + s / 2 = omega (arith, double q) in
    omega (
      arith,
      double p,
      double q,
      double (bit_xor p q),
      pow-suc 2 k,
      rw (left, right) at (bit_xor_digit (p * 2 ^ suc k + r) (q * 2 ^ suc k + s)),
      bit_xor_digit r s,
      bit_xor_split k p q (r / 2) (s / 2) (omega (arith, pow-suc 2 k)) (omega (arith, pow-suc 2 k)),
    )

pub bit_xor_interchange :
    (a b c d : ℕ) → bit_xor (bit_xor a b) (bit_xor c d) ≡ bit_xor (bit_xor a c) (bit_xor b d)
bit_xor_interchange a b c d =
    let inner : bit_xor b (bit_xor c d) ≡ bit_xor c (bit_xor b d) =
      sym (bit_xor_assoc b c d)
      ∙ ap (λ (t : ℕ). bit_xor t d) (bit_xor_comm b c)
      ∙ bit_xor_assoc c b d in
    bit_xor_assoc a b (bit_xor c d)
    ∙ ap (λ (t : ℕ). bit_xor a t) inner
    ∙ sym (bit_xor_assoc a c (bit_xor b d))

pub bit_xor_double : (a b : ℕ) → bit_xor (a * 2) (b * 2) ≡ bit_xor a b * 2
bit_xor_double a b =
    let left : a * 2 / 2 ≡ a = omega arith in
    let right : b * 2 / 2 ≡ b = omega arith in
    omega (arith, rw (left, right) at (bit_xor_digit (a * 2) (b * 2)))
