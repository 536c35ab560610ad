-- ===== src/Kaspa/Bech32/Bits.antt =====
-- signing/kaspa/bech32.go: convertBits keeps the number that its input spells.
use wallet_sdk.Common.{
  ℕ, zero, suc, ◌+◌, ◌-◌, ◌*◌, ◌%◌, ◌^◌, Bool, true, ◌&&◌, ◌==◌, ltb, ◌≡◌, refl, ap, sym, ◌∙◌,
  arith, [], ◌∷◌, Bytes, length,
}
use native.Mathlib.Nat.{pow-zero, pow-succ', mul_assoc}
use wallet_sdk.Kaspa.Bech32.{ConversionType, five_to_eight, eight_to_five, take_bits}

-- The number of digits of `width` bits behind a number.
abbrev pub spell : ℕ → ℕ → Bytes → ℕ
spell width n [] = n
spell width n (d ∷ ds) = spell width (n * 2 ^ width + d) ds

abbrev pub all_digits : ℕ → Bytes → Bool
all_digits bound [] = true
all_digits bound (d ∷ ds) = ltb d bound && all_digits bound ds

-- What one byte does from `filled` bits of `next`, as a test.
abbrev pub keeps : ConversionType → ℕ → ℕ → ℕ → Bool
keeps ct filled next b =
    let after =
      take_bits ct.from_bits ct (b * 2 ^ (8 - ct.from_bits) % 256) ct.from_bits
        ([], next, filled) in
    spell ct.to_bits 0 after.0 * 2 ^ after.2 + after.1 == next * 2 ^ ct.from_bits + b
    && length after.0 * ct.to_bits + after.2 == filled + ct.from_bits
    && ltb after.2 ct.to_bits
    && ltb after.1 (2 ^ after.2)
    && all_digits (2 ^ ct.to_bits) after.0

abbrev pub all_below : (ℕ → Bool) → ℕ → Bool
all_below test zero = true
all_below test (suc n) = test n && all_below test n

pub eight_to_five_keeps :
    all_below
      (λ filled.
        all_below (λ next. all_below (λ b. keeps eight_to_five filled next b) 256) (2 ^ filled))
      5
    ≡ true
unfolding take_bits
eight_to_five_keeps = refl

pub five_to_eight_keeps :
    all_below
      (λ filled.
        all_below (λ next. all_below (λ b. keeps five_to_eight filled next b) 32) (2 ^ filled))
      8
    ≡ true
unfolding take_bits
five_to_eight_keeps = refl

zero_plus : (n : ℕ) → 0 + n ≡ n
zero_plus n = omega arith

suc_plus : (m n : ℕ) → suc m + n ≡ suc (m + n)
suc_plus m n = omega arith

one_times : (n : ℕ) → 1 * n ≡ n
one_times n = omega arith

pub pow_sum : (b m n : ℕ) → b ^ (m + n) ≡ b ^ m * b ^ n
pow_sum b zero n =
    ap (λ (t : ℕ). b ^ t) (zero_plus n)
    ∙ sym (ap (λ (t : ℕ). t * b ^ n) (pow-zero b) ∙ one_times (b ^ n))
pow_sum b (suc m) n =
    let left : b ^ (suc m + n) ≡ b * b ^ (m + n) =
      ap (λ (t : ℕ). b ^ t) (suc_plus m n) ∙ pow-succ' b (m + n) in
    left
    ∙ ap (λ (t : ℕ). b * t) (pow_sum b m n)
    ∙ sym (mul_assoc b (b ^ m) (b ^ n))
    ∙ ap (λ (t : ℕ). t * b ^ n) (sym (pow-succ' b m))

pub spell_shift :
    (width n : ℕ) (ds : Bytes) → spell width n ds ≡ n * 2 ^ (length ds * width) + spell width 0 ds
spell_shift width n [] = let none : 0 * width ≡ 0 = omega arith in rw none (omega arith)
spell_shift width n (d ∷ ds) =
    let p = 2 ^ width in
    let q = 2 ^ (length ds * width) in
    let more : suc (length ds) * width ≡ width + length ds * width = grind arith in
    let powers : 2 ^ (suc (length ds) * width) ≡ p * q =
      ap (λ (t : ℕ). 2 ^ t) more ∙ pow_sum 2 width (length ds * width) in
    let left = spell_shift width (n * p + d) ds in
    let right = spell_shift width (0 * p + d) ds in rw powers (grind (arith, left, right))
