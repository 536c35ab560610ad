-- ===== src/Crypto/Shamir/Power.antt =====
-- crypto/internal/shamir/shamir.go: power by squaring is repeated multiplication.
use wallet_sdk.Common.{
  ℕ, zero, suc, ◌*◌, ◌/◌, ◌%◌, ◌^◌, ◌<◌, bit_and, bit_or, ◌==◌, Bool-cases, inl, inr, ◌≡◌, refl, ap,
  sym, ◌∙◌, arith,
}
use wallet_sdk.Common.Bits.{low_bit, no_bits, all_bits, or_nothing, nothing_or}
use native.Mathlib.Nat.{pow-suc}
use wallet_sdk.Crypto.Shamir.{negate, clear_mask, multiply, power, power_loop}
use wallet_sdk.Crypto.Shamir.Multiply.{multiply_lt}
use wallet_sdk.Crypto.Shamir.Laws.{multiply_comm, multiply_assoc, one_multiply}

-- value multiplied by itself
pub product_of : ℕ → ℕ → ℕ
product_of value zero = 1
product_of value (suc n) = multiply value (product_of value n)

product_of_lt : (value n : ℕ) → value < 256 → product_of value n < 256
unfolding product_of
product_of_lt value zero h = omega arith
product_of_lt value (suc n) h = multiply_lt value (product_of value n) h (product_of_lt value n h)

product_of_square :
    (value n : ℕ) → value < 256 → product_of (multiply value value) n ≡ product_of value (n * 2)
unfolding product_of
product_of_square value zero h = refl
product_of_square value (suc n) h =
    let rest = product_of value (n * 2) in
    let double : suc n * 2 ≡ suc (suc (n * 2)) = omega arith in
    rw double (
      ap (multiply (multiply value value)) (product_of_square value n h)
      ∙ multiply_assoc value value rest h h (product_of_lt value (n * 2) h))

-- The masks keep the result for an even exponent and take the product for an odd one.
masked_even :
    (a c : ℕ) → a < 256 → c < 256 → bit_or (clear_mask a (negate 0)) (bit_and c (negate 0)) ≡ a
masked_even a c h k = rw (all_bits a h, no_bits c k) (or_nothing a h)

masked_odd :
    (a c : ℕ) → a < 256 → c < 256 → bit_or (clear_mask a (negate 1)) (bit_and c (negate 1)) ≡ c
masked_odd a c h k = rw (no_bits a h, all_bits c k) (nothing_or c k)

power_loop-product_of :
    (fuel result value exponent : ℕ)
    → result < 256
    → value < 256
    → exponent < 256
    → exponent < 2 ^ fuel
    → power_loop fuel result value exponent ≡ multiply result (product_of value exponent)
unfolding power_loop product_of
power_loop-product_of zero result value exponent h k m n =
    let done : exponent ≡ 0 = omega arith in
    rw done (sym (multiply_comm result 1 h (omega arith) ∙ one_multiply result h))
power_loop-product_of (suc fuel) result value exponent h k m n =
    let bit : bit_and exponent 1 ≡ exponent % 2 = low_bit exponent m in
    let square = multiply value value in
    let powers : product_of square (exponent / 2) ≡ product_of value (exponent / 2 * 2) =
      product_of_square value (exponent / 2) k in
    let step : (kept : ℕ)
        → kept < 256
        → power_loop fuel kept square (exponent / 2)
          ≡ multiply kept (product_of value (exponent / 2 * 2)) =
      λ kept small.
        power_loop-product_of fuel kept square (exponent / 2) small (multiply_lt value value k k)
          (omega arith) (omega (arith, pow-suc 2 fuel))
        ∙ ap (multiply kept) powers in
    elim (Bool-cases (exponent == 0)) [
      | inl none ↦
          let done : exponent ≡ 0 = ground arith in
          rw (none, done) (sym (multiply_comm result 1 h (omega arith) ∙ one_multiply result h))
      | inr some_left ↦ elim (Bool-cases (exponent % 2 == 0)) [
        | inl even ↦
            let zero_bit : exponent % 2 ≡ 0 = ground arith in
            let whole : exponent / 2 * 2 ≡ exponent = omega arith in
            rw
              (
                some_left,
                bit,
                zero_bit,
                masked_even result (multiply result value) h (multiply_lt result value h k),
              )
              (rw whole at (step result h))
        | inr odd ↦
            let one_bit : exponent % 2 ≡ 1 = ground arith in
            let whole : suc (exponent / 2 * 2) ≡ exponent = omega arith in
            rw
              (
                some_left,
                bit,
                one_bit,
                masked_odd result (multiply result value) h (multiply_lt result value h k),
              )
              (step (multiply result value) (multiply_lt result value h k)
                ∙ multiply_assoc result value _ h k (product_of_lt value (exponent / 2 * 2) k)
                ∙ ap (λ (t : ℕ). multiply result (product_of value t)) whole)
      ]
    ]

-- For a byte and an exponent below 256, power is the exponent's count of factors multiplied together.
pub power-product_of :
    (value exponent : ℕ)
    → value < 256
    → exponent < 256
    → power value exponent ≡ product_of value exponent
unfolding power
power-product_of value exponent h k =
    power_loop-product_of 16 1 value exponent (omega arith) h k (omega arith)
    ∙ one_multiply _ (product_of_lt value exponent h)
