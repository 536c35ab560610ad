-- ===== src/Kaspa/Bech32/Verify.antt =====
-- signing/kaspa/bech32.go: the checksum that calculateChecksum makes is the one that verifyChecksum
-- takes.
use wallet_sdk.Common.{
  ℕ, zero, suc, ◌+◌, ◌*◌, ◌/◌, ◌^◌, ◌<◌, bit_and, bit_xor, true, ◌==◌, ◌≡◌, refl, ap, sym, ◌∙◌,
  arith, [], ◌∷◌, ◌++◌, Bytes, length, replicate, All, All-append, append_assoc,
}
use wallet_sdk.Common.Xor.{bit_xor_assoc, bit_xor_self, bit_xor_lt, bit_xor-zero}
use wallet_sdk.Kaspa.Bech32.{
  poly_loop, poly_mod, checksum_digits, calculate_checksum, verify_checksum, prefix_to_uint5,
}
use wallet_sdk.Kaspa.Bech32.Sum.{
  Fits, poly_loop-number, poly_loop-append, poly_loop_lt, digits_number, low_5,
}

-- Eight digits of five bits stay below 2^40.
eight-Fits :
    (a b c d e f g h : ℕ)
    → All (λ v. v < 2 ^ 5) (a ∷ b ∷ c ∷ d ∷ e ∷ f ∷ g ∷ h ∷ [])
    → Fits 0 (a ∷ b ∷ c ∷ d ∷ e ∷ f ∷ g ∷ h ∷ [])
eight-Fits a b c d e f g h (ha, (hb, (hc, (hd, (he, (hf, (hg, (hh, none)))))))) =
    let small2 : a * 2 ^ 5 + b < 2 ^ 10 = omega arith in
    let small3 : (a * 2 ^ 5 + b) * 2 ^ 5 + c < 2 ^ 15 = omega arith in
    let small4 : ((a * 2 ^ 5 + b) * 2 ^ 5 + c) * 2 ^ 5 + d < 2 ^ 20 = omega arith in
    let small5 : (((a * 2 ^ 5 + b) * 2 ^ 5 + c) * 2 ^ 5 + d) * 2 ^ 5 + e < 2 ^ 25 = omega arith in
    let small6 : ((((a * 2 ^ 5 + b) * 2 ^ 5 + c) * 2 ^ 5 + d) * 2 ^ 5 + e) * 2 ^ 5 + f < 2 ^ 30 =
      omega arith in
    (
      omega arith,
      ha,
      (
        omega arith,
        hb,
        (
          omega arith,
          hc,
          (
            omega arith,
            hd,
            (omega arith, he, (omega arith, hf, (omega arith, hg, (omega arith, hh, tt)))),
          ),
        ),
      ),
    )

digit_lt : (a : ℕ) → bit_and a 31 < 2 ^ 5
digit_lt a = omega (arith, low_5 a)

pub checksum_digits_lt : (n c : ℕ) → All (λ v. v < 2 ^ 5) (checksum_digits n c)
unfolding checksum_digits
checksum_digits_lt zero c = tt
checksum_digits_lt (suc n) c = (digit_lt (c / 2 ^ (5 * n)), checksum_digits_lt n c)

digits-Fits : (c : ℕ) → Fits 0 (checksum_digits 8 c)
unfolding checksum_digits
digits-Fits c = eight-Fits _ _ _ _ _ _ _ _ (checksum_digits_lt 8 c)

small_values : (vs : Bytes) → All (λ v. v < 2 ^ 5) vs → All (λ v. v < 2 ^ 40) vs
small_values [] h = tt
small_values (v ∷ vs) (h, hs) = (omega arith, small_values vs hs)

prefix_to_uint5_lt : (prefix : Bytes) → All (λ v. v < 2 ^ 5) (prefix_to_uint5 prefix)
unfolding prefix_to_uint5
prefix_to_uint5_lt [] = tt
prefix_to_uint5_lt (c ∷ cs) = (digit_lt c, prefix_to_uint5_lt cs)

small_zeros : (n : ℕ) → All (λ v. v < 2 ^ 40) (replicate n 0)
small_zeros zero = tt
small_zeros (suc n) = (omega arith, small_zeros n)

pub length-checksum_digits : (n c : ℕ) → length (checksum_digits n c) ≡ n
unfolding checksum_digits
length-checksum_digits zero c = refl
length-checksum_digits (suc n) c = ap suc (length-checksum_digits n c)

-- A checksum added in the place of zeros leaves the remainder one.
poly_mod-checksum :
    (values : Bytes)
    → All (λ v. v < 2 ^ 40) values
    → poly_mod (values ++ checksum_digits 8 (poly_mod (values ++ replicate 8 0))) ≡ 0
unfolding poly_mod
poly_mod-checksum values h =
    let s = poly_loop 1 values in
    let small : s < 2 ^ 40 = poly_loop_lt 1 values (omega arith) h in
    let z = poly_loop s (replicate 8 0) in
    let c = poly_mod (values ++ replicate 8 0) in
    let split : c ≡ bit_xor z 1 =
      ap (λ (t : ℕ). bit_xor t 1) (poly_loop-append 1 values (replicate 8 0)) in
    let bound : z < 2 ^ 40 = poly_loop_lt s (replicate 8 0) small (small_zeros 8) in
    let limit : c < 2 ^ 40 = rw split (bit_xor_lt 40 z 1 bound (omega arith)) in
    let ends : poly_loop 1 (values ++ checksum_digits 8 c) ≡ bit_xor z c =
      poly_loop-append 1 values (checksum_digits 8 c)
      ∙ ap (λ (t : ℕ). poly_loop t (checksum_digits 8 c)) (sym (bit_xor-zero s))
      ∙ poly_loop-number (checksum_digits 8 c) s 0 small (digits-Fits c)
      ∙ ap (bit_xor (poly_loop s (replicate (length (checksum_digits 8 c)) 0)))
          (digits_number c limit)
      ∙ ap (λ (n : ℕ). bit_xor (poly_loop s (replicate n 0)) c) (length-checksum_digits 8 c) in
    let one : bit_xor z c ≡ 1 =
      ap (bit_xor z) split
      ∙ sym (bit_xor_assoc z z 1)
      ∙ ap (λ (t : ℕ). bit_xor t 1) (bit_xor_self z) in
    ap (λ (t : ℕ). bit_xor t 1) (ends ∙ one)

-- verifyChecksum takes a payload of five-bit values with the checksum that calculateChecksum makes for
-- it put behind it.
pub verify_checksum-calculate_checksum :
    (prefix payload : Bytes)
    → All (λ v. v < 2 ^ 5) payload
    → verify_checksum prefix (payload ++ calculate_checksum prefix payload) ≡ true
unfolding verify_checksum calculate_checksum
verify_checksum-calculate_checksum prefix payload h =
    let header = prefix_to_uint5 prefix ++ 0 ∷ [] in
    let header_small =
      All-append (λ v. v < 2 ^ 5) (prefix_to_uint5 prefix) (0 ∷ []) (prefix_to_uint5_lt prefix)
        (omega arith, tt) in
    let all =
      small_values (header ++ payload)
        (All-append (λ v. v < 2 ^ 5) header payload header_small h) in
    let checked = poly_mod-checksum (header ++ payload) all in
    ap (λ (t : ℕ). t == 0) (ap poly_mod (sym (append_assoc header payload _)) ∙ checked)
