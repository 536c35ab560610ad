-- ===== src/Kaspa/Bech32/Regroup.antt =====
-- signing/kaspa/bech32.go: the loop of convertBits keeps the number that its input spells, and so
-- five-bit groups give back the bytes they are made of.
use mathlib.Core.Path.{subst}
use native.Mathlib.Nat.{mul_assoc}
use wallet_sdk.Common.{
  ℕ, zero, suc, ◌+◌, ◌-◌, ◌*◌, ◌/◌, ◌%◌, ◌^◌, ◌<◌, bit_or, Bool, true, ◌&&◌, ◌==◌, ltb, Bool-cases,
  inl, inr, ==_iff, ltb→lt, ◌≡◌, refl, ap, sym, ◌∙◌, arith, [], ◌∷◌, ◌++◌, Bytes, length, All,
  All-append, length-append, append_assoc, append-nil,
}
use wallet_sdk.Kaspa.Bech32.{ConversionType, to_extract, Regroup, extract, take_bits, regroup}
use wallet_sdk.Kaspa.Bech32.Bits.{spell, spell_shift, pow_sum, keeps, all_digits}

-- What is already regrouped stays in front.
abbrev before : Bytes → Regroup → Regroup
before pre state = (pre ++ state.0, state.1, state.2)

before-extract :
    (ct : ConversionType) (b count : ℕ) (pre : Bytes) (state : Regroup)
    → extract ct b count (before pre state) ≡ before pre (extract ct b count state)
before-extract ct b count pre (out, next, filled) =
    elim (Bool-cases (filled + count == ct.to_bits)) [
      | inl full ↦ rw full (λ i. (
        append_assoc pre out (bit_or (next * 2 ^ count % 256) (b / 2 ^ (8 - count)) ∷ []) i,
        0,
        0,
      ))
      | inr some_room ↦ rw some_room refl
    ]

before-take_bits :
    (fuel : ℕ) (ct : ConversionType) (b remaining : ℕ) (pre : Bytes) (state : Regroup)
    → take_bits fuel ct b remaining (before pre state)
      ≡ before pre (take_bits fuel ct b remaining state)
unfolding take_bits
before-take_bits zero ct b remaining pre state = refl
before-take_bits (suc fuel) ct b remaining pre state = elim (Bool-cases (remaining == 0)) [
  | inl done ↦ rw done refl
  | inr more ↦
      let count = to_extract ct remaining state in
      rw more (
        ap (take_bits fuel ct (b * 2 ^ count % 256) (remaining - count))
          (before-extract ct b count pre state)
        ∙ before-take_bits fuel ct (b * 2 ^ count % 256) (remaining - count) pre
            (extract ct b count state))
]

sum_times : (x y z : ℕ) → (x + y) * z ≡ x * z + y * z
sum_times x y z = grind arith

join_numbers :
    (s e n next b l f filled from d : ℕ)
    → l * f ≡ filled * from
    → e * f + n ≡ next * from + b
    → s * filled + next ≡ d
    → (s * l + e) * f + n ≡ d * from + b
join_numbers s e n next b l f filled from d h k m = omega (
  arith,
  sum_times (s * l) e f,
  mul_assoc s l f,
  ap (λ (t : ℕ). s * t) h,
  mul_assoc s filled from,
  sum_times (s * filled) next from,
  ap (λ (t : ℕ). t * from) m,
  k,
)

pub spell-append :
    (width n : ℕ) (xs ys : Bytes) → spell width n (xs ++ ys) ≡ spell width (spell width n xs) ys
spell-append width n [] ys = refl
spell-append width n (x ∷ xs) ys = spell-append width (n * 2 ^ width + x) xs ys

-- What the loop has made of the bytes so far.
unfoldable pub Kept : ConversionType → Bytes → Regroup → Type 0
Kept ct bytes (out, next, filled) =
    (spell ct.to_bits 0 out * 2 ^ filled + next ≡ spell ct.from_bits 0 bytes)
    × (length out * ct.to_bits + filled ≡ length bytes * ct.from_bits)
    × (filled < ct.to_bits)
    × (next < 2 ^ filled)
    × All (λ d. d < 2 ^ ct.to_bits) out

-- Every byte that fits passes the test.
unfoldable pub Tested : ConversionType → Type 0
Tested ct =
    (filled next b : ℕ)
    → filled < ct.to_bits
    → next < 2 ^ filled
    → b < 2 ^ ct.from_bits
    → keeps ct filled next b ≡ true

both_hold : (a b : Bool) → (a && b) ≡ true → (a ≡ true) × (b ≡ true)
both_hold a b h = (ground arith, ground arith)

all_digits-holds : (bound : ℕ) (ds : Bytes) → all_digits bound ds ≡ true → All (λ d. d < bound) ds
all_digits-holds bound [] h = tt
all_digits-holds bound (d ∷ ds) h =
    let (first, rest) = both_hold (ltb d bound) (all_digits bound ds) h in
    (ltb→lt d bound first, all_digits-holds bound ds rest)

-- What the test says of a byte.
abbrev Passes : ConversionType → ℕ → ℕ → ℕ → Regroup → Type 0
Passes ct filled next b after =
    (spell ct.to_bits 0 after.0 * 2 ^ after.2 + after.1 ≡ next * 2 ^ ct.from_bits + b)
    × (length after.0 * ct.to_bits + after.2 ≡ filled + ct.from_bits)
    × (after.2 < ct.to_bits)
    × (after.1 < 2 ^ after.2)
    × All (λ d. d < 2 ^ ct.to_bits) after.0

abbrev one_byte : ConversionType → ℕ → Regroup → Regroup
one_byte ct b state =
    take_bits ct.from_bits ct (b * 2 ^ (8 - ct.from_bits) % 256) ct.from_bits state

keeps-Passes :
    (ct : ConversionType) (filled next b : ℕ)
    → keeps ct filled next b ≡ true
    → Passes ct filled next b (one_byte ct b ([], next, filled))
keeps-Passes ct filled next b test =
    let after = one_byte ct b ([], next, filled) in
    let (k1, digits) = both_hold _ (all_digits (2 ^ ct.to_bits) after.0) test in
    let (k2, small) = both_hold _ (ltb after.1 (2 ^ after.2)) k1 in
    let (k3, low) = both_hold _ (ltb after.2 ct.to_bits) k2 in
    let (value, count) =
      both_hold _ (length after.0 * ct.to_bits + after.2 == filled + ct.from_bits) k3 in
    (
      (==_iff _ _).0 value,
      (==_iff _ _).0 count,
      ltb→lt _ _ low,
      ltb→lt _ _ small,
      all_digits-holds _ after.0 digits,
    )

-- One byte more.
Kept-before :
    (ct : ConversionType) (bytes : Bytes) (b : ℕ) (out : Bytes) (next filled : ℕ) (after : Regroup)
    → Passes ct filled next b after
    → Kept ct bytes (out, next, filled)
    → Kept ct (bytes ++ b ∷ []) (before out after)
unfolding Kept
Kept-before ct bytes b out next filled (em, next', filled') (value', count', low', small', digits')
      (value, count, low, small, digits) =
    let powers : 2 ^ (length em * ct.to_bits) * 2 ^ filled' ≡ 2 ^ filled * 2 ^ ct.from_bits =
      sym (pow_sum 2 (length em * ct.to_bits) filled')
      ∙ ap (λ (t : ℕ). 2 ^ t) count'
      ∙ pow_sum 2 filled ct.from_bits in
    let spelled : spell ct.to_bits 0 (out ++ em)
        ≡ spell ct.to_bits 0 out * 2 ^ (length em * ct.to_bits) + spell ct.to_bits 0 em =
      spell-append ct.to_bits 0 out em ∙ spell_shift ct.to_bits (spell ct.to_bits 0 out) em in
    let d = spell ct.from_bits 0 bytes in
    (
      ap (λ (t : ℕ). t * 2 ^ filled' + next') spelled
          ∙ join_numbers _ _ next' next b _ (2 ^ filled') (2 ^ filled) (2 ^ ct.from_bits) d powers
              value' value
          ∙ sym (spell-append ct.from_bits 0 bytes (b ∷ [])),
      omega (
        arith,
        ap (λ (t : ℕ). t * ct.to_bits) (length-append out em),
        ap (λ (t : ℕ). t * ct.from_bits) (length-append bytes (b ∷ [])),
        sum_times (length out) (length em) ct.to_bits,
        sum_times (length bytes) 1 ct.from_bits,
        count,
        count',
      ),
      low',
      small',
      All-append (λ d. d < 2 ^ ct.to_bits) out em digits digits',
    )

one_byte-Kept :
    (ct : ConversionType) (bytes : Bytes) (b : ℕ) (state : Regroup)
    → Tested ct
    → b < 2 ^ ct.from_bits
    → Kept ct bytes state
    → Kept ct (bytes ++ b ∷ []) (one_byte ct b state)
unfolding Kept Tested
one_byte-Kept ct bytes b (out, next, filled) tested h kept =
    let passes = keeps-Passes ct filled next b (tested filled next b kept.2 kept.3 h) in
    let moved : one_byte ct b (out, next, filled) ≡ before out (one_byte ct b ([], next, filled)) =
      ap (λ (o : Bytes). one_byte ct b (o, next, filled)) (sym (append-nil out))
      ∙ before-take_bits ct.from_bits ct (b * 2 ^ (8 - ct.from_bits) % 256) ct.from_bits out
          ([], next, filled) in
    subst (Kept ct (bytes ++ b ∷ [])) (sym moved)
      (Kept-before ct bytes b out next filled _ passes kept)

pub regroup-Kept :
    (ct : ConversionType) (bytes more : Bytes) (state : Regroup)
    → Tested ct
    → All (λ b. b < 2 ^ ct.from_bits) more
    → Kept ct bytes state
    → Kept ct (bytes ++ more) (regroup ct more state)
unfolding regroup
regroup-Kept ct bytes [] state tested h kept =
    subst (λ (bs : Bytes). Kept ct bs state) (sym (append-nil bytes)) kept
regroup-Kept ct bytes (b ∷ bs) state tested (h, hs) kept =
    subst (λ (all : Bytes). Kept ct all (regroup ct (b ∷ bs) state))
      (append_assoc bytes (b ∷ []) bs)
      (regroup-Kept ct (bytes ++ b ∷ []) bs (one_byte ct b state) tested hs
        (one_byte-Kept ct bytes b state tested h kept))
