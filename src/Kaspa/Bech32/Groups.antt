-- ===== src/Kaspa/Bech32/Groups.antt =====
-- signing/kaspa/bech32.go: convertBits from groups of five bits undoes convertBits to them.
use wallet_sdk.Common.{
  ℕ, zero, suc, ◌+◌, ◌-◌, ◌*◌, ◌%◌, ◌^◌, ◌<◌, Bool, true, ltb, Bool-cases, inl, inr, ◌≡◌, refl, ap,
  ◌∙◌, arith, [], ◌∷◌, Bytes, length, All, All-append, length-append,
}
use wallet_sdk.Kaspa.Bech32.{
  ConversionType, five_to_eight, eight_to_five, Regroup, finish_bits, convert_bits,
}
use wallet_sdk.Kaspa.Bech32.Bits.{spell, keeps, all_below, eight_to_five_keeps, five_to_eight_keeps}
use wallet_sdk.Kaspa.Bech32.Regroup.{Kept, Tested, regroup-Kept, spell-append}

pub all_below-holds :
    (test : ℕ → Bool) (n : ℕ) → all_below test n ≡ true → (i : ℕ) → i < n → test i ≡ true
all_below-holds test zero h i k = absurd (omega arith)
all_below-holds test (suc n) h i k = ground (arith, all_below-holds test n (ground arith) i)

eight_to_five-Tested : Tested eight_to_five
unfolding Tested
eight_to_five-Tested filled next b low small h =
    all_below-holds (λ b. keeps eight_to_five filled next b) 256
      (all_below-holds (λ next. all_below (λ b. keeps eight_to_five filled next b) 256) (2 ^ filled)
        (all_below-holds
          (λ filled.
            all_below (λ next. all_below (λ b. keeps eight_to_five filled next b) 256) (2 ^ filled))
          5 eight_to_five_keeps filled low)
        next small)
      b h

five_to_eight-Tested : Tested five_to_eight
unfolding Tested
five_to_eight-Tested filled next b low small h =
    all_below-holds (λ b. keeps five_to_eight filled next b) 32
      (all_below-holds (λ next. all_below (λ b. keeps five_to_eight filled next b) 32) (2 ^ filled)
        (all_below-holds
          (λ filled.
            all_below (λ next. all_below (λ b. keeps five_to_eight filled next b) 32) (2 ^ filled))
          8 five_to_eight_keeps filled low)
        next small)
      b h

-- The last group is filled up with zeros.
padded :
    (s next filled : ℕ)
    → 0 < filled
    → filled < 5
    → next < 2 ^ filled
    → (s * 32 + next * 2 ^ (5 - filled) % 256 ≡ (s * 2 ^ filled + next) * 2 ^ (5 - filled))
      × (next * 2 ^ (5 - filled) % 256 < 32)
padded s next zero h k m = absurd (omega arith)
padded s next (suc zero) h k m = (omega arith, omega arith)
padded s next (suc (suc zero)) h k m = (omega arith, omega arith)
padded s next (suc (suc (suc zero))) h k m = (omega arith, omega arith)
padded s next (suc (suc (suc (suc zero)))) h k m = (omega arith, omega arith)
padded s next (suc (suc (suc (suc (suc n))))) h k m = absurd (omega arith)

-- Groups of five bits that spell bytes, with p zero bits behind them.
abbrev Spells : Bytes → Bytes → ℕ → Type 0
Spells bytes groups p =
    (spell 5 0 groups ≡ spell 8 0 bytes * 2 ^ p)
    × (length groups * 5 ≡ length bytes * 8 + p)
    × (p < 5)
    × All (λ g. g < 32) groups

finish_bits-Spells :
    (bytes : Bytes) (state : Regroup)
    → Kept eight_to_five bytes state
    → (p : ℕ) × Spells bytes (finish_bits eight_to_five state) p
unfolding finish_bits Kept
finish_bits-Spells bytes (out, next, filled) (value, count, low, small, digits) =
    elim (Bool-cases (ltb 0 filled)) [
      | inl some_bits ↦
          let (whole, group) = padded (spell 5 0 out) next filled (ground arith) low small in
          (
            5 - filled,
            rw some_bits (
              spell-append 5 0 out _ ∙ whole ∙ ap (λ (t : ℕ). t * 2 ^ (5 - filled)) value,
              omega (arith, length-append out (next * 2 ^ (5 - filled) % 256 ∷ []), count, low),
              ground arith,
              All-append (λ g. g < 32) out (next * 2 ^ (5 - filled) % 256 ∷ []) digits (group, tt),
            ),
          )
      | inr no_bits ↦
          let none : filled ≡ 0 = ground arith in
          (
            0,
            rw no_bits (
              omega (arith, rw none at value, rw none at small),
              omega (arith, count, none),
              omega arith,
              digits,
            ),
          )
    ]

same_top : (x d next p : ℕ) → p < 5 → next < 2 ^ p → x * 2 ^ p + next ≡ d * 2 ^ p → x ≡ d
same_top x d next zero h k e = omega arith
same_top x d next (suc zero) h k e = omega arith
same_top x d next (suc (suc zero)) h k e = omega arith
same_top x d next (suc (suc (suc zero))) h k e = omega arith
same_top x d next (suc (suc (suc (suc zero)))) h k e = omega arith
same_top x d next (suc (suc (suc (suc (suc n))))) h k e = absurd (omega arith)

-- Bytes are known from their number and their count.
spell_inj :
    (xs ys : Bytes) (n m : ℕ)
    → length xs ≡ length ys
    → All (λ x. x < 256) xs
    → All (λ y. y < 256) ys
    → spell 8 n xs ≡ spell 8 m ys
    → (n ≡ m) × (xs ≡ ys)
spell_inj [] [] n m l h k e = (e, refl)
spell_inj [] (y ∷ ys) n m l h k e = absurd (omega arith)
spell_inj (x ∷ xs) [] n m l h k e = absurd (omega arith)
spell_inj (x ∷ xs) (y ∷ ys) n m l (h, hs) (k, ks) e =
    let (tops, rest) = spell_inj xs ys (n * 2 ^ 8 + x) (m * 2 ^ 8 + y) (omega arith) hs ks e in
    let first : x ≡ y = omega arith in (omega arith, λ i. first i ∷ rest i)

start-Kept : (ct : ConversionType) → 0 < ct.to_bits → Kept ct [] ([], 0, 0)
unfolding Kept
start-Kept ct h = (refl, omega arith, h, omega arith, tt)

convert_bits-Spells :
    (bytes : Bytes)
    → All (λ b. b < 256) bytes
    → (p : ℕ) × Spells bytes (convert_bits bytes eight_to_five) p
unfolding convert_bits
convert_bits-Spells bytes h = finish_bits-Spells bytes _ (
    regroup-Kept eight_to_five [] bytes ([], 0, 0) eight_to_five-Tested h
      (start-Kept eight_to_five (omega arith)))

pub convert_bits_lt :
    (bytes : Bytes)
    → All (λ b. b < 256) bytes
    → All (λ g. g < 32) (convert_bits bytes eight_to_five)
convert_bits_lt bytes h = (convert_bits-Spells bytes h).1.3

back :
    (bytes groups : Bytes) (p : ℕ) (state : Regroup)
    → All (λ b. b < 256) bytes
    → Spells bytes groups p
    → Kept five_to_eight groups state
    → finish_bits five_to_eight state ≡ bytes
unfolding finish_bits Kept
back bytes groups p (out, next, filled) h (value, count, low, small)
      (value', count', low', small', digits) =
    let bits : filled ≡ p = omega arith in
    let sizes : length out ≡ length bytes = omega arith in
    let numbers =
      same_top (spell 8 0 out) (spell 8 0 bytes) next p low (rw bits at small')
        (rw bits at (value' ∙ value)) in
    (spell_inj out bytes 0 0 sizes digits h numbers).1

-- Bytes are regrouped into five bits with padding and back without: they are what they were.
pub convert_bits-convert_bits :
    (bytes : Bytes)
    → All (λ b. b < 256) bytes
    → convert_bits (convert_bits bytes eight_to_five) five_to_eight ≡ bytes
unfolding convert_bits
convert_bits-convert_bits bytes h =
    let groups = convert_bits bytes eight_to_five in
    let (p, spells) = convert_bits-Spells bytes h in
    back bytes groups p _ h spells (
      regroup-Kept five_to_eight [] groups ([], 0, 0) five_to_eight-Tested spells.3
        (start-Kept five_to_eight (omega arith)))
