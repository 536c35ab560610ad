-- ===== src/Kaspa/Bech32/Sum.antt =====
-- signing/kaspa/bech32.go: the steps of polyMod, and what digits put in the place of zeros change.
use wallet_sdk.Common.{
  ℕ, suc, ◌+◌, ◌*◌, ◌/◌, ◌%◌, ◌^◌, ◌<◌, bit_and, bit_xor, Bool-cases, inl, inr, ◌==◌, ◌≡◌, refl, ap,
  sym, ◌∙◌, arith, [], ◌∷◌, ◌++◌, Bytes, length, replicate, All,
}
use wallet_sdk.Common.Xor.{
  bit_xor_comm, bit_xor_assoc, bit_xor_lt, bit_xor_split, zero-bit_xor, bit_xor-zero,
}
use wallet_sdk.Common.Mask.{bit_and_mask}
use wallet_sdk.Kaspa.Bech32.{apply_generators, generators, poly_step, poly_loop, checksum_digits}

-- The generators are added by an exclusive or.
apply_generators-bit_xor :
    (i : ℕ) (gs : Bytes) (top a b : ℕ)
    → apply_generators i gs top (bit_xor a b) ≡ bit_xor (apply_generators i gs top a) b
unfolding apply_generators
apply_generators-bit_xor i [] top a b = refl
apply_generators-bit_xor i (g ∷ gs) top a b = elim (Bool-cases (bit_and (top / 2 ^ i) 1 == 1)) [
  | inl used ↦
      let moved : bit_xor (bit_xor a b) g ≡ bit_xor (bit_xor a g) b =
        bit_xor_assoc a b g ∙ ap (bit_xor a) (bit_xor_comm b g) ∙ sym (bit_xor_assoc a g b) in
      rw (used, moved) (apply_generators-bit_xor (suc i) gs top (bit_xor a g) b)
  | inr unused ↦ rw unused (apply_generators-bit_xor (suc i) gs top a b)
]

apply_generators_lt :
    (i : ℕ) (gs : Bytes) (top a : ℕ)
    → All (λ g. g < 2 ^ 40) gs
    → a < 2 ^ 40
    → apply_generators i gs top a < 2 ^ 40
unfolding apply_generators
apply_generators_lt i [] top a h k = k
apply_generators_lt i (g ∷ gs) top a (h, hs) k = elim (Bool-cases (bit_and (top / 2 ^ i) 1 == 1)) [
  | inl used ↦ rw used (apply_generators_lt (suc i) gs top (bit_xor a g) hs (bit_xor_lt 40 a g k h))
  | inr unused ↦ rw unused (apply_generators_lt (suc i) gs top a hs k)
]

low_35 : (a : ℕ) → bit_and a 0x07ffffffff ≡ a % 2 ^ 35
low_35 a =
    let whole : a / 2 ^ 35 * 2 ^ 35 + a % 2 ^ 35 ≡ a = omega arith in
    rw whole at (bit_and_mask 35 (a / 2 ^ 35) (a % 2 ^ 35) (omega arith))

-- One step from the top digits and the rest of a checksum.
step_parts :
    (top low value : ℕ)
    → top < 2 ^ 5
    → low < 2 ^ 35
    → poly_step (top * 2 ^ 35 + low) value
      ≡ bit_xor (apply_generators 0 generators top (low * 2 ^ 5)) value
unfolding poly_step
step_parts top low value h k =
    let high : (top * 2 ^ 35 + low) / 2 ^ 35 ≡ top = omega arith in
    let rest : bit_and (top * 2 ^ 35 + low) 0x07ffffffff * 2 ^ 5 % 2 ^ 64 ≡ low * 2 ^ 5 =
      omega (arith, low_35 (top * 2 ^ 35 + low)) in
    rw (high, rest) (apply_generators-bit_xor 0 generators top (low * 2 ^ 5) value)

poly_step_lt : (s v : ℕ) → v < 2 ^ 40 → poly_step s v < 2 ^ 40
unfolding poly_step
poly_step_lt s v h =
    apply_generators_lt 0 generators (s / 2 ^ 35) _
      (omega arith, (omega arith, (omega arith, (omega arith, (omega arith, tt)))))
      (bit_xor_lt 40 _ v (omega (arith, low_35 s)) h)

xor_times_32 : (a b : ℕ) → bit_xor a b * 2 ^ 5 ≡ bit_xor (a * 2 ^ 5) (b * 2 ^ 5)
xor_times_32 a b =
    let left : a * 2 ^ 5 + 0 ≡ a * 2 ^ 5 = omega arith in
    let right : b * 2 ^ 5 + 0 ≡ b * 2 ^ 5 = omega arith in
    omega (
      arith,
      rw (left, right) at (bit_xor_split 5 a b 0 0 (omega arith) (omega arith)),
      zero-bit_xor 0,
    )

next_digit : (e v : ℕ) → v < 2 ^ 5 → bit_xor (e * 2 ^ 5) v ≡ e * 2 ^ 5 + v
next_digit e v h =
    let left : e * 2 ^ 5 + 0 ≡ e * 2 ^ 5 = omega arith in
    let right : 0 * 2 ^ 5 + v ≡ v = omega arith in
    omega (
      arith,
      rw (left, right, bit_xor-zero e, zero-bit_xor v) at (bit_xor_split 5 e 0 0 v (omega arith) h),
    )

-- What is in the low digits of a checksum moves on by a digit.
step_shift :
    (s e v : ℕ)
    → s < 2 ^ 40
    → e < 2 ^ 35
    → v < 2 ^ 5
    → poly_step (bit_xor s e) v ≡ bit_xor (poly_step s 0) (e * 2 ^ 5 + v)
step_shift s e v hs he hv =
    let top = s / 2 ^ 35 in
    let low = s % 2 ^ 35 in
    let whole : top * 2 ^ 35 + low ≡ s = omega arith in
    let none : 0 * 2 ^ 35 + e ≡ e = omega arith in
    let split : bit_xor s e ≡ top * 2 ^ 35 + bit_xor low e =
      rw (whole, none, bit_xor-zero top) at (bit_xor_split 35 top 0 low e (omega arith) he) in
    let x = apply_generators 0 generators top (low * 2 ^ 5) in
    let left : poly_step (bit_xor s e) v ≡ bit_xor (bit_xor x (e * 2 ^ 5)) v =
      ap (λ (t : ℕ). poly_step t v) split
      ∙ step_parts top (bit_xor low e) v (omega arith) (bit_xor_lt 35 low e (omega arith) he)
      ∙ ap (λ (t : ℕ). bit_xor (apply_generators 0 generators top t) v) (xor_times_32 low e)
      ∙ ap (λ (t : ℕ). bit_xor t v)
          (apply_generators-bit_xor 0 generators top (low * 2 ^ 5) (e * 2 ^ 5)) in
    let right : poly_step s 0 ≡ x =
      ap (λ (t : ℕ). poly_step t 0) (sym whole)
      ∙ step_parts top low 0 (omega arith) (omega arith)
      ∙ bit_xor-zero x in
    left
    ∙ bit_xor_assoc x (e * 2 ^ 5) v
    ∙ ap (bit_xor x) (next_digit e v hv)
    ∙ ap (λ (t : ℕ). bit_xor t (e * 2 ^ 5 + v)) (sym right)

-- A number with digits of five bits put after it, and that it stays below 2^40.
abbrev pub number : ℕ → Bytes → ℕ
number e [] = e
number e (v ∷ vs) = number (e * 2 ^ 5 + v) vs

abbrev pub Fits : ℕ → Bytes → Type 0
Fits e [] = Unit {0}
Fits e (v ∷ vs) = (e < 2 ^ 35) × (v < 2 ^ 5) × Fits (e * 2 ^ 5 + v) vs

pub poly_loop-number :
    (vs : Bytes) (s e : ℕ)
    → s < 2 ^ 40
    → Fits e vs
    → poly_loop (bit_xor s e) vs ≡ bit_xor (poly_loop s (replicate (length vs) 0)) (number e vs)
unfolding poly_loop
poly_loop-number [] s e h fit = refl
poly_loop-number (v ∷ vs) s e h (he, hv, fit) =
    ap (λ (t : ℕ). poly_loop t vs) (step_shift s e v h he hv)
    ∙ poly_loop-number vs (poly_step s 0) (e * 2 ^ 5 + v) (poly_step_lt s 0 (omega arith)) fit

pub poly_loop-append :
    (s : ℕ) (xs ys : Bytes) → poly_loop s (xs ++ ys) ≡ poly_loop (poly_loop s xs) ys
unfolding poly_loop
poly_loop-append s [] ys = refl
poly_loop-append s (x ∷ xs) ys = poly_loop-append (poly_step s x) xs ys

pub poly_loop_lt :
    (s : ℕ) (vs : Bytes) → s < 2 ^ 40 → All (λ v. v < 2 ^ 40) vs → poly_loop s vs < 2 ^ 40
unfolding poly_loop
poly_loop_lt s [] h k = h
poly_loop_lt s (v ∷ vs) h (k, ks) = poly_loop_lt (poly_step s v) vs (poly_step_lt s v k) ks

pub low_5 : (a : ℕ) → bit_and a 31 ≡ a % 2 ^ 5
low_5 a =
    let whole : a / 2 ^ 5 * 2 ^ 5 + a % 2 ^ 5 ≡ a = omega arith in
    rw whole at (bit_and_mask 5 (a / 2 ^ 5) (a % 2 ^ 5) (omega arith))

pub digits_number : (c : ℕ) → c < 2 ^ 40 → number 0 (checksum_digits 8 c) ≡ c
unfolding checksum_digits
digits_number c h = omega (
  arith,
  low_5 (c / 2 ^ 0),
  low_5 (c / 2 ^ 5),
  low_5 (c / 2 ^ 10),
  low_5 (c / 2 ^ 15),
  low_5 (c / 2 ^ 20),
  low_5 (c / 2 ^ 25),
  low_5 (c / 2 ^ 30),
  low_5 (c / 2 ^ 35),
)
