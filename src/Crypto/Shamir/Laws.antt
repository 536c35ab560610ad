-- ===== src/Crypto/Shamir/Laws.antt =====
-- crypto/internal/shamir/shamir.go: the bytes with the code's multiply are a field. An identity
-- between additive functions is checked at the powers of two.
use wallet_sdk.Common.{
  ℕ, zero, suc, ◌+◌, ◌-◌, ◌*◌, ◌^◌, ◌<◌, ◌≤◌, bit_xor, ◌==◌, ◌&&◌, Bool, true, ◌≡◌, refl, ap, sym,
  ◌∙◌, arith, ==_iff, inl, inr, Bool-cases, ltb, ltb→lt, ltb→le, ◌≢◌,
}
use native.Mathlib.Nat.{pow-suc}
use wallet_sdk.Common.Xor.{bit_xor_self, bit_xor_split, zero-bit_xor}
use wallet_sdk.Crypto.Shamir.{multiply, rounds, power, power_loop, divide}
use wallet_sdk.Crypto.Shamir.Multiply.{multiply_lt, multiply-bit_xor, multiply-bit_xor_right}

abbrev pub all_below : (ℕ → Bool) → ℕ → Bool
all_below test zero = true
all_below test (suc n) = test n && all_below test n

pub all_below-holds :
    (test : ℕ → Bool) (n : ℕ) → all_below test n ≡ true → (i : ℕ) → i < n → test i ≡ true
all_below-holds test zero e i h = absurd (omega arith)
all_below-holds test (suc n) e i h = ground (arith, all_below-holds test n (ground arith) i)

Additive : (ℕ → ℕ) → Type 0
Additive f = (a b : ℕ) → a < 256 → b < 256 → f (bit_xor a b) ≡ bit_xor (f a) (f b)

Additive-zero : (f : ℕ → ℕ) → Additive f → f 0 ≡ 0
unfolding Additive
Additive-zero f additive = additive 0 0 (omega arith) (omega arith) ∙ bit_xor_self (f 0)

-- Two additive functions that agree at the powers of two agree.
Additive-agree_below :
    (f g : ℕ → ℕ)
    → Additive f
    → Additive g
    → ((k : ℕ) → k < 8 → f (2 ^ k) ≡ g (2 ^ k))
    → (n : ℕ) → n ≤ 8
    → 2 ^ n ≤ 256
    → (a : ℕ) → a < 2 ^ n
    → f a ≡ g a
unfolding Additive
Additive-agree_below f g hf hg agree zero m p a h =
    let none : a ≡ 0 = omega arith in rw none (Additive-zero f hf ∙ sym (Additive-zero g hg))
Additive-agree_below f g hf hg agree (suc n) m p a h =
    let below = Additive-agree_below f g hf hg agree n (omega arith) (omega (arith, pow-suc 2 n)) in
    elim (Bool-cases (ltb a (2 ^ n))) [
      | inl e ↦ below a (ltb→lt a (2 ^ n) e)
      | inr e ↦
          let r = a - 2 ^ n in
          let enough : 2 ^ n ≤ a = ltb→le a (2 ^ n) e in
          let small : r < 2 ^ n = omega (arith, pow-suc 2 n) in
          let top : 2 ^ n < 256 = omega (arith, pow-suc 2 n) in
          let left : 1 * 2 ^ n + 0 ≡ 2 ^ n = omega arith in
          let right : 0 * 2 ^ n + r ≡ r = omega arith in
          let parts =
            rw (left, right, zero-bit_xor r) at (bit_xor_split n 1 0 0 r (omega arith) small) in
          let whole : a ≡ bit_xor (2 ^ n) r = omega (arith, parts) in
          rw
            (
              whole,
              hf (2 ^ n) r top (omega arith),
              hg (2 ^ n) r top (omega arith),
              agree n (omega arith),
              below r small,
            )
            refl
    ]

Additive-agree :
    (f g : ℕ → ℕ)
    → Additive f
    → Additive g
    → ((k : ℕ) → k < 8 → f (2 ^ k) ≡ g (2 ^ k))
    → (a : ℕ) → a < 256
    → f a ≡ g a
Additive-agree f g hf hg agree a h =
    Additive-agree_below f g hf hg agree 8 (omega arith) (omega arith) a h

power_of_two_lt : (k : ℕ) → k < 8 → 2 ^ k < 256
power_of_two_lt k h = ltb→lt _ 256 (all_below-holds (λ k. ltb (2 ^ k) 256) 8 refl k h)

multiply_comm_powers :
    all_below (λ i. all_below (λ j. multiply (2 ^ i) (2 ^ j) == multiply (2 ^ j) (2 ^ i)) 8) 8
    ≡ true
unfolding multiply rounds
multiply_comm_powers = refl

multiply-Additive : (b : ℕ) → b < 256 → Additive (λ a. multiply a b)
unfolding Additive
multiply-Additive b h = λ x y p q. multiply-bit_xor x y b p q h

multiply-Additive_right : (a : ℕ) → a < 256 → Additive (λ b. multiply a b)
unfolding Additive
multiply-Additive_right a h = λ x y p q. multiply-bit_xor_right a x y h p q

pub multiply_comm : (a b : ℕ) → a < 256 → b < 256 → multiply a b ≡ multiply b a
multiply_comm a b h k =
    Additive-agree (λ x. multiply x b) (λ x. multiply b x) (multiply-Additive b k)
      (multiply-Additive_right b k)
      (λ i p.
        let small = power_of_two_lt i p in
        Additive-agree (λ y. multiply (2 ^ i) y) (λ y. multiply y (2 ^ i))
          (multiply-Additive_right (2 ^ i) small) (multiply-Additive (2 ^ i) small)
          (λ j q. (==_iff _ _).0 (
            all_below-holds (λ j. multiply (2 ^ i) (2 ^ j) == multiply (2 ^ j) (2 ^ i)) 8
              (all_below-holds
                (λ i. all_below (λ j. multiply (2 ^ i) (2 ^ j) == multiply (2 ^ j) (2 ^ i)) 8) 8
                multiply_comm_powers i p)
              j q))
          b k)
      a h

Additive-after :
    (g f : ℕ → ℕ)
    → Additive g
    → Additive f
    → ((a : ℕ) → a < 256 → f a < 256)
    → Additive (λ a. g (f a))
unfolding Additive
Additive-after g f hg hf small =
    λ a b h k. ap g (hf a b h k) ∙ hg (f a) (f b) (small a h) (small b k)

abbrev assoc_test : ℕ → ℕ → ℕ → Bool
assoc_test i j k =
    multiply (multiply (2 ^ i) (2 ^ j)) (2 ^ k) == multiply (2 ^ i) (multiply (2 ^ j) (2 ^ k))

multiply_assoc_powers :
    all_below (λ i. all_below (λ j. all_below (λ k. assoc_test i j k) 8) 8) 8 ≡ true
unfolding multiply rounds
multiply_assoc_powers = refl

multiply_assoc_two :
    (i j c : ℕ)
    → i < 8
    → j < 8
    → c < 256
    → multiply (multiply (2 ^ i) (2 ^ j)) c ≡ multiply (2 ^ i) (multiply (2 ^ j) c)
multiply_assoc_two i j c p q l =
    let a = power_of_two_lt i p in
    let b = power_of_two_lt j q in
    Additive-agree (λ z. multiply (multiply (2 ^ i) (2 ^ j)) z)
      (λ z. multiply (2 ^ i) (multiply (2 ^ j) z)) (multiply-Additive_right _ (multiply_lt _ _ a b))
      (Additive-after _ _ (multiply-Additive_right _ a) (multiply-Additive_right _ b)
        (λ z h. multiply_lt _ z b h))
      (λ k r. (==_iff _ _).0 (
        all_below-holds (λ k. assoc_test i j k) 8
          (all_below-holds (λ j. all_below (λ k. assoc_test i j k) 8) 8
            (all_below-holds (λ i. all_below (λ j. all_below (λ k. assoc_test i j k) 8) 8) 8
              multiply_assoc_powers i p)
            j q)
          k r))
      c l

multiply_assoc_one :
    (i b c : ℕ)
    → i < 8
    → b < 256
    → c < 256
    → multiply (multiply (2 ^ i) b) c ≡ multiply (2 ^ i) (multiply b c)
multiply_assoc_one i b c p k l =
    let a = power_of_two_lt i p in
    Additive-agree (λ y. multiply (multiply (2 ^ i) y) c) (λ y. multiply (2 ^ i) (multiply y c))
      (Additive-after _ _ (multiply-Additive c l) (multiply-Additive_right _ a)
        (λ y h. multiply_lt _ y a h))
      (Additive-after _ _ (multiply-Additive_right _ a) (multiply-Additive c l)
        (λ y h. multiply_lt y c h l))
      (λ j q. multiply_assoc_two i j c p q l) b k

pub multiply_assoc :
    (a b c : ℕ)
    → a < 256
    → b < 256
    → c < 256
    → multiply (multiply a b) c ≡ multiply a (multiply b c)
multiply_assoc a b c h k l =
    Additive-agree (λ x. multiply (multiply x b) c) (λ x. multiply x (multiply b c))
      (Additive-after _ _ (multiply-Additive c l) (multiply-Additive b k)
        (λ x r. multiply_lt x b r k))
      (multiply-Additive _ (multiply_lt b c k l)) (λ i p. multiply_assoc_one i b c p k l) a h

one_multiply_table : all_below (λ a. multiply 1 a == a) 256 ≡ true
unfolding multiply rounds
one_multiply_table = refl

pub one_multiply : (a : ℕ) → a < 256 → multiply 1 a ≡ a
one_multiply a h =
    (==_iff _ _).0 (all_below-holds (λ a. multiply 1 a == a) 256 one_multiply_table a h)

inverse_table : all_below (λ a. multiply (suc a) (power (suc a) 254) == 1) 255 ≡ true
unfolding multiply rounds power power_loop
inverse_table = refl

power_lt_table : all_below (λ a. ltb (power a 254) 256) 256 ≡ true
unfolding multiply rounds power power_loop
power_lt_table = refl

pub power_lt : (a : ℕ) → a < 256 → power a 254 < 256
power_lt a h = ltb→lt _ 256 (all_below-holds (λ a. ltb (power a 254) 256) 256 power_lt_table a h)

pub multiply-power : (a : ℕ) → a < 256 → a ≢ 0 → multiply a (power a 254) ≡ 1
multiply-power zero h k = absurd (k refl)
multiply-power (suc a) h k = (==_iff _ _).0 (
    all_below-holds (λ a. multiply (suc a) (power (suc a) 254) == 1) 255 inverse_table a
      (omega arith))

-- A byte divided by a byte that is not 0, and multiplied by it again, is the byte.
pub divide-multiply : (a b : ℕ) → a < 256 → b < 256 → b ≢ 0 → multiply (divide a b) b ≡ a
unfolding divide
divide-multiply a b h k nonzero =
    let c = power b 254 in
    let small = power_lt b k in
    multiply_assoc a c b h small k
    ∙ ap (multiply a) (multiply_comm c b small k ∙ multiply-power b k nonzero)
    ∙ multiply_comm a 1 h (omega arith)
    ∙ one_multiply a h
