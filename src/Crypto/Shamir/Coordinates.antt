-- ===== src/Crypto/Shamir/Coordinates.antt =====
-- crypto/internal/shamir/shamir.go: what randomCoordinates draws.
use wallet_sdk.Common.{
  ℕ, zero, suc, ◌+◌, ◌-◌, ◌%◌, ◌<◌, ◌≤◌, ◌≡◌, refl, ap, sym, ◌∙◌, arith, [], ◌∷◌, length, All,
  Bytes, get_or, take, set, ok, >>=-eq-ok, ok_inj, ok-err, ltb, Bool-cases, inl, inr,
}
use mathlib.Core.Path.{subst}
use wallet_sdk.Crypto.Shamir.Shares.{AllBytes}
use wallet_sdk.Crypto.Shamir.{random_index, swap, shuffle, count_up, random_coordinates}

pub random_index_lt :
    (limit : ℕ) (source : Bytes) {drawn : ℕ × Bytes}
    → 0 < limit
    → random_index limit source ≡ ok drawn
    → drawn.0 < limit
unfolding random_index
random_index_lt limit [] h e = absurd (ok-err (sym e))
random_index_lt limit (value ∷ source) h e = elim (Bool-cases (ltb value (256 - 256 % limit))) [
  | inl below ↦
      let same = ok_inj (rw (random_index, below) at e) in
      omega (arith, ap (λ (d : ℕ × Bytes). d.0) same)
  | inr above ↦ random_index_lt limit source h (rw (random_index, above) at e)
]

pub length-set : (xs : Bytes) (i v : ℕ) → length (set xs i v) ≡ length xs
length-set [] i v = refl
length-set (x ∷ xs) zero v = refl
length-set (x ∷ xs) (suc i) v = ap suc (length-set xs i v)

module _ (P : ℕ → Type 0) where
  pub All-get_or : (xs : Bytes) (i d : ℕ) → All P xs → i < length xs → P (get_or xs i d)
  All-get_or [] i d h k = absurd (omega arith)
  All-get_or (x ∷ xs) zero d (h, hs) k = h
  All-get_or (x ∷ xs) (suc i) d (h, hs) k = All-get_or xs i d hs (omega arith)

  All-set : (xs : Bytes) (i v : ℕ) → All P xs → P v → All P (set xs i v)
  All-set [] i v h p = tt
  All-set (x ∷ xs) zero v (h, hs) p = (p, hs)
  All-set (x ∷ xs) (suc i) v (h, hs) p = (h, All-set xs i v hs p)

  pub All-take : (n : ℕ) (xs : Bytes) → All P xs → All P (take n xs)
  All-take zero xs h = tt
  All-take (suc n) [] h = tt
  All-take (suc n) (x ∷ xs) (h, hs) = (h, All-take n xs hs)

  shuffle-All :
      (i : ℕ) (pool source : Bytes) {shuffled : Bytes × Bytes}
      → i < length pool
      → All P pool
      → shuffle i pool source ≡ ok shuffled
      → All P shuffled.0 × (length shuffled.0 ≡ length pool)
  unfolding shuffle swap
  shuffle-All zero pool source h p e =
      let same = ok_inj e in
      subst (λ (s : Bytes × Bytes). All P s.0 × (length s.0 ≡ length pool)) same (p, refl)
  shuffle-All (suc i) pool source h p e =
      let (drawn, first, rest) = >>=-eq-ok (random_index (suc i + 1) source) _ e in
      let small = random_index_lt (suc i + 1) source (omega arith) first in
      let a = get_or pool (suc i) 0 in
      let b = get_or pool drawn.0 0 in
      let inner = All-set pool (suc i) b p (All-get_or pool drawn.0 0 p (omega arith)) in
      let whole = All-set (set pool (suc i) b) drawn.0 a inner (All-get_or pool (suc i) 0 p h) in
      let size = length-set (set pool (suc i) b) drawn.0 a ∙ length-set pool (suc i) b in
      let (all, same) =
        shuffle-All i (swap (suc i) drawn.0 pool) drawn.1 (omega (arith, size)) whole rest in
      (all, same ∙ size)

abbrev pub Coordinate : ℕ → Type 0
Coordinate x = (0 < x) × (x < 256)

count_up-Coordinate :
    (first n : ℕ) → 0 < first → first + n ≤ 256 → All Coordinate (count_up first n)
unfolding count_up
count_up-Coordinate first zero h k = tt
count_up-Coordinate first (suc n) h k =
    ((h, omega arith), count_up-Coordinate (suc first) n (omega arith) (omega arith))

random_index-AllBytes :
    (limit : ℕ) (source : Bytes) {drawn : ℕ × Bytes}
    → random_index limit source ≡ ok drawn
    → AllBytes source
    → AllBytes drawn.1
unfolding random_index
random_index-AllBytes limit [] e b = absurd (ok-err (sym e))
random_index-AllBytes limit (value ∷ source) e (b, bs) =
    elim (Bool-cases (ltb value (256 - 256 % limit))) [
      | inl below ↦
          subst (λ (d : ℕ × Bytes). AllBytes d.1) (ok_inj (rw (random_index, below) at e)) bs
      | inr above ↦ random_index-AllBytes limit source (rw (random_index, above) at e) bs
    ]

shuffle-AllBytes :
    (i : ℕ) (pool source : Bytes) {shuffled : Bytes × Bytes}
    → shuffle i pool source ≡ ok shuffled
    → AllBytes source
    → AllBytes shuffled.1
unfolding shuffle
shuffle-AllBytes zero pool source e b = subst (λ (s : Bytes × Bytes). AllBytes s.1) (ok_inj e) b
shuffle-AllBytes (suc i) pool source e b =
    let (drawn, first, rest) = >>=-eq-ok (random_index (suc i + 1) source) _ e in
    shuffle-AllBytes i _ drawn.1 rest (random_index-AllBytes (suc i + 1) source first b)

-- The coordinates are 1 to 255, and what is left to read is bytes.
pub random_coordinates-eq-ok :
    (total : ℕ) (source : Bytes) {drawn : Bytes × Bytes}
    → random_coordinates total source ≡ ok drawn
    → AllBytes source
    → All Coordinate drawn.0 × AllBytes drawn.1
unfolding random_coordinates count_up
random_coordinates-eq-ok total source e b =
    let (shuffled, first, rest) = >>=-eq-ok (shuffle 254 (count_up 1 255) source) _ e in
    let (all, same) =
      shuffle-All Coordinate 254 (count_up 1 255) source (omega arith)
        (count_up-Coordinate 1 255 (omega arith) (omega arith)) first in
    subst (λ (d : Bytes × Bytes). All Coordinate d.0 × AllBytes d.1) (ok_inj rest)
      (All-take Coordinate total shuffled.0 all, shuffle-AllBytes 254 _ source first b)
