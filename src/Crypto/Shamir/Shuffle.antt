-- ===== src/Crypto/Shamir/Shuffle.antt =====
-- crypto/internal/shamir/shamir.go: the coordinates that Split draws are different.
use mathlib.Core.Path.{subst}
use wallet_sdk.Common.{
  ℕ, zero, suc, ◌+◌, ◌<◌, ◌≡◌, ◌≢◌, refl, ap, sym, ◌∙◌, arith, [], ◌∷◌, length, Bytes, Bool-cases,
  inl, inr, if◌then◌else◌, ◌==◌, get_or, take, set, ok, >>=-eq-ok, ok_inj, length-take,
}
use wallet_sdk.Crypto.Field.Interpolate.{Distinct, Apart}
use wallet_sdk.Crypto.Shamir.{random_index, swap, shuffle, count_up, random_coordinates}
use wallet_sdk.Crypto.Shamir.Coordinates.{random_index_lt, length-set}

-- Different indices have different elements.
Different : Bytes → Type 0
Different xs = (k l : ℕ) → k < length xs → l < length xs → get_or xs k 0 ≡ get_or xs l 0 → k ≡ l

get_or-set_same : (xs : Bytes) (i v : ℕ) → i < length xs → get_or (set xs i v) i 0 ≡ v
get_or-set_same [] i v h = absurd (omega arith)
get_or-set_same (x ∷ xs) zero v h = refl
get_or-set_same (x ∷ xs) (suc i) v h = get_or-set_same xs i v (omega arith)

get_or-set_other : (xs : Bytes) (i k v : ℕ) → k ≢ i → get_or (set xs i v) k 0 ≡ get_or xs k 0
get_or-set_other [] i k v h = refl
get_or-set_other (x ∷ xs) zero zero v h = absurd (h refl)
get_or-set_other (x ∷ xs) zero (suc k) v h = refl
get_or-set_other (x ∷ xs) (suc i) zero v h = refl
get_or-set_other (x ∷ xs) (suc i) (suc k) v h = get_or-set_other xs i k v (λ e. h (ap suc e))

-- The index that an index's element is from.
abbrev exchanged : ℕ → ℕ → ℕ → ℕ
exchanged i j k = if k == j then i else (if k == i then j else k)

get_or-swap :
    (i j : ℕ) (xs : Bytes) (k : ℕ)
    → i < length xs
    → j < length xs
    → get_or (swap i j xs) k 0 ≡ get_or xs (exchanged i j k) 0
unfolding swap
get_or-swap i j xs k hi hj =
    let b = get_or xs j 0 in
    let a = get_or xs i 0 in
    let size : j < length (set xs i b) = omega (arith, length-set xs i b) in
    elim (Bool-cases (k == j)) [
      | inl here ↦
          let same : k ≡ j = ground arith in rw (here, same) (get_or-set_same (set xs i b) j a size)
      | inr away ↦
          let other : k ≢ j = ground arith in
          elim (Bool-cases (k == i)) [
            | inl there ↦
                let same : k ≡ i = ground arith in
                rw (away, there)
                  (get_or-set_other (set xs i b) j k a other ∙ rw same (get_or-set_same xs i b hi))
            | inr apart ↦
                rw (away, apart)
                  (get_or-set_other (set xs i b) j k a other
                    ∙ get_or-set_other xs i k b (ground arith))
          ]
    ]

length-swap : (i j : ℕ) (xs : Bytes) → length (swap i j xs) ≡ length xs
unfolding swap
length-swap i j xs =
    length-set (set xs i (get_or xs j 0)) j (get_or xs i 0) ∙ length-set xs i (get_or xs j 0)

exchanged_lt : (i j k n : ℕ) → i < n → j < n → k < n → exchanged i j k < n
exchanged_lt i j k n hi hj hk = ground arith

exchanged_inj : (i j k l : ℕ) → exchanged i j k ≡ exchanged i j l → k ≡ l
exchanged_inj i j k l e = ground arith

swap-Different :
    (i j : ℕ) (xs : Bytes) → i < length xs → j < length xs → Different xs → Different (swap i j xs)
unfolding Different
swap-Different i j xs hi hj h = λ k l hk hl e. exchanged_inj i j k l (
    h (exchanged i j k) (exchanged i j l)
      (exchanged_lt i j k (length xs) hi hj (omega (arith, length-swap i j xs)))
      (exchanged_lt i j l (length xs) hi hj (omega (arith, length-swap i j xs)))
      (sym (get_or-swap i j xs k hi hj) ∙ e ∙ get_or-swap i j xs l hi hj))

shuffle-Different :
    (i : ℕ) (pool source : Bytes) {shuffled : Bytes × Bytes}
    → i < length pool
    → Different pool
    → shuffle i pool source ≡ ok shuffled
    → Different shuffled.0
unfolding shuffle
shuffle-Different zero pool source h d e = subst (λ (s : Bytes × Bytes). Different s.0) (ok_inj e) d
shuffle-Different (suc i) pool source h d e =
    let (drawn, first, rest) = >>=-eq-ok (random_index (suc i + 1) source) _ e in
    let small = random_index_lt (suc i + 1) source (omega arith) first in
    shuffle-Different i (swap (suc i) drawn.0 pool) drawn.1
      (omega (arith, length-swap (suc i) drawn.0 pool))
      (swap-Different (suc i) drawn.0 pool h (omega arith) d) rest

shuffle-length :
    (i : ℕ) (pool source : Bytes) {shuffled : Bytes × Bytes}
    → shuffle i pool source ≡ ok shuffled
    → length shuffled.0 ≡ length pool
unfolding shuffle
shuffle-length zero pool source e =
    subst (λ (s : Bytes × Bytes). length s.0 ≡ length pool) (ok_inj e) refl
shuffle-length (suc i) pool source e =
    let (drawn, first, rest) = >>=-eq-ok (random_index (suc i + 1) source) _ e in
    shuffle-length i (swap (suc i) drawn.0 pool) drawn.1 rest ∙ length-swap (suc i) drawn.0 pool

length-count_up : (first n : ℕ) → length (count_up first n) ≡ n
unfolding count_up
length-count_up first zero = refl
length-count_up first (suc n) = ap suc (length-count_up (suc first) n)

get_or-count_up : (first n k : ℕ) → k < n → get_or (count_up first n) k 0 ≡ first + k
unfolding count_up
get_or-count_up first zero k h = absurd (omega arith)
get_or-count_up first (suc n) zero h = omega arith
get_or-count_up first (suc n) (suc k) h =
    omega (arith, get_or-count_up (suc first) n k (omega arith))

count_up-Different : (first n : ℕ) → Different (count_up first n)
unfolding Different
count_up-Different first n = λ k l hk hl e. omega (
  arith,
  get_or-count_up first n k (omega (arith, length-count_up first n)),
  get_or-count_up first n l (omega (arith, length-count_up first n)),
)

get_or→Apart : (x : ℕ) (xs : Bytes) → ((l : ℕ) → l < length xs → x ≢ get_or xs l 0) → Apart x xs
get_or→Apart x [] h = tt
get_or→Apart x (y ∷ ys) h = (h 0 (omega arith), get_or→Apart x ys (λ l k. h (suc l) (omega arith)))

Different→Distinct : (xs : Bytes) → Different xs → Distinct xs
unfolding Different
Different→Distinct [] h = tt
Different→Distinct (x ∷ xs) h = (
  get_or→Apart x xs (λ l k e. absurd (omega (arith, h 0 (suc l) (omega arith) (omega arith) e))),
  Different→Distinct xs
      (λ k l hk hl e. omega (arith, h (suc k) (suc l) (omega arith) (omega arith) e)),
)

Apart-take : (n x : ℕ) (xs : Bytes) → Apart x xs → Apart x (take n xs)
Apart-take zero x xs h = tt
Apart-take (suc n) x [] h = tt
Apart-take (suc n) x (y ∷ ys) (h, hs) = (h, Apart-take n x ys hs)

Distinct-take : (n : ℕ) (xs : Bytes) → Distinct xs → Distinct (take n xs)
Distinct-take zero xs h = tt
Distinct-take (suc n) [] h = tt
Distinct-take (suc n) (x ∷ xs) (h, hs) = (Apart-take n x xs h, Distinct-take n xs hs)

pub random_coordinates-Distinct :
    (total : ℕ) (source : Bytes) {drawn : Bytes × Bytes}
    → total < 256
    → random_coordinates total source ≡ ok drawn
    → Distinct drawn.0 × (length drawn.0 ≡ total)
unfolding random_coordinates
random_coordinates-Distinct total source small e =
    let (shuffled, first, rest) = >>=-eq-ok (shuffle 254 (count_up 1 255) source) _ e in
    let count = shuffle-length 254 (count_up 1 255) source first ∙ length-count_up 1 255 in
    let apart = Different→Distinct shuffled.0 (
      shuffle-Different 254 (count_up 1 255) source (omega (arith, length-count_up 1 255))
        (count_up-Different 1 255) first) in
    subst (λ (d : Bytes × Bytes). Distinct d.0 × (length d.0 ≡ total)) (ok_inj rest)
      (Distinct-take total shuffled.0 apart, omega (arith, length-take total shuffled.0, count))
