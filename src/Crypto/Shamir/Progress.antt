-- ===== src/Crypto/Shamir/Progress.antt =====
-- crypto/internal/shamir/shamir.go: Split returns shares when enough bytes can be drawn.
use wallet_sdk.Common.{
  ℕ, zero, suc, ◌+◌, ◌-◌, ◌*◌, ◌%◌, ◌<◌, ◌≤◌, ◌≡◌, refl, arith, true, false, not, ◌||◌, ◌==◌,
  Bool-cases, inl, inr, List, [], ◌∷◌, ◌++◌, map, replicate, length, length-drop, Bytes, ltb, leb,
  leb→le, if◌then◌else◌, take, drop, ok,
}
use wallet_sdk.Go.Words.{lt_i64}
use wallet_sdk.Crypto.Shamir.{
  random_index, shuffle, swap, count_up, random_coordinates, read_full, fill_shares, split_from,
  split, max_shares,
}
use wallet_sdk.Crypto.Shamir.Laws.{all_below, all_below-holds}

-- How many bytes there are that no draw rejects.
abbrev pub taken : Bytes → ℕ
taken [] = 0
taken (b ∷ bs) = if ltb b 129 then suc (taken bs) else taken bs

ceilings : all_below (λ n. leb 129 (256 - 256 % suc n)) 255 ≡ true
ceilings = refl

ceiling_least : (limit : ℕ) → 0 < limit → limit < 256 → 129 ≤ 256 - 256 % limit
ceiling_least zero h k = absurd (omega arith)
ceiling_least (suc n) h k =
    leb→le 129 _ (all_below-holds (λ n. leb 129 (256 - 256 % suc n)) 255 ceilings n (omega arith))

taken_le : (bs : Bytes) → taken bs ≤ length bs
taken_le [] = omega arith
taken_le (b ∷ bs) = ground (arith, taken_le bs)

random_index-ok :
    (limit : ℕ) (source : Bytes)
    → 0 < limit
    → limit < 256
    → 0 < taken source
    → (drawn : ℕ × Bytes) × (random_index limit source ≡ ok drawn)
      × (taken source ≤ suc (taken drawn.1))
unfolding random_index
random_index-ok limit [] h k m = absurd (omega arith)
random_index-ok limit (value ∷ source) h k m = elim (Bool-cases (ltb value (256 - 256 % limit))) [
  | inl accepted ↦ ((value % limit, source), rw accepted refl, ground arith)
  | inr rejected ↦
      let least = ceiling_least limit h k in
      let large : ltb value 129 ≡ false = ground arith in
      let (drawn, same, count) = random_index-ok limit source h k (rw large at m) in
      (drawn, rw rejected same, rw large count)
]

shuffle-ok :
    (i : ℕ) (pool source : Bytes)
    → i < 255
    → i ≤ taken source
    → (shuffled : Bytes × Bytes) × (shuffle i pool source ≡ ok shuffled)
      × (taken source ≤ i + taken shuffled.1)
unfolding shuffle
shuffle-ok zero pool source h k = ((pool, source), refl, omega arith)
shuffle-ok (suc i) pool source h k =
    let (drawn, same, count) =
      random_index-ok (suc i + 1) source (omega arith) (omega arith) (omega arith) in
    let (shuffled, rest, total) =
      shuffle-ok i (swap (suc i) drawn.0 pool) drawn.1 (omega arith) (omega arith) in
    (shuffled, rw same rest, omega arith)

split_from-ok :
    (offset : ℕ) (secret : Bytes) (threshold : ℕ) (xs : Bytes) (shares : List Bytes)
    (source : Bytes)
    → length secret * (threshold - 1) ≤ length source
    → (result : List Bytes) × (split_from offset secret threshold xs shares source ≡ ok result)
unfolding split_from read_full
split_from-ok offset [] threshold xs shares source h = (shares, refl)
split_from-ok offset (v ∷ vs) threshold xs shares source h =
    let n = threshold - 1 in
    let parts : suc (length vs) * n ≡ n + length vs * n = grind arith in
    let enough : ltb (length source) n ≡ false = ground (arith, parts) in
    let left : length vs * n ≤ length (drop n source) =
      omega (arith, length-drop n source, parts) in
    let (result, same) =
      split_from-ok (suc offset) vs threshold xs (fill_shares offset (v ∷ take n source) xs shares)
        (drop n source) left in
    (result, rw (read_full, enough) same)

-- Split returns shares of a secret that is not empty, for 2 ≤ threshold ≤ total ≤ 255, from any bytes
-- of which at least 254, and threshold - 1 more for each byte of the secret, are below 129: the draws
-- that are rejected end, and no read is short.
pub split-ok :
    (secret : Bytes) (total threshold : ℕ) (source : Bytes)
    → 0 < length secret
    → 2 ≤ threshold
    → threshold ≤ total
    → total < 256
    → 254 + length secret * (threshold - 1) ≤ taken source
    → (shares : List Bytes) × (split secret total threshold source ≡ ok shares)
unfolding split random_coordinates
split-ok secret total threshold source h two order most enough =
    let (shuffled, drawn, count) =
      shuffle-ok 254 (count_up 1 255) source (omega arith) (omega arith) in
    let room : length secret * (threshold - 1) ≤ length shuffled.1 =
      omega (arith, taken_le shuffled.1) in
    let xs = take total shuffled.0 in
    let (shares, same) =
      split_from-ok 0 secret threshold xs (map (λ x. replicate (length secret) 0 ++ (x ∷ [])) xs)
        shuffled.1 room in
    let nonempty : not (length secret == 0) ≡ true = ground arith in
    let in_range : not (lt_i64 threshold 2 || lt_i64 max_shares threshold) ≡ true = ground arith in
    let ordered : not (lt_i64 total threshold || lt_i64 max_shares total) ≡ true = ground arith in
    (shares, rw (split, nonempty, in_range, ordered, random_coordinates, drawn) same)
