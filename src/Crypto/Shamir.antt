-- ===== src/Crypto/Shamir.antt =====
-- crypto/internal/shamir/shamir.go: a secret is split into shares, byte by byte, over the field of
-- 256 elements. crypto/rand is a parameter: the bytes that rand.Reader has, in their order, which
-- each read shortens and which may run out. An int is its bit pattern, as in Go/Words.

pub mod Multiply
pub mod Laws
pub mod Power
pub mod ByteField
pub mod Shares
pub mod Coordinates
pub mod Recover
pub mod Made
pub mod Threshold
pub mod Checks
pub mod Secrecy
pub mod Progress
pub mod Shuffle
use wallet_sdk.Common.{
  ℕ, zero, suc, ◌+◌, ◌-◌, ◌*◌, ◌/◌, ◌%◌, bit_and, bit_or, bit_xor, ltb, ◌==◌, ◌||◌, if◌then◌else◌,
  Bool, true, false, not, List, [], ◌∷◌, ◌++◌, map, Bytes, length, get_or, take, drop, replicate,
  set, Result, ok, err, guard, map_err, ◌>>=◌, ◌>>◌,
}
use wallet_sdk.Go.Words.{lt_i64}

-- byte(0) - b
abbrev pub negate : ℕ → ℕ
negate b = (256 - b) % 256

-- The rounds of multiply that are left, on its three variables.
unfoldable pub rounds : ℕ → ℕ → ℕ → ℕ → ℕ
rounds zero result left right = result
rounds (suc n) result left right =
    rounds n (bit_xor result (bit_and left (negate (bit_and right 1))))
      (bit_xor (left * 2 % 256) (bit_and 0x1b (negate (left / 128)))) (right / 2)

unfoldable pub multiply : ℕ → ℕ → ℕ
multiply left right = rounds 8 0 left right

-- a &^ mask
abbrev pub clear_mask : ℕ → ℕ → ℕ
clear_mask a mask = bit_and a (255 - mask)

-- An exponent below 2^fuel is used up.
unfoldable pub power_loop : ℕ → ℕ → ℕ → ℕ → ℕ
power_loop zero result value exponent = result
power_loop (suc fuel) result value exponent =
    let mask = negate (bit_and exponent 1) in
    let next =
      power_loop fuel (bit_or (clear_mask result mask) (bit_and (multiply result value) mask))
        (multiply value value) (exponent / 2) in
    if exponent == 0 then result else next

unfoldable pub power : ℕ → ℕ → ℕ
power value exponent = power_loop 16 1 value exponent

unfoldable pub divide : ℕ → ℕ → ℕ
divide value divisor = multiply value (power divisor 254)

-- The result starts from the last coefficient. With no coefficients, where the code's index of the
-- last one panics, this is 0: Split makes as many as the threshold, two at least.
unfoldable pub evaluate : Bytes → ℕ → ℕ
evaluate [] x = 0
evaluate (c ∷ []) x = c
evaluate (c ∷ d ∷ cs) x = bit_xor (multiply (evaluate (d ∷ cs) x) x) c

-- The inner loop of interpolateAtZero at the coordinate x of index i, from index j on: the numerator
-- and the denominator.
unfoldable pub weigh : ℕ → ℕ → ℕ → Bytes → ℕ → ℕ → ℕ × ℕ
weigh i x j [] numerator denominator = (numerator, denominator)
weigh i x j (y ∷ ys) numerator denominator =
    let skipped : ℕ × ℕ = (numerator, denominator) in
    let weighed : ℕ × ℕ = (multiply numerator y, multiply denominator (bit_xor x y)) in
    let next = if i == j then skipped else weighed in weigh i x (suc j) ys next.0 next.1

unfoldable pub interpolate_from : ℕ → Bytes → Bytes → Bytes → ℕ → ℕ
interpolate_from i (x ∷ xs) (v ∷ vs) coordinates result =
    let weight = weigh i x 0 coordinates 1 1 in
    interpolate_from (suc i) xs vs coordinates
      (bit_xor result (multiply v (divide weight.0 weight.1)))
interpolate_from i xs vs coordinates result = result

unfoldable pub interpolate_at_zero : Bytes → Bytes → ℕ
interpolate_at_zero coordinates values = interpolate_from 0 coordinates values coordinates 0

pub data ShamirError : Type 0 where
  empty_secret threshold_range total_range coordinates_unread polynomial_unread : ShamirError
  share_count short_shares lengths_differ bad_coordinate : ShamirError

-- rand.Reader has no more bytes.
pub data ReadError : Type 0 where
  exhausted : ReadError

abbrev pub max_shares : ℕ
max_shares = 255

-- io.ReadFull: the bytes, and those that are left to read.
unfoldable pub read_full : ℕ → Bytes → Result ReadError (Bytes × Bytes)
read_full n source =
    if ltb (length source) n then err exhausted else ok (take n source, drop n source)

unfoldable pub random_index : ℕ → Bytes → Result ReadError (ℕ × Bytes)
random_index limit [] = err exhausted
random_index limit (value ∷ source) =
    let rest = random_index limit source in
    if ltb value (256 - 256 % limit) then ok (value % limit, source) else rest

unfoldable pub swap : ℕ → ℕ → Bytes → Bytes
swap i j pool = set (set pool i (get_or pool j 0)) j (get_or pool i 0)

-- The loop of randomCoordinates from index i down to 1.
unfoldable pub shuffle : ℕ → Bytes → Bytes → Result ReadError (Bytes × Bytes)
shuffle zero pool source = ok (pool, source)
shuffle (suc i) pool source = do
  drawn ← random_index (suc i + 1) source
  shuffle i (swap (suc i) drawn.0 pool) drawn.1

-- n numbers from `first` on
unfoldable pub count_up : ℕ → ℕ → Bytes
count_up first zero = []
count_up first (suc n) = first ∷ count_up (suc first) n

unfoldable pub random_coordinates : ℕ → Bytes → Result ReadError (Bytes × Bytes)
random_coordinates total source = do
  shuffled ← shuffle 254 (count_up 1 255) source
  ok (take total shuffled.0, shuffled.1)

-- What one byte of the secret adds to the shares.
unfoldable pub fill_shares : ℕ → Bytes → Bytes → List Bytes → List Bytes
fill_shares offset coefficients (x ∷ xs) (share ∷ shares) =
    set share offset (evaluate coefficients x) ∷ fill_shares offset coefficients xs shares
fill_shares offset coefficients xs shares = shares

unfoldable pub split_from :
    ℕ → Bytes → ℕ → Bytes → List Bytes → Bytes → Result ShamirError (List Bytes)
split_from offset [] threshold coordinates shares source = ok shares
split_from offset (value ∷ secret) threshold coordinates shares source = do
  drawn ← map_err (λ e. polynomial_unread) (read_full (threshold - 1) source)
  split_from (suc offset) secret threshold coordinates
      (fill_shares offset (value ∷ drawn.0) coordinates shares) drawn.1

unfoldable pub split : Bytes → ℕ → ℕ → Bytes → Result ShamirError (List Bytes)
split secret total threshold source = do
  guard (not (length secret == 0)) empty_secret
  guard (not (lt_i64 threshold 2 || lt_i64 max_shares threshold)) threshold_range
  guard (not (lt_i64 total threshold || lt_i64 max_shares total)) total_range
  drawn ← map_err (λ e. coordinates_unread) (random_coordinates total source)
  split_from 0 secret threshold drawn.0 (map (λ x. replicate (length secret) 0 ++ (x ∷ [])) drawn.0)
      drawn.1

-- seen[coordinate]
unfoldable pub seen_before : ℕ → Bytes → Bool
seen_before x [] = false
seen_before x (y ∷ ys) = x == y || seen_before x ys

-- The first loop of Combine: the coordinates, or what is wrong with a share.
unfoldable pub check_shares : ℕ → Bytes → List Bytes → Result ShamirError Bytes
check_shares share_length seen [] = ok []
check_shares share_length seen (share ∷ shares) = do
  guard (length share == share_length) lengths_differ
  let coordinate = get_or share (share_length - 1) 0
  guard (not (coordinate == 0 || seen_before coordinate seen)) bad_coordinate
  rest ← check_shares share_length (coordinate ∷ seen) shares
  ok (coordinate ∷ rest)

unfoldable pub combine_from : ℕ → ℕ → Bytes → List Bytes → Bytes
combine_from offset zero coordinates shares = []
combine_from offset (suc n) coordinates shares =
    interpolate_at_zero coordinates (map (λ share. get_or share offset 0) shares)
    ∷ combine_from (suc offset) n coordinates shares

unfoldable pub combine : List Bytes → Result ShamirError Bytes
combine shares = do
  guard (not (ltb (length shares) 2 || ltb max_shares (length shares))) share_count
  let share_length = length (get_or shares 0 [])
  guard (not (ltb share_length 2)) short_shares
  coordinates ← check_shares share_length [] shares
  ok (combine_from 0 (share_length - 1) coordinates shares)
