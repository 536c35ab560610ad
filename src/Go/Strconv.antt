-- ===== src/Go/Strconv.antt =====
-- strconv.ParseUint(s, 10, 64), strconv.ParseInt(s, 10, 64) and strconv.FormatUint(v, 10).
pub mod Laws
use wallet_sdk.Common.{
  ℕ, zero, suc, ◌+◌, ◌-◌, ◌*◌, ◌/◌, ◌%◌, ◌^◌, ◌≤◌, ◌<◌, ◌≡◌, refl, arith, Bool, true, false, ◌&&◌,
  ◌||◌, not, Option, none, some, List, [], ◌∷◌, ◌++◌, ltb, leb, ◌==◌, if◌then◌else◌, Bytes, codes,
}

pub data NumError : Type 0 where
  syntax range : NumError

abbrev pub max_u64 : ℕ
max_u64 = 2 ^ 64 - 1

abbrev pub is_digit : ℕ → Bool
is_digit c = leb b'0' c && leb c b'9'

-- The loop of ParseUint: a value comes back beside the error, too. The cutoff test and the test
-- of the sum for wrap-around say together that the next value is over the maximum.
pub parse_digits : ℕ → Bytes → ℕ × Option NumError
parse_digits n [] = (n, none)
parse_digits n (c ∷ cs) =
    let rest = parse_digits (n * 10 + (c - b'0')) cs in
    if is_digit c
    then if ltb max_u64 (n * 10 + (c - b'0')) then (max_u64, some range) else rest
    else (0, some syntax)

-- The value where there is no error: `v, err := …; if err != nil { … }`.
abbrev pub parsed : ℕ × Option NumError → Option ℕ
parsed (v, none) = some v
parsed (v, some e) = none

unfoldable pub parse_uint : Bytes → ℕ × Option NumError
unfolding parse_digits
parse_uint [] = (0, some syntax)
parse_uint (c ∷ cs) = parse_digits 0 (c ∷ cs)

-- An int64 is its bit pattern, below 2 ^ 64.
abbrev pub max_i64 : ℕ
max_i64 = 2 ^ 63 - 1

abbrev pub min_i64 : ℕ
min_i64 = 2 ^ 63

abbrev pub neg_i64 : ℕ → ℕ
neg_i64 n = (2 ^ 64 - n) % 2 ^ 64

-- What ParseInt does with the magnitude and the sign.
signed : Bool → ℕ × Option NumError → ℕ × Option NumError
signed neg (un, some syntax) = (0, some syntax)
signed neg (un, e) =
    if not neg && leb (2 ^ 63) un
    then (max_i64, some range)
    else if neg && ltb (2 ^ 63) un
    then (min_i64, some range)
    else if neg
    then (neg_i64 un, none)
    else (un, none)

unfoldable pub parse_int : Bytes → ℕ × Option NumError
unfolding parse_uint signed
parse_int [] = (0, some syntax)
parse_int (c ∷ cs) =
    if c == b'+'
    then signed false (parse_uint cs)
    else if c == b'-'
    then signed true (parse_uint cs)
    else signed false (parse_uint (c ∷ cs))

-- The decimal digits of `v`, in front of `tail`; 20 rounds are enough for a uint64.
pub digits_loop : ℕ → ℕ → Bytes → Bytes
digits_loop zero v tail = tail
digits_loop (suc fuel) v tail =
    let more = digits_loop fuel (v / 10) ((b'0' + v % 10) ∷ tail) in
    if ltb v 10 then (b'0' + v) ∷ tail else more

unfoldable pub format_uint : ℕ → Bytes
unfolding digits_loop
format_uint v = digits_loop 20 v []

parse_uint_runs : parse_uint (codes "18446744073709551615") ≡ (max_u64, none)
unfolding parse_uint
parse_uint_runs = refl

parse_uint_range : parse_uint (codes "18446744073709551616") ≡ (max_u64, some range)
unfolding parse_uint
parse_uint_range = refl

parse_int_neg : parse_int (codes "-12") ≡ (2 ^ 64 - 12, none)
unfolding parse_int
parse_int_neg = refl

format_uint_runs : format_uint 120 ≡ codes "120"
unfolding format_uint
format_uint_runs = refl
