-- ===== src/Go/Strconv/Laws.antt =====
-- ParseUint and FormatUint: the bounds of a parsed value and the round trip.
use wallet_sdk.Common.{
  length, Bool, true, false, ℕ, zero, suc, ◌+◌, ◌-◌, ◌*◌, ◌/◌, ◌%◌, ◌^◌, ◌≤◌, ◌<◌, ◌≡◌, refl, arith,
  none, some, Option, [], ◌∷◌, Bytes, ◌≢◌,
}
use wallet_sdk.Go.Strconv.{
  syntax, range, signed, parse_int, parsed, NumError, parse_digits, parse_uint, digits_loop,
  format_uint,
}

parse_digits_bound : (n : ℕ) (s : Bytes) → n < 2 ^ 64 → (parse_digits n s).0 < 2 ^ 64
unfolding parse_digits
parse_digits_bound n [] h = h
parse_digits_bound n (c ∷ cs) h = ground (arith, parse_digits_bound (n * 10 + (c - b'0')) cs)

-- A parsed value is a uint64, whatever the text and the error.
pub parse_uint_bound : (s : Bytes) → (parse_uint s).0 < 2 ^ 64
unfolding parse_uint
parse_uint_bound [] = omega arith
parse_uint_bound (c ∷ cs) = parse_digits_bound 0 (c ∷ cs) (omega arith)

pub parsed-eq-some : (r : ℕ × Option NumError) {v : ℕ} → parsed r ≡ some v → r ≡ (v, none)
parsed-eq-some (u, none) h = ground arith
parsed-eq-some (u, some e) h = cc

pub parsed_bound : (s : Bytes) {v : ℕ} → parsed (parse_uint s) ≡ some v → v < 2 ^ 64
parsed_bound s h = parsed_below (parse_uint s) (parse_uint_bound s) h
  where
    parsed_below : (r : ℕ × Option NumError) {w : ℕ} → r.0 < 2 ^ 64 → parsed r ≡ some w → w < 2 ^ 64
    parsed_below (u, none) k e = ground arith
    parsed_below (u, some x) k e = cc

parse_digits_step :
    (n d : ℕ) (tail : Bytes)
    → d < 10
    → n * 10 + d < 2 ^ 64
    → parse_digits n ((b'0' + d) ∷ tail) ≡ parse_digits (n * 10 + d) tail
unfolding parse_digits
parse_digits_step n d tail h k = ground arith

digits_loop_lem :
    (fuel v : ℕ) (tail : Bytes)
    → v < 10 ^ suc fuel
    → v < 2 ^ 64
    → parse_digits 0 (digits_loop (suc fuel) v tail) ≡ parse_digits v tail
unfolding digits_loop
digits_loop_lem zero v tail h k = ground (arith, parse_digits_step 0 v tail)
digits_loop_lem (suc fuel) v tail h k = ground (
  arith,
  parse_digits_step 0 v tail,
  digits_loop_lem fuel (v / 10) ((b'0' + v % 10) ∷ tail) (omega arith),
  parse_digits_step (v / 10) (v % 10) tail,
)

digits_loop-ne-nil : (fuel v : ℕ) (tail : Bytes) → digits_loop (suc fuel) v tail ≢ []
unfolding digits_loop
digits_loop-ne-nil zero v tail = ground arith
digits_loop-ne-nil (suc fuel) v tail =
    ground (arith, digits_loop-ne-nil fuel (v / 10) ((b'0' + v % 10) ∷ tail))

parse_uint-eq-digits : (s : Bytes) → s ≢ [] → parse_uint s ≡ parse_digits 0 s
unfolding parse_uint
parse_uint-eq-digits [] h = absurd (h refl)
parse_uint-eq-digits (c ∷ cs) h = refl

-- ParseUint reads back each uint64 that FormatUint wrote.
pub parse_uint-format_uint : (v : ℕ) → v < 2 ^ 64 → parse_uint (format_uint v) ≡ (v, none)
unfolding format_uint
parse_uint-format_uint v h = ground (
  arith,
  parse_uint-eq-digits (digits_loop 20 v []) (digits_loop-ne-nil 19 v []),
  digits_loop_lem 19 v [] (omega arith),
  last,
)
  where
    last : parse_digits v [] ≡ (v, none)
    last = unfold parse_digits in refl

signed_bound : (neg : Bool) (r : ℕ × Option NumError) → r.0 < 2 ^ 64 → (signed neg r).0 < 2 ^ 64
unfolding signed
signed_bound neg (un, none) h = ground arith
signed_bound neg (un, some syntax) h = omega arith
signed_bound neg (un, some range) h = ground arith

-- What ParseInt returns is the pattern of an int64.
pub parse_int_bound : (s : Bytes) → (parse_int s).0 < 2 ^ 64
unfolding parse_int
parse_int_bound [] = omega arith
parse_int_bound (c ∷ cs) = ground (
  arith,
  signed_bound false (parse_uint cs) (parse_uint_bound cs),
  signed_bound true (parse_uint cs) (parse_uint_bound cs),
  signed_bound false (parse_uint (c ∷ cs)) (parse_uint_bound (c ∷ cs)),
)

length-digits_loop :
    (fuel v : ℕ) (tail : Bytes) → length (digits_loop fuel v tail) ≤ fuel + length tail
unfolding digits_loop
length-digits_loop zero v tail = omega arith
length-digits_loop (suc fuel) v tail =
    ground (arith, length-digits_loop fuel (v / 10) ((b'0' + v % 10) ∷ tail))

-- FormatUint writes between one and twenty digits.
pub length-format_uint : (v : ℕ) → length (format_uint v) ≤ 20
unfolding format_uint
length-format_uint v = omega (arith, length-digits_loop 20 v [])

cons_of : (s : Bytes) → s ≢ [] → (c : ℕ) × (cs : Bytes) × (s ≡ c ∷ cs)
cons_of [] h = absurd (h refl)
cons_of (c ∷ cs) h = (c, cs, refl)

pub format_uint_cons : (v : ℕ) → (c : ℕ) × (cs : Bytes) × (format_uint v ≡ c ∷ cs)
unfolding format_uint
format_uint_cons v = cons_of (format_uint v) (digits_loop-ne-nil 19 v [])
