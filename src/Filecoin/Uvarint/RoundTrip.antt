-- ===== src/Filecoin/Uvarint/RoundTrip.antt =====
-- signing/filecoin/utils.go: that fromUvarint reads back what PutUvarint writes.
use native.Mathlib.Nat.{pow-suc}
use wallet_sdk.Common.{
  ℕ, zero, suc, ◌+◌, ◌-◌, ◌*◌, ◌/◌, ◌%◌, ◌^◌, ◌≤◌, ◌<◌, ◌≡◌, refl, arith, ◌++◌, ltb, Bytes, length,
  ok, bit_and, bit_or, ◌∙◌, ap, Bool-cases, inl, inr,
}
use wallet_sdk.Common.Bits.{set_top_bit, low_bits}
use wallet_sdk.Common.Digits.{bit_or_shifted}
use wallet_sdk.Codec.Uvarint.{uvarint_loop, uvarint}
use wallet_sdk.Filecoin.Uvarint.{from_loop, from_uvarint}

-- What `x |= d << s` adds, below 2^63.
or_digit :
    (x d s : ℕ) → x < 2 ^ s → d * 2 ^ s < 2 ^ 63 → bit_or x (d * 2 ^ s % 2 ^ 64) ≡ x + d * 2 ^ s
or_digit x d s h k =
    let small : d * 2 ^ s % 2 ^ 64 ≡ d * 2 ^ s = omega arith in rw small (bit_or_shifted s x d h)

pow_seven : (s : ℕ) → 2 ^ (s + 7) ≡ 2 ^ s * 128
pow_seven s =
    let shape : s + 7 ≡ suc (suc (suc (suc (suc (suc (suc s)))))) = omega arith in
    ap (λ (n : ℕ). 2 ^ n) shape
    ∙ omega (
      arith,
      pow-suc 2 s,
      pow-suc 2 (suc s),
      pow-suc 2 (suc (suc s)),
      pow-suc 2 (suc (suc (suc s))),
      pow-suc 2 (suc (suc (suc (suc s)))),
      pow-suc 2 (suc (suc (suc (suc (suc s))))),
      pow-suc 2 (suc (suc (suc (suc (suc (suc s)))))),
    )

shift_digit : (q s : ℕ) → q * 2 ^ (s + 7) ≡ q * 128 * 2 ^ s
shift_digit q s = ap (λ (t : ℕ). q * t) (pow_seven s) ∙ grind arith

distribute : (a b t : ℕ) → a * t + b * t ≡ (a + b) * t
distribute a b t = grind arith

times_le : (a b t : ℕ) → a ≤ b → a * t ≤ b * t
times_le a b t h =
    let sum : a + (b - a) ≡ b = omega arith in
    omega (arith, distribute a (b - a) t, ap (λ (n : ℕ). n * t) sum)

split_digit : (v s : ℕ) → v / 128 * 128 * 2 ^ s + v % 128 * 2 ^ s ≡ v * 2 ^ s
split_digit v s =
    let whole : v / 128 * 128 + v % 128 ≡ v = omega arith in
    distribute (v / 128 * 128) (v % 128) (2 ^ s) ∙ ap (λ (n : ℕ). n * 2 ^ s) whole

from_loop-uvarint_loop :
    (fuel i x s v : ℕ) (rest : Bytes)
    → fuel + i ≡ 9
    → s ≡ 7 * i
    → v < 128 ^ fuel
    → v * 2 ^ s < 2 ^ 63
    → x < 2 ^ s
    → (0 < s → 0 < v)
    → from_loop i x s (uvarint_loop fuel v ++ rest)
      ≡ ok (x + v * 2 ^ s, i + length (uvarint_loop fuel v))
unfolding from_loop uvarint_loop
from_loop-uvarint_loop zero i x s v rest e j h k b p =
    let positive : 0 < v = p (omega arith) in absurd (omega arith)
from_loop-uvarint_loop (suc fuel) i x s v rest e j h k b p = elim (Bool-cases (ltb v 0x80)) [
  | inl t ↦
      let low : v % 256 ≡ v = ground arith in
      let shown : 0 < s → 0 < v = p in rw t (ground (arith, or_digit x v s b k))
  | inr t ↦
      let byte : bit_or (v % 256) 0x80 ≡ v % 128 + 128 =
        set_top_bit (v % 256) (omega arith) ∙ omega arith in
      let digit : bit_and (v % 128 + 128) 0x7f ≡ v % 128 =
        low_bits (v % 128 + 128) (omega arith) ∙ omega arith in
      let whole = split_digit v s in
      let shifted = shift_digit (v / 128) s in
      let sum = or_digit x (v % 128) s b (omega arith) in
      let wide = pow_seven s in
      let bound : v % 128 * 2 ^ s ≤ 127 * 2 ^ s = times_le (v % 128) 127 (2 ^ s) (omega arith) in
      let next =
        from_loop-uvarint_loop fuel (i + 1) (x + v % 128 * 2 ^ s) (s + 7) (v / 128) rest
          (omega arith) (omega arith) (omega arith) (omega arith) (omega arith)
          (λ _. ground arith) in
      rw (t, byte, digit, sum) (ground (arith, next))
]

-- fromUvarint reads the bytes that binary.PutUvarint writes for any number below 2^63, with
-- anything behind them, as that number, and counts exactly those bytes.
pub from_uvarint-uvarint :
    (v : ℕ) (rest : Bytes)
    → v < 2 ^ 63
    → from_uvarint (uvarint v ++ rest) ≡ ok (v, length (uvarint v))
unfolding from_uvarint uvarint
from_uvarint-uvarint v rest h =
    let whole : 0 + v * 2 ^ 0 ≡ v = ground arith in
    let count : 0 + length (uvarint_loop 9 v) ≡ length (uvarint_loop 9 v) = omega arith in
    from_loop-uvarint_loop 9 0 0 0 v rest refl refl (omega arith) (omega arith) (omega arith)
      (λ (o : 0 < 0). absurd (omega arith))
    ∙ ap (λ (n : ℕ). ok (n, 0 + length (uvarint_loop 9 v))) whole
    ∙ ap (λ (n : ℕ). ok (v, n)) count
