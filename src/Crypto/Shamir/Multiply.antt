-- ===== src/Crypto/Shamir/Multiply.antt =====
-- crypto/internal/shamir/shamir.go: multiply is additive in each argument.
use wallet_sdk.Common.{
  ℕ, zero, suc, ◌+◌, ◌*◌, ◌/◌, ◌%◌, ◌^◌, ◌<◌, bit_and, bit_xor, ◌≡◌, refl, sym, ◌∙◌, arith,
}
use wallet_sdk.Common.Bits.{low_bit, no_bits, all_bits}
use wallet_sdk.Common.Xor.{
  bit_xor_self, bit_xor_lt, bit_xor_split, bit_xor_digit, half-bit_xor, zero-bit_xor, bit_xor-zero,
  bit_xor_interchange, bit_xor_double,
}
use wallet_sdk.Crypto.Shamir.{negate, rounds, multiply}

-- One round leaves `selected` in the result and `doubled` on the left.
abbrev selected : ℕ → ℕ → ℕ
selected left bit = bit_and left (negate bit)

abbrev doubled : ℕ → ℕ
doubled left = bit_xor (left * 2 % 256) (selected 0x1b (left / 128))

selected_zero : (a : ℕ) → a < 256 → selected a 0 ≡ 0
selected_zero a h = no_bits a h

selected_one : (a : ℕ) → a < 256 → selected a 1 ≡ a
selected_one a h = all_bits a h

selected_lt : (a bit : ℕ) → a < 256 → bit < 2 → selected a bit < 256
selected_lt a zero h k = omega (arith, selected_zero a h)
selected_lt a (suc zero) h k = omega (arith, selected_one a h)
selected_lt a (suc (suc bit)) h k = absurd (omega arith)

selected-bit_xor :
    (a b bit : ℕ)
    → a < 256
    → b < 256
    → bit < 2
    → selected (bit_xor a b) bit ≡ bit_xor (selected a bit) (selected b bit)
selected-bit_xor a b zero h k l =
    rw (selected_zero a h, selected_zero b k, selected_zero (bit_xor a b) (bit_xor_lt 8 a b h k))
      refl
selected-bit_xor a b (suc zero) h k l =
    rw (selected_one a h, selected_one b k, selected_one (bit_xor a b) (bit_xor_lt 8 a b h k)) refl
selected-bit_xor a b (suc (suc bit)) h k l = absurd (omega arith)

selected_sum :
    (a b c : ℕ)
    → a < 256
    → b < 2
    → c < 2
    → selected a ((b + c) % 2) ≡ bit_xor (selected a b) (selected a c)
selected_sum a zero zero h k l = rw (selected_zero a h) refl
selected_sum a zero (suc zero) h k l = rw (selected_zero a h) (sym (zero-bit_xor (selected a 1)))
selected_sum a (suc zero) zero h k l = rw (selected_zero a h) (sym (bit_xor-zero (selected a 1)))
selected_sum a (suc zero) (suc zero) h k l = selected_zero a h ∙ sym (bit_xor_self (selected a 1))
selected_sum a b (suc (suc c)) h k l = absurd (omega arith)
selected_sum a (suc (suc b)) c h k l = absurd (omega arith)

-- The two halves of a byte's exclusive or.
split_byte :
    (a b : ℕ) → bit_xor a b ≡ bit_xor (a / 128) (b / 128) * 128 + bit_xor (a % 128) (b % 128)
split_byte a b =
    let left : a / 128 * 2 ^ 7 + a % 128 ≡ a = omega arith in
    let right : b / 128 * 2 ^ 7 + b % 128 ≡ b = omega arith in
    rw (left, right) at
      (bit_xor_split 7 (a / 128) (b / 128) (a % 128) (b % 128) (omega arith) (omega arith))

doubled_lt : (a : ℕ) → a < 256 → doubled a < 256
doubled_lt a h =
    bit_xor_lt 8 _ _ (omega arith) (selected_lt 0x1b (a / 128) (omega arith) (omega arith))

top_digits : (a b : ℕ) → a < 2 → b < 2 → bit_xor a b ≡ (a + b) % 2
top_digits zero b h k = omega (arith, zero-bit_xor b)
top_digits (suc zero) zero h k = refl
top_digits (suc zero) (suc zero) h k = refl
top_digits (suc zero) (suc (suc b)) h k = absurd (omega arith)
top_digits (suc (suc a)) b h k = absurd (omega arith)

doubled-bit_xor :
    (a b : ℕ) → a < 256 → b < 256 → doubled (bit_xor a b) ≡ bit_xor (doubled a) (doubled b)
doubled-bit_xor a b h k =
    let low : bit_xor (a % 128) (b % 128) < 128 = bit_xor_lt 7 _ _ (omega arith) (omega arith) in
    let left : a * 2 % 256 ≡ a % 128 * 2 = omega arith in
    let right : b * 2 % 256 ≡ b % 128 * 2 = omega arith in
    let shifted : bit_xor a b * 2 % 256 ≡ bit_xor (a * 2 % 256) (b * 2 % 256) =
      rw (left, right) (omega (arith, split_byte a b, bit_xor_double (a % 128) (b % 128))) in
    let high : bit_xor a b / 128 ≡ (a / 128 + b / 128) % 2 =
      omega (arith, split_byte a b, top_digits (a / 128) (b / 128) (omega arith) (omega arith)) in
    let reduced = selected_sum 0x1b (a / 128) (b / 128) (omega arith) (omega arith) (omega arith) in
    rw (shifted, high, reduced)
      (bit_xor_interchange (a * 2 % 256) (b * 2 % 256) (selected 0x1b (a / 128))
        (selected 0x1b (b / 128)))

rounds_lt : (n a l r : ℕ) → a < 256 → l < 256 → r < 256 → rounds n a l r < 256
unfolding rounds
rounds_lt zero a l r h k m = h
rounds_lt (suc n) a l r h k m =
    let bit : bit_and r 1 < 2 = omega (arith, low_bit r m) in
    rounds_lt n _ _ _ (bit_xor_lt 8 _ _ h (selected_lt l (bit_and r 1) k bit)) (doubled_lt l k)
      (omega arith)

rounds_left :
    (n a b l m r : ℕ)
    → a < 256
    → b < 256
    → l < 256
    → m < 256
    → r < 256
    → rounds n (bit_xor a b) (bit_xor l m) r ≡ bit_xor (rounds n a l r) (rounds n b m r)
unfolding rounds
rounds_left zero a b l m r ha hb hl hm hr = refl
rounds_left (suc n) a b l m r ha hb hl hm hr =
    let bit = bit_and r 1 in
    let small : bit < 2 = omega (arith, low_bit r hr) in
    let above = bit_xor_lt 8 _ _ ha (selected_lt l bit hl small) in
    let below = bit_xor_lt 8 _ _ hb (selected_lt m bit hm small) in
    rw
      (
        selected-bit_xor l m bit hl hm small,
        bit_xor_interchange a b (selected l bit) (selected m bit),
        doubled-bit_xor l m hl hm,
      )
      (rounds_left n _ _ _ _ (r / 2) above below (doubled_lt l hl) (doubled_lt m hm) (omega arith))

rounds_right :
    (n a b l r s : ℕ)
    → a < 256
    → b < 256
    → l < 256
    → r < 256
    → s < 256
    → rounds n (bit_xor a b) l (bit_xor r s) ≡ bit_xor (rounds n a l r) (rounds n b l s)
unfolding rounds
rounds_right zero a b l r s ha hb hl hr hs = refl
rounds_right (suc n) a b l r s ha hb hl hr hs =
    let left : bit_and r 1 ≡ r % 2 = low_bit r hr in
    let right : bit_and s 1 ≡ s % 2 = low_bit s hs in
    let both : bit_and (bit_xor r s) 1 ≡ (r % 2 + s % 2) % 2 =
      omega (arith, low_bit (bit_xor r s) (bit_xor_lt 8 r s hr hs), bit_xor_digit r s) in
    let above = bit_xor_lt 8 _ _ ha (selected_lt l (r % 2) hl (omega arith)) in
    let below = bit_xor_lt 8 _ _ hb (selected_lt l (s % 2) hl (omega arith)) in
    rw
      (
        left,
        right,
        both,
        selected_sum l (r % 2) (s % 2) hl (omega arith) (omega arith),
        bit_xor_interchange a b (selected l (r % 2)) (selected l (s % 2)),
        half-bit_xor r s,
      )
      (rounds_right n _ _ _ (r / 2) (s / 2) above below (doubled_lt l hl) (omega arith)
        (omega arith))

pub multiply_lt : (a b : ℕ) → a < 256 → b < 256 → multiply a b < 256
unfolding multiply
multiply_lt a b h k = rounds_lt 8 0 a b (omega arith) h k

pub multiply-bit_xor :
    (a b c : ℕ)
    → a < 256
    → b < 256
    → c < 256
    → multiply (bit_xor a b) c ≡ bit_xor (multiply a c) (multiply b c)
unfolding multiply
multiply-bit_xor a b c h k l = rounds_left 8 0 0 a b c (omega arith) (omega arith) h k l

pub multiply-bit_xor_right :
    (a b c : ℕ)
    → a < 256
    → b < 256
    → c < 256
    → multiply a (bit_xor b c) ≡ bit_xor (multiply a b) (multiply a c)
unfolding multiply
multiply-bit_xor_right a b c h k l = rounds_right 8 0 0 a b c (omega arith) (omega arith) h k l
