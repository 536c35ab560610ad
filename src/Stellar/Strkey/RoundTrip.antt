-- ===== src/Stellar/Strkey/RoundTrip.antt =====
-- signing/stellar/utils.go: decode undoes encode, and what the table of the CRC is.
use wallet_sdk.Common.{
  ℕ, zero, suc, ◌+◌, ◌-◌, ◌*◌, ◌/◌, ◌%◌, ◌^◌, ◌<◌, ◌≡◌, refl, ap, sym, ◌∙◌, arith, bit_and, bit_xor,
  Bool, true, false, not, ◌&&◌, ◌||◌, ◌==◌, ==_iff, ltb, leb, Bool-cases, inl, inr, some, [], ◌∷◌,
  ◌++◌, Bytes, length, get_or, length-append, take-append, ok, guard, guard-eq-ok, >>=-eq-ok,
  ok_inj, if◌then◌else◌,
}
use wallet_sdk.Common.Xor.{bit_xor_lt}
use wallet_sdk.Common.Mask.{bit_and_mask}
use wallet_sdk.Go.Words.{le16}
use wallet_sdk.Stellar.Strkey.{
  is_version, max_payload_size, invalid_version, payload_size, crc16tab, crc16_loop, crc16_checksum,
  alphabet, decoding_table, check_leftover, Base32, decode_string, raw_key, encode, split_raw,
  decode,
}

abbrev all_below : (ℕ → Bool) → ℕ → Bool
all_below test zero = true
all_below test (suc n) = test n && all_below test n

all_below-holds :
    (test : ℕ → Bool) (n : ℕ) → all_below test n ≡ true → (i : ℕ) → i < n → test i ≡ true
all_below-holds test zero h i k = absurd (omega arith)
all_below-holds test (suc n) h i k = ground (arith, all_below-holds test n (ground arith) i)

-- Eight steps of the polynomial x^16 + x^12 + x^5 + 1 on a value of 16 bits.
pub crc16_steps : ℕ → ℕ → ℕ
crc16_steps zero v = v
crc16_steps (suc n) v =
    crc16_steps n (if leb 0x8000 v then bit_xor (v * 2 % 2 ^ 16) 0x1021 else v * 2)

table_steps : all_below (λ i. get_or crc16tab i 0 == crc16_steps 8 (i * 256)) 256 ≡ true
unfolding crc16_steps
table_steps = refl

-- Each entry of crc16tab is its index's remainder after eight steps of the polynomial.
pub crc16tab-crc16_steps : (i : ℕ) → i < 256 → get_or crc16tab i 0 ≡ crc16_steps 8 (i * 256)
crc16tab-crc16_steps i h =
    (==_iff _ _).0
      (all_below-holds (λ i. get_or crc16tab i 0 == crc16_steps 8 (i * 256)) 256 table_steps i h)

abbrev entries_small : Bytes → Bool
entries_small [] = true
entries_small (x ∷ xs) = ltb x (2 ^ 16) && entries_small xs

entry_lt : (xs : Bytes) (i : ℕ) → entries_small xs ≡ true → get_or xs i 0 < 2 ^ 16
entry_lt [] i h = omega arith
entry_lt (x ∷ xs) zero h = ground arith
entry_lt (x ∷ xs) (suc i) h = entry_lt xs i (ground arith)

mask_lt : (a : ℕ) → bit_and a 0xffff < 2 ^ 16
mask_lt a =
    let whole : a / 2 ^ 16 * 2 ^ 16 + a % 2 ^ 16 ≡ a = omega arith in
    omega (arith, rw whole at (bit_and_mask 16 (a / 2 ^ 16) (a % 2 ^ 16) (omega arith)))

crc16_loop_lt : (bytes : Bytes) (crc : ℕ) → crc < 2 ^ 16 → crc16_loop crc bytes < 2 ^ 16
unfolding crc16_loop
crc16_loop_lt [] crc h = h
crc16_loop_lt (b ∷ bs) crc h = crc16_loop_lt bs _ (
    bit_xor_lt 16 _ _ (mask_lt (crc * 2 ^ 8 % 2 ^ 16))
      (entry_lt crc16tab (bit_and (bit_xor (crc / 2 ^ 8) b) 255) refl))

crc16_checksum_lt : (bytes : Bytes) → crc16_checksum bytes < 2 ^ 16
unfolding crc16_checksum
crc16_checksum_lt bytes = crc16_loop_lt bytes 0 (omega arith)

letters : all_below (λ i. decoding_table (get_or alphabet i 0) == i) 32 ≡ true
letters = refl

unused_masks :
    all_below
      (λ l. all_below (λ i. not (i % 2 ^ l == 0) || bit_and i (0x0f / 2 ^ (4 - l)) == 0) 32)
      5
    ≡ true
unused_masks = refl

letter_value : (i : ℕ) → i < 32 → decoding_table (get_or alphabet i 0) ≡ i
letter_value i h =
    (==_iff _ _).0 (all_below-holds (λ i. decoding_table (get_or alphabet i 0) == i) 32 letters i h)

unused_mask :
    (l i : ℕ) → l < 5 → i < 32 → i % 2 ^ l ≡ 0 → (bit_and i (0x0f / 2 ^ (4 - l)) == 0) ≡ true
unused_mask l i h k e =
    let test =
      all_below-holds (λ i. not (i % 2 ^ l == 0) || bit_and i (0x0f / 2 ^ (4 - l)) == 0) 32
        (all_below-holds
          (λ l. all_below (λ i. not (i % 2 ^ l == 0) || bit_and i (0x0f / 2 ^ (4 - l)) == 0) 32) 5
          unused_masks l h)
        i k in
    let zero_bits : (i % 2 ^ l == 0) ≡ true = (==_iff _ _).1 e in rw zero_bits at test

-- A text of base32 whose last character has no bits set that are left over.
check_leftover-ok :
    (text : Bytes) (i : ℕ)
    → length text * 5 % 8 < 5
    → i < 32
    → get_or text (length text - 1) 0 ≡ get_or alphabet i 0
    → i % 2 ^ (length text * 5 % 8) ≡ 0
    → check_leftover text ≡ ok tt
unfolding check_leftover
check_leftover-ok text i h k same unused =
    let l = length text * 5 % 8 in
    let few : leb 5 l ≡ false = ground arith in
    let value : decoding_table (get_or text (length text - 1) 0) ≡ i =
      ap decoding_table same ∙ letter_value i k in
    let known : (i == 0xff) ≡ false = ground arith in
    elim (Bool-cases (ltb 0 l)) [
      | inl some_left ↦
          rw (check_leftover, few, some_left, value, known, unused_mask l i h k unused) refl
      | inr none_left ↦ rw (check_leftover, few, none_left) refl
    ]

get_or-append : (xs ys : Bytes) (i : ℕ) → get_or (xs ++ ys) (length xs + i) 0 ≡ get_or ys i 0
get_or-append [] ys i = let none : 0 + i ≡ i = omega arith in ap (λ (k : ℕ). get_or ys k 0) none
get_or-append (x ∷ xs) ys i =
    let next : suc (length xs) + i ≡ suc (length xs + i) = omega arith in
    ap (λ (k : ℕ). get_or (x ∷ (xs ++ ys)) k 0) next ∙ get_or-append xs ys i

plus_zero : (n : ℕ) → n ≡ n + 0
plus_zero n = omega arith

split_raw-raw_key :
    (version : ℕ) (payload : Bytes) → split_raw version (raw_key version payload) ≡ ok payload
unfolding split_raw
split_raw-raw_key version payload =
    let front = version ∷ payload in
    let crc = crc16_checksum front in
    let raw = raw_key version payload in
    let size : length raw ≡ length front + 2 = length-append front (le16 crc) in
    let long : not (ltb (length raw) 3) ≡ true = ground (arith, size) in
    let n : length raw - 2 ≡ length front = omega (arith, size) in
    let same : (version == version) ≡ true = (==_iff version version).1 refl in
    let low : get_or raw (length front) 0 ≡ crc % 256 =
      ap (λ (k : ℕ). get_or raw k 0) (plus_zero (length front))
      ∙ get_or-append front (le16 crc) 0 in
    let high : get_or raw (length front + 1) 0 ≡ crc / 2 ^ 8 % 256 =
      get_or-append front (le16 crc) 1 in
    let sum : (crc == crc % 256 + crc / 2 ^ 8 % 256 * 256) ≡ true =
      (==_iff _ _).1 (omega (arith, crc16_checksum_lt front)) in
    rw (split_raw, long, n, take-append front (le16 crc), low, high, sum, same)
      (ap (λ (t : Bytes). ok t) (take-append payload (le16 crc)))

-- decode takes what encode makes of a version and a payload and gives the payload back, where base32
-- undoes itself on the key's bytes, five bits are a character, and the last character is the one of
-- a value whose bits that are left over are 0.
pub decode-encode :
    (base32 : Base32) (version : ℕ) (payload text : Bytes) (last : ℕ)
    → (let raw = raw_key version payload in base32.decode (base32.encode raw) ≡ some raw)
    → length (base32.encode (raw_key version payload))
      ≡ (length (raw_key version payload) * 8 + 4) / 5
    → last < 32
    → get_or
        (base32.encode (raw_key version payload))
        (length (base32.encode (raw_key version payload)) - 1)
        0
      ≡ get_or alphabet last 0
    → last % 2 ^ (length (base32.encode (raw_key version payload)) * 5 % 8) ≡ 0
    → encode base32 version payload ≡ ok text
    → decode base32 version text ≡ ok payload
unfolding encode decode decode_string
decode-encode base32 version payload text last inverse size small char unused made =
    let raw = raw_key version payload in
    let coded = base32.encode raw in
    let (u, g1, e1) = >>=-eq-ok (guard (is_version version) invalid_version) _ made in
    let (v, g2, e2) =
      >>=-eq-ok (guard (not (ltb max_payload_size (length payload))) payload_size) _ e1 in
    let known = guard-eq-ok (is_version version) invalid_version g1 in
    let count : length raw ≡ length payload + 3 =
      omega
        (arith, length-append (version ∷ payload) (le16 (crc16_checksum (version ∷ payload)))) in
    let leftover : length coded * 5 % 8 < 5 = omega (arith, size) in
    let long : not (ltb (length coded) 5) ≡ true = ground (arith, size, count) in
    let checked = check_leftover-ok coded last leftover small char unused in
    let done : decode base32 version coded ≡ ok payload =
      rw (decode, known, decode_string, long, checked, inverse)
        (split_raw-raw_key version payload) in
    ap (decode base32 version) (sym (ok_inj e2)) ∙ done
