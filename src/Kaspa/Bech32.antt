-- ===== src/Kaspa/Bech32.antt =====
-- signing/kaspa/bech32.go: addresses as text, with the checksum of bech32. A uint8 and a byte are
-- numbers below 256; an int and an int64 here are never negative.
pub mod Sum
pub mod Verify
pub mod Bits
pub mod Regroup
pub mod Groups
pub mod Text
pub mod Address
pub mod Correct
use wallet_sdk.Common.{
  ℕ, zero, suc, ◌+◌, ◌-◌, ◌*◌, ◌/◌, ◌%◌, ◌^◌, bit_and, bit_or, bit_xor, Bool, true, false, not,
  ◌&&◌, ◌||◌, ◌==◌, ltb, leb, if◌then◌else◌, Option, none, some, List, [], ◌∷◌, ◌++◌, map, Bytes,
  codes, bytes_eq, length, get_or, take, drop, replicate, Result, ok, err, guard, or_error, ◌>>=◌,
  ◌>>◌,
}

pub record ConversionType : Type 0 where
  pub from_bits : ℕ
  pub to_bits : ℕ
  pub pad : Bool

abbrev pub five_to_eight : ConversionType
five_to_eight = record { from_bits = 5; to_bits = 8; pad = false }

abbrev pub eight_to_five : ConversionType
eight_to_five = record { from_bits = 8; to_bits = 5; pad = true }

abbrev pub charset : Bytes
charset = codes "qpzry9x8gf2tvdw0s3jn54khce6mua7l"

abbrev pub generators : Bytes
generators = 656907472481 ∷ 522768456162 ∷ 1044723512260 ∷ 748107326120 ∷ 130178868336 ∷ []

-- The variables of convertBits: regrouped, nextByte, filledBits.
abbrev pub Regroup : Type 0
Regroup = Bytes × ℕ × ℕ

abbrev pub to_extract : ConversionType → ℕ → Regroup → ℕ
to_extract ct remaining state =
    let remaining_to_bits = ct.to_bits - state.2 in
    if ltb remaining_to_bits remaining then remaining_to_bits else remaining

-- One round of the inner loop that takes `count` bits off the top of b.
abbrev pub extract : ConversionType → ℕ → ℕ → Regroup → Regroup
extract ct b count (regrouped, next_byte, filled_bits) =
    let next = bit_or (next_byte * 2 ^ count % 256) (b / 2 ^ (8 - count)) in
    let filled = filled_bits + count in
    let emitted : Regroup = (regrouped ++ next ∷ [], 0, 0) in
    let kept : Regroup = (regrouped, next, filled) in if filled == ct.to_bits then emitted else kept

-- The inner loop of convertBits on one byte; each round takes a bit at least.
unfoldable pub take_bits : ℕ → ConversionType → ℕ → ℕ → Regroup → Regroup
take_bits zero ct b remaining state = state
take_bits (suc fuel) ct b remaining state =
    let count = to_extract ct remaining state in
    let rest =
      take_bits fuel ct (b * 2 ^ count % 256) (remaining - count) (extract ct b count state) in
    if remaining == 0 then state else rest

unfoldable pub regroup : ConversionType → Bytes → Regroup → Regroup
regroup ct [] state = state
regroup ct (b ∷ bs) state =
    regroup ct bs (take_bits ct.from_bits ct (b * 2 ^ (8 - ct.from_bits) % 256) ct.from_bits state)

unfoldable pub finish_bits : ConversionType → Regroup → Bytes
finish_bits ct (regrouped, next_byte, filled_bits) =
    if ct.pad && ltb 0 filled_bits
    then regrouped ++ next_byte * 2 ^ (ct.to_bits - filled_bits) % 256 ∷ []
    else regrouped

unfoldable pub convert_bits : Bytes → ConversionType → Bytes
convert_bits bytes ct = finish_bits ct (regroup ct bytes ([], 0, 0))

unfoldable pub apply_generators : ℕ → Bytes → ℕ → ℕ → ℕ
apply_generators i [] top_bits checksum = checksum
apply_generators i (g ∷ gs) top_bits checksum =
    let next = if bit_and (top_bits / 2 ^ i) 1 == 1 then bit_xor checksum g else checksum in
    apply_generators (suc i) gs top_bits next

unfoldable pub poly_step : ℕ → ℕ → ℕ
poly_step checksum value =
    apply_generators 0 generators (checksum / 2 ^ 35)
      (bit_xor (bit_and checksum 0x07ffffffff * 2 ^ 5 % 2 ^ 64) value)

unfoldable pub poly_loop : ℕ → Bytes → ℕ
poly_loop checksum [] = checksum
poly_loop checksum (v ∷ vs) = poly_loop (poly_step checksum v) vs

unfoldable pub poly_mod : Bytes → ℕ
poly_mod values = bit_xor (poly_loop 1 values) 1

unfoldable pub prefix_to_uint5 : Bytes → Bytes
prefix_to_uint5 prefix = map (λ c. bit_and c 31) prefix

-- The loop over i, with n the rounds that are left.
unfoldable pub checksum_digits : ℕ → ℕ → Bytes
checksum_digits zero c = []
checksum_digits (suc n) c = bit_and (c / 2 ^ (5 * n)) 31 ∷ checksum_digits n c

abbrev pub checksum_length : ℕ
checksum_length = 8

unfoldable pub calculate_checksum : Bytes → Bytes → Bytes
calculate_checksum prefix payload =
    checksum_digits checksum_length
      (poly_mod (((prefix_to_uint5 prefix ++ 0 ∷ []) ++ payload) ++ replicate 8 0))

unfoldable pub verify_checksum : Bytes → Bytes → Bool
verify_checksum prefix payload = poly_mod ((prefix_to_uint5 prefix ++ 0 ∷ []) ++ payload) == 0

unfoldable pub all_below_charset : Bytes → Bool
all_below_charset [] = true
all_below_charset (b ∷ bs) = not (leb (length charset) b) && all_below_charset bs

unfoldable pub encode_to_base32 : Bytes → Bytes
encode_to_base32 bytes = if all_below_charset bytes then map (λ b. get_or charset b 0) bytes else []

unfoldable pub encode : Bytes → Bytes → Bytes
encode prefix payload =
    prefix ++ b':' ∷ encode_to_base32 (payload ++ calculate_checksum prefix payload)

unfoldable pub encode_address : Bytes → Bytes → ℕ → Bytes
encode_address prefix payload version =
    encode prefix (convert_bits (version ∷ payload) eight_to_five)

pub data DecodeError : Type 0 where
  string_length string_character mixed_case colon_index not_in_charset : DecodeError
  -- The checksum that is expected and the one that is there.
  checksum_failed : Bytes → Bytes → DecodeError
  invalid_prefix empty_payload unsupported_version : DecodeError

-- strings.IndexByte
unfoldable pub index_byte : ℕ → Bytes → Option ℕ
index_byte c [] = none
index_byte c (x ∷ xs) =
    let rest : Option ℕ = elim (index_byte c xs) [ some i ↦ some (suc i) | none ↦ none ] in
    if x == c then some 0 else rest

-- strings.LastIndexByte
unfoldable pub last_index_byte : ℕ → Bytes → Option ℕ
last_index_byte c [] = none
last_index_byte c (x ∷ xs) = elim (last_index_byte c xs) [
  | some i ↦ some (suc i)
  | none ↦ if x == c then some 0 else none
]

unfoldable pub decode_from_base32 : Bytes → Result DecodeError Bytes
decode_from_base32 [] = ok []
decode_from_base32 (c ∷ cs) = do
  i ← or_error (index_byte c charset) not_in_charset
  rest ← decode_from_base32 cs
  ok (i ∷ rest)

unfoldable pub all_printable : Bytes → Bool
all_printable [] = true
all_printable (c ∷ cs) = not (ltb c 33 || ltb 126 c) && all_printable cs

-- strings.ToLower and strings.ToUpper on ASCII
unfoldable pub to_lower : Bytes → Bytes
to_lower text = map (λ c. if leb 65 c && leb c 90 then c + 32 else c) text

unfoldable pub to_upper : Bytes → Bytes
to_upper text = map (λ c. if leb 97 c && leb c 122 then c - 32 else c) text

-- The part of decode from the text in small letters and the index of its colon.
unfoldable pub decode_at : Bytes → ℕ → Result DecodeError (Bytes × Bytes)
decode_at encoded colon = do
  guard (not (ltb colon 1 || ltb (length encoded) (colon + checksum_length + 1))) colon_index
  let prefix = take colon encoded
  decoded ← decode_from_base32 (drop (colon + 1) encoded)
  let payload = take (length decoded - checksum_length) decoded
  guard (verify_checksum prefix decoded) (
      checksum_failed (encode_to_base32 (calculate_checksum prefix payload))
        (drop (length encoded - checksum_length) encoded))
  ok (prefix, payload)

unfoldable pub decode : Bytes → Result DecodeError (Bytes × Bytes)
decode encoded = do
  guard (not (ltb (length encoded) (checksum_length + 2))) string_length
  guard (all_printable encoded) string_character
  guard (bytes_eq encoded (to_lower encoded) || bytes_eq encoded (to_upper encoded)) mixed_case
  colon ← or_error (last_index_byte b':' (to_lower encoded)) colon_index
  decode_at (to_lower encoded) colon

-- addressPayloadLength
unfoldable pub address_payload_length : ℕ → Option ℕ
address_payload_length version =
    if version == 0x00
    then some 32
    else (if version == 0x01 then some 33 else (if version == 0x08 then some 32 else none))

unfoldable pub has_length : Option ℕ → ℕ → Bool
has_length none n = false
has_length (some want) n = n == want

unfoldable pub split_version : Bytes → Result DecodeError (ℕ × Bytes)
split_version [] = err empty_payload
split_version (version ∷ payload) = do
  guard (has_length (address_payload_length version) (length payload)) unsupported_version
  ok (version, payload)

unfoldable pub decode_address : Bytes → Bytes → Result DecodeError (ℕ × Bytes)
decode_address addr expected_prefix = do
  decoded ← decode addr
  guard (bytes_eq decoded.0 expected_prefix) invalid_prefix
  split_version (convert_bits decoded.1 five_to_eight)

abbrev pub mainnet : Bytes
mainnet = codes "kaspa"

-- The text of the checksum error is matched by a regular expression for the checksum expected; it
-- is one of letters and digits, which the words around it in the text are not in.
unfoldable pub correct_address : Bytes → Bytes
correct_address address = elim (decode_address address mainnet) [
  | err (checksum_failed expected got) ↦ take (length address - length expected) address ++ expected
  | _ ↦ address
]

-- utils.go: PublicKey2Address and ValidAddress
unfoldable pub address_of_32 : Bytes → Bytes
address_of_32 public_key =
    if not (length public_key == 32)
    then []
    else (let address = encode_address mainnet public_key 0x00 in
        if length address == 0 then [] else correct_address address)

unfoldable pub public_key_to_address : Bytes → Bytes
public_key_to_address public_key =
    address_of_32 (if length public_key == 33 then drop 1 public_key else public_key)

unfoldable pub valid_address : Bytes → Bool
valid_address address =
    if bytes_eq address (codes "0xeeeeeeeeeeeeeeeeeeeeeeeeeeeeeeeeeeeeeeee")
    then true
    else elim (decode_address address mainnet) [ ok decoded ↦ true | err e ↦ false ]
