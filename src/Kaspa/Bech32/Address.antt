-- ===== src/Kaspa/Bech32/Address.antt =====
-- signing/kaspa/bech32.go and utils.go: an address is read back as what it was made of.
use wallet_sdk.Common.{
  ℕ, suc, ◌+◌, ◌-◌, ◌<◌, true, false, not, ◌||◌, ◌==◌, ltb, Bool-cases, inl, inr, ◌≡◌, refl, ap,
  ◌∙◌, arith, [], ◌∷◌, ◌++◌, map, Bytes, codes, bytes_eq, bytes_eq_refl, length, drop, All,
  All-append, length-append, length-map, take-append, ok,
}
use wallet_sdk.Kaspa.Bech32.{
  eight_to_five, convert_bits, checksum_length, decode_at, decode, encode, calculate_checksum,
  encode_address, decode_address, split_version, has_length, address_payload_length, mainnet,
  correct_address, public_key_to_address, address_of_32, valid_address,
}
use wallet_sdk.Kaspa.Bech32.Groups.{convert_bits-convert_bits, convert_bits_lt}
use wallet_sdk.Kaspa.Bech32.Text.{
  plain, letter, encode_to_base32-map, decode_from_base32-map, letters-plain, no_colon, last_colon,
  printable, lower_same,
}
use wallet_sdk.Kaspa.Bech32.Verify.{
  verify_checksum-calculate_checksum, checksum_digits_lt, length-checksum_digits,
}

pub calculate_checksum_lt :
    (prefix payload : Bytes) → All (λ v. v < 32) (calculate_checksum prefix payload)
unfolding calculate_checksum
calculate_checksum_lt prefix payload = checksum_digits_lt 8 _

pub length-calculate_checksum :
    (prefix payload : Bytes) → length (calculate_checksum prefix payload) ≡ 8
unfolding calculate_checksum
length-calculate_checksum prefix payload = length-checksum_digits 8 _

drop_past : (xs : Bytes) (y : ℕ) (ys : Bytes) → drop (suc (length xs)) (xs ++ y ∷ ys) ≡ ys
drop_past [] y ys = refl
drop_past (x ∷ xs) y ys = drop_past xs y ys

pub drop-append_after : (xs : Bytes) (y : ℕ) (ys : Bytes) → drop (length xs + 1) (xs ++ y ∷ ys) ≡ ys
drop-append_after xs y ys =
    let next : length xs + 1 ≡ suc (length xs) = omega arith in
    ap (λ (n : ℕ). drop n (xs ++ y ∷ ys)) next ∙ drop_past xs y ys

-- From the text, with the colon behind the prefix.
decode_at-letters :
    (prefix payload : Bytes)
    → 0 < length prefix
    → All (λ d. d < 32) payload
    → decode_at
        (prefix ++ b':' ∷ map letter (payload ++ calculate_checksum prefix payload))
        (length prefix)
      ≡ ok (prefix, payload)
unfolding decode_at
decode_at-letters prefix payload h k =
    let sum = calculate_checksum prefix payload in
    let whole = payload ++ sum in
    let small = All-append (λ d. d < 32) payload sum k (calculate_checksum_lt prefix payload) in
    let text = map letter whole in
    let size : length text ≡ length payload + 8 = omega (
      arith,
      length-map whole letter,
      length-append payload sum,
      length-calculate_checksum prefix payload,
    ) in
    let room : not (
          ltb (length prefix) 1
          || ltb (length (prefix ++ b':' ∷ text)) (length prefix + checksum_length + 1))
        ≡ true =
      ground (arith, length-append prefix (b':' ∷ text), size) in
    let count : length whole - checksum_length ≡ length payload =
      omega (arith, length-append payload sum, length-calculate_checksum prefix payload) in
    rw
      (
        room,
        take-append prefix (b':' ∷ text),
        drop-append_after prefix b':' text,
        decode_from_base32-map whole small,
        count,
        take-append payload sum,
        verify_checksum-calculate_checksum prefix payload k,
      )
      refl

-- decode gives back the prefix and the groups that encode was given: the prefix is not empty and has
-- printable characters and no capital letters, and each group is below 32.
pub decode-encode :
    (prefix payload : Bytes)
    → 0 < length prefix
    → All (λ c. plain c ≡ true) prefix
    → All (λ d. d < 32) payload
    → decode (encode prefix payload) ≡ ok (prefix, payload)
unfolding decode encode
decode-encode prefix payload h p k =
    let sum = calculate_checksum prefix payload in
    let whole = payload ++ sum in
    let small = All-append (λ d. d < 32) payload sum k (calculate_checksum_lt prefix payload) in
    let text = prefix ++ b':' ∷ map letter whole in
    let all_plain =
      All-append (λ c. plain c ≡ true) prefix (b':' ∷ map letter whole) p
        (refl, letters-plain whole small) in
    let size : not (ltb (length text) (checksum_length + 2)) ≡ true = ground (
      arith,
      length-append prefix (b':' ∷ map letter whole),
      length-map whole letter,
      length-append payload sum,
      length-calculate_checksum prefix payload,
    ) in
    rw
      (
        encode_to_base32-map whole small,
        size,
        printable text all_plain,
        lower_same text all_plain,
        bytes_eq_refl text,
        last_colon prefix (map letter whole) (no_colon whole small),
      )
      (decode_at-letters prefix payload h k)

-- decodeAddress gives back the version and the payload that encodeAddress was given, if the payload
-- has the length of the version.
pub decode_address-encode_address :
    (prefix payload : Bytes) (version : ℕ)
    → 0 < length prefix
    → All (λ c. plain c ≡ true) prefix
    → All (λ b. b < 256) (version ∷ payload)
    → has_length (address_payload_length version) (length payload) ≡ true
    → decode_address (encode_address prefix payload version) prefix ≡ ok (version, payload)
unfolding decode_address encode_address split_version
decode_address-encode_address prefix payload version h p small fits =
    let groups = convert_bits (version ∷ payload) eight_to_five in
    rw
      (
        decode-encode prefix groups h p (convert_bits_lt (version ∷ payload) small),
        bytes_eq_refl prefix,
        convert_bits-convert_bits (version ∷ payload) small,
        fits,
      )
      refl

pub mainnet-plain : All (λ c. plain c ≡ true) mainnet
mainnet-plain = (refl, (refl, (refl, (refl, (refl, tt)))))

thirty_two : (n : ℕ) → n ≡ 32 → has_length (address_payload_length 0x00) n ≡ true
unfolding has_length address_payload_length
thirty_two n h = ground arith

encode_address_nonempty : (key : Bytes) → (length (encode_address mainnet key 0x00) == 0) ≡ false
unfolding encode_address encode
encode_address_nonempty key = ground arith

address_of_32-decode_address :
    (key : Bytes)
    → length key ≡ 32
    → All (λ b. b < 256) key
    → (address_of_32 key ≡ encode_address mainnet key 0x00)
      × (decode_address (address_of_32 key) mainnet ≡ ok (0x00, key))
unfolding address_of_32 correct_address
address_of_32-decode_address key size bytes =
    let sized : (length key == 32) ≡ true = ground arith in
    let address = encode_address mainnet key 0x00 in
    let fits : has_length (address_payload_length 0x00) (length key) ≡ true =
      thirty_two (length key) size in
    let decoded =
      decode_address-encode_address mainnet key 0x00 (omega arith) mainnet-plain
        (omega arith, bytes) fits in
    let nonempty : (length address == 0) ≡ false = encode_address_nonempty key in
    let same : address_of_32 key ≡ address =
      rw (address_of_32, sized, nonempty, correct_address, decoded) refl in
    (same, rw same decoded)

valid_address-ok :
    (address : Bytes) {decoded : ℕ × Bytes}
    → decode_address address mainnet ≡ ok decoded
    → valid_address address ≡ true
unfolding valid_address
valid_address-ok address h =
    elim (Bool-cases (bytes_eq address (codes "0xeeeeeeeeeeeeeeeeeeeeeeeeeeeeeeeeeeeeeeee"))) [
      | inl native ↦ rw native refl
      | inr other ↦ rw (other, h) refl
    ]

-- PublicKey2Address of a key of 32 bytes, or of one with a byte in front of them, is an address that
-- ValidAddress takes, and that is read back as version 0 with the 32 bytes.
pub valid_address-public_key_to_address :
    (parity : ℕ) (key : Bytes)
    → length key ≡ 32
    → All (λ b. b < 256) key
    → (decode_address (public_key_to_address key) mainnet ≡ ok (0x00, key))
      × (decode_address (public_key_to_address (parity ∷ key)) mainnet ≡ ok (0x00, key))
      × (valid_address (public_key_to_address key) ≡ true)
      × (valid_address (public_key_to_address (parity ∷ key)) ≡ true)
unfolding public_key_to_address
valid_address-public_key_to_address parity key size bytes =
    let plain_key : (length key == 33) ≡ false = ground arith in
    let long_key : (length (parity ∷ key) == 33) ≡ true = ground arith in
    let (same, decoded) = address_of_32-decode_address key size bytes in
    let short : public_key_to_address key ≡ address_of_32 key =
      rw (public_key_to_address, plain_key) refl in
    let long : public_key_to_address (parity ∷ key) ≡ address_of_32 key =
      rw (public_key_to_address, long_key) refl in
    let one = ap (λ (a : Bytes). decode_address a mainnet) short ∙ decoded in
    let two = ap (λ (a : Bytes). decode_address a mainnet) long ∙ decoded in
    (one, two, valid_address-ok _ one, valid_address-ok _ two)
