-- ===== src/Examples/Addresses.antt =====
-- signing/kaspa/bech32.go on a public key of 32 bytes.
use wallet_sdk.Common.{
  ℕ, ◌<◌, ◌≡◌, refl, arith, true, false, [], ◌∷◌, ◌++◌, map, Bytes, replicate, length, ok, All, suc,
  zero,
}
use wallet_sdk.Kaspa.Bech32.{
  eight_to_five, five_to_eight, convert_bits, calculate_checksum, verify_checksum, poly_mod,
  poly_loop, poly_step, apply_generators, prefix_to_uint5, encode, encode_address, decode_address,
  has_length, address_payload_length, mainnet, correct_address, public_key_to_address,
  valid_address,
}
use wallet_sdk.Kaspa.Bech32.Text.{letter}
use wallet_sdk.Kaspa.Bech32.Verify.{verify_checksum-calculate_checksum}
use wallet_sdk.Kaspa.Bech32.Groups.{convert_bits-convert_bits}
use wallet_sdk.Kaspa.Bech32.Address.{
  decode_address-encode_address, valid_address-public_key_to_address, mainnet-plain,
}
use wallet_sdk.Kaspa.Bech32.Correct.{correct_address-encode}

abbrev key : Bytes
key = replicate 32 200

copies_small : (n v bound : ℕ) → v < bound → All (λ b. b < bound) (replicate n v)
copies_small zero v bound h = tt
copies_small (suc n) v bound h = (h, copies_small n v bound h)

abbrev groups : Bytes
groups = 3 ∷ 31 ∷ 0 ∷ []

groups_small : All (λ d. d < 32) groups
groups_small = (omega arith, (omega arith, (omega arith, tt)))

convert_bits-convert_bits_example :
    convert_bits (convert_bits key eight_to_five) five_to_eight ≡ key
convert_bits-convert_bits_example =
    convert_bits-convert_bits key (copies_small 32 200 256 (omega arith))

verify_checksum-calculate_checksum_example :
    verify_checksum mainnet (groups ++ calculate_checksum mainnet groups) ≡ true
verify_checksum-calculate_checksum_example =
    verify_checksum-calculate_checksum mainnet groups groups_small

thirty_two_fits : has_length (address_payload_length 8) (length key) ≡ true
unfolding has_length address_payload_length
thirty_two_fits = refl

decode_address-encode_address_example :
    decode_address (encode_address mainnet key 8) mainnet ≡ ok (8, key)
decode_address-encode_address_example =
    decode_address-encode_address mainnet key 8 (omega arith) mainnet-plain
      (omega arith, copies_small 32 200 256 (omega arith)) thirty_two_fits

valid_address-public_key_to_address_example :
    (decode_address (public_key_to_address key) mainnet ≡ ok (0, key))
    × (decode_address (public_key_to_address (2 ∷ key)) mainnet ≡ ok (0, key))
    × (valid_address (public_key_to_address key) ≡ true)
    × (valid_address (public_key_to_address (2 ∷ key)) ≡ true)
valid_address-public_key_to_address_example =
    valid_address-public_key_to_address 2 key refl (copies_small 32 200 256 (omega arith))

zeros_fail : verify_checksum mainnet (groups ++ replicate 8 0) ≡ false
unfolding verify_checksum poly_mod poly_loop poly_step apply_generators prefix_to_uint5
zeros_fail = refl

correct_address-encode_example :
    correct_address (mainnet ++ b':' ∷ map letter (groups ++ replicate 8 0)) ≡ encode mainnet groups
correct_address-encode_example =
    correct_address-encode groups (replicate 8 0) refl groups_small
      (copies_small 8 0 32 (omega arith)) zeros_fail
