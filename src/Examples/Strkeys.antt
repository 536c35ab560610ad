-- ===== src/Examples/Strkeys.antt =====
-- signing/stellar/utils.go on a payload of three bytes.
use wallet_sdk.Common.{◌*◌, ◌≡◌, refl, arith, some, [], ◌∷◌, map, Bytes, codes, get_or, ok}
use wallet_sdk.Kaspa.Bech32.{
  eight_to_five, five_to_eight, convert_bits, regroup, take_bits, finish_bits,
}
use wallet_sdk.Stellar.Strkey.{
  Base32, alphabet, decoding_table, crc16_checksum, crc16_loop, crc16tab, encode, decode,
}
use wallet_sdk.Stellar.Strkey.RoundTrip.{decode-encode, crc16_steps, crc16tab-crc16_steps}

-- Groups of five bits and their characters.
abbrev grouped : Base32
grouped = record {
  encode = λ bytes. map (λ d. get_or alphabet d 0) (convert_bits bytes eight_to_five);
  decode = λ text. some (convert_bits (map decoding_table text) five_to_eight);
}

abbrev text : Bytes
text = codes "GAAQEA6YJU"

abbrev three : Bytes
three = 1 ∷ 2 ∷ 3 ∷ []

decode-encode_example : decode grouped 48 text ≡ ok three
unfolding crc16_checksum crc16_loop convert_bits regroup take_bits finish_bits encode
decode-encode_example =
    decode-encode grouped 48 three text 20 refl refl (omega arith) refl refl refl

crc16tab-crc16_steps_example : get_or crc16tab 255 0 ≡ crc16_steps 8 (255 * 256)
crc16tab-crc16_steps_example = crc16tab-crc16_steps 255 (omega arith)
