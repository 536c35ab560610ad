-- ===== src/Go/Hex.antt =====
-- encoding/hex: EncodeToString and DecodeString.
use wallet_sdk.Common.{
  ℕ, ◌+◌, ◌-◌, ◌*◌, ◌/◌, ◌%◌, ◌<◌, ◌≡◌, refl, arith, ◌&&◌, Option, none, some, [], ◌∷◌, ltb, leb,
  if◌then◌else◌, Bytes, codes, All,
}

pub data HexError : Type 0 where
  invalid_byte odd_length : HexError

unfoldable pub hex_digit : ℕ → ℕ
hex_digit d = if ltb d 10 then b'0' + d else b'a' + (d - 10)

-- The value of a hexadecimal digit in either case.
unfoldable pub from_hex : ℕ → Option ℕ
from_hex c =
    if leb b'0' c && leb c b'9'
    then some (c - b'0')
    else if leb b'a' c && leb c b'f'
    then some (c - b'a' + 10)
    else if leb b'A' c && leb c b'F'
    then some (c - b'A' + 10)
    else none

unfoldable pub hex_encode : Bytes → Bytes
unfolding hex_digit
hex_encode [] = []
hex_encode (b ∷ bs) = hex_digit (b / 16) ∷ hex_digit (b % 16) ∷ hex_encode bs

abbrev pair_digits : Option ℕ → Option ℕ → Option ℕ
pair_digits (some h) (some l) = some (h * 16 + l)
pair_digits (some h) none = none
pair_digits none l = none

abbrev keep : ℕ → Bytes × Option HexError → Bytes × Option HexError
keep b (bs, e) = (b ∷ bs, e)

-- The bytes decoded before an error come back beside it.
unfoldable pub hex_decode : Bytes → Bytes × Option HexError
unfolding from_hex
hex_decode [] = ([], none)
hex_decode (c ∷ []) = elim (from_hex c) [
  | none ↦ ([], some invalid_byte)
  | some d ↦ ([], some odd_length)
]
hex_decode (c ∷ d ∷ cs) = elim (pair_digits (from_hex c) (from_hex d)) [
  | none ↦ ([], some invalid_byte)
  | some b ↦ keep b (hex_decode cs)
]

-- `v, err := hex.DecodeString(s); if err != nil { … }`
abbrev pub decoded : Bytes × Option HexError → Option Bytes
decoded (bs, none) = some bs
decoded (bs, some e) = none

from_hex-hex_digit : (d : ℕ) → d < 16 → from_hex (hex_digit d) ≡ some d
unfolding from_hex hex_digit
from_hex-hex_digit d h = ground arith

-- DecodeString reads back what EncodeToString wrote.
pub hex_decode-hex_encode :
    (bs : Bytes) → All (λ b. b < 256) bs → hex_decode (hex_encode bs) ≡ (bs, none)
unfolding hex_decode hex_encode
hex_decode-hex_encode [] h = refl
hex_decode-hex_encode (b ∷ bs) (hb, hbs) =
    ground (
      arith,
      from_hex-hex_digit (b / 16),
      from_hex-hex_digit (b % 16),
      hex_decode-hex_encode bs hbs,
    )

hex_encode_runs : hex_encode (0xde ∷ 0x0f ∷ []) ≡ codes "de0f"
unfolding hex_encode
hex_encode_runs = refl
