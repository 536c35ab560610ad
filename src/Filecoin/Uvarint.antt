-- ===== src/Filecoin/Uvarint.antt =====
-- signing/filecoin/utils.go: fromUvarint, toUvarint and uvarintSize.
pub mod RoundTrip
pub mod Size
use wallet_sdk.Common.{
  ℕ, zero, suc, ◌+◌, ◌-◌, ◌*◌, ◌/◌, ◌%◌, ◌^◌, ◌≡◌, refl, Bool, true, false, ◌&&◌, ◌||◌, not, Option,
  none, some, List, [], ◌∷◌, ltb, leb, ◌==◌, if◌then◌else◌, Bytes, length, Result, ok, err, bit_and,
  bit_or,
}
use wallet_sdk.Codec.Uvarint.{uvarint}

pub data UvarintError : Type 0 where
  too_large not_minimal unfinished : UvarintError

-- The loop at index `i`, with `x` and `s` so far: the value, and how many bytes it took.
pub from_loop : ℕ → ℕ → ℕ → Bytes → Result UvarintError (ℕ × ℕ)
from_loop i x s [] = err unfinished
from_loop i x s (b ∷ bs) =
    let more = from_loop (i + 1) (bit_or x (bit_and b 0x7f * 2 ^ s % 2 ^ 64)) (s + 7) bs in
    if (i == 8 && leb 0x80 b) || leb 9 i
    then err too_large
    else if ltb b 0x80
    then if b == 0 && ltb 0 s then err not_minimal else ok (bit_or x (b * 2 ^ s % 2 ^ 64), i + 1)
    else more

unfoldable pub from_uvarint : Bytes → Result UvarintError (ℕ × ℕ)
unfolding from_loop
from_uvarint buf = from_loop 0 0 0 buf

-- bits.Len64, in at most `fuel` rounds.
pub bit_length : ℕ → ℕ → ℕ
bit_length zero n = 0
bit_length (suc fuel) n = let rest = bit_length fuel (n / 2) in if n == 0 then 0 else 1 + rest

-- The bytes of seven bits that so many bits take.
pub size_of : ℕ → ℕ
size_of bits = if ltb 0 (bits % 7) || (bits / 7) == 0 then bits / 7 + 1 else bits / 7

unfoldable pub uvarint_size : ℕ → ℕ
unfolding bit_length size_of
uvarint_size num = size_of (bit_length 64 num)

-- binary.PutUvarint into a buffer of `uvarintSize(num)` bytes, which is the loop of `uvarint`;
-- `none` is the panic of a buffer that is too short.
unfoldable pub to_uvarint : ℕ → Option Bytes
unfolding uvarint_size
to_uvarint num = if ltb (uvarint_size num) (length (uvarint num)) then none else some (uvarint num)
