-- ===== src/Filecoin/Uvarint/Size.antt =====
-- signing/filecoin/utils.go: that uvarintSize is the number of bytes that PutUvarint writes.
use native.Mathlib.Nat.{pow-suc}
use wallet_sdk.Common.{
  ℕ, zero, suc, ◌+◌, ◌/◌, ◌^◌, ◌≤◌, ◌<◌, ◌≡◌, refl, arith, some, ltb, length, ◌∙◌, ap, Bool-cases,
  inl, inr,
}
use wallet_sdk.Codec.Uvarint.{uvarint_loop, uvarint}
use wallet_sdk.Filecoin.Uvarint.{bit_length, size_of, uvarint_size, to_uvarint}

bit_length_le : (fuel k v : ℕ) → v < 2 ^ k → bit_length fuel v ≤ k
unfolding bit_length
bit_length_le zero k v h = omega arith
bit_length_le (suc fuel) zero v h = ground arith
bit_length_le (suc fuel) (suc k) v h =
    ground (arith, bit_length_le fuel k (v / 2) (omega (arith, pow-suc 2 k)))

bit_length_half : (fuel v : ℕ) → 0 < v → bit_length (suc fuel) v ≡ 1 + bit_length fuel (v / 2)
unfolding bit_length
bit_length_half fuel v h = ground arith

bit_length_one : (v : ℕ) → bit_length 1 v ≤ 7
unfolding bit_length
bit_length_one v = ground arith

bit_length_byte :
    (fuel v : ℕ)
    → 128 ≤ v
    → bit_length (suc (suc (suc (suc (suc (suc (suc fuel))))))) v ≡ 7 + bit_length fuel (v / 128)
bit_length_byte fuel v h =
    let whole : v / 2 / 2 / 2 / 2 / 2 / 2 / 2 ≡ v / 128 = omega arith in
    let seven = bit_length_half fuel (v / 2 / 2 / 2 / 2 / 2 / 2) (omega arith) in
    omega (
      arith,
      bit_length_half (suc (suc (suc (suc (suc (suc fuel)))))) v (omega arith),
      bit_length_half (suc (suc (suc (suc (suc fuel))))) (v / 2) (omega arith),
      bit_length_half (suc (suc (suc (suc fuel)))) (v / 2 / 2) (omega arith),
      bit_length_half (suc (suc (suc fuel))) (v / 2 / 2 / 2) (omega arith),
      bit_length_half (suc (suc fuel)) (v / 2 / 2 / 2 / 2) (omega arith),
      bit_length_half (suc fuel) (v / 2 / 2 / 2 / 2 / 2) (omega arith),
      seven ∙ ap (λ (n : ℕ). 1 + bit_length fuel n) whole,
    )

size_of_one : (bits : ℕ) → bits ≤ 7 → size_of bits ≡ 1
unfolding size_of
size_of_one bits h = ground arith

size_of_more : (bits : ℕ) → 0 < bits → size_of (7 + bits) ≡ 1 + size_of bits
unfolding size_of
size_of_more bits h = ground arith

-- The buffer has `7 * fuel + 1` bits.
bits_for : ℕ → ℕ
bits_for zero = 1
bits_for (suc fuel) = suc (suc (suc (suc (suc (suc (suc (bits_for fuel)))))))

bits_for-pos : (fuel : ℕ) → (rest : ℕ) × (bits_for fuel ≡ suc rest)
unfolding bits_for
bits_for-pos zero = (0, refl)
bits_for-pos (suc fuel) = (_, refl)

bit_length_pos : (fuel v : ℕ) → 0 < v → 0 < bit_length (bits_for fuel) v
bit_length_pos fuel v h =
    let (rest, same) = bits_for-pos fuel in rw same (omega (arith, bit_length_half rest v h))

size-uvarint_loop :
    (fuel v : ℕ) → size_of (bit_length (bits_for fuel) v) ≡ length (uvarint_loop fuel v)
unfolding uvarint_loop bits_for
size-uvarint_loop zero v = size_of_one (bit_length 1 v) (bit_length_one v) ∙ omega arith
size-uvarint_loop (suc fuel) v = elim (Bool-cases (ltb v 0x80)) [
  | inl t ↦ rw t (
      size_of_one (bit_length (bits_for (suc fuel)) v)
        (bit_length_le (bits_for (suc fuel)) 7 v (ground arith)))
  | inr t ↦ rw t (
      ap size_of (bit_length_byte (bits_for fuel) v (ground arith))
      ∙ size_of_more (bit_length (bits_for fuel) (v / 128))
          (bit_length_pos fuel (v / 128) (ground arith))
      ∙ ap (λ (n : ℕ). 1 + n) (size-uvarint_loop fuel (v / 128))
      ∙ omega arith)
]

size-uvarint : (v : ℕ) → uvarint_size v ≡ length (uvarint v)
unfolding uvarint_size uvarint bits_for
size-uvarint v = size-uvarint_loop 9 v

-- uvarintSize of a number is the number of bytes that binary.PutUvarint writes for it, so toUvarint
-- never writes past its buffer, and returns those bytes.
pub to_uvarint_lem :
    (v : ℕ) → (uvarint_size v ≡ length (uvarint v)) × (to_uvarint v ≡ some (uvarint v))
unfolding to_uvarint
to_uvarint_lem v = (size-uvarint v, rw (size-uvarint v) (ground arith))
