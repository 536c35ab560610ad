-- ===== src/Multiversx/Protobuf/Fields.antt =====
-- signing/multiversx/protobuf.go: that each field, with what follows it, determines its value.
use wallet_sdk.Common.{
  ℕ, ◌^◌, ◌<◌, ◌≡◌, ◌≢◌, refl, arith, ◌==◌, Bool, true, false, Option, none, some, [], ◌∷◌, ◌++◌,
  Bytes, length, sym, ◌∙◌, Bool-cases, inl, inr,
}
use wallet_sdk.Codec.Uvarint.{uvarint, uvarint-Splits, len_prefix-Splits}
use wallet_sdk.Multiversx.Protobuf.{
  BigInt, signed_bytes, marshal_value, varint_field, blob, blob_field,
}

-- An absolute value has no leading zero, and zero is not negative.
unfoldable pub IsSigned : Bool → Bytes → Type 0
IsSigned negative [] = negative ≡ false
IsSigned negative (x ∷ raw) = 0 < x

unfoldable pub IsBigInt : Option BigInt → Type 0
IsBigInt none = Unit {0}
IsBigInt (some a) = IsSigned a.negative a.bytes

signed_bytes-eq :
    (m n : Bool) (a b : Bytes)
    → IsSigned m a
    → IsSigned n b
    → signed_bytes m a ≡ signed_bytes n b
    → (m ≡ n) × (a ≡ b)
unfolding IsSigned signed_bytes
signed_bytes-eq m n [] [] p q e = (p ∙ sym q, refl)
signed_bytes-eq m true [] (x ∷ b) p q e = ground arith
signed_bytes-eq m false [] (x ∷ b) p q e = ground arith
signed_bytes-eq true n (x ∷ a) [] p q e = ground arith
signed_bytes-eq false n (x ∷ a) [] p q e = ground arith
signed_bytes-eq true true (x ∷ a) (y ∷ b) p q e = ground arith
signed_bytes-eq true false (x ∷ a) (y ∷ b) p q e = ground arith
signed_bytes-eq false true (x ∷ a) (y ∷ b) p q e = ground arith
signed_bytes-eq false false (x ∷ a) (y ∷ b) p q e = ground arith

signed_bytes-ne-nil : (m : Bool) (a : Bytes) → signed_bytes m a ≢ 0 ∷ []
unfolding signed_bytes
signed_bytes-ne-nil m [] e = ground arith
signed_bytes-ne-nil true (x ∷ a) e = ground arith
signed_bytes-ne-nil false (x ∷ a) e = ground arith

-- marshalValue tells big integers and nil apart.
pub marshal_value_injective :
    (a b : Option BigInt) → IsBigInt a → IsBigInt b → marshal_value a ≡ marshal_value b → a ≡ b
unfolding marshal_value IsBigInt
marshal_value_injective none none p q e = refl
marshal_value_injective none (some b) p q e =
    absurd (signed_bytes-ne-nil b.negative b.bytes (sym e))
marshal_value_injective (some a) none p q e = absurd (signed_bytes-ne-nil a.negative a.bytes e)
marshal_value_injective (some a) (some b) p q e =
    let (m, n) = signed_bytes-eq a.negative b.negative a.bytes b.bytes p q e in ground (arith, m, n)

-- What follows a field begins with a higher tag, if anything follows.
unfoldable pub Above : ℕ → Bytes → Type 0
Above tag [] = Unit {0}
Above tag (x ∷ xs) = tag < x

tail-Above : (s t : ℕ) (r : Bytes) → s < t → Above t r → Above s r
unfolding Above
tail-Above s t [] h k = tt
tail-Above s t (x ∷ xs) h k = omega arith

pub varint_field-Above :
    (s t v : ℕ) (r : Bytes) → s < t → Above t r → Above s (varint_field t v ++ r)
unfolding Above varint_field
varint_field-Above s t v r h k = elim (Bool-cases (v == 0)) [
  | inl e ↦ rw e (tail-Above s t r h k)
  | inr e ↦ rw e h
]

pub blob_field-Above : (s t : ℕ) (b r : Bytes) → s < t → Above t r → Above s (blob_field t b ++ r)
unfolding Above blob_field blob
blob_field-Above s t [] r h k = tail-Above s t r h k
blob_field-Above s t (x ∷ b) r h k = h

not_above : {A : Type 0} (t : ℕ) (r s : Bytes) → Above t r → r ≡ t ∷ s → A
unfolding Above
not_above t [] s h e = absurd (ground arith)
not_above t (x ∷ r) s h e = absurd (ground arith)

-- A field that is there or not, with what follows, determines its value and the rest.
pub varint_field-split :
    (t a b : ℕ) (r s : Bytes)
    → a < 2 ^ 64
    → b < 2 ^ 64
    → Above t r
    → Above t s
    → varint_field t a ++ r ≡ varint_field t b ++ s
    → (a ≡ b) × (r ≡ s)
unfolding Above varint_field
varint_field-split t a b r s p q h k e = elim (Bool-cases (a == 0)) [
  | inl x ↦ elim (Bool-cases (b == 0)) [
    | inl y ↦ (ground arith, rw (varint_field, x, y) at e)
    | inr y ↦ not_above t r (uvarint b ++ s) h (rw (varint_field, x, y) at e)
  ]
  | inr x ↦ elim (Bool-cases (b == 0)) [
    | inl y ↦ not_above t s (uvarint a ++ r) k (sym (rw (varint_field, x, y) at e))
    | inr y ↦
        let both : t ∷ (uvarint a ++ r) ≡ t ∷ (uvarint b ++ s) = rw (varint_field, x, y) at e in
        uvarint-Splits a b r s p q cc
  ]
]

pub blob-split :
    (t : ℕ) (a b r s : Bytes)
    → length a < 2 ^ 64
    → length b < 2 ^ 64
    → blob t a ++ r ≡ blob t b ++ s
    → (a ≡ b) × (r ≡ s)
unfolding blob
blob-split t a b r s p q e = len_prefix-Splits a b r s p q cc

pub blob_field-split :
    (t : ℕ) (a b r s : Bytes)
    → length a < 2 ^ 64
    → length b < 2 ^ 64
    → Above t r
    → Above t s
    → blob_field t a ++ r ≡ blob_field t b ++ s
    → (a ≡ b) × (r ≡ s)
unfolding Above blob_field blob
blob_field-split t [] [] r s p q h k e = (refl, e)
blob_field-split t [] (y ∷ b) r s p q h k e = not_above t r _ h e
blob_field-split t (x ∷ a) [] r s p q h k e = not_above t s _ k (sym e)
blob_field-split t (x ∷ a) (y ∷ b) r s p q h k e = blob-split t (x ∷ a) (y ∷ b) r s p q e
