-- ===== src/Codec/Split.antt =====
-- An encoding splits if what is encoded can be told from the bytes in front of any rest.
use native.Mathlib.Nat.{pow-suc}
use wallet_sdk.Common.{
  ℕ, zero, suc, ◌/◌, ◌%◌, ◌^◌, ◌<◌, ◌≡◌, refl, arith, [], ◌∷◌, ◌++◌, Bytes, length, append_assoc,
  sym, ◌∙◌,
}
use wallet_sdk.Go.Words.{le64}

abbrev pub Splits : {A : Type 0} → (A → Type 0) → (A → Bytes) → Type 0
Splits {A} P f = (a b : A) (r s : Bytes) → P a → P b → f a ++ r ≡ f b ++ s → (a ≡ b) × (r ≡ s)

-- The first of several encodings, before a rest.
pub peel :
    {A : Type 0} (P : A → Type 0) (f : A → Bytes)
    → Splits P f
    → (a b : A) (x y r s : Bytes) → P a
    → P b
    → (f a ++ x) ++ r ≡ (f b ++ y) ++ s
    → (a ≡ b) × (x ++ r ≡ y ++ s)
peel P f split a b x y r s pa pb e =
    split a b (x ++ r) (y ++ s) pa pb (sym (append_assoc (f a) x r) ∙ e ∙ append_assoc (f b) y s)

-- Byte slices of one length.
pub fixed-Splits : (n : ℕ) → Splits (λ a. length a ≡ n) (λ a. a)
fixed-Splits n [] [] r s p q e = (refl, e)
fixed-Splits n [] (y ∷ b) r s p q e = absurd (omega arith)
fixed-Splits n (x ∷ a) [] r s p q e = absurd (omega arith)
fixed-Splits zero (x ∷ a) (y ∷ b) r s p q e = absurd (omega arith)
fixed-Splits (suc n) (x ∷ a) (y ∷ b) r s p q e =
    ground (arith, fixed-Splits n a b r s (omega arith) (omega arith))

pub byte-Splits : Splits (λ v. v < 256) (λ v. v ∷ [])
byte-Splits a b r s p q e = ground arith

le_bytes : ℕ → ℕ → Bytes
le_bytes zero v = []
le_bytes (suc n) v = v % 256 ∷ le_bytes n (v / 256)

digit-lt : (n v : ℕ) → v < 256 ^ suc n → v / 256 < 256 ^ n
digit-lt n v h = omega (arith, pow-suc 256 n)

le_bytes-Splits : (n : ℕ) → Splits (λ v. v < 256 ^ n) (le_bytes n)
unfolding le_bytes
le_bytes-Splits zero a b r s p q e = (omega arith, e)
le_bytes-Splits (suc n) a b r s p q e =
    ground (arith, le_bytes-Splits n (a / 256) (b / 256) r s (digit-lt n a p) (digit-lt n b q))

le64-le_bytes : (v : ℕ) → le64 v ≡ le_bytes 8 v
unfolding le_bytes le64
le64-le_bytes v = ground arith

-- The eight bytes of a uint64, the low one first.
pub le64-Splits : Splits (λ v. v < 2 ^ 64) le64
le64-Splits a b r s p q e =
    le_bytes-Splits 8 a b r s p q (rw (← le64-le_bytes a, ← le64-le_bytes b) e)
