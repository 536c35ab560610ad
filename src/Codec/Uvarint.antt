-- ===== src/Codec/Uvarint.antt =====
-- The variable-length integers of seven bits a byte: bcsEncoder.uleb128 of signing/aptos/bcs.go,
-- suiEnc.uleb of signing/sui/bcs.go and appendVarint of signing/multiversx/protobuf.go are one loop.
use wallet_sdk.Common.{
  ℕ, zero, suc, ◌/◌, ◌%◌, ◌^◌, ◌<◌, ◌≡◌, refl, arith, bit_or, List, [], ◌∷◌, ◌++◌, Bytes, length,
  ltb, if◌then◌else◌, All, sym, ◌∙◌, append_assoc,
}
use wallet_sdk.Common.Bits.{set_top_bit}
use wallet_sdk.Codec.Split.{Splits, fixed-Splits}

-- `for v >= 0x80 { append(byte(v) | 0x80); v >>= 7 }; append(byte(v))`, in at most `fuel` rounds.
unfoldable pub uvarint_loop : ℕ → ℕ → Bytes
uvarint_loop zero v = v % 256 ∷ []
uvarint_loop (suc fuel) v =
    let more = bit_or (v % 256) 0x80 ∷ uvarint_loop fuel (v / 2 ^ 7) in
    if ltb v 0x80 then v % 256 ∷ [] else more

-- Nine rounds are enough for a uint64.
unfoldable pub uvarint : ℕ → Bytes
unfolding uvarint_loop
uvarint v = uvarint_loop 9 v

-- With any fuel that is enough, the loop ends by its test: more fuel changes nothing.
pub uvarint_fuel :
    (fuel v : ℕ) → v < 128 ^ suc fuel → uvarint_loop (suc fuel) v ≡ uvarint_loop fuel v
unfolding uvarint_loop
uvarint_fuel zero v h = ground arith
uvarint_fuel (suc fuel) v h = ground (arith, uvarint_fuel fuel (v / 2 ^ 7) (omega arith))

uvarint_loop-Splits : (fuel : ℕ) → Splits (λ v. v < 128 ^ suc fuel) (uvarint_loop fuel)
unfolding uvarint_loop
uvarint_loop-Splits zero a b r s p q e = ground arith
uvarint_loop-Splits (suc fuel) a b r s p q e = ground (
  arith,
  set_top_bit (a % 256),
  set_top_bit (b % 256),
  uvarint_loop-Splits fuel (a / 2 ^ 7) (b / 2 ^ 7) r s (omega arith) (omega arith),
)

-- The bytes of a uint64 in this form, with whatever follows them, determine it and the rest.
pub uvarint-Splits : Splits (λ v. v < 2 ^ 64) uvarint
unfolding uvarint
uvarint-Splits a b r s p q = uvarint_loop-Splits 9 a b r s (omega arith) (omega arith)

-- Bytes behind their length.
abbrev pub len_prefix : Bytes → Bytes
len_prefix bytes = uvarint (length bytes) ++ bytes

pub len_prefix-Splits : Splits (λ b. length b < 2 ^ 64) len_prefix
len_prefix-Splits a b r s p q e =
    let (same, rest) =
      uvarint-Splits (length a) (length b) (a ++ r) (b ++ s) p q
        (sym (append_assoc (uvarint (length a)) a r) ∙ e ∙ append_assoc (uvarint (length b)) b s) in
    fixed-Splits (length b) a b r s same refl rest

module _ {A : Type 0} (f : A → Bytes) where
  abbrev pub all_bytes : List A → Bytes
  all_bytes [] = []
  all_bytes (x ∷ xs) = f x ++ all_bytes xs

  -- A list behind its length.
  abbrev pub counted : List A → Bytes
  counted xs = uvarint (length xs) ++ all_bytes xs

  module _ (P : A → Type 0) (split : Splits P f) where
    pub all_bytes-split :
        (a b : List A) (r s : Bytes)
        → length a ≡ length b
        → All P a
        → All P b
        → all_bytes a ++ r ≡ all_bytes b ++ s
        → (a ≡ b) × (r ≡ s)
    all_bytes-split [] [] r s l p q e = (refl, e)
    all_bytes-split [] (y ∷ b) r s l p q e = absurd (omega arith)
    all_bytes-split (x ∷ a) [] r s l p q e = absurd (omega arith)
    all_bytes-split (x ∷ a) (y ∷ b) r s l (px, pa) (py, qb) e =
        let (head, rest) =
          split x y (all_bytes a ++ r) (all_bytes b ++ s) px py
            (sym (append_assoc (f x) (all_bytes a) r) ∙ e ∙ append_assoc (f y) (all_bytes b) s) in
        let (tail, end) = all_bytes-split a b r s (omega arith) pa qb rest in (cc (head, tail), end)

    pub counted-Splits : Splits (λ xs. All P xs × (length xs < 2 ^ 64)) counted
    counted-Splits a b r s (pa, la) (qb, lb) e =
        let (same, rest) =
          uvarint-Splits (length a) (length b) (all_bytes a ++ r) (all_bytes b ++ s) la lb (
            sym (append_assoc (uvarint (length a)) (all_bytes a) r)
            ∙ e
            ∙ append_assoc (uvarint (length b)) (all_bytes b) s) in
        all_bytes-split a b r s same pa qb rest
