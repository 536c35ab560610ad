-- ===== src/Utxo/Sign/Text.antt =====
-- signing/utxo/tx.go: the text of the signatures, split into what was joined.
use wallet_sdk.Common.{
  ℕ, ◌/◌, ◌%◌, ◌<◌, ◌≡◌, ◌≢◌, refl, arith, List, [], ◌∷◌, ◌++◌, Bytes, All, ap, ◌∙◌,
}
use wallet_sdk.Go.Hex.{hex_encode, hex_digit}
use wallet_sdk.Utxo.Sign.{join, add_first, split}

-- A text without a separator.
pub IsPlain : Bytes → Type 0
IsPlain t = All (λ c. c ≢ b'_') t

split-append : (t rest : Bytes) → IsPlain t → split (t ++ b'_' ∷ rest) ≡ t ∷ split rest
unfolding IsPlain split add_first
split-append [] rest h = refl
split-append (c ∷ t) rest (hc, ht) = ground (arith, split-append t rest ht)

split-plain : (t : Bytes) → IsPlain t → split t ≡ t ∷ []
unfolding IsPlain split add_first
split-plain [] h = refl
split-plain (c ∷ t) (hc, ht) = ground (arith, split-plain t ht)

-- Splitting gives back what was joined.
pub split-join :
    (t : Bytes) (ts : List Bytes) → All IsPlain (t ∷ ts) → split (join (t ∷ ts)) ≡ t ∷ ts
unfolding join
split-join t [] (h, hs) = split-plain t h
split-join t (u ∷ us) (h, hs) =
    split-append t (join (u ∷ us)) h ∙ ap (λ r. t ∷ r) (split-join u us hs)

hex_digit-plain : (d : ℕ) → d < 16 → hex_digit d ≢ b'_'
unfolding hex_digit
hex_digit-plain d h = ground arith

pub hex_encode-IsPlain : (bs : Bytes) → All (λ b. b < 256) bs → IsPlain (hex_encode bs)
unfolding IsPlain hex_encode
hex_encode-IsPlain [] h = tt
hex_encode-IsPlain (b ∷ bs) (hb, hbs) = (
  hex_digit-plain (b / 16) (omega arith),
  (hex_digit-plain (b % 16) (omega arith), hex_encode-IsPlain bs hbs),
)
