-- ===== src/Kaspa/Bech32/Text.antt =====
-- signing/kaspa/bech32.go: decode undoes encode.
use wallet_sdk.Common.{
  ℕ, ◌<◌, Bool, true, false, not, ◌&&◌, ◌||◌, ◌==◌, ltb, leb, ==_iff, Option, none, some, ◌≡◌, refl,
  ap, arith, [], ◌∷◌, ◌++◌, map, Bytes, length, get_or, All, ok,
}
use wallet_sdk.Kaspa.Bech32.{
  charset, index_byte, last_index_byte, decode_from_base32, encode_to_base32, all_below_charset,
  all_printable, to_lower,
}
use wallet_sdk.Kaspa.Bech32.Bits.{all_below}
use wallet_sdk.Kaspa.Bech32.Groups.{all_below-holds}

-- A character that a text in small letters may have.
abbrev pub plain : ℕ → Bool
plain c = not (ltb c 33 || ltb 126 c) && not (leb 65 c && leb c 90)

abbrev pub letter : ℕ → ℕ
letter d = get_or charset d 0

abbrev found_at : ℕ → Option ℕ → Bool
found_at d none = false
found_at d (some i) = i == d

found_at-some : (d : ℕ) (o : Option ℕ) → found_at d o ≡ true → o ≡ some d
found_at-some d none h = absurd (ground arith)
found_at-some d (some i) h = ap (λ (t : ℕ). some t) ((==_iff i d).0 h)

letters_found : all_below (λ d. found_at d (index_byte (letter d) charset)) 32 ≡ true
unfolding index_byte
letters_found = refl

letters_plain : all_below (λ d. plain (letter d) && not (letter d == b':')) 32 ≡ true
letters_plain = refl

letter_index : (d : ℕ) → d < 32 → index_byte (letter d) charset ≡ some d
letter_index d h =
    found_at-some d (index_byte (letter d) charset)
      (all_below-holds (λ d. found_at d (index_byte (letter d) charset)) 32 letters_found d h)

letter-plain : (d : ℕ) → d < 32 → (plain (letter d) ≡ true) × ((letter d == b':') ≡ false)
letter-plain d h =
    let both =
      all_below-holds (λ d. plain (letter d) && not (letter d == b':')) 32 letters_plain d h in
    (ground arith, ground arith)

below : (ds : Bytes) → All (λ d. d < 32) ds → all_below_charset ds ≡ true
unfolding all_below_charset
below [] h = refl
below (d ∷ ds) (h, hs) = ground (arith, below ds hs)

pub encode_to_base32-map : (ds : Bytes) → All (λ d. d < 32) ds → encode_to_base32 ds ≡ map letter ds
unfolding encode_to_base32
encode_to_base32-map ds h = rw (below ds h) refl

pub decode_from_base32-map :
    (ds : Bytes) → All (λ d. d < 32) ds → decode_from_base32 (map letter ds) ≡ ok ds
unfolding decode_from_base32
decode_from_base32-map [] h = refl
decode_from_base32-map (d ∷ ds) (h, hs) = rw (letter_index d h, decode_from_base32-map ds hs) refl

pub letters-plain : (ds : Bytes) → All (λ d. d < 32) ds → All (λ c. plain c ≡ true) (map letter ds)
letters-plain [] h = tt
letters-plain (d ∷ ds) (h, hs) = ((letter-plain d h).0, letters-plain ds hs)

pub no_colon : (ds : Bytes) → All (λ d. d < 32) ds → last_index_byte b':' (map letter ds) ≡ none
unfolding last_index_byte
no_colon [] h = refl
no_colon (d ∷ ds) (h, hs) = rw (no_colon ds hs, (letter-plain d h).1) refl

pub last_colon :
    (prefix rest : Bytes)
    → last_index_byte b':' rest ≡ none
    → last_index_byte b':' (prefix ++ b':' ∷ rest) ≡ some (length prefix)
unfolding last_index_byte
last_colon [] rest h = rw h refl
last_colon (c ∷ cs) rest h = rw (last_colon cs rest h) refl

pub printable : (text : Bytes) → All (λ c. plain c ≡ true) text → all_printable text ≡ true
unfolding all_printable
printable [] h = refl
printable (c ∷ cs) (h, hs) = ground (arith, printable cs hs)

pub lower_same : (text : Bytes) → All (λ c. plain c ≡ true) text → to_lower text ≡ text
unfolding to_lower
lower_same [] h = refl
lower_same (c ∷ cs) (h, hs) =
    let small : (leb 65 c && leb c 90) ≡ false = ground arith in rw (small, lower_same cs hs) refl
