-- ===== src/Kaspa/Bech32/Correct.antt =====
-- signing/kaspa/bech32.go: correctAddress mends a checksum.
use wallet_sdk.Common.{
  ℕ, ◌+◌, ◌-◌, ◌<◌, true, false, not, ◌||◌, ltb, ◌≡◌, refl, ap, sym, ◌∙◌, arith, [], ◌∷◌, ◌++◌, map,
  Bytes, bytes_eq_refl, length, take, drop, All, All-append, length-append, length-map, take-append,
  err,
}
use wallet_sdk.Kaspa.Bech32.{
  checksum_length, decode_at, decode, encode, calculate_checksum, verify_checksum, checksum_failed,
  decode_address, mainnet, correct_address,
}
use wallet_sdk.Kaspa.Bech32.Text.{
  plain, letter, encode_to_base32-map, decode_from_base32-map, letters-plain, no_colon, last_colon,
  printable, lower_same,
}
use wallet_sdk.Kaspa.Bech32.Address.{
  calculate_checksum_lt, length-calculate_checksum, drop-append_after, mainnet-plain,
}

map-append : (f : ℕ → ℕ) (xs ys : Bytes) → map f (xs ++ ys) ≡ map f xs ++ map f ys
map-append f [] ys = refl
map-append f (x ∷ xs) ys = ap (λ (t : Bytes). f x ∷ t) (map-append f xs ys)

module _ (payload sum : Bytes) (few : length sum ≡ 8) (small : All (λ d. d < 32) payload)
    (small_sum : All (λ d. d < 32) sum)
    (wrong : verify_checksum mainnet (payload ++ sum) ≡ false) where
  abbrev whole : Bytes
  whole = payload ++ sum

  abbrev text : Bytes
  text = mainnet ++ b':' ∷ map letter whole

  abbrev right : Bytes
  right = calculate_checksum mainnet payload

  whole_small : All (λ d. d < 32) whole
  whole_small = All-append (λ d. d < 32) payload sum small small_sum

  decode_at-wrong :
      decode_at text (length mainnet)
      ≡ err (checksum_failed (map letter right) (drop (length text - 8) text))
  unfolding decode_at
  decode_at-wrong =
      let size : length (map letter whole) ≡ length payload + 8 =
        omega (arith, length-map whole letter, length-append payload sum, few) in
      let room : not
            (ltb (length mainnet) 1 || ltb (length text) (length mainnet + checksum_length + 1))
          ≡ true =
        ground (arith, length-append mainnet (b':' ∷ map letter whole), size) in
      let count : length whole - checksum_length ≡ length payload =
        omega (arith, length-append payload sum, few) in
      rw
        (
          room,
          take-append mainnet (b':' ∷ map letter whole),
          drop-append_after mainnet b':' (map letter whole),
          decode_from_base32-map whole whole_small,
          wrong,
          count,
          take-append payload sum,
          encode_to_base32-map right (calculate_checksum_lt mainnet payload),
        )
        refl

  decode-wrong :
      decode text ≡ err (checksum_failed (map letter right) (drop (length text - 8) text))
  unfolding decode
  decode-wrong =
      let all_plain =
        All-append (λ c. plain c ≡ true) mainnet (b':' ∷ map letter whole) mainnet-plain
          (refl, letters-plain whole whole_small) in
      let size : not (ltb (length text) (checksum_length + 2)) ≡ true = ground (
        arith,
        length-append mainnet (b':' ∷ map letter whole),
        length-map whole letter,
        length-append payload sum,
        few,
      ) in
      rw
        (
          size,
          printable text all_plain,
          lower_same text all_plain,
          bytes_eq_refl text,
          last_colon mainnet (map letter whole) (no_colon whole whole_small),
        )
        decode_at-wrong

  -- correctAddress on an address of the main network in small letters whose last eight characters
  -- are not its checksum: they are replaced by the checksum, as encode writes the address.
  pub correct_address-encode : correct_address text ≡ encode mainnet payload
  unfolding correct_address decode_address encode
  correct_address-encode =
      let front = mainnet ++ b':' ∷ map letter payload in
      let parts : text ≡ front ++ map letter sum =
        ap (λ (t : Bytes). mainnet ++ b':' ∷ t) (map-append letter payload sum) in
      let count : length text - length (map letter right) ≡ length front = omega (
        arith,
        ap length parts,
        length-append front (map letter sum),
        length-map sum letter,
        length-map right letter,
        few,
        length-calculate_checksum mainnet payload,
      ) in
      let kept : take (length text - length (map letter right)) text ≡ front =
        ap (λ (n : ℕ). take n text) count
        ∙ ap (take (length front)) parts
        ∙ take-append front (map letter sum) in
      let joined : front ++ map letter right ≡ encode mainnet payload =
        ap (λ (t : Bytes). mainnet ++ b':' ∷ t)
          (sym (map-append letter payload right)
            ∙ sym (
                encode_to_base32-map (payload ++ right) (
                  All-append (λ d. d < 32) payload right small
                    (calculate_checksum_lt mainnet payload)))) in
      let failed : decode_address text mainnet
          ≡ err (checksum_failed (map letter right) (drop (length text - 8) text)) =
        rw (decode_address, decode-wrong) refl in
      rw (correct_address, failed) (ap (λ (t : Bytes). t ++ map letter right) kept ∙ joined)
