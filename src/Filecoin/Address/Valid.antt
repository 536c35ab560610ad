-- ===== src/Filecoin/Address/Valid.antt =====
-- signing/filecoin/utils.go: what a valid address is, and the ID addresses.
use wallet_sdk.Common.{
  ℕ, ◌^◌, ◌≤◌, ◌<◌, ◌≡◌, arith, some, [], ◌∷◌, length, append-nil, ok, ◌∙◌, ap, sym,
}
use wallet_sdk.Go.Strconv.{parsed, parse_uint, format_uint}
use wallet_sdk.Go.Strconv.Laws.{parse_uint-format_uint, length-format_uint, format_uint_cons}
use wallet_sdk.Codec.Uvarint.{uvarint}
use wallet_sdk.Filecoin.Uvarint.{from_uvarint}
use wallet_sdk.Filecoin.Uvarint.Size.{to_uvarint_lem}
use wallet_sdk.Filecoin.Uvarint.RoundTrip.{from_uvarint-uvarint}
use wallet_sdk.Filecoin.Address.{Hashing, id_protocol, to_bytes, id_address, address_to_bytes}

to_bytes_id : (v : ℕ) → v < 2 ^ 63 → to_bytes id_protocol (uvarint v) ≡ some (0 ∷ uvarint v)
to_bytes_id v h =
    let read : from_uvarint (uvarint v) ≡ ok (v, length (uvarint v)) =
      ap from_uvarint (sym (append-nil (uvarint v))) ∙ from_uvarint-uvarint v [] h in
    rw read (ground arith)

module _ (lib : Hashing) where
  id_address-format_uint :
      (v : ℕ) → v < 2 ^ 63 → id_address lib (format_uint v) ≡ some (some (0 ∷ uvarint v))
  id_address-format_uint v h =
      let short : length (format_uint v) ≤ 20 = length-format_uint v in
      let number : parsed (parse_uint (format_uint v)) ≡ some v =
        ap parsed (parse_uint-format_uint v (omega arith)) in
      rw number (rw (to_uvarint_lem v).1 (rw (to_bytes_id v h) (ground (arith, short))))

  -- The ID address of an actor number below 2^63, "f0" and the number in decimal, is valid: its
  -- bytes are the protocol 0 and the number as a uvarint.
  pub address_to_bytes-id :
      (v : ℕ)
      → v < 2 ^ 63
      → address_to_bytes lib (b'f' ∷ b'0' ∷ format_uint v) ≡ some (some (0 ∷ uvarint v))
  unfolding address_to_bytes
  address_to_bytes-id v h =
      let (c, cs, same) = format_uint_cons v in
      let number = id_address-format_uint v h in
      rw same (ap (λ s. id_address lib s) (sym same) ∙ number)
