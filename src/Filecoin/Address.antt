-- ===== src/Filecoin/Address.antt =====
-- signing/filecoin/utils.go: ValidAddress, addressToBytes, toBytes, hash and validateChecksum.
pub mod Valid
pub mod Sound
use wallet_sdk.Common.{
  ℕ, ◌+◌, ◌-◌, ◌≡◌, Bool, true, false, ◌&&◌, ◌||◌, not, Option, none, some, List, [], ◌∷◌, ◌++◌,
  ltb, leb, ◌==◌, if◌then◌else◌, Bytes, bytes_eq, length, take, drop, Result, ok, err,
}
use wallet_sdk.Go.Strconv.{parsed, parse_uint}
use wallet_sdk.Filecoin.Uvarint.{from_uvarint, to_uvarint}

-- type Protocol = int8
abbrev pub id_protocol : ℕ
id_protocol = 0

abbrev pub secp256k1 : ℕ
secp256k1 = 1

abbrev pub actor : ℕ
actor = 2

abbrev pub bls : ℕ
bls = 3

abbrev pub payload_hash_length : ℕ
payload_hash_length = 20

abbrev pub checksum_hash_length : ℕ
checksum_hash_length = 4

abbrev pub mainnet_prefix : ℕ
mainnet_prefix = b'f'

-- The test of toBytes on the payload.
abbrev pub fits_protocol : ℕ → Bytes → Bool
fits_protocol protocol payload =
    if protocol == id_protocol
    then elim (from_uvarint payload) [ ok r ↦ r.1 == length payload | err e ↦ false ]
    else if protocol == secp256k1 || protocol == actor
    then length payload == 20
    else if protocol == bls
    then length payload == 48
    else false

-- toBytes; `none` is the nil that stands for an invalid address.
abbrev pub to_bytes : ℕ → Bytes → Option Bytes
to_bytes protocol payload =
    if fits_protocol protocol payload then some (protocol ∷ payload) else none

abbrev pub protocol_of : ℕ → Option ℕ
protocol_of c =
    if c == b'0'
    then some id_protocol
    else if c == b'1'
    then some secp256k1
    else if c == b'2'
    then some actor
    else if c == b'3'
    then some bls
    else none

-- github.com/dchest/blake2b at a digest size, and encoding/base32 in the alphabet of the file and
-- without padding; `none` is an error.
pub record Hashing : Type 0 where
  pub blake2b : ℕ → Bytes → Option Bytes
  pub base32_decode : Bytes → Option Bytes

module _ (lib : Hashing) where
  open lib use {blake2b, base32_decode}

  abbrev pub hash : Bytes → ℕ → Option Bytes
  hash ingest size = blake2b size ingest

  -- An error of the hash leaves a nil digest.
  abbrev pub validate_checksum : Bytes → Bytes → Bool
  validate_checksum ingest expect = elim (hash ingest checksum_hash_length) [
    | none ↦ bytes_eq [] expect
    | some digest ↦ bytes_eq digest expect
  ]

  -- The part of addressToBytes behind the two letters, for an ID address; the outer `none` is
  -- the panic of toUvarint on a short buffer.
  abbrev pub id_address : Bytes → Option (Option Bytes)
  id_address raw = if ltb 20 (length raw) then some none else elim (parsed (parse_uint raw)) [
    | none ↦ some none
    | some id ↦ elim (to_uvarint id) [
      | none ↦ none
      | some payload ↦ some (to_bytes id_protocol payload)
    ]
  ]

  -- And for the others: the last four bytes are the checksum.
  abbrev pub checked_address : ℕ → Bytes → Option Bytes
  checked_address protocol both =
      let payload = take (length both - 4) both in
      let cksm = drop (length both - 4) both in
      if ltb (length both) checksum_hash_length
      then none
      else if (protocol == secp256k1 || protocol == actor) && not (length payload == 20)
      then none
      else if not (validate_checksum (protocol ∷ payload) cksm)
      then none
      else to_bytes protocol payload

  abbrev pub hashed_address : ℕ → Bytes → Option Bytes
  hashed_address protocol raw = elim (base32_decode raw) [
    | none ↦ none
    | some both ↦ checked_address protocol both
  ]

  unfoldable pub address_to_bytes : Bytes → Option (Option Bytes)
  address_to_bytes (a ∷ p ∷ r ∷ raw) =
      if not (a == mainnet_prefix) then some none else elim (protocol_of p) [
        | none ↦ some none
        | some protocol ↦
            if protocol == id_protocol
            then id_address (r ∷ raw)
            else some (hashed_address protocol (r ∷ raw))
      ]
  address_to_bytes addr = some none

  -- ValidAddress, where addressToBytes returns.
  unfoldable pub valid_address : Bytes → Option Bool
  unfolding address_to_bytes
  valid_address address = elim (address_to_bytes address) [
    | none ↦ none
    | some none ↦ some false
    | some (some b) ↦ some true
  ]
