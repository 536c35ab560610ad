-- ===== src/Aptos/Bcs.antt =====
-- signing/aptos/bcs.go: the encoder, whose methods append to its buffer, and what it encodes.
-- A uint8 is a number below 256, a uint64 one below 2^64, an address a list of 32 bytes.
pub mod Layout
pub mod Unique
use wallet_sdk.Common.{
  ℕ, zero, suc, ◌+◌, ◌%◌, ◌≡◌, refl, Bool, true, false, ◌||◌, Option, none, some, List, [], ◌∷◌,
  ◌++◌, ltb, leb, ◌==◌, if◌then◌else◌, Bytes, codes, length, ◌&&◌, ◌-◌, replicate,
}
use wallet_sdk.Go.Words.{le64}
use wallet_sdk.Go.Hex.{hex_decode, decoded}
use wallet_sdk.Codec.Uvarint.{uvarint}

pub record BcsEncoder : Type 0 where
  pub buf : Bytes

unfoldable pub u8 : ℕ → BcsEncoder → BcsEncoder
u8 v e = record { buf = e.buf ++ v ∷ [] }

unfoldable pub u64 : ℕ → BcsEncoder → BcsEncoder
u64 v e = record { buf = e.buf ++ le64 v }

unfoldable pub uleb128 : ℕ → BcsEncoder → BcsEncoder
uleb128 v e = record { buf = e.buf ++ uvarint v }

unfoldable pub raw : Bytes → BcsEncoder → BcsEncoder
raw b e = record { buf = e.buf ++ b }

unfoldable pub len_prefixed : Bytes → BcsEncoder → BcsEncoder
unfolding uleb128
len_prefixed b e = let e' = uleb128 (length b) e in record { buf = e'.buf ++ b }

unfoldable pub str : Bytes → BcsEncoder → BcsEncoder
str s e = len_prefixed s e

-- typeTagStruct is the only type tag of the package.
mutual
  pub data TypeTag : Type 0 where
    struct : (addr module_name name : Bytes) → TypeTags → TypeTag

  pub data TypeTags : Type 0 where
    nil : TypeTags
    cons : TypeTag → TypeTags → TypeTags

unfoldable pub count_tags : TypeTags → ℕ
count_tags nil = 0
count_tags (cons t ts) = suc (count_tags ts)

-- encodeTag, and the loop over type arguments.
unfoldable mutual
  pub encode_tag : TypeTag → BcsEncoder → BcsEncoder
  encode_tag (struct addr module_name name type_args) e =
      encode_tags type_args
        (uleb128 (count_tags type_args) (str name (str module_name (raw addr (uleb128 7 e)))))

  pub encode_tags : TypeTags → BcsEncoder → BcsEncoder
  encode_tags nil e = e
  encode_tags (cons t ts) e = encode_tags ts (encode_tag t e)

pub record EntryFunction : Type 0 where
  pub module_addr : Bytes
  pub module_name : Bytes
  pub function : Bytes
  pub type_args : TypeTags
  pub args : List Bytes

unfoldable pub encode_args : List Bytes → BcsEncoder → BcsEncoder
encode_args [] e = e
encode_args (a ∷ more) e = encode_args more (len_prefixed a e)

unfoldable pub encode_payload : EntryFunction → BcsEncoder → BcsEncoder
encode_payload p e = encode_args p.args (
    uleb128 (length p.args) (
      encode_tags p.type_args (
        uleb128 (count_tags p.type_args)
          (str p.function (str p.module_name (raw p.module_addr (uleb128 2 e)))))))

pub record RawTransaction : Type 0 where
  pub sender : Bytes
  pub sequence_number : ℕ
  pub payload : EntryFunction
  pub max_gas_amount : ℕ
  pub gas_unit_price : ℕ
  pub expiration_timestamp_secs : ℕ
  pub chain_id : ℕ

unfoldable pub encode : RawTransaction → Bytes
encode r =
    let e = u8 r.chain_id (
      u64 r.expiration_timestamp_secs (
        u64 r.gas_unit_price (
          u64 r.max_gas_amount (
            encode_payload r.payload
              (u64 r.sequence_number (raw r.sender (record { buf = [] }))))))) in
    e.buf

unfoldable pub encode_u64_arg : ℕ → Bytes
encode_u64_arg v = let e = u64 v (record { buf = [] }) in e.buf

unfoldable pub encode_signed_transaction : Bytes → Bytes → Bytes → Bytes
encode_signed_transaction raw_bytes public_key signature =
    let e =
      len_prefixed signature
        (len_prefixed public_key (uleb128 0 (raw raw_bytes (record { buf = [] })))) in
    e.buf

-- TrimPrefix by "0x" and then by "0X".
abbrev trim_prefix : ℕ → Bytes → Bytes
trim_prefix x [] = []
trim_prefix x (a ∷ []) = a ∷ []
trim_prefix x (a ∷ b ∷ s) = if a == b'0' && b == x then s else a ∷ b ∷ s

-- A digit in front where their number is odd.
abbrev even_digits : Bytes → Bytes
even_digits s = if length s % 2 == 0 then s else b'0' ∷ s

-- The bytes at the end of an address of 32, zeros in front; `none` is an error.
unfoldable pub parse_hex_address : Bytes → Option Bytes
parse_hex_address s =
    elim (decoded (hex_decode (even_digits (trim_prefix b'X' (trim_prefix b'x' s))))) [
      | none ↦ none
      | some b ↦ if ltb 32 (length b) then none else some (replicate (32 - length b) 0 ++ b)
    ]
