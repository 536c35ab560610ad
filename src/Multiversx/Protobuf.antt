-- ===== src/Multiversx/Protobuf.antt =====
-- signing/multiversx/protobuf.go: protoTx, Marshal, marshalValue and appendVarint.
pub mod Fields
pub mod Injective
use wallet_sdk.Common.{
  ℕ, ◌==◌, Bool, true, false, Option, none, some, List, [], ◌∷◌, ◌++◌, ltb, if◌then◌else◌, Bytes,
  length,
}
use wallet_sdk.Codec.Uvarint.{uvarint, len_prefix}

-- A *big.Int: whether Sign() is negative, and Bytes(), which has the absolute value with the
-- high byte first and without a leading zero.
pub record BigInt : Type 0 where
  pub negative : Bool
  pub bytes : Bytes

pub record ProtoTx : Type 0 where
  pub nonce : ℕ
  pub value : Option BigInt
  pub rcv_addr : Bytes
  pub snd_addr : Bytes
  pub gas_price : ℕ
  pub gas_limit : ℕ
  pub data_field : Bytes
  pub chain_id : Bytes
  pub version : ℕ
  pub signature : Bytes

-- The sign byte in front of the absolute value, which is never empty.
unfoldable pub signed_bytes : Bool → Bytes → Bytes
signed_bytes negative [] = 0 ∷ 0 ∷ []
signed_bytes true (x ∷ raw) = 1 ∷ x ∷ raw
signed_bytes false (x ∷ raw) = 0 ∷ x ∷ raw

unfoldable pub marshal_value : Option BigInt → Bytes
unfolding signed_bytes
marshal_value none = 0 ∷ []
marshal_value (some a) = signed_bytes a.negative a.bytes

-- `if v != 0 { append(b, tag); appendVarint(b, v) }`
unfoldable pub varint_field : ℕ → ℕ → Bytes
varint_field tag v = if v == 0 then [] else tag ∷ uvarint v

-- `append(b, tag); appendVarint(b, uint64(len(data))); append(b, data...)`
unfoldable pub blob : ℕ → Bytes → Bytes
blob tag payload = tag ∷ len_prefix payload

-- The same, where there are bytes.
unfoldable pub blob_field : ℕ → Bytes → Bytes
unfolding blob
blob_field tag [] = []
blob_field tag (x ∷ xs) = blob tag (x ∷ xs)

unfoldable pub marshal : ProtoTx → Bytes
unfolding varint_field blob blob_field
marshal t =
    varint_field 0x08 t.nonce
    ++ blob 0x12 (marshal_value t.value)
    ++ blob_field 0x1a t.rcv_addr
    ++ blob_field 0x2a t.snd_addr
    ++ varint_field 0x38 t.gas_price
    ++ varint_field 0x40 t.gas_limit
    ++ blob_field 0x4a t.data_field
    ++ blob_field 0x52 t.chain_id
    ++ varint_field 0x58 t.version
    ++ blob_field 0x62 t.signature
