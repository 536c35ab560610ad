-- ===== src/Multiversx/Protobuf/Injective.antt =====
-- signing/multiversx/protobuf.go: that the bytes of a transaction determine it.
use wallet_sdk.Common.{
  ◌^◌, ◌<◌, ◌≡◌, arith, [], ◌++◌, Bytes, length, sym, ◌∙◌, append-nil, append_assoc,
}
use wallet_sdk.Multiversx.Protobuf.{ProtoTx, marshal_value, varint_field, blob, blob_field, marshal}
use wallet_sdk.Multiversx.Protobuf.Fields.{
  IsBigInt, Above, varint_field-Above, blob_field-Above, marshal_value_injective,
  varint_field-split, blob-split, blob_field-split,
}

-- The ranges of Go's types, and a value as math/big has it.
pub record IsProtoTx (t : ProtoTx) : Type 0 where
  pub nonce : t.nonce < 2 ^ 64
  pub value : IsBigInt t.value
  pub value_size : length (marshal_value t.value) < 2 ^ 64
  pub rcv_addr : length t.rcv_addr < 2 ^ 64
  pub snd_addr : length t.snd_addr < 2 ^ 64
  pub gas_price : t.gas_price < 2 ^ 64
  pub gas_limit : t.gas_limit < 2 ^ 64
  pub data_field : length t.data_field < 2 ^ 64
  pub chain_id : length t.chain_id < 2 ^ 64
  pub version : t.version < 2 ^ 32
  pub signature : length t.signature < 2 ^ 64

-- The bytes from a field on.
abbrev from_signature : ProtoTx → Bytes
from_signature t = blob_field 0x62 t.signature ++ []

abbrev from_version : ProtoTx → Bytes
from_version t = varint_field 0x58 t.version ++ from_signature t

abbrev from_chain_id : ProtoTx → Bytes
from_chain_id t = blob_field 0x52 t.chain_id ++ from_version t

abbrev from_data_field : ProtoTx → Bytes
from_data_field t = blob_field 0x4a t.data_field ++ from_chain_id t

abbrev from_gas_limit : ProtoTx → Bytes
from_gas_limit t = varint_field 0x40 t.gas_limit ++ from_data_field t

abbrev from_gas_price : ProtoTx → Bytes
from_gas_price t = varint_field 0x38 t.gas_price ++ from_gas_limit t

abbrev from_snd_addr : ProtoTx → Bytes
from_snd_addr t = blob_field 0x2a t.snd_addr ++ from_gas_price t

abbrev from_rcv_addr : ProtoTx → Bytes
from_rcv_addr t = blob_field 0x1a t.rcv_addr ++ from_snd_addr t

abbrev from_value : ProtoTx → Bytes
from_value t = blob 0x12 (marshal_value t.value) ++ from_rcv_addr t

abbrev from_nonce : ProtoTx → Bytes
from_nonce t = varint_field 0x08 t.nonce ++ from_value t

marshal-from_nonce : (t : ProtoTx) → marshal t ≡ from_nonce t
unfolding marshal
marshal-from_nonce t = simp (append_assoc, append-nil)

signature-Above : (t : ProtoTx) → Above 0x58 (from_signature t)
unfolding Above
signature-Above t = blob_field-Above 0x58 0x62 t.signature [] (omega arith) tt

version-Above : (t : ProtoTx) → Above 0x52 (from_version t)
version-Above t =
    varint_field-Above 0x52 0x58 t.version (from_signature t) (omega arith) (signature-Above t)

chain_id-Above : (t : ProtoTx) → Above 0x4a (from_chain_id t)
chain_id-Above t =
    blob_field-Above 0x4a 0x52 t.chain_id (from_version t) (omega arith) (version-Above t)

data_field-Above : (t : ProtoTx) → Above 0x40 (from_data_field t)
data_field-Above t =
    blob_field-Above 0x40 0x4a t.data_field (from_chain_id t) (omega arith) (chain_id-Above t)

gas_limit-Above : (t : ProtoTx) → Above 0x38 (from_gas_limit t)
gas_limit-Above t =
    varint_field-Above 0x38 0x40 t.gas_limit (from_data_field t) (omega arith) (data_field-Above t)

gas_price-Above : (t : ProtoTx) → Above 0x2a (from_gas_price t)
gas_price-Above t =
    varint_field-Above 0x2a 0x38 t.gas_price (from_gas_limit t) (omega arith) (gas_limit-Above t)

snd_addr-Above : (t : ProtoTx) → Above 0x1a (from_snd_addr t)
snd_addr-Above t =
    blob_field-Above 0x1a 0x2a t.snd_addr (from_gas_price t) (omega arith) (gas_price-Above t)

rcv_addr-Above : (t : ProtoTx) → Above 0x12 (from_rcv_addr t)
rcv_addr-Above t =
    blob_field-Above 0x12 0x1a t.rcv_addr (from_snd_addr t) (omega arith) (snd_addr-Above t)

signature_split :
    (a b : Bytes)
    → length a < 2 ^ 64
    → length b < 2 ^ 64
    → blob_field 0x62 a ++ [] ≡ blob_field 0x62 b ++ []
    → a ≡ b
unfolding Above
signature_split a b p q e = let (same, rest) = blob_field-split 0x62 a b [] [] p q tt tt e in same

value-Above : (t : ProtoTx) → Above 0x08 (from_value t)
unfolding Above blob
value-Above t = omega arith

-- Two transactions in the ranges of their types that Marshal writes as the same bytes are the
-- same transaction.
pub marshal_injective : (a b : ProtoTx) → IsProtoTx a → IsProtoTx b → marshal a ≡ marshal b → a ≡ b
marshal_injective a b p q e =
    let same : from_nonce a ≡ from_nonce b =
      sym (marshal-from_nonce a) ∙ e ∙ marshal-from_nonce b in
    let (e0, r0) =
      varint_field-split 0x08 a.nonce b.nonce (from_value a) (from_value b) p.nonce q.nonce
        (value-Above a) (value-Above b) same in
    let (e1, r1) =
      blob-split 0x12 (marshal_value a.value) (marshal_value b.value) (from_rcv_addr a)
        (from_rcv_addr b) p.value_size q.value_size r0 in
    let value = marshal_value_injective a.value b.value p.value q.value e1 in
    let (e2, r2) =
      blob_field-split 0x1a a.rcv_addr b.rcv_addr (from_snd_addr a) (from_snd_addr b) p.rcv_addr
        q.rcv_addr (snd_addr-Above a) (snd_addr-Above b) r1 in
    let (e3, r3) =
      blob_field-split 0x2a a.snd_addr b.snd_addr (from_gas_price a) (from_gas_price b) p.snd_addr
        q.snd_addr (gas_price-Above a) (gas_price-Above b) r2 in
    let (e4, r4) =
      varint_field-split 0x38 a.gas_price b.gas_price (from_gas_limit a) (from_gas_limit b)
        p.gas_price q.gas_price (gas_limit-Above a) (gas_limit-Above b) r3 in
    let (e5, r5) =
      varint_field-split 0x40 a.gas_limit b.gas_limit (from_data_field a) (from_data_field b)
        p.gas_limit q.gas_limit (data_field-Above a) (data_field-Above b) r4 in
    let (e6, r6) =
      blob_field-split 0x4a a.data_field b.data_field (from_chain_id a) (from_chain_id b)
        p.data_field q.data_field (chain_id-Above a) (chain_id-Above b) r5 in
    let (e7, r7) =
      blob_field-split 0x52 a.chain_id b.chain_id (from_version a) (from_version b) p.chain_id
        q.chain_id (version-Above a) (version-Above b) r6 in
    let (e8, r8) =
      varint_field-split 0x58 a.version b.version (from_signature a) (from_signature b)
        (omega (arith, p.version)) (omega (arith, q.version)) (signature-Above a)
        (signature-Above b) r7 in
    let e9 = signature_split a.signature b.signature p.signature q.signature r8 in
    ground (arith, e0, value, e2, e3, e4, e5, e6, e7, e8, e9)
