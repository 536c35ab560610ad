-- ===== src/Examples/Encodings.antt =====
-- Scripts, addresses and encoded transactions.
use wallet_sdk.Common.{
  ℕ, ◌^◌, ◌≡◌, ◌⊎◌, ◌↔◌, refl, arith, false, none, some, [], ◌∷◌, ◌++◌, Bytes, codes, ok, replicate,
  length, map,
}
use wallet_sdk.Kaspa.Script.{
  ScriptBuilder, new_script_builder, pub_key, pay_to_address_script, parse_script, classify_script,
  add_op, add_data, add_int64,
}
use wallet_sdk.Kaspa.Script.Classes.{schnorr, class_tokens, classify-pay_to_address_script}
use wallet_sdk.Kaspa.Script.Push.{pushes, token_of, parse_script-pushes}
use wallet_sdk.Kaspa.Script.Size.{IsSized, operations-IsSized, add_int64_panics}
use wallet_sdk.Codec.Uvarint.{uvarint}
use wallet_sdk.Go.Strconv.{format_uint}
use wallet_sdk.Aptos.Bcs.{RawTransaction, EntryFunction, TypeTags, count_tags}
use wallet_sdk.Aptos.Bcs.Unique.{IsTransaction, IsTags, encode_injective}
use wallet_sdk.Multiversx.Protobuf.{ProtoTx, marshal_value, signed_bytes}
use wallet_sdk.Multiversx.Protobuf.Fields.{IsBigInt, IsSigned}
use wallet_sdk.Multiversx.Protobuf.Injective.{IsProtoTx, marshal_injective}
use wallet_sdk.Filecoin.Uvarint.{from_uvarint, to_uvarint, uvarint_size}
use wallet_sdk.Filecoin.Uvarint.RoundTrip.{from_uvarint-uvarint}
use wallet_sdk.Filecoin.Uvarint.Size.{to_uvarint_lem}
use wallet_sdk.Filecoin.Address.{address_to_bytes}
use wallet_sdk.Filecoin.Address.Valid.{address_to_bytes-id}
use wallet_sdk.Filecoin.Address.Sound.{Told, address_to_bytes-Told}
use wallet_sdk.Examples.Library.{toy_hashing}

abbrev key : Bytes
key = replicate 32 7

classify-pay_to_address_script_example :
    (bytes : Bytes) × (pay_to_address_script 0 key ≡ ok bytes)
    × (parse_script bytes ≡ ok (class_tokens pub_key key))
    × (classify_script (class_tokens pub_key key) ≡ pub_key)
classify-pay_to_address_script_example = classify-pay_to_address_script (schnorr refl)

parse_script-pushes_example :
    parse_script (pushes (key ∷ (5 ∷ []) ∷ [])) ≡ ok (map token_of (key ∷ (5 ∷ []) ∷ []))
parse_script-pushes_example =
    parse_script-pushes (key ∷ (5 ∷ []) ∷ []) (omega arith, (omega arith, tt))

operations-IsSized_example :
    ((opcode : ℕ) → IsSized (add_op opcode new_script_builder))
    × ((bytes : Bytes) → IsSized (add_data bytes new_script_builder))
    × ((val : ℕ) (c : ScriptBuilder) → add_int64 val new_script_builder ≡ some c → IsSized c)
operations-IsSized_example = operations-IsSized new_script_builder (omega arith)

add_int64_panics_example : (add_int64 (2 ^ 63) new_script_builder ≡ none) ↔ (2 ^ 63 ≡ 2 ^ 63)
add_int64_panics_example =
    add_int64_panics (2 ^ 63) new_script_builder (omega arith) refl (omega arith)

from_uvarint-uvarint_example : from_uvarint (uvarint 300 ++ 9 ∷ []) ≡ ok (300, length (uvarint 300))
from_uvarint-uvarint_example = from_uvarint-uvarint 300 (9 ∷ []) (omega arith)

to_uvarint_lem_example :
    (uvarint_size 300 ≡ length (uvarint 300)) × (to_uvarint 300 ≡ some (uvarint 300))
to_uvarint_lem_example = to_uvarint_lem 300

address_to_bytes-id_example :
    address_to_bytes toy_hashing (b'f' ∷ b'0' ∷ format_uint 300) ≡ some (some (0 ∷ uvarint 300))
address_to_bytes-id_example = address_to_bytes-id toy_hashing 300 (omega arith)

abbrev hashed_text : Bytes
hashed_text = replicate 20 7 ++ 1 ∷ 7 ∷ 7 ∷ 7 ∷ []

address_to_bytes-Told_example :
    (address_to_bytes toy_hashing (b'f' ∷ b'1' ∷ hashed_text) ≡ some none)
    ⊎ ((letter : ℕ) × (raw : Bytes) × ((b'f' ∷ b'1' ∷ hashed_text) ≡ b'f' ∷ letter ∷ raw)
        × Told toy_hashing letter raw (address_to_bytes toy_hashing (b'f' ∷ b'1' ∷ hashed_text)))
address_to_bytes-Told_example = address_to_bytes-Told toy_hashing (b'f' ∷ b'1' ∷ hashed_text)

abbrev call : EntryFunction
call = record {
  module_addr = key;
  module_name = codes "coin";
  function = codes "transfer";
  type_args = TypeTags.nil;
  args = key ∷ [];
}

abbrev transaction : RawTransaction
transaction = record {
  sender = key;
  sequence_number = 3;
  payload = call;
  max_gas_amount = 2000;
  gas_unit_price = 100;
  expiration_timestamp_secs = 1700000000;
  chain_id = 1;
}

transaction-IsTransaction : IsTransaction transaction
unfolding count_tags
transaction-IsTransaction = record {
  sender = refl;
  sequence_number = omega arith;
  payload = record {
    addr = refl;
    name = omega arith;
    function = omega arith;
    tags = IsTags.is_nil;
    tag_count = omega arith;
    args = (omega arith, tt);
    arg_count = omega arith;
  };
  max_gas_amount = omega arith;
  gas_unit_price = omega arith;
  expiration = omega arith;
  chain_id = omega arith;
}

encode_injective_example : transaction ≡ transaction
encode_injective_example =
    encode_injective transaction transaction transaction-IsTransaction transaction-IsTransaction
      refl

abbrev transfer : ProtoTx
transfer = record {
  nonce = 300;
  value = some (record { negative = false; bytes = 1 ∷ 0 ∷ [] });
  rcv_addr = key;
  snd_addr = key;
  gas_price = 1000000000;
  gas_limit = 50000;
  data_field = [];
  chain_id = codes "1";
  version = 1;
  signature = [];
}

transfer-IsProtoTx : IsProtoTx transfer
unfolding marshal_value signed_bytes IsBigInt IsSigned
transfer-IsProtoTx = record {
  nonce = omega arith;
  value = omega arith;
  value_size = omega arith;
  rcv_addr = omega arith;
  snd_addr = omega arith;
  gas_price = omega arith;
  gas_limit = omega arith;
  data_field = omega arith;
  chain_id = omega arith;
  version = omega arith;
  signature = omega arith;
}

marshal_injective_example : transfer ≡ transfer
marshal_injective_example =
    marshal_injective transfer transfer transfer-IsProtoTx transfer-IsProtoTx refl
