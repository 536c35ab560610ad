-- ===== src/Utxo/Types.antt =====
-- signing/utxo/tx.go and utils.go: the ingredient, the builder, the constants and the errors.
use wallet_sdk.Common.{ℕ, Bool, Option, List, Bytes, codes}
use wallet_sdk.UtxoList.{UtxoInfo}

-- The coins are pointers: no list is `none`, and so is a coin that is nil.
pub record Ingredient : Type 0 where
  pub sender : Bytes
  pub sender_public_key : Bytes
  pub recipient : Bytes
  pub amount : Bytes
  pub byte_fee : Bytes
  pub utxos : Option (List (Option UtxoInfo))
  pub is_psbt : Bool
  pub memo : Bytes

pub record TxBuilder : Type 0 where
  pub ingredient : Option Ingredient
  pub network : Bytes
  pub unsigned_hex : Bytes
  pub sig_hash : List Bytes
  pub tx_hash : Bytes

abbrev pub network_btc : Bytes
network_btc = codes "0"

abbrev pub network_ltc : Bytes
network_ltc = codes "1"

abbrev pub network_doge : Bytes
network_doge = codes "2"

abbrev pub network_btc_p2tr : Bytes
network_btc_p2tr = codes "3"

abbrev pub network_sys : Bytes
network_sys = codes "4"

-- The amount that asks for all: 2^256 - 1 in decimal.
abbrev pub magic_max_amount : Bytes
magic_max_amount =
    codes "115792089237316195423570985008687907853269984665640564039457584007913129639935"

abbrev pub magic_native_address : Bytes
magic_native_address = codes "0xeeeeeeeeeeeeeeeeeeeeeeeeeeeeeeeeeeeeeeee"

abbrev pub default_dust : ℕ
default_dust = 546

abbrev pub doge_dust : ℕ
doge_dust = 100000

abbrev pub doge_min_fee : ℕ
doge_min_fee = 5000000

abbrev pub max_memo_bytes : ℕ
max_memo_bytes = 80

pub data TxError : Type 0 where
  tx_nil ingredient_nil no_utxos invalid_recipient invalid_sender : TxError
  invalid_byte_fee invalid_amount invalid_utxo_value unsupported_network : TxError
  bad_recipient_script bad_change_script : TxError
  invalid_memo memo_too_long memo_script_failed : TxError
  sweep_below_dust : ℕ → ℕ → TxError
  amount_below_dust : ℕ → TxError
  value_too_large : TxError
  bad_utxo_hash bad_output_address bad_output_script bad_sender bad_sender_script : TxError
  sig_hash_failed serialize_failed : TxError
  taproot_psbt not_taproot_sender bad_utxo_script not_taproot_output : TxError
  new_packet_failed sanity_check_failed : TxError
  sig_hash_missing bad_sig_hash_hex sign_failed : TxError
  bad_public_key_hex bad_unsigned_hex deserialize_failed signature_count der_format : TxError
  bad_signature_hex updater_failed outcome_not_zero finalize_failed extract_failed : TxError
  taproot_signature_size script_builder_failed : TxError
