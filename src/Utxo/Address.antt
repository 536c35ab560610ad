-- ===== src/Utxo/Address.antt =====
-- signing/utxo/utils.go: which addresses a network takes; scriptForAddress of tx.go.
use wallet_sdk.Common.{Bool, true, false, ◌||◌, Option, none, some, if◌then◌else◌, Bytes, bytes_eq}
use wallet_sdk.Utxo.Types.{
  network_btc, network_ltc, network_doge, network_btc_p2tr, network_sys, magic_native_address,
}
use wallet_sdk.Utxo.Btcd.{
  Btcd, Params, btc_params, ltc_params, doge_params, sys_params, AddressKind, pub_key_hash,
  script_hash, witness_pub_key_hash, witness_script_hash, taproot, other,
}

-- The type switch.
kind_allowed : AddressKind → Bool → Bool
kind_allowed pub_key_hash allow_segwit = true
kind_allowed script_hash allow_segwit = true
kind_allowed witness_pub_key_hash allow_segwit = allow_segwit
kind_allowed witness_script_hash allow_segwit = allow_segwit
kind_allowed taproot allow_segwit = allow_segwit
kind_allowed other allow_segwit = false

module _ (lib : Btcd) where
  open lib use {Address, decode_address, is_for_net, kind, pay_to_addr_script}

  unfoldable pub decode_address_for_net : Bytes → Params → Bool → Option Address
  unfolding kind_allowed
  decode_address_for_net address params allow_segwit = elim (decode_address address params) [
    | none ↦ none
    | some addr ↦
        if is_for_net addr params
        then if kind_allowed (kind addr) allow_segwit then some addr else none
        else none
  ]

  is_decoded : Option Address → Bool
  is_decoded none = false
  is_decoded (some a) = true

  unfoldable pub valid_address_for_net : Bytes → Params → Bool → Bool
  unfolding decode_address_for_net is_decoded
  valid_address_for_net address params allow_segwit =
      if bytes_eq address magic_native_address
      then true
      else is_decoded (decode_address_for_net address params allow_segwit)

  unfoldable pub valid_address : Bytes → Bytes → Bool
  unfolding valid_address_for_net
  valid_address address network =
      if bytes_eq network network_btc || bytes_eq network network_btc_p2tr
      then valid_address_for_net address btc_params true
      else if bytes_eq network network_ltc
      then valid_address_for_net address ltc_params true
      else if bytes_eq network network_doge
      then valid_address_for_net address doge_params false
      else if bytes_eq network network_sys
      then valid_address_for_net address sys_params true
      else false

  unfoldable pub script_for_address : Bytes → Params → Bool → Option Bytes
  unfolding decode_address_for_net
  script_for_address address params allow_segwit =
      elim (decode_address_for_net address params allow_segwit) [
        | none ↦ none
        | some addr ↦ pay_to_addr_script addr
      ]
