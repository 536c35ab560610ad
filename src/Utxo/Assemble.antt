-- ===== src/Utxo/Assemble.antt =====
-- signing/utxo/tx.go: buildForBTC, buildForBTCP2TR, buildForLTC, buildForDOGE and buildForSYS. Each
-- returns the signature hashes and the unsigned transaction, both in hexadecimal.
pub mod Taproot
pub mod Outputs
pub mod Hashes
pub mod Shape
pub mod Balance
use wallet_sdk.Common.{
  ℕ, zero, suc, ◌+◌, ◌-◌, ◌*◌, ◌%◌, ◌^◌, ◌≡◌, refl, arith, Bool, true, false, Option, none, some,
  List, [], ◌∷◌, ◌++◌, if◌then◌else◌, Bytes, codes, bytes_eq, length, Result, ok, err, ◌>>=◌, ◌>>◌,
  guard, or_error, not,
}
use wallet_sdk.Go.Words.{mul_i64}
use wallet_sdk.Go.Strconv.{parse_int, parse_uint}
use wallet_sdk.Go.Hex.{hex_decode, hex_encode, decoded}
use wallet_sdk.UtxoList.{UtxoInfo}
use wallet_sdk.Utxo.Types
use wallet_sdk.Utxo.Types.{
  Ingredient, TxError, network_btc, network_ltc, network_sys, network_btc_p2tr,
}
use wallet_sdk.Utxo.Btcd.{
  Btcd, Params, btc_params, ltc_params, doge_params, sys_params, OutPoint, TxIn, TxOut, MsgTx,
  AddressKind,
}
use wallet_sdk.Utxo.Address.{decode_address_for_net, script_for_address}
use wallet_sdk.Utxo.Fee.{build_memo_script, memo_output_vbytes}
use wallet_sdk.Utxo.Plan.{Payments, total_has, plan_scripts, plan_doge}

-- wire.NewTxIn(outPoint, nil, nil), with its sequence number.
abbrev pub new_tx_in : Bytes → ℕ → ℕ → TxIn
new_tx_in hash index sequence = record {
  previous_out_point = record { hash = hash; index = index };
  signature_script = [];
  witness = [];
  sequence = sequence;
}

-- `uint32(index)`, of what ParseUint or, for Litecoin, ParseInt returns.
abbrev pub index_u : UtxoInfo → ℕ
index_u u = (parse_uint u.index).0 % 2 ^ 32

abbrev pub index_i : UtxoInfo → ℕ
index_i u = (parse_int u.index).0 % 2 ^ 32

abbrev memo_outs : Option Bytes → List TxOut
memo_outs none = []
memo_outs (some script) = record { value = 0; pk_script = script } ∷ []

abbrev pub script_or : Bytes → Bytes → Bytes
script_or [] pk_data = pk_data
script_or (c ∷ cs) pk_data = (hex_decode (c ∷ cs)).0

module _ (lib : Btcd) where
  open lib use {
    Packet, tx_version, max_tx_in_sequence_num, decode_address, kind, pay_to_addr_script,
    is_pay_to_taproot, new_hash_from_str, calc_witness_sig_hash, calc_signature_hash,
    calc_taproot_signature_hash, serialize, new_from_unsigned_tx, set_witness_utxo, sanity_check,
    serialize_packet,
  }

  -- The loop that adds the inputs.
  unfoldable pub inputs : (UtxoInfo → ℕ) → ℕ → List UtxoInfo → Result TxError (List TxIn)
  inputs index sequence [] = ok []
  inputs index sequence (u ∷ us) = do
    hash ← or_error (new_hash_from_str u.hash) Types.bad_utxo_hash
    rest ← inputs index sequence us
    ok (new_tx_in hash (index u) sequence ∷ rest)

  -- The loop that adds the outputs.
  unfoldable pub outputs : Params → Payments → Result TxError (List TxOut)
  outputs params [] = ok []
  outputs params ((address, amount) ∷ ps) = do
    addr ← or_error (decode_address address params) Types.bad_output_address
    script ← or_error (pay_to_addr_script addr) Types.bad_output_script
    rest ← outputs params ps
    ok (record { value = amount; pk_script = script } ∷ rest)

  -- The loops over the coins that calculate the signature hashes, from the input `idx` on.
  unfoldable pub witness_hashes : Bytes → MsgTx → ℕ → List UtxoInfo → Result TxError (List Bytes)
  witness_hashes pk_data tx idx [] = ok []
  witness_hashes pk_data tx idx (u ∷ us) = do
    hash ←
        or_error (calc_witness_sig_hash (script_or u.script pk_data) (parse_int u.value).0 tx idx)
          Types.sig_hash_failed
    rest ← witness_hashes pk_data tx (idx + 1) us
    ok (hex_encode hash ∷ rest)

  unfoldable pub legacy_hashes : Bytes → MsgTx → ℕ → List UtxoInfo → Result TxError (List Bytes)
  legacy_hashes pk_data tx idx [] = ok []
  legacy_hashes pk_data tx idx (u ∷ us) = do
    hash ← or_error (calc_signature_hash (script_or u.script pk_data) tx idx) Types.sig_hash_failed
    rest ← legacy_hashes pk_data tx (idx + 1) us
    ok (hex_encode hash ∷ rest)

  pub sender_script : Bytes → Params → Result TxError Bytes
  sender_script sender params = do
    addr ← or_error (decode_address sender params) Types.bad_sender
    or_error (pay_to_addr_script addr) Types.bad_sender_script

  pub finish_tx : List Bytes → MsgTx → Result TxError (List Bytes × Bytes)
  finish_tx hashes tx = do
    bytes ← or_error (serialize tx) Types.serialize_failed
    ok (hashes, hex_encode bytes)

  unfoldable pub build_for_btc : Ingredient → List UtxoInfo → Result TxError (List Bytes × Bytes)
  unfolding sender_script finish_tx
  build_for_btc i us = do
    let byte_fee = (parse_int i.byte_fee).0
    recipient_script ←
        or_error (script_for_address lib i.recipient btc_params true) Types.bad_recipient_script
    change_script ←
        or_error (script_for_address lib i.sender btc_params true) Types.bad_change_script
    memo_script ← build_memo_script lib i.memo
    payments ←
        plan_scripts lib network_btc byte_fee (length us) (total_has 0 us)
          (mul_i64 (memo_output_vbytes lib memo_script) byte_fee) i.amount i.recipient i.sender
          recipient_script change_script
    ins ← inputs index_u max_tx_in_sequence_num us
    outs ← outputs btc_params payments
    pk_data ← sender_script i.sender btc_params
    let tx : MsgTx = record {
      version = tx_version;
      tx_in = ins;
      tx_out = outs ++ memo_outs memo_script;
    }
    hashes ← witness_hashes pk_data tx 0 us
    finish_tx hashes tx

  -- No memo, and the index by ParseInt.
  unfoldable pub build_for_ltc : Ingredient → List UtxoInfo → Result TxError (List Bytes × Bytes)
  unfolding sender_script finish_tx
  build_for_ltc i us = do
    recipient_script ←
        or_error (script_for_address lib i.recipient ltc_params true) Types.bad_recipient_script
    change_script ←
        or_error (script_for_address lib i.sender ltc_params true) Types.bad_change_script
    payments ←
        plan_scripts lib network_ltc (parse_int i.byte_fee).0 (length us) (total_has 0 us) 0
          i.amount i.recipient i.sender recipient_script change_script
    ins ← inputs index_i max_tx_in_sequence_num us
    outs ← outputs ltc_params payments
    pk_data ← sender_script i.sender ltc_params
    let tx : MsgTx = record { version = tx_version; tx_in = ins; tx_out = outs }
    hashes ← witness_hashes pk_data tx 0 us
    finish_tx hashes tx

  unfoldable pub build_for_doge : Ingredient → List UtxoInfo → Result TxError (List Bytes × Bytes)
  unfolding sender_script finish_tx
  build_for_doge i us = do
    let byte_fee = (parse_int i.byte_fee).0
    memo_script ← build_memo_script lib i.memo
    payments ←
        plan_doge byte_fee (length us) (total_has 0 us)
          (mul_i64 (memo_output_vbytes lib memo_script) byte_fee) i.amount i.recipient i.sender
    ins ← inputs index_u max_tx_in_sequence_num us
    outs ← outputs doge_params payments
    pk_data ← sender_script i.sender doge_params
    let tx : MsgTx = record {
      version = tx_version;
      tx_in = ins;
      tx_out = outs ++ memo_outs memo_script;
    }
    hashes ← legacy_hashes pk_data tx 0 us
    finish_tx hashes tx

  -- The stores to packet.Inputs[idx].WitnessUtxo, each with its sanity check.
  witness_utxos : Bytes → ℕ → List UtxoInfo → Packet → Result TxError Packet
  witness_utxos pk_data idx [] packet = ok packet
  witness_utxos pk_data idx (u ∷ us) packet = do
    let packet' =
        set_witness_utxo idx (record { value = (parse_int u.value).0; pk_script = pk_data }) packet
    guard (sanity_check packet') Types.sanity_check_failed
    witness_utxos pk_data (idx + 1) us packet'

  finish_packet : List Bytes → Bytes → List UtxoInfo → MsgTx → Result TxError (List Bytes × Bytes)
  unfolding witness_utxos
  finish_packet hashes pk_data us tx = do
    packet ← or_error (new_from_unsigned_tx tx) Types.new_packet_failed
    packet' ← witness_utxos pk_data 0 us packet
    bytes ← or_error (serialize_packet packet') Types.serialize_failed
    ok (hashes, hex_encode bytes)

  -- Version 2, the sequence number less 2, and a PSBT packet as the result.
  unfoldable pub build_for_sys : Ingredient → List UtxoInfo → Result TxError (List Bytes × Bytes)
  unfolding sender_script finish_packet
  build_for_sys i us = do
    recipient_script ←
        or_error (script_for_address lib i.recipient sys_params true) Types.bad_recipient_script
    change_script ←
        or_error (script_for_address lib i.sender sys_params true) Types.bad_change_script
    payments ←
        plan_scripts lib network_sys (parse_int i.byte_fee).0 (length us) (total_has 0 us) 0
          i.amount i.recipient i.sender recipient_script change_script
    ins ← inputs index_u (max_tx_in_sequence_num - 2) us
    outs ← outputs sys_params payments
    pk_data ← sender_script i.sender sys_params
    let tx : MsgTx = record { version = 2; tx_in = ins; tx_out = outs }
    hashes ← witness_hashes pk_data tx 0 us
    finish_packet hashes pk_data us tx
