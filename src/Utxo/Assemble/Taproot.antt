-- ===== src/Utxo/Assemble/Taproot.antt =====
-- signing/utxo/tx.go: buildForBTCP2TR.
use wallet_sdk.Common.{
  ℕ, ◌+◌, Bool, true, false, List, [], ◌∷◌, ◌++◌, Bytes, length, Result, ok, ◌>>=◌, ◌>>◌, guard,
  or_error, not,
}
use wallet_sdk.Go.Words.{mul_i64}
use wallet_sdk.Go.Strconv.{parse_int}
use wallet_sdk.Go.Hex.{hex_decode, hex_encode, decoded}
use wallet_sdk.UtxoList.{UtxoInfo}
use wallet_sdk.Utxo.Types
use wallet_sdk.Utxo.Types.{Ingredient, TxError, network_btc_p2tr}
use wallet_sdk.Utxo.Btcd.{Btcd, btc_params, OutPoint, TxIn, TxOut, MsgTx, AddressKind, taproot}
use wallet_sdk.Utxo.Address.{decode_address_for_net, script_for_address}
use wallet_sdk.Utxo.Fee.{build_memo_script, memo_output_vbytes}
use wallet_sdk.Utxo.Plan.{Payments, total_has, plan_scripts}
use wallet_sdk.Utxo.Assemble.{new_tx_in, index_u, memo_outs, finish_tx}

-- `senderAddr.(*btcaddr.AddressTaproot)`
is_taproot : AddressKind → Bool
is_taproot taproot = true
is_taproot _ = false

-- The script of a coin: an error in its hexadecimal text is an error here.
coin_script : Bytes → Bytes → Result TxError Bytes
coin_script [] pk_data = ok pk_data
coin_script (c ∷ cs) pk_data = or_error (decoded (hex_decode (c ∷ cs))) Types.bad_utxo_script

module _ (lib : Btcd) where
  open lib use {
    Packet, tx_version, max_tx_in_sequence_num, decode_address, kind, pay_to_addr_script,
    is_pay_to_taproot, new_hash_from_str, calc_taproot_signature_hash,
  }

  -- The loop over the coins: the inputs, and the stores to the map of previous outputs.
  unfoldable pub taproot_inputs :
      Bytes → List UtxoInfo → Result TxError (List TxIn × List (OutPoint × TxOut))
  unfolding coin_script
  taproot_inputs pk_data [] = ok ([], [])
  taproot_inputs pk_data (u ∷ us) = do
    hash ← or_error (new_hash_from_str u.hash) Types.bad_utxo_hash
    pk_script ← coin_script u.script pk_data
    guard (is_pay_to_taproot pk_script) Types.not_taproot_output
    rest ← taproot_inputs pk_data us
    ok (
      new_tx_in hash (index_u u) max_tx_in_sequence_num ∷ rest.0,
      (
        record { hash = hash; index = index_u u },
        record { value = (parse_int u.value).0; pk_script = pk_script },
      )
          ∷ rest.1,
    )

  -- Outputs by decodeAddressForNet.
  unfoldable pub taproot_outputs : Payments → Result TxError (List TxOut)
  taproot_outputs [] = ok []
  taproot_outputs ((address, amount) ∷ ps) = do
    addr ← or_error (decode_address_for_net lib address btc_params true) Types.bad_output_address
    script ← or_error (pay_to_addr_script addr) Types.bad_output_script
    rest ← taproot_outputs ps
    ok (record { value = amount; pk_script = script } ∷ rest)

  -- The loop over msgTx.TxIn, from the input `idx` on.
  unfoldable pub taproot_hashes :
      List (OutPoint × TxOut) → MsgTx → ℕ → List TxIn → Result TxError (List Bytes)
  taproot_hashes prev_outs tx idx [] = ok []
  taproot_hashes prev_outs tx idx (i ∷ is) = do
    hash ← or_error (calc_taproot_signature_hash prev_outs tx idx) Types.sig_hash_failed
    rest ← taproot_hashes prev_outs tx (idx + 1) is
    ok (hex_encode hash ∷ rest)

  unfoldable pub build_for_btc_p2tr :
      Ingredient → List UtxoInfo → Result TxError (List Bytes × Bytes)
  unfolding is_taproot finish_tx
  build_for_btc_p2tr i us = do
    guard (not i.is_psbt) Types.taproot_psbt
    sender_addr ← or_error (decode_address_for_net lib i.sender btc_params true) Types.bad_sender
    guard (is_taproot (kind sender_addr)) Types.not_taproot_sender
    pk_data ← or_error (pay_to_addr_script sender_addr) Types.bad_sender_script
    recipient_script ←
        or_error (script_for_address lib i.recipient btc_params true) Types.bad_recipient_script
    let byte_fee = (parse_int i.byte_fee).0
    memo_script ← build_memo_script lib i.memo
    payments ←
        plan_scripts lib network_btc_p2tr byte_fee (length us) (total_has 0 us)
          (mul_i64 (memo_output_vbytes lib memo_script) byte_fee) i.amount i.recipient i.sender
          recipient_script pk_data
    ins ← taproot_inputs pk_data us
    outs ← taproot_outputs payments
    let tx : MsgTx = record {
      version = tx_version;
      tx_in = ins.0;
      tx_out = outs ++ memo_outs memo_script;
    }
    hashes ← taproot_hashes ins.1 tx 0 ins.0
    finish_tx lib hashes tx
