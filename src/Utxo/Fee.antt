-- ===== src/Utxo/Fee.antt =====
-- signing/utxo/tx.go: the size of a transaction in virtual bytes, its fee, and the memo's script.
use wallet_sdk.Common.{
  ℕ, ◌+◌, ◌%◌, ◌^◌, Option, none, some, List, [], ◌∷◌, ltb, if◌then◌else◌, Bytes, bytes_eq, length,
  Result, ok, err, ◌==◌, ◌&&◌,
}
use wallet_sdk.Go.Words.{add_i64, mul_i64}
use wallet_sdk.Go.Hex.{hex_decode, decoded}
use wallet_sdk.Utxo.Types.{
  network_doge, network_btc_p2tr, max_memo_bytes, TxError, invalid_memo, memo_too_long,
  memo_script_failed,
}
use wallet_sdk.Utxo.Btcd.{Btcd}

-- The 58, 148, 68, 34 and 11 of the constants.
unfoldable pub per_input_vbytes : Bytes → ℕ
per_input_vbytes network =
    if bytes_eq network network_btc_p2tr
    then 58
    else if bytes_eq network network_doge
    then 148
    else 68

unfoldable pub estimate_vbytes : Bytes → ℕ → ℕ → ℕ
unfolding per_input_vbytes
estimate_vbytes network num_inputs num_outputs =
    add_i64 (add_i64 (mul_i64 num_inputs (per_input_vbytes network)) (mul_i64 num_outputs 34)) 11

unfoldable pub estimate_fee : Bytes → ℕ → ℕ → ℕ → ℕ
unfolding estimate_vbytes
estimate_fee network byte_fee num_inputs num_outputs =
    mul_i64 (estimate_vbytes network num_inputs num_outputs) byte_fee

-- strings.TrimPrefix(s, "0x")
abbrev pub trim_prefix_0x : Bytes → Bytes
trim_prefix_0x [] = []
trim_prefix_0x (a ∷ []) = a ∷ []
trim_prefix_0x (a ∷ b ∷ s) = if a == b'0' && b == b'x' then s else a ∷ b ∷ s

module _ (lib : Btcd) where
  open lib use {var_int_serialize_size, op_return_script}

  unfoldable pub output_vbytes : Bytes → ℕ
  output_vbytes script = (8 + var_int_serialize_size (length script) + length script) % 2 ^ 64

  -- The loop over the scripts.
  unfoldable pub add_outputs : ℕ → List Bytes → ℕ
  unfolding output_vbytes
  add_outputs vbytes [] = vbytes
  add_outputs vbytes (script ∷ scripts) =
      add_outputs (add_i64 vbytes (output_vbytes script)) scripts

  unfoldable pub estimate_fee_for_scripts : Bytes → ℕ → ℕ → List Bytes → ℕ
  unfolding add_outputs per_input_vbytes
  estimate_fee_for_scripts network byte_fee num_inputs out_scripts =
      mul_i64 (add_outputs (add_i64 (mul_i64 num_inputs (per_input_vbytes network)) 11) out_scripts)
        byte_fee

  -- A nil script is `none`.
  unfoldable pub memo_output_vbytes : Option Bytes → ℕ
  unfolding output_vbytes
  memo_output_vbytes none = 0
  memo_output_vbytes (some script) = output_vbytes script

  memo_data : Option Bytes → Result TxError (Option Bytes)
  memo_data none = err invalid_memo
  memo_data (some bytes) =
      if ltb max_memo_bytes (length bytes)
      then err memo_too_long
      else elim (op_return_script bytes) [
        | none ↦ err memo_script_failed
        | some script ↦ ok (some script)
      ]

  unfoldable pub build_memo_script : Bytes → Result TxError (Option Bytes)
  unfolding memo_data
  build_memo_script [] = ok none
  build_memo_script (c ∷ memo) = memo_data (decoded (hex_decode (trim_prefix_0x (c ∷ memo))))
