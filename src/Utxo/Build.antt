-- ===== src/Utxo/Build.antt =====
-- signing/utxo/tx.go: TxBuilder.Build, its checks in their order and its effect on the builder.
pub mod Checked
pub mod Effect
use wallet_sdk.Common.{
  ℕ, zero, suc, ◌≡◌, refl, arith, Bool, true, false, Option, none, some, List, [], ◌∷◌,
  if◌then◌else◌, Bytes, bytes_eq, Result, ok, err, ◌>>=◌, ◌>>◌, guard, or_error, not, ◌&&◌, ◌||◌,
}
use wallet_sdk.Go.Words.{lt_i64}
use wallet_sdk.Go.Strconv.{parsed, parse_int}
use wallet_sdk.UtxoList.{UtxoInfo}
use wallet_sdk.Utxo.Types
use wallet_sdk.Utxo.Types.{
  Ingredient, TxBuilder, TxError, magic_max_amount, network_btc, network_btc_p2tr, network_ltc,
  network_doge, network_sys,
}
use wallet_sdk.Utxo.Btcd.{Btcd}
use wallet_sdk.Utxo.Address.{valid_address}
use wallet_sdk.Utxo.Assemble.{build_for_btc, build_for_ltc, build_for_doge, build_for_sys}
use wallet_sdk.Utxo.Assemble.Taproot.{build_for_btc_p2tr}

-- `v, err := strconv.ParseInt(s, 10, 64); err == nil && v > 0`
abbrev positive : Option ℕ → Bool
positive none = false
positive (some v) = lt_i64 0 v

unfoldable pub is_positive_int : Bytes → Bool
is_positive_int s = positive (parsed (parse_int s))

-- The loop over the coins, which returns them; `none` is the panic on a coin that is nil.
unfoldable pub check_coins : List (Option UtxoInfo) → Option (Result TxError (List UtxoInfo))
unfolding is_positive_int
check_coins [] = some (ok [])
check_coins (none ∷ cs) = none
check_coins (some u ∷ cs) =
    let rest = check_coins cs in
    if is_positive_int u.value
    then elim rest [ none ↦ none | some (err e) ↦ some (err e) | some (ok us) ↦ some (ok (u ∷ us)) ]
    else some (err Types.invalid_utxo_value)

-- No list and an empty list are one error.
some_utxos : Option (List (Option UtxoInfo)) → Result TxError (List (Option UtxoInfo))
some_utxos none = err Types.no_utxos
some_utxos (some []) = err Types.no_utxos
some_utxos (some (c ∷ cs)) = ok (c ∷ cs)

-- `i.IsPSBT = true`, which buildForSYS stores in the builder's own ingredient.
abbrev pub mark_psbt : Bytes → Ingredient → Ingredient
mark_psbt network i = if bytes_eq network network_sys then record i { is_psbt = true } else i

-- `tx.sigHash = nil`, `tx.unsignedHex = ""` and `tx.txHash = ""`.
abbrev pub reset : TxBuilder → Ingredient → TxBuilder
reset tx i = record tx {
  ingredient = some (mark_psbt tx.network i);
  sig_hash = [];
  unsigned_hex = [];
  tx_hash = [];
}

store : TxBuilder → Result TxError (List Bytes × Bytes) → TxBuilder × Option TxError
store tx (err e) = (tx, some e)
store tx (ok (hashes, hex)) = (record tx { sig_hash = hashes; unsigned_hex = hex }, none)

module _ (lib : Btcd) where
  -- The checks up to the loop over the coins.
  unfoldable pub check_texts : Bytes → Ingredient → Result TxError (List (Option UtxoInfo))
  unfolding is_positive_int some_utxos
  check_texts network i = do
    cs ← some_utxos i.utxos
    guard (valid_address lib i.recipient network) Types.invalid_recipient
    guard (valid_address lib i.sender network) Types.invalid_sender
    guard (is_positive_int i.byte_fee) Types.invalid_byte_fee
    guard (bytes_eq i.amount magic_max_amount || is_positive_int i.amount) Types.invalid_amount
    ok cs

  -- The checks before anything of the builder is written.
  unfoldable pub validate : Bytes → Ingredient → Option (Result TxError (List UtxoInfo))
  unfolding check_texts check_coins
  validate network i = elim (check_texts network i) [
    | err e ↦ some (err e)
    | ok cs ↦ check_coins cs
  ]

  -- The switch on the network.
  unfoldable pub build_for :
      Bytes → Ingredient → List UtxoInfo → Result TxError (List Bytes × Bytes)
  build_for network i us =
      if bytes_eq network network_btc
      then build_for_btc lib i us
      else if bytes_eq network network_btc_p2tr
      then build_for_btc_p2tr lib i us
      else if bytes_eq network network_ltc
      then build_for_ltc lib i us
      else if bytes_eq network network_doge
      then build_for_doge lib i us
      else if bytes_eq network network_sys
      then build_for_sys lib i us
      else err Types.unsupported_network

  build_checked :
      TxBuilder
      → Ingredient
      → Option (Result TxError (List UtxoInfo))
      → Option (TxBuilder × Option TxError)
  unfolding store
  build_checked tx i none = none
  build_checked tx i (some (err e)) = some (tx, some e)
  build_checked tx i (some (ok us)) = some (store (reset tx i) (build_for tx.network i us))

  build_with : TxBuilder → Option Ingredient → Option (TxBuilder × Option TxError)
  unfolding build_checked
  build_with tx none = some (tx, some Types.ingredient_nil)
  build_with tx (some i) = build_checked tx i (validate tx.network i)

  -- Of a builder that is not nil; `none` is a panic.
  unfoldable pub build : TxBuilder → Option (TxBuilder × Option TxError)
  unfolding build_with
  build tx = build_with tx tx.ingredient
