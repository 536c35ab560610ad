-- ===== src/Utxo/Assemble/Balance.antt =====
-- signing/utxo/tx.go: the balance of the transactions that buildForBTC and buildForDOGE make.
use wallet_sdk.Common.{ℕ, Option, List, Bytes, length, ◌*◌}
use wallet_sdk.Go.Strconv.{parse_int}
use wallet_sdk.UtxoList.{UtxoInfo}
use wallet_sdk.Utxo.Types.{Ingredient, network_btc}
use wallet_sdk.Utxo.Btcd.{Btcd}
use wallet_sdk.Utxo.Fee.{memo_output_vbytes}
use wallet_sdk.Utxo.Plan.Fees.{true_fee}
use wallet_sdk.Utxo.Plan.Doge.{doge_fee}

module _ (lib : Btcd) (i : Ingredient) (us : List UtxoInfo) (memo : Option Bytes) where
  -- The fees of an ingredient in true numbers: for outputs with these scripts, or for n outputs of
  -- Dogecoin, and for the memo's output.
  abbrev pub btc_fee_of : List Bytes → ℕ
  btc_fee_of scripts =
      true_fee lib network_btc (parse_int i.byte_fee).0 (length us)
        (memo_output_vbytes lib memo * (parse_int i.byte_fee).0) scripts

  abbrev pub doge_fee_of : ℕ → ℕ
  doge_fee_of n =
      doge_fee (parse_int i.byte_fee).0 (length us)
        (memo_output_vbytes lib memo * (parse_int i.byte_fee).0) n
