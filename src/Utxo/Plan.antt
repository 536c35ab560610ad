-- ===== src/Utxo/Plan.antt =====
-- signing/utxo/tx.go: the payments of a transaction, as the five builders choose them.
-- A payment is an address with an amount; amounts are int64 patterns.
pub mod Balance
pub mod Fees
pub mod Doge
pub mod Wrap
use wallet_sdk.Common.{
  ℕ, zero, suc, ◌+◌, ◌*◌, ◌%◌, ◌^◌, ◌≤◌, ◌<◌, ◌≡◌, refl, arith, Bool, true, false, Option, none,
  some, List, [], ◌∷◌, ltb, if◌then◌else◌, Bytes, codes, bytes_eq, length, Result, ok, err,
}
use wallet_sdk.Go.Words.{add_i64, sub_i64, mul_i64, lt_i64}
use wallet_sdk.Go.Strconv.{parse_int}
use wallet_sdk.UtxoList.{UtxoInfo}
use wallet_sdk.Utxo.Types.{
  TxError, sweep_below_dust, amount_below_dust, value_too_large, default_dust, doge_dust,
  doge_min_fee, magic_max_amount, network_doge,
}
use wallet_sdk.Utxo.Btcd.{Btcd}
use wallet_sdk.Utxo.Fee.{estimate_fee, estimate_fee_for_scripts}

abbrev pub Payments : Type 0
Payments = List (Bytes × ℕ)

-- `totalHas += value`, over the values that ParseInt returns, its errors ignored.
unfoldable pub total_has : ℕ → List UtxoInfo → ℕ
total_has total [] = total
total_has total (u ∷ us) = total_has (add_i64 total (parse_int u.value).0) us

-- A sweep: all that the fee leaves.
unfoldable pub sweep : ℕ → ℕ → ℕ → Bytes → Result TxError Payments
sweep dust total fee recipient =
    if lt_i64 (sub_i64 total fee) dust
    then err (sweep_below_dust total fee)
    else ok ((recipient, sub_i64 total fee) ∷ [])

-- A payment of `value`, with change where the change is no dust.
unfoldable pub pay : ℕ → ℕ → ℕ → ℕ → ℕ → Bytes → Bytes → Result TxError Payments
pay dust total value fee_with_change fee_no_change recipient sender =
    if lt_i64 value dust
    then err (amount_below_dust value)
    else if lt_i64 (sub_i64 (sub_i64 total fee_with_change) value) dust
    then if lt_i64 (sub_i64 (sub_i64 total fee_no_change) value) 0
      then err value_too_large
      else ok ((recipient, value) ∷ [])
    else ok ((recipient, value) ∷ (sender, sub_i64 (sub_i64 total fee_with_change) value) ∷ [])

module _ (lib : Btcd) where
  -- BTC, taproot, LTC and SYS; the last two have no memo and add no fee for it.
  unfoldable pub plan_scripts :
      Bytes → ℕ → ℕ → ℕ → ℕ → Bytes → Bytes → Bytes → Bytes → Bytes → Result TxError Payments
  unfolding sweep pay
  plan_scripts network byte_fee num_inputs total memo_fee amount recipient sender recipient_script
        change_script =
      let fee =
        add_i64 (estimate_fee_for_scripts lib network byte_fee num_inputs (recipient_script ∷ []))
          memo_fee in
      let fee_with_change =
        add_i64
          (estimate_fee_for_scripts lib network byte_fee num_inputs
            (recipient_script ∷ change_script ∷ []))
          memo_fee in
      if bytes_eq amount magic_max_amount
      then sweep default_dust total fee recipient
      else pay default_dust total (parse_int amount).0 fee_with_change fee recipient sender

-- `if fee < dogeMinFee { fee = dogeMinFee }`
unfoldable pub at_least_doge_min : ℕ → ℕ
at_least_doge_min fee = if lt_i64 fee doge_min_fee then doge_min_fee else fee

unfoldable pub plan_doge : ℕ → ℕ → ℕ → ℕ → Bytes → Bytes → Bytes → Result TxError Payments
unfolding sweep pay at_least_doge_min
plan_doge byte_fee num_inputs total memo_fee amount recipient sender =
    let fee =
      at_least_doge_min (add_i64 (estimate_fee network_doge byte_fee num_inputs 1) memo_fee) in
    let fee_with_change =
      at_least_doge_min (add_i64 (estimate_fee network_doge byte_fee num_inputs 2) memo_fee) in
    if bytes_eq amount magic_max_amount
    then sweep doge_dust total fee recipient
    else pay doge_dust total (parse_int amount).0 fee_with_change fee recipient sender
