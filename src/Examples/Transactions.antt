-- ===== src/Examples/Transactions.antt =====
-- Transactions: two coins, a payment and a memo.
use wallet_sdk.Common.{◌≡◌, ◌⊎◌, refl, arith, some, List, [], ◌∷◌, Bytes, codes, replicate, ok, err}
use wallet_sdk.Go.Strconv.{parse_int, parse_uint}
use wallet_sdk.Go.Hex.{hex_encode, hex_decode, hex_digit, from_hex}
use wallet_sdk.Utxo.Types.{
  Ingredient, TxBuilder, TxError, network_btc, network_doge, magic_max_amount,
}
use wallet_sdk.Utxo.Types
use wallet_sdk.Utxo.Fee.{
  memo_output_vbytes, output_vbytes, build_memo_script, estimate_fee_for_scripts, add_outputs,
  per_input_vbytes,
}
use wallet_sdk.Utxo.Address.{
  script_for_address, decode_address_for_net, valid_address, valid_address_for_net,
}
use wallet_sdk.Utxo.Plan.{sweep, pay, Payments, total_has, plan_scripts}
use wallet_sdk.Utxo.Plan.Fees.{scripts_vbytes, plan_scripts_total}
use wallet_sdk.Utxo.Plan.Wrap.{plan_scripts_free}
use wallet_sdk.Utxo.Assemble.{inputs, outputs, witness_hashes, build_for_btc}
use wallet_sdk.Examples.Library.{toy_btcd, coin, spend, builder}
use wallet_sdk.UtxoList.{UtxoInfo}
use wallet_sdk.Utxo.Build.{is_positive_int, check_coins, check_texts, validate, build_for, build}
use wallet_sdk.Utxo.Build.Checked.{IsChecked}
use wallet_sdk.Utxo.Build.Effect.{IsRefused, build_checks, build_fails}

abbrev scripts : List Bytes
scripts = (0x51 ∷ codes "you") ∷ (0x51 ∷ codes "me") ∷ []

abbrev hashes : List Bytes
hashes = codes "00516d65" ∷ codes "01516d65" ∷ []

abbrev doge_coins : List UtxoInfo
doge_coins = coin (codes "9000000") ∷ coin (codes "20000000") ∷ []

abbrev doge_spend : Ingredient
doge_spend = record spend { amount = codes "10000000"; byte_fee = codes "1000" }

plan_scripts_total_example :
    (payments : Payments) × (plan_scripts toy_btcd network_btc 3 2 110000 0
        (codes "50000")
        (codes "you")
        (codes "me")
        (codes "r")
        (codes "c")
      ≡ ok payments)
unfolding toy_btcd parse_int parse_uint output_vbytes per_input_vbytes scripts_vbytes
plan_scripts_total_example =
    plan_scripts_total toy_btcd network_btc 3 2 110000 0 (codes "50000") (codes "you") (codes "me")
      (codes "r") (codes "c") (omega arith) (omega arith) (omega arith) 50000 refl (omega arith)
      (omega arith) (omega arith)

abbrev wide_script : Bytes
wide_script = replicate 40 0

-- One input and 128 virtual bytes in all: at 2^57 a byte the fee is 0. The script is longer than
-- one of an address.
plan_scripts_free_example :
    plan_scripts toy_btcd network_btc 144115188075855872 1 700 0 magic_max_amount
      (codes "you")
      (codes "me")
      wide_script
      (codes "c")
    ≡ ok ((codes "you", 700) ∷ [])
unfolding toy_btcd output_vbytes per_input_vbytes
plan_scripts_free_example =
    plan_scripts_free toy_btcd network_btc 144115188075855872 1 700 1 (codes "you") (codes "me")
      wide_script (codes "c") (omega arith) (omega arith) (omega arith) refl

abbrev built : TxBuilder
built = record (builder (some spend) network_btc) { unsigned_hex = codes "0203"; sig_hash = hashes }

build_checks_example :
    (i : Ingredient) × (us : List UtxoInfo) × (some spend ≡ some i)
    × IsChecked toy_btcd network_btc i us
    × (build_for toy_btcd network_btc i us ≡ ok (hashes, codes "0203"))
    × (built.tx_hash ≡ [])
    × (built.network ≡ network_btc)
unfolding toy_btcd build build_for validate check_texts check_coins is_positive_int valid_address
    valid_address_for_net build_for_btc build_memo_script hex_encode hex_decode hex_digit from_hex
    script_for_address decode_address_for_net parse_int parse_uint total_has plan_scripts sweep pay
    memo_output_vbytes output_vbytes estimate_fee_for_scripts add_outputs per_input_vbytes inputs
    outputs witness_hashes
build_checks_example = build_checks toy_btcd (builder (some spend) network_btc) built refl

abbrev no_coins : TxBuilder
no_coins = builder (some (record spend { utxos = some [] })) network_btc

build_fails_example :
    IsRefused toy_btcd no_coins no_coins Types.no_utxos
    ⊎ ((i : Ingredient) × (us : List UtxoInfo) × (no_coins.ingredient ≡ some i)
        × IsChecked toy_btcd network_btc i us
        × (build_for toy_btcd network_btc i us ≡ err Types.no_utxos)
        × (no_coins.sig_hash ≡ [])
        × (no_coins.unsigned_hex ≡ [])
        × (no_coins.tx_hash ≡ []))
unfolding toy_btcd build validate check_texts
build_fails_example = build_fails toy_btcd no_coins no_coins Types.no_utxos refl
