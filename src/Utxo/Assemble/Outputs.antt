-- ===== src/Utxo/Assemble/Outputs.antt =====
-- signing/utxo/tx.go: the outputs that the builders make of the payments and the memo.
use wallet_sdk.Common.{
  or_error-eq-ok, ℕ, ◌+◌, ◌≡◌, refl, arith, Option, none, some, List, [], ◌∷◌, ◌++◌, Bytes, ok,
  or_error, >>=-eq-ok,
}
use wallet_sdk.Utxo.Types
use wallet_sdk.Utxo.Types.{Ingredient, TxError, network_btc, network_ltc, network_sys}
use wallet_sdk.Utxo.Btcd.{Btcd, Params, TxOut}
use wallet_sdk.Utxo.Plan.{Payments}
use wallet_sdk.Utxo.Plan.Balance.{amounts}
use wallet_sdk.Utxo.Assemble.{outputs, memo_outs}

abbrev pub out_values : List TxOut → ℕ
out_values [] = 0
out_values (o ∷ os) = o.value + out_values os

module _ (lib : Btcd) where
  -- The script of an address that decodes.
  abbrev pub HasScript : Params → Bytes → Bytes → Type 0
  HasScript params address script =
      (decoded : lib.Address) × (lib.decode_address address params ≡ some decoded)
      × (lib.pay_to_addr_script decoded ≡ some script)

  -- The outputs pay the payments, one for one and in their order, each with its value and the
  -- script of its address; behind them stands the memo's output of the value 0, if there is a memo.
  abbrev pub PaysOut : Params → Option Bytes → Payments → List TxOut → Type 0
  PaysOut params none [] outs = outs ≡ []
  PaysOut params (some script) [] outs = outs ≡ record { value = 0; pk_script = script } ∷ []
  PaysOut params memo (p ∷ ps) [] = ⊥
  PaysOut params memo ((address, amount) ∷ ps) (o ∷ os) =
      (o.value ≡ amount) × HasScript params address o.pk_script × PaysOut params memo ps os

  pub PaysOut-amounts :
      (params : Params) (memo : Option Bytes) (ps : Payments) (outs : List TxOut)
      → PaysOut params memo ps outs
      → out_values outs ≡ amounts ps
  PaysOut-amounts params none [] outs h = rw h refl
  PaysOut-amounts params (some script) [] outs h = rw h refl
  PaysOut-amounts params memo ((address, amount) ∷ ps) [] h = absurd h
  PaysOut-amounts params memo ((address, amount) ∷ ps) (o ∷ os) h =
      omega (arith, h.0, PaysOut-amounts params memo ps os h.2)

  memo_outs-PaysOut :
      (params : Params) (memo : Option Bytes) → PaysOut params memo [] (memo_outs memo)
  memo_outs-PaysOut params none = refl
  memo_outs-PaysOut params (some script) = refl

  pub outputs-PaysOut :
      (params : Params) (memo : Option Bytes) (ps : Payments) (outs : List TxOut)
      → outputs lib params ps ≡ ok outs
      → PaysOut params memo ps (outs ++ memo_outs memo)
  unfolding outputs
  outputs-PaysOut params memo [] outs h =
      let none_left : outs ≡ [] = ground (arith, h) in rw none_left (memo_outs-PaysOut params memo)
  outputs-PaysOut params memo ((address, amount) ∷ ps) outs h =
      let (addr, e1, h1) =
        >>=-eq-ok (or_error (lib.decode_address address params) Types.bad_output_address) _ h in
      let (script, e2, h2) =
        >>=-eq-ok (or_error (lib.pay_to_addr_script addr) Types.bad_output_script) _ h1 in
      let (rest, e3, h3) = >>=-eq-ok (outputs lib params ps) _ h2 in
      let same : outs ≡ record { value = amount; pk_script = script } ∷ rest = ground (arith, h3) in
      rw same (
        refl,
        (
          addr,
          or_error-eq-ok _ Types.bad_output_address e1,
          or_error-eq-ok _ Types.bad_output_script e2,
        ),
        outputs-PaysOut params memo ps rest e3,
      )
