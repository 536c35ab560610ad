-- ===== src/Utxo/Plan/Balance.antt =====
-- signing/utxo/tx.go: the outputs and the fee make up the inputs, as long as no int64 wraps.
use wallet_sdk.Common.{
  ℕ, ◌+◌, ◌^◌, ◌≤◌, ◌<◌, ◌≡◌, ◌≢◌, refl, arith, List, [], ◌∷◌, ltb, if◌then◌else◌, Bytes, length,
  ok, All, ◌⊎◌, inl, inr, Bool-cases,
}
use wallet_sdk.Go.Words.{add_i64, sub_i64, lt_i64}
use wallet_sdk.Go.Strconv.{parse_int}
use wallet_sdk.Utxo.Types.{magic_max_amount}
use wallet_sdk.UtxoList.{UtxoInfo}
use wallet_sdk.Utxo.Plan.{total_has, Payments, sweep, pay}

abbrev pub amounts : Payments → ℕ
amounts [] = 0
amounts ((address, amount) ∷ ps) = amount + amounts ps

-- What the coins are worth together, in true numbers.
abbrev pub coin_total : List UtxoInfo → ℕ
coin_total [] = 0
coin_total (u ∷ us) = (parse_int u.value).0 + coin_total us

-- The builders' running total is this, if it fits.
total_has-coin_total :
    (total : ℕ) (us : List UtxoInfo)
    → total + coin_total us < 2 ^ 64
    → total_has total us ≡ total + coin_total us
unfolding total_has
total_has-coin_total total [] h = omega arith
total_has-coin_total total (u ∷ us) h =
    let step : add_i64 total (parse_int u.value).0 ≡ total + (parse_int u.value).0 = omega arith in
    rw step (omega (arith, total_has-coin_total (total + (parse_int u.value).0) us (omega arith)))

pub total_has-fits : (us : List UtxoInfo) → coin_total us < 2 ^ 63 → total_has 0 us ≡ coin_total us
total_has-fits us h = omega (arith, total_has-coin_total 0 us (omega arith))

-- A payment of `value` to the recipient: with no change, where the change would be dust, or with
-- change to the sender of all that the fee leaves.
abbrev pub IsPayment : ℕ → ℕ → (ℕ → ℕ) → ℕ → Bytes → Bytes → Payments → Type 0
IsPayment total dust fee value recipient sender payments =
    ((payments ≡ (recipient, value) ∷ []) × (total < value + fee 2 + dust))
    ⊎ ((c : ℕ) × (payments ≡ (recipient, value) ∷ (sender, c) ∷ []) × (value + c + fee 2 ≡ total))

-- What a plan that succeeded promises for the text of an amount: `fee n` is the least fee of a
-- transaction with n outputs. The amount that asks for all sends all that the fee leaves.
pub record IsBalanced (total dust : ℕ) (fee : ℕ → ℕ) (amount recipient sender : Bytes)
    (payments : Payments) : Type 0 where
  pub funded : amounts payments + fee (length payments) ≤ total
  pub no_dust : All (λ p. dust ≤ p.1) payments
  pub shape :
      ((a : ℕ) × (amount ≡ magic_max_amount)
        × (payments ≡ (recipient, a) ∷ [])
        × (a + fee 1 ≡ total))
      ⊎ ((amount ≢ magic_max_amount)
          × IsPayment total dust fee (parse_int amount).0 recipient sender payments)

abbrev pub two_fees : ℕ → ℕ → ℕ → ℕ
two_fees fee1 fee2 n = if ltb n 2 then fee1 else fee2

pub sweep-IsBalanced :
    (dust total fee1 fee2 : ℕ) (amount recipient sender : Bytes) (payments : Payments)
    → amount ≡ magic_max_amount
    → total < 2 ^ 63
    → fee1 < 2 ^ 63
    → dust < 2 ^ 32
    → sweep dust total fee1 recipient ≡ ok payments
    → IsBalanced total dust (two_fees fee1 fee2) amount recipient sender payments
unfolding sweep
sweep-IsBalanced dust total fee1 fee2 amount recipient sender payments all ht hf hd e =
    elim (Bool-cases (lt_i64 (sub_i64 total fee1) dust)) [
      | inl low ↦ absurd (ground (arith, e, low))
      | inr high ↦
          let same : payments ≡ (recipient, sub_i64 total fee1) ∷ [] = ground (arith, e, high) in
          let covers : dust + fee1 ≤ total = ground (arith, high) in
          rw same (record {
            funded = omega (arith, covers);
            no_dust = (omega (arith, covers), tt);
            shape = inl (sub_i64 total fee1, all, refl, omega (arith, covers));
          })
    ]

pub sweep_total :
    (dust total fee : ℕ) (recipient : Bytes)
    → total < 2 ^ 63
    → 0 < dust
    → dust + fee ≤ total
    → (payments : Payments) × (sweep dust total fee recipient ≡ ok payments)
unfolding sweep
sweep_total dust total fee recipient ht hd h = ((recipient, sub_i64 total fee) ∷ [], ground arith)

module _ (dust total value fee2 fee1 : ℕ) (recipient sender : Bytes) (total_fits : total < 2 ^ 63)
    (fits : value + fee2 ≤ 2 ^ 63) (value_fits : value < 2 ^ 63) (fee_mono : fee1 ≤ fee2)
    (dust_small : (0 < dust) × (dust < 2 ^ 32)) where
  -- The two tests of `pay`, in plain arithmetic.
  change_test : lt_i64 (sub_i64 (sub_i64 total fee2) value) dust ≡ ltb total (value + fee2 + dust)
  change_test = ground arith

  enough_test : lt_i64 (sub_i64 (sub_i64 total fee1) value) 0 ≡ ltb total (value + fee1)
  enough_test = ground arith

  pub pay-IsBalanced :
      (amount : Bytes) (payments : Payments)
      → amount ≢ magic_max_amount
      → (parse_int amount).0 ≡ value
      → pay dust total value fee2 fee1 recipient sender ≡ ok payments
      → IsBalanced total dust (two_fees fee1 fee2) amount recipient sender payments
  unfolding pay
  pay-IsBalanced amount payments part parsed e = elim (Bool-cases (lt_i64 value dust)) [
    | inl low ↦ absurd (ground (arith, e, low))
    | inr high ↦ elim (Bool-cases (ltb total (value + fee2 + dust))) [
      | inl small ↦ elim (Bool-cases (ltb total (value + fee1))) [
        | inl less ↦ absurd (ground (arith, e, high, small, less, change_test, enough_test))
        | inr more ↦
            let same : payments ≡ (recipient, value) ∷ [] =
              ground (arith, e, high, small, more, change_test, enough_test) in
            rw same (record {
              funded = ground (arith, more);
              no_dust = (ground (arith, high), tt);
              shape = inr (part, inl (rw parsed refl, ground (arith, small, parsed)));
            })
      ]
      | inr large ↦
          let change : ℕ = sub_i64 (sub_i64 total fee2) value in
          let same : payments ≡ (recipient, value) ∷ (sender, change) ∷ [] =
            ground (arith, e, high, large, change_test) in
          let exact : value + change + fee2 ≡ total = ground (arith, large) in
          rw same (record {
            funded = omega (arith, exact);
            no_dust = (ground (arith, high), (ground (arith, large), tt));
            shape = inr (part, inr (change, rw parsed refl, omega (arith, parsed, exact)));
          })
    ]
  ]

  -- Enough coins, and no dust to pay: there is a plan.
  pub pay_total :
      dust ≤ value
      → value + fee1 ≤ total
      → (payments : Payments) × (pay dust total value fee2 fee1 recipient sender ≡ ok payments)
  unfolding pay
  pay_total low enough = elim (Bool-cases (ltb total (value + fee2 + dust))) [
    | inl small ↦ ((recipient, value) ∷ [], ground (arith, small, change_test, enough_test))
    | inr large ↦ (
      (recipient, value) ∷ (sender, sub_i64 (sub_i64 total fee2) value) ∷ [],
      ground (arith, large, change_test),
    )
  ]
