-- ===== src/Utxo/Build/Checked.antt =====
-- signing/utxo/tx.go: what the checks of TxBuilder.Build establish.
use wallet_sdk.Common.{
  ◌^◌, ◌<◌, ◌≡◌, ◌≢◌, refl, arith, Bool, true, false, Option, none, some, List, [], ◌∷◌, Bytes,
  bytes_eq, bytes_eq_refl, bytes_eq→eq, Bool-cases, map, ap, ◌∙◌, Result, ok, err, guard, ◌||◌, ◌⊎◌,
  inl, inr, Option-cases, All, >>=-eq-ok,
}
use wallet_sdk.Go.Strconv.{parsed, parse_int}
use wallet_sdk.Go.Strconv.Laws.{parsed-eq-some, parse_int_bound}
use wallet_sdk.UtxoList.{UtxoInfo}
use wallet_sdk.Utxo.Types
use wallet_sdk.Utxo.Types.{Ingredient, TxBuilder, TxError, magic_max_amount}
use wallet_sdk.Utxo.Btcd.{Btcd}
use wallet_sdk.Utxo.Address.{valid_address}
use wallet_sdk.Utxo.Build.{is_positive_int, check_coins, check_texts, validate, some_utxos}

-- A text that passes the test is the decimal of a number from 1 to 2^63 - 1.
abbrev pub IsPositive : Bytes → Type 0
IsPositive s =
    (parsed (parse_int s) ≡ some (parse_int s).0)
    × (0 < (parse_int s).0)
    × ((parse_int s).0 < 2 ^ 63)

pub is_positive_int-IsPositive : (s : Bytes) → is_positive_int s ≡ true → IsPositive s
unfolding is_positive_int
is_positive_int-IsPositive s h = elim (Option-cases (parsed (parse_int s))) [
  | inl e ↦ absurd (ground (arith, e, h))
  | inr (v, e) ↦
      let same : (parse_int s).0 ≡ v = ground (arith, parsed-eq-some (parse_int s) e) in
      (
        cc (e, same),
        ground (arith, e, h, same, parse_int_bound s),
        ground (arith, e, h, same, parse_int_bound s),
      )
]

IsPositive-is_positive_int : (s : Bytes) → IsPositive s → is_positive_int s ≡ true
unfolding is_positive_int
IsPositive-is_positive_int s h = ground (arith, h)

next_coin-eq-ok :
    (u : UtxoInfo) (cs : List (Option UtxoInfo)) (us : List UtxoInfo)
    → check_coins (some u ∷ cs) ≡ some (ok us)
    → (vs : List UtxoInfo) × (check_coins cs ≡ some (ok vs))
      × (us ≡ u ∷ vs)
      × (is_positive_int u.value ≡ true)
unfolding check_coins
next_coin-eq-ok u cs us h = go (check_coins cs) refl
  where
    go :
        (r : Option (Result TxError (List UtxoInfo)))
        → check_coins cs ≡ r
        → (vs : List UtxoInfo) × (check_coins cs ≡ some (ok vs))
          × (us ≡ u ∷ vs)
          × (is_positive_int u.value ≡ true)
    go none e = absurd (ground (arith, e, h))
    go (some (err x)) e = absurd (ground (arith, e, h))
    go (some (ok vs)) e = (vs, e, ground (arith, e, h), ground (arith, e, h))

-- The loop over the coins returns them if none is nil and each value is positive.
check_coins-eq-ok :
    (cs : List (Option UtxoInfo)) (us : List UtxoInfo)
    → check_coins cs ≡ some (ok us)
    → (cs ≡ map some us) × All (λ u. IsPositive u.value) us
unfolding check_coins
check_coins-eq-ok [] [] h = (refl, tt)
check_coins-eq-ok [] (u ∷ us) h = cc
check_coins-eq-ok (none ∷ cs) us h = cc
check_coins-eq-ok (some u ∷ cs) us h =
    let (vs, e, same, high) = next_coin-eq-ok u cs us h in
    let (listed, positive) = check_coins-eq-ok cs vs e in
    rw same (
      ap (λ (ds : List (Option UtxoInfo)). some u ∷ ds) listed,
      (is_positive_int-IsPositive u.value high, positive),
    )

check_coins-map :
    (us : List UtxoInfo)
    → All (λ u. IsPositive u.value) us
    → check_coins (map some us) ≡ some (ok us)
unfolding check_coins
check_coins-map [] h = refl
check_coins-map (u ∷ us) (h, hs) =
    rw (IsPositive-is_positive_int u.value h, check_coins-map us hs) refl

guard-eq-ok : (b : Bool) (e : TxError) {t : Unit} → guard b e ≡ ok t → b ≡ true
guard-eq-ok true e h = refl
guard-eq-ok false e h = cc

some_utxos-eq-ok :
    (o : Option (List (Option UtxoInfo))) (cs : List (Option UtxoInfo))
    → some_utxos o ≡ ok cs
    → (o ≡ some cs) × (cs ≢ [])
unfolding some_utxos
some_utxos-eq-ok none cs h = cc
some_utxos-eq-ok (some []) cs h = cc
some_utxos-eq-ok (some (d ∷ ds)) cs h = ground arith

-- The amount that asks for all, or the decimal of a positive int64.
amount_test :
    (s : Bytes)
    → (bytes_eq s magic_max_amount || is_positive_int s) ≡ true
    → (s ≡ magic_max_amount) ⊎ IsPositive s
amount_test s h = elim (Bool-cases (bytes_eq s magic_max_amount)) [
  | inl e ↦ inl (bytes_eq→eq s magic_max_amount e)
  | inr e ↦ inr (is_positive_int-IsPositive s (ground (arith, e, h)))
]

amount_test_ok :
    (s : Bytes)
    → (s ≡ magic_max_amount) ⊎ IsPositive s
    → (bytes_eq s magic_max_amount || is_positive_int s) ≡ true
amount_test_ok s h = elim h [
  | inl e ↦ rw (e, bytes_eq_refl magic_max_amount) refl
  | inr p ↦ let test = IsPositive-is_positive_int s p in ground (arith, test)
]

some_utxos-map : (us : List UtxoInfo) → us ≢ [] → some_utxos (some (map some us)) ≡ ok (map some us)
unfolding some_utxos
some_utxos-map [] h = absurd (h refl)
some_utxos-map (u ∷ us) h = refl

module _ (lib : Btcd) where
  -- What the checks of Build establish about an ingredient.
  pub record IsChecked (network : Bytes) (i : Ingredient) (us : List UtxoInfo) : Type 0 where
    pub coins : i.utxos ≡ some (map some us)
    pub some_coins : us ≢ []
    pub recipient_valid : valid_address lib i.recipient network ≡ true
    pub sender_valid : valid_address lib i.sender network ≡ true
    pub byte_fee_positive : IsPositive i.byte_fee
    pub amount_ok : (i.amount ≡ magic_max_amount) ⊎ IsPositive i.amount
    pub values_positive : All (λ u. IsPositive u.value) us

  check_texts-IsChecked :
      (network : Bytes) (i : Ingredient) (cs : List (Option UtxoInfo)) (us : List UtxoInfo)
      → check_texts lib network i ≡ ok cs
      → cs ≡ map some us
      → All (λ u. IsPositive u.value) us
      → IsChecked network i us
  unfolding check_texts
  check_texts-IsChecked network i cs us h listed positive =
      let (ds, e1, h1) = >>=-eq-ok (some_utxos i.utxos) _ h in
      let (t2, e2, h2) =
        >>=-eq-ok (guard (valid_address lib i.recipient network) Types.invalid_recipient) _ h1 in
      let (t3, e3, h3) =
        >>=-eq-ok (guard (valid_address lib i.sender network) Types.invalid_sender) _ h2 in
      let (t4, e4, h4) =
        >>=-eq-ok (guard (is_positive_int i.byte_fee) Types.invalid_byte_fee) _ h3 in
      let (t5, e5, h5) =
        >>=-eq-ok
          (guard (bytes_eq i.amount magic_max_amount || is_positive_int i.amount)
            Types.invalid_amount)
          _ h4 in
      let same : ds ≡ map some us = ground (arith, h5, listed) in
      let found = some_utxos-eq-ok i.utxos ds e1 in
      record {
        coins = cc (found.0, same);
        some_coins = λ empty. found.1 (same ∙ ap (λ (vs : List UtxoInfo). map some vs) empty);
        recipient_valid = guard-eq-ok _ Types.invalid_recipient e2;
        sender_valid = guard-eq-ok _ Types.invalid_sender e3;
        byte_fee_positive =
            is_positive_int-IsPositive i.byte_fee (guard-eq-ok _ Types.invalid_byte_fee e4);
        amount_ok = amount_test i.amount (guard-eq-ok _ Types.invalid_amount e5);
        values_positive = positive;
      }

  pub validate-IsChecked :
      (network : Bytes) (i : Ingredient) (us : List UtxoInfo)
      → validate lib network i ≡ some (ok us)
      → IsChecked network i us
  unfolding validate
  validate-IsChecked network i us h = go (check_texts lib network i) refl
    where
      go :
          (r : Result TxError (List (Option UtxoInfo)))
          → check_texts lib network i ≡ r
          → IsChecked network i us
      go (err x) e = absurd (ground (arith, e, h))
      go (ok cs) e =
          let looped : check_coins cs ≡ some (ok us) = ground (arith, e, h) in
          let (listed, positive) = check_coins-eq-ok cs us looped in
          check_texts-IsChecked network i cs us e listed positive

  IsChecked-check_texts :
      (network : Bytes) (i : Ingredient) (us : List UtxoInfo)
      → IsChecked network i us
      → check_texts lib network i ≡ ok (map some us)
  unfolding check_texts
  IsChecked-check_texts network i us c =
      rw
        (
          c.coins,
          some_utxos-map us c.some_coins,
          c.recipient_valid,
          c.sender_valid,
          IsPositive-is_positive_int i.byte_fee c.byte_fee_positive,
          amount_test_ok i.amount c.amount_ok,
        )
        refl

  pub IsChecked-validate :
      (network : Bytes) (i : Ingredient) (us : List UtxoInfo)
      → IsChecked network i us
      → validate lib network i ≡ some (ok us)
  unfolding validate
  IsChecked-validate network i us c =
      rw (validate, IsChecked-check_texts network i us c) (check_coins-map us c.values_positive)
