-- ===== src/Utxo/Build/Effect.antt =====
-- signing/utxo/tx.go: what TxBuilder.Build checks, and what it leaves in the builder.
use wallet_sdk.Common.{
  ◌≡◌, refl, arith, Option, none, some, List, [], Bytes, Result, ok, err, ◌⊎◌, inl, inr,
}
use wallet_sdk.UtxoList.{UtxoInfo}
use wallet_sdk.Utxo.Types
use wallet_sdk.Utxo.Types.{Ingredient, TxBuilder, TxError, magic_max_amount}
use wallet_sdk.Utxo.Btcd.{Btcd}
use wallet_sdk.Utxo.Build.Checked.{IsChecked, validate-IsChecked, IsChecked-validate}
use wallet_sdk.Utxo.Build.{validate, build_for, reset, build, build_with, store, build_checked}

module _ (lib : Btcd) where
  -- A Build that returns no error checked the ingredient: there are coins, none of them nil, the
  -- recipient's and the sender's address are valid on the network, the fee rate and each coin's
  -- value are the decimals of positive int64s, and so is the amount if it is not the one that asks
  -- for all; the public key, the memo and a coin's hash, index and script are not checked. The
  -- builder then holds what the network's function returned, and no transaction hash.
  pub build_checks :
      (tx tx' : TxBuilder)
      → build lib tx ≡ some (tx', none)
      → (i : Ingredient) × (us : List UtxoInfo) × (tx.ingredient ≡ some i)
        × IsChecked lib tx.network i us
        × (build_for lib tx.network i us ≡ ok (tx'.sig_hash, tx'.unsigned_hex))
        × (tx'.tx_hash ≡ [])
        × (tx'.network ≡ tx.network)
  unfolding build
  build_checks tx tx' h = go tx.ingredient refl h
    where
      stored :
          (i : Ingredient) (us : List UtxoInfo) (r : Result TxError (List Bytes × Bytes))
          → some (store (reset tx i) r) ≡ some (tx', none)
          → (r ≡ ok (tx'.sig_hash, tx'.unsigned_hex))
            × (tx'.tx_hash ≡ [])
            × (tx'.network ≡ tx.network)
      stored i us (err e) k = cc
      stored i us (ok (hashes, hex)) k = ground (arith, k)

      checked :
          (i : Ingredient) (r : Option (Result TxError (List UtxoInfo)))
          → validate lib tx.network i ≡ r
          → build_checked lib tx i r ≡ some (tx', none)
          → (us : List UtxoInfo) × IsChecked lib tx.network i us
            × (build_for lib tx.network i us ≡ ok (tx'.sig_hash, tx'.unsigned_hex))
            × (tx'.tx_hash ≡ [])
            × (tx'.network ≡ tx.network)
      checked i none v k = cc
      checked i (some (err e)) v k = cc
      checked i (some (ok us)) v k =
          let (b, x, n) = stored i us (build_for lib tx.network i us) k in
          (us, validate-IsChecked lib tx.network i us v, b, x, n)

      go :
          (o : Option Ingredient)
          → tx.ingredient ≡ o
          → build_with lib tx o ≡ some (tx', none)
          → (i : Ingredient) × (us : List UtxoInfo) × (tx.ingredient ≡ some i)
            × IsChecked lib tx.network i us
            × (build_for lib tx.network i us ≡ ok (tx'.sig_hash, tx'.unsigned_hex))
            × (tx'.tx_hash ≡ [])
            × (tx'.network ≡ tx.network)
      go none e k = cc
      go (some i) e k =
          let (us, c, b, x, n) = checked i (validate lib tx.network i) refl k in
          (i, us, e, c, b, x, n)

  -- What is left of a Build that failed its checks: the builder has no ingredient, or one that the
  -- checks refuse with this error; the builder is as it was.
  abbrev pub IsRefused : TxBuilder → TxBuilder → TxError → Type 0
  IsRefused tx tx' e =
      (tx' ≡ tx)
      × (((tx.ingredient ≡ none) × (e ≡ Types.ingredient_nil))
          ⊎ ((i : Ingredient) × (tx.ingredient ≡ some i)
              × (validate lib tx.network i ≡ some (err e))
              × (¬ ((us : List UtxoInfo) × IsChecked lib tx.network i us))))

  -- A Build that returns an error either fails its checks, and leaves the builder as it was: there
  -- is no ingredient, and the error says so, or the checks return the error for the ingredient,
  -- for which then not all that they check holds. Or it passed the checks, the error is that of
  -- the network's function, and it leaves no signature hashes, no unsigned transaction and no
  -- transaction hash.
  pub build_fails :
      (tx tx' : TxBuilder) (e : TxError)
      → build lib tx ≡ some (tx', some e)
      → IsRefused tx tx' e
        ⊎ ((i : Ingredient) × (us : List UtxoInfo) × (tx.ingredient ≡ some i)
            × IsChecked lib tx.network i us
            × (build_for lib tx.network i us ≡ err e)
            × (tx'.sig_hash ≡ [])
            × (tx'.unsigned_hex ≡ [])
            × (tx'.tx_hash ≡ []))
  unfolding build
  build_fails tx tx' e h = go tx.ingredient refl h
    where
      stored :
          (i : Ingredient) (r : Result TxError (List Bytes × Bytes))
          → some (store (reset tx i) r) ≡ some (tx', some e)
          → (r ≡ err e) × (tx'.sig_hash ≡ []) × (tx'.unsigned_hex ≡ []) × (tx'.tx_hash ≡ [])
      stored i (err x) k = ground (arith, k)
      stored i (ok (hashes, hex)) k = cc

      checked :
          (i : Ingredient) (r : Option (Result TxError (List UtxoInfo)))
          → tx.ingredient ≡ some i
          → validate lib tx.network i ≡ r
          → build_checked lib tx i r ≡ some (tx', some e)
          → IsRefused tx tx' e
            ⊎ ((us : List UtxoInfo) × IsChecked lib tx.network i us
                × (build_for lib tx.network i us ≡ err e)
                × (tx'.sig_hash ≡ [])
                × (tx'.unsigned_hex ≡ [])
                × (tx'.tx_hash ≡ []))
      checked i none p v k = cc
      checked i (some (err x)) p v k =
          let same : x ≡ e = ground (arith, k) in
          inl (
            ground (arith, k),
            inr (
              i,
              p,
              cc (v, same),
              λ (us, c). absurd (cc (v, IsChecked-validate lib tx.network i us c)),
            ),
          )
      checked i (some (ok us)) p v k =
          let (b, s, u, x) = stored i (build_for lib tx.network i us) k in
          inr (us, validate-IsChecked lib tx.network i us v, b, s, u, x)

      go :
          (o : Option Ingredient)
          → tx.ingredient ≡ o
          → build_with lib tx o ≡ some (tx', some e)
          → IsRefused tx tx' e
            ⊎ ((i : Ingredient) × (us : List UtxoInfo) × (tx.ingredient ≡ some i)
                × IsChecked lib tx.network i us
                × (build_for lib tx.network i us ≡ err e)
                × (tx'.sig_hash ≡ [])
                × (tx'.unsigned_hex ≡ [])
                × (tx'.tx_hash ≡ []))
      go none p k = inl (ground (arith, k), inl (p, ground (arith, k)))
      go (some i) p k = elim (checked i (validate lib tx.network i) p refl k) [
        | inl same ↦ inl same
        | inr (us, c, b, s, u, x) ↦ inr (i, us, p, c, b, s, u, x)
      ]
