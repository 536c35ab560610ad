-- ===== src/Utxo/Assemble/Hashes.antt =====
-- signing/utxo/tx.go: the signature hashes of the builders.
use wallet_sdk.Common.{
  or_error-eq-ok, ℕ, ◌+◌, ◌≡◌, refl, arith, Option, some, List, [], ◌∷◌, Bytes, ok, or_error,
  >>=-eq-ok,
}
use wallet_sdk.Go.Strconv.{parse_int}
use wallet_sdk.Go.Hex.{hex_encode}
use wallet_sdk.UtxoList.{UtxoInfo}
use wallet_sdk.Utxo.Types
use wallet_sdk.Utxo.Types.{Ingredient, TxError, network_btc, network_ltc, network_sys}
use wallet_sdk.Utxo.Btcd.{Btcd, MsgTx}
use wallet_sdk.Utxo.Assemble.{witness_hashes, legacy_hashes, script_or}

module _ (lib : Btcd) where
  -- What btcd hashes for a coin at an index: under the coin's own script, or the sender's.
  abbrev pub witness_sig : Bytes → MsgTx → ℕ → UtxoInfo → Option Bytes
  witness_sig pk_data tx idx u =
      lib.calc_witness_sig_hash (script_or u.script pk_data) (parse_int u.value).0 tx idx

  abbrev pub legacy_sig : Bytes → MsgTx → ℕ → UtxoInfo → Option Bytes
  legacy_sig pk_data tx idx u = lib.calc_signature_hash (script_or u.script pk_data) tx idx

  -- The texts are the hashes of the coins in hexadecimal, one for one and in their order.
  abbrev pub HashedBy : (ℕ → UtxoInfo → Option Bytes) → ℕ → List UtxoInfo → List Bytes → Type 0
  HashedBy sig idx [] [] = Unit
  HashedBy sig idx [] (h ∷ hs) = ⊥
  HashedBy sig idx (u ∷ us) [] = ⊥
  HashedBy sig idx (u ∷ us) (h ∷ hs) =
      ((raw : Bytes) × (sig idx u ≡ some raw) × (h ≡ hex_encode raw)) × HashedBy sig (idx + 1) us hs

  pub witness_hashes-HashedBy :
      (pk_data : Bytes) (tx : MsgTx) (idx : ℕ) (us : List UtxoInfo) (hashes : List Bytes)
      → witness_hashes lib pk_data tx idx us ≡ ok hashes
      → HashedBy (witness_sig pk_data tx) idx us hashes
  unfolding witness_hashes
  witness_hashes-HashedBy pk_data tx idx [] [] h = tt
  witness_hashes-HashedBy pk_data tx idx [] (x ∷ xs) h = cc
  witness_hashes-HashedBy pk_data tx idx (u ∷ us) hashes h =
      let (raw, e1, h1) =
        >>=-eq-ok (or_error (witness_sig pk_data tx idx u) Types.sig_hash_failed) _ h in
      let (rest, e2, h2) = >>=-eq-ok (witness_hashes lib pk_data tx (idx + 1) us) _ h1 in
      let same : hashes ≡ hex_encode raw ∷ rest = ground (arith, h2) in
      rw same (
        (raw, or_error-eq-ok _ Types.sig_hash_failed e1, refl),
        witness_hashes-HashedBy pk_data tx (idx + 1) us rest e2,
      )

  pub legacy_hashes-HashedBy :
      (pk_data : Bytes) (tx : MsgTx) (idx : ℕ) (us : List UtxoInfo) (hashes : List Bytes)
      → legacy_hashes lib pk_data tx idx us ≡ ok hashes
      → HashedBy (legacy_sig pk_data tx) idx us hashes
  unfolding legacy_hashes
  legacy_hashes-HashedBy pk_data tx idx [] [] h = tt
  legacy_hashes-HashedBy pk_data tx idx [] (x ∷ xs) h = cc
  legacy_hashes-HashedBy pk_data tx idx (u ∷ us) hashes h =
      let (raw, e1, h1) =
        >>=-eq-ok (or_error (legacy_sig pk_data tx idx u) Types.sig_hash_failed) _ h in
      let (rest, e2, h2) = >>=-eq-ok (legacy_hashes lib pk_data tx (idx + 1) us) _ h1 in
      let same : hashes ≡ hex_encode raw ∷ rest = ground (arith, h2) in
      rw same (
        (raw, or_error-eq-ok _ Types.sig_hash_failed e1, refl),
        legacy_hashes-HashedBy pk_data tx (idx + 1) us rest e2,
      )

  pub same_hashes :
      (sig : ℕ → UtxoInfo → Option Bytes) (us : List UtxoInfo) {hs hashes : List Bytes}
      → hs ≡ hashes
      → HashedBy sig 0 us hs
      → HashedBy sig 0 us hashes
  same_hashes sig us same h = rw (← same) h
