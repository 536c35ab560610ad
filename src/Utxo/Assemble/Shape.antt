-- ===== src/Utxo/Assemble/Shape.antt =====
-- signing/utxo/tx.go: what the builders put into the unsigned transaction.
use wallet_sdk.Common.{
  or_error-eq-ok, ℕ, ◌≡◌, refl, arith, true, Option, some, List, [], ◌∷◌, ◌++◌, Bytes, length, ok,
  or_error, >>=-eq-ok,
}
use wallet_sdk.Go.Words.{mul_i64}
use wallet_sdk.Go.Strconv.{parse_int}
use wallet_sdk.Go.Hex.{hex_encode}
use wallet_sdk.UtxoList.{UtxoInfo}
use wallet_sdk.Utxo.Types
use wallet_sdk.Utxo.Types.{Ingredient, TxError, network_btc, network_ltc, network_sys}
use wallet_sdk.Utxo.Btcd.{Btcd, Params, btc_params, doge_params, TxIn, MsgTx}
use wallet_sdk.Utxo.Address.{script_for_address}
use wallet_sdk.Utxo.Fee.{build_memo_script, memo_output_vbytes}
use wallet_sdk.Utxo.Plan.{Payments, total_has, plan_scripts, plan_doge}
use wallet_sdk.Utxo.Assemble.{
  inputs, outputs, witness_hashes, legacy_hashes, sender_script, build_for_btc, build_for_doge,
  new_tx_in, memo_outs, index_u,
}
use wallet_sdk.Utxo.Assemble.Hashes.{
  HashedBy, witness_sig, legacy_sig, same_hashes, witness_hashes-HashedBy, legacy_hashes-HashedBy,
}
use wallet_sdk.Utxo.Assemble.Outputs.{HasScript, PaysOut, outputs-PaysOut}

module _ (lib : Btcd) where
  -- The inputs spend the coins, one for one and in their order, and are not signed.
  abbrev pub Spends : (UtxoInfo → ℕ) → List UtxoInfo → List TxIn → Type 0
  Spends index [] [] = Unit
  Spends index [] (i ∷ is) = ⊥
  Spends index (u ∷ us) [] = ⊥
  Spends index (u ∷ us) (i ∷ is) =
      (lib.new_hash_from_str u.hash ≡ some i.previous_out_point.hash)
      × (i.previous_out_point.index ≡ index u)
      × (i.signature_script ≡ [])
      × (i.witness ≡ [])
      × Spends index us is

  inputs-Spends :
      (index : UtxoInfo → ℕ) (sequence : ℕ) (us : List UtxoInfo) (ins : List TxIn)
      → inputs lib index sequence us ≡ ok ins
      → Spends index us ins
  unfolding inputs
  inputs-Spends index sequence [] [] h = tt
  inputs-Spends index sequence [] (i ∷ is) h = cc
  inputs-Spends index sequence (u ∷ us) ins h =
      let (hash, e1, h1) =
        >>=-eq-ok (or_error (lib.new_hash_from_str u.hash) Types.bad_utxo_hash) _ h in
      let (rest, e2, h2) = >>=-eq-ok (inputs lib index sequence us) _ h1 in
      let same : ins ≡ new_tx_in hash (index u) sequence ∷ rest = ground (arith, h2) in
      rw same (
        or_error-eq-ok _ Types.bad_utxo_hash e1,
        refl,
        refl,
        refl,
        inputs-Spends index sequence us rest e2,
      )

  sender_script-HasScript :
      (params : Params) (sender script : Bytes)
      → sender_script lib sender params ≡ ok script
      → HasScript lib params sender script
  unfolding sender_script
  sender_script-HasScript params sender script h =
      let (addr, e1, h1) =
        >>=-eq-ok (or_error (lib.decode_address sender params) Types.bad_sender) _ h in
      (
        addr,
        or_error-eq-ok _ Types.bad_sender e1,
        or_error-eq-ok (lib.pay_to_addr_script addr) Types.bad_sender_script h1,
      )

  -- An unsigned transaction for these coins, payments and memo, with its signature hashes.
  pub record IsUnsigned (params : Params) (index : UtxoInfo → ℕ) (us : List UtxoInfo)
      (payments : Payments) (memo : Option Bytes) (sender : Bytes)
      (sig : Bytes → MsgTx → ℕ → UtxoInfo → Option Bytes) (hashes : List Bytes) (tx : MsgTx)
      : Type 0 where
    pub spends : Spends index us tx.tx_in
    pub pays : PaysOut lib params memo payments tx.tx_out
    pub default_version : tx.version ≡ lib.tx_version
    pub sender_pays : Bytes
    pub sender_has : HasScript lib params sender sender_pays
    pub hashed : HashedBy lib (sig sender_pays tx) 0 us hashes

  -- A successful buildForBTC made the plan of the scripts of its two addresses and its memo, and serialized a transaction
  -- which spends the coins in their order and pays out what was planned; there is a signature
  -- hash for each coin.
  pub build_for_btc_shape :
      (i : Ingredient) (us : List UtxoInfo) (hashes : List Bytes) (hex : Bytes)
      → build_for_btc lib i us ≡ ok (hashes, hex)
      → (recipient_script change_script : Bytes) × (memo : Option Bytes) × (payments : Payments)
        × (tx : MsgTx) × (bytes : Bytes) × (script_for_address lib i.recipient btc_params true
            ≡ some recipient_script)
        × (script_for_address lib i.sender btc_params true ≡ some change_script)
        × (build_memo_script lib i.memo ≡ ok memo)
        × (plan_scripts lib network_btc
              (parse_int i.byte_fee).0
              (length us)
              (total_has 0 us)
              (mul_i64 (memo_output_vbytes lib memo) (parse_int i.byte_fee).0)
              i.amount
              i.recipient
              i.sender
              recipient_script
              change_script
            ≡ ok payments)
        × IsUnsigned btc_params index_u us payments memo i.sender (witness_sig lib) hashes tx
        × (lib.serialize tx ≡ some bytes)
        × (hex ≡ hex_encode bytes)
  unfolding build_for_btc
  build_for_btc_shape i us hashes hex h =
      let (rs, e1, h1) =
        >>=-eq-ok
          (or_error (script_for_address lib i.recipient btc_params true) Types.bad_recipient_script)
          _ h in
      let (cs, e2, h2) =
        >>=-eq-ok
          (or_error (script_for_address lib i.sender btc_params true) Types.bad_change_script) _
          h1 in
      let (memo, e3, h3) = >>=-eq-ok (build_memo_script lib i.memo) _ h2 in
      let (payments, e4, h4) =
        >>=-eq-ok
          (plan_scripts lib network_btc (parse_int i.byte_fee).0 (length us) (total_has 0 us)
            (mul_i64 (memo_output_vbytes lib memo) (parse_int i.byte_fee).0) i.amount i.recipient
            i.sender rs cs)
          _ h3 in
      let (ins, e5, h5) = >>=-eq-ok (inputs lib index_u lib.max_tx_in_sequence_num us) _ h4 in
      let (outs, e6, h6) = >>=-eq-ok (outputs lib btc_params payments) _ h5 in
      let (pk_data, e7, h7) = >>=-eq-ok (sender_script lib i.sender btc_params) _ h6 in
      let tx : MsgTx = record {
        version = lib.tx_version;
        tx_in = ins;
        tx_out = outs ++ memo_outs memo;
      } in
      let (hs, e8, h8) = >>=-eq-ok (witness_hashes lib pk_data tx 0 us) _ h7 in
      let (bytes, e9, h9) = >>=-eq-ok (or_error (lib.serialize tx) Types.serialize_failed) _ h8 in
      let hashes_same : hs ≡ hashes = ground (arith, h9) in
      (
        rs,
        cs,
        memo,
        payments,
        tx,
        bytes,
        or_error-eq-ok _ Types.bad_recipient_script e1,
        or_error-eq-ok _ Types.bad_change_script e2,
        e3,
        e4,
        record {
          spends = inputs-Spends index_u lib.max_tx_in_sequence_num us ins e5;
          pays = outputs-PaysOut lib btc_params memo payments outs e6;
          default_version = refl;
          sender_pays = pk_data;
          sender_has = sender_script-HasScript btc_params i.sender pk_data e7;
          hashed =
              same_hashes lib (witness_sig lib pk_data tx) us hashes_same
                (witness_hashes-HashedBy lib pk_data tx 0 us hs e8);
        },
        or_error-eq-ok _ Types.serialize_failed e9,
        ground (arith, h9),
      )

  -- A successful buildForDOGE made its plan with the memo, and serialized a transaction which
  -- spends the coins in their order and pays out what was planned; there is a signature hash for
  -- each coin.
  pub build_for_doge_shape :
      (i : Ingredient) (us : List UtxoInfo) (hashes : List Bytes) (hex : Bytes)
      → build_for_doge lib i us ≡ ok (hashes, hex)
      → (memo : Option Bytes) × (payments : Payments) × (tx : MsgTx) × (bytes : Bytes)
        × (build_memo_script lib i.memo ≡ ok memo)
        × (plan_doge
              (parse_int i.byte_fee).0
              (length us)
              (total_has 0 us)
              (mul_i64 (memo_output_vbytes lib memo) (parse_int i.byte_fee).0)
              i.amount
              i.recipient
              i.sender
            ≡ ok payments)
        × IsUnsigned doge_params index_u us payments memo i.sender (legacy_sig lib) hashes tx
        × (lib.serialize tx ≡ some bytes)
        × (hex ≡ hex_encode bytes)
  unfolding build_for_doge
  build_for_doge_shape i us hashes hex h =
      let (memo, e3, h3) = >>=-eq-ok (build_memo_script lib i.memo) _ h in
      let (payments, e4, h4) =
        >>=-eq-ok
          (plan_doge (parse_int i.byte_fee).0 (length us) (total_has 0 us)
            (mul_i64 (memo_output_vbytes lib memo) (parse_int i.byte_fee).0) i.amount i.recipient
            i.sender)
          _ h3 in
      let (ins, e5, h5) = >>=-eq-ok (inputs lib index_u lib.max_tx_in_sequence_num us) _ h4 in
      let (outs, e6, h6) = >>=-eq-ok (outputs lib doge_params payments) _ h5 in
      let (pk_data, e7, h7) = >>=-eq-ok (sender_script lib i.sender doge_params) _ h6 in
      let tx : MsgTx = record {
        version = lib.tx_version;
        tx_in = ins;
        tx_out = outs ++ memo_outs memo;
      } in
      let (hs, e8, h8) = >>=-eq-ok (legacy_hashes lib pk_data tx 0 us) _ h7 in
      let (bytes, e9, h9) = >>=-eq-ok (or_error (lib.serialize tx) Types.serialize_failed) _ h8 in
      let hashes_same : hs ≡ hashes = ground (arith, h9) in
      (
        memo,
        payments,
        tx,
        bytes,
        e3,
        e4,
        record {
          spends = inputs-Spends index_u lib.max_tx_in_sequence_num us ins e5;
          pays = outputs-PaysOut lib doge_params memo payments outs e6;
          default_version = refl;
          sender_pays = pk_data;
          sender_has = sender_script-HasScript doge_params i.sender pk_data e7;
          hashed =
              same_hashes lib (legacy_sig lib pk_data tx) us hashes_same
                (legacy_hashes-HashedBy lib pk_data tx 0 us hs e8);
        },
        or_error-eq-ok _ Types.serialize_failed e9,
        ground (arith, h9),
      )
