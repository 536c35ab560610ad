-- ===== src/Utxo/Sign/Spend.antt =====
-- signing/utxo/tx.go: Sign and then ConcatSignature, on a Bitcoin transaction that is no PSBT.
use wallet_sdk.Common.{
  suc, ◌<◌, ◌≡◌, refl, arith, true, false, none, some, List, [], ◌∷◌, ◌==◌, ltb, Bytes, bytes_eq,
  All, ap, sym, ◌∙◌, length, Result, ok, err, guard, or_error, >>=-eq-ok, Option-cases, inl, inr,
}
use wallet_sdk.Go.Hex.{hex_decode, hex_encode, decoded}
use wallet_sdk.Utxo.Types
use wallet_sdk.Utxo.Types.{Ingredient, TxBuilder, TxError, network_btc, network_btc_p2tr}
use wallet_sdk.Utxo.Btcd.{TxIn, MsgTx}
use wallet_sdk.Utxo.Sign.{
  Signer, split, decode_all, attach, with_key, signed_tx, hash_for, sign, concat_signature,
}
use wallet_sdk.Utxo.Sign.Chain.{SignedBy, no_more, one_more, sign-split}

-- Each input with its signature and the public key as its witness.
pub witnessed : Bytes → List TxIn → List Bytes → List TxIn
witnessed pk_data (i ∷ is) (s ∷ ss) =
    record i { witness = s ∷ pk_data ∷ [] } ∷ witnessed pk_data is ss
witnessed pk_data (i ∷ is) [] = []
witnessed pk_data [] ss = []

attach-witnessed :
    (pk_data : Bytes) (is : List TxIn) (ss : List Bytes)
    → length is ≡ length ss
    → attach (with_key pk_data) is ss ≡ ok (witnessed pk_data is ss)
unfolding attach with_key witnessed
attach-witnessed pk_data [] ss e = refl
attach-witnessed pk_data (i ∷ is) [] e = absurd (omega arith)
attach-witnessed pk_data (i ∷ is) (s ∷ ss) e =
    rw (attach-witnessed pk_data is ss (omega arith)) refl

length-decode_all : (vs ss : List Bytes) → decode_all vs ≡ ok ss → length vs ≡ length ss
unfolding decode_all
length-decode_all [] ss h = ground (arith, h)
length-decode_all (v ∷ vs) ss h =
    let (vv, e, h1) = >>=-eq-ok (or_error (decoded (hex_decode v)) Types.bad_signature_hex) _ h in
    let (rest, e2, h2) = >>=-eq-ok (decode_all vs) _ h1 in
    ground (arith, h2, length-decode_all vs rest e2)

module _ (lib : Signer) where
  open lib use {ecdsa_sign, serialize, deserialize, tx_hash}

  length-SignedBy :
      (private_key : Bytes) {vs ss : List Bytes}
      → SignedBy lib private_key vs ss
      → length ss ≡ length vs
  length-SignedBy private_key no_more = refl
  length-SignedBy private_key (one_more e more) = ap suc (length-SignedBy private_key more)

  -- What ConcatSignature stores and returns for this signed transaction.
  pub delivered : TxBuilder → MsgTx → TxBuilder × Result TxError Bytes
  delivered tx msg = elim (serialize msg) [
    | none ↦ (tx, err Types.serialize_failed)
    | some bytes ↦ (record tx { tx_hash = tx_hash msg }, ok (hex_encode bytes))
  ]

  sign-some_hashes :
      (tx : TxBuilder) (private_key text : Bytes)
      → sign lib tx private_key ≡ ok text
      → ltb 0 (length tx.sig_hash) ≡ true
  unfolding sign
  sign-some_hashes tx private_key text h =
      let (done, e, h1) =
        >>=-eq-ok (guard (ltb 0 (length tx.sig_hash)) Types.sig_hash_missing) _ h in
      ground (arith, e)

  signed_tx-btc :
      (network pk_data : Bytes) (msg : MsgTx) (packet : lib.Packet) (ss : List Bytes)
      → network ≡ network_btc
      → length msg.tx_in ≡ length ss
      → signed_tx lib network false pk_data msg packet ss
        ≡ ok (record msg { tx_in = witnessed pk_data msg.tx_in ss })
  unfolding signed_tx
  signed_tx-btc network pk_data msg packet ss hn hl =
      rw (hn, attach-witnessed pk_data msg.tx_in ss hl) refl

  hash_for-btc :
      (network : Bytes) (msg : MsgTx)
      → network ≡ network_btc
      → hash_for lib network msg ≡ tx_hash msg
  unfolding hash_for
  hash_for-btc network msg hn = rw hn refl

  concat_signature-witnessed :
      (tx : TxBuilder) (i : Ingredient) (text pk_data raw : Bytes) (msg : MsgTx) (ss : List Bytes)
      → ltb 0 (length tx.sig_hash) ≡ true
      → tx.ingredient ≡ some i
      → tx.network ≡ network_btc
      → i.is_psbt ≡ false
      → decoded (hex_decode i.sender_public_key) ≡ some pk_data
      → decoded (hex_decode tx.unsigned_hex) ≡ some raw
      → deserialize raw ≡ some msg
      → (length (split text) == length msg.tx_in) ≡ true
      → decode_all (split text) ≡ ok ss
      → length msg.tx_in ≡ length ss
      → concat_signature lib tx text false
        ≡ some (delivered tx (record msg { tx_in = witnessed pk_data msg.tx_in ss }))
  unfolding concat_signature delivered
  concat_signature-witnessed tx i text pk_data raw msg ss some_hashes hi hn hp hk hr hd hc hs hl =
      let made = signed_tx-btc tx.network pk_data msg lib.zero_packet ss hn hl in
      let named =
        hash_for-btc tx.network (record msg { tx_in = witnessed pk_data msg.tx_in ss }) hn in
      rw (hi, some_hashes, hk, hr, hp, hd, hc, hs, made, named)
        (elim (Option-cases (serialize (record msg { tx_in = witnessed pk_data msg.tx_in ss }))) [
          | inl e ↦ rw (delivered, e) refl
          | inr (bytes, e) ↦ rw (delivered, e) refl
        ])

  -- Of a builder for Bitcoin, no PSBT, whose public key and unsigned transaction decode, the
  -- latter with an input for each signature hash: where the library's signatures are bytes and Sign
  -- succeeded, ConcatSignature takes what Sign returned, gives each input, in their order, the
  -- witness of its hash's signature and the public key, and returns that transaction serialized
  -- and stores its hash, or fails as the serialization does.
  pub sign-concat_signature :
      (tx : TxBuilder) (i : Ingredient) (private_key text pk_data raw : Bytes) (msg : MsgTx)
      → ((hash : Bytes) → All (λ b. b < 256) (ecdsa_sign private_key hash))
      → tx.ingredient ≡ some i
      → tx.network ≡ network_btc
      → i.is_psbt ≡ false
      → decoded (hex_decode i.sender_public_key) ≡ some pk_data
      → decoded (hex_decode tx.unsigned_hex) ≡ some raw
      → deserialize raw ≡ some msg
      → length msg.tx_in ≡ length tx.sig_hash
      → sign lib tx private_key ≡ ok text
      → (ss : List Bytes) × SignedBy lib private_key tx.sig_hash ss
        × (concat_signature lib tx text false
            ≡ some (delivered tx (record msg { tx_in = witnessed pk_data msg.tx_in ss })))
  unfolding concat_signature delivered
  sign-concat_signature tx i private_key text pk_data raw msg real hi hn hp hk hr hd hl h =
      let other : bytes_eq tx.network network_btc_p2tr ≡ false = rw hn refl in
      let (ss, by, same) = sign-split lib tx private_key text real other h in
      let count : length (split text) ≡ length ss = length-decode_all (split text) ss same in
      let sizes = length-SignedBy private_key by in
      (
        ss,
        by,
        concat_signature-witnessed tx i text pk_data raw msg ss
            (sign-some_hashes tx private_key text h) hi hn hp hk hr hd (ground arith) same
            (hl ∙ sym sizes),
      )
