-- ===== src/Utxo/Sign.antt =====
-- signing/utxo/tx.go: TxBuilder.Sign, signTaproot and ConcatSignature.
pub mod Text
pub mod Chain
pub mod Spend
use wallet_sdk.Common.{
  ℕ, ◌+◌, ◌≡◌, Bool, true, false, not, Option, none, some, List, [], ◌∷◌, ◌++◌, if◌then◌else◌, ◌==◌,
  ltb, Bytes, bytes_eq, length, Result, ok, err, ◌>>=◌, ◌>>◌, guard, or_error,
}
use wallet_sdk.Go.Hex.{hex_decode, hex_encode, decoded}
use wallet_sdk.Utxo.Types
use wallet_sdk.Utxo.Types.{
  Ingredient, TxBuilder, TxError, network_btc, network_ltc, network_doge, network_btc_p2tr,
  network_sys,
}
use wallet_sdk.Utxo.Btcd.{TxIn, MsgTx}

-- The parts of btcd that sign and that take a transaction apart and together.
pub record Signer : Type 1 where
  pub Packet : Type 0
  -- ecdsa.Sign and schnorr.Sign with the tweaked key, serialized, of a private key and a hash
  pub ecdsa_sign : Bytes → Bytes → Bytes
  pub schnorr_sign : Bytes → Bytes → Option Bytes
  pub serialize : MsgTx → Option Bytes
  pub deserialize : Bytes → Option MsgTx
  pub tx_hash : MsgTx → Bytes
  -- txscript.NewScriptBuilder().AddData(sig).AddData(pkData).Script()
  pub signature_script : Bytes → Bytes → Option Bytes
  -- psbt: the zero packet, NewFromRawBytes, UnsignedTx, NewUpdater, Sign with its outcome and the
  -- packet that it leaves, MaybeFinalizeAll, Extract
  pub zero_packet : Packet
  pub new_from_raw_bytes : Bytes → Option Packet
  pub unsigned_tx : Packet → MsgTx
  pub new_updater : Packet → Option Packet
  pub update_sign : ℕ → Bytes → Bytes → Packet → Option (ℕ × Packet)
  pub maybe_finalize_all : Packet → Option Packet
  pub extract : Packet → Option MsgTx

-- strings.Join(texts, "_")
unfoldable pub join : List Bytes → Bytes
join [] = []
join (t ∷ []) = t
join (t ∷ u ∷ us) = t ++ b'_' ∷ join (u ∷ us)

-- strings.Split(text, "_"), which has one part at least.
unfoldable pub add_first : ℕ → List Bytes → List Bytes
add_first c [] = (c ∷ []) ∷ []
add_first c (t ∷ ts) = (c ∷ t) ∷ ts

unfoldable pub split : Bytes → List Bytes
unfolding add_first
split [] = [] ∷ []
split (c ∷ cs) = if c == b'_' then [] ∷ split cs else add_first c (split cs)

-- The loop that decodes the signatures.
unfoldable pub decode_all : List Bytes → Result TxError (List Bytes)
decode_all [] = ok []
decode_all (v ∷ vs) = do
  vv ← or_error (decoded (hex_decode v)) Types.bad_signature_hex
  rest ← decode_all vs
  ok (vv ∷ rest)

-- A loop over the inputs that changes each by its signature; ConcatSignature has compared the
-- lengths before.
unfoldable pub attach :
    (Bytes → TxIn → Result TxError TxIn) → List TxIn → List Bytes → Result TxError (List TxIn)
attach change (i ∷ is) (s ∷ ss) = do
  first ← change s i
  rest ← attach change is ss
  ok (first ∷ rest)
attach change (i ∷ is) [] = err Types.signature_count
attach change [] ss = ok []

-- `txin.Witness = wire.TxWitness{sig[idx], pkData}`
unfoldable pub with_key : Bytes → Bytes → TxIn → Result TxError TxIn
with_key pk_data sig i = ok (record i { witness = sig ∷ pk_data ∷ [] })

-- The taproot witness; schnorr.SignatureSize is 64.
unfoldable pub key_spend : Bytes → TxIn → Result TxError TxIn
key_spend sig i =
    if length sig == 64
    then ok (record i { witness = sig ∷ [] })
    else err Types.taproot_signature_size

module _ (lib : Signer) where
  open lib use {
    Packet, ecdsa_sign, schnorr_sign, serialize, deserialize, tx_hash, signature_script,
    zero_packet, new_from_raw_bytes, unsigned_tx, new_updater, update_sign, maybe_finalize_all,
    extract,
  }

  -- The loop of Sign; 1 is txscript.SigHashAll.
  unfoldable pub sign_loop : Bytes → ℕ → Bytes → List Bytes → Result TxError Bytes
  sign_loop private_key idx text [] = ok text
  sign_loop private_key idx text (v ∷ vs) = do
    hash ← or_error (decoded (hex_decode v)) Types.bad_sig_hash_hex
    let signature = hex_encode (ecdsa_sign private_key hash ++ 1 ∷ [])
    sign_loop private_key (idx + 1) (if idx == 0 then signature else text ++ b'_' ∷ signature) vs

  unfoldable pub taproot_signatures : Bytes → List Bytes → Result TxError (List Bytes)
  taproot_signatures private_key [] = ok []
  taproot_signatures private_key (v ∷ vs) = do
    hash ← or_error (decoded (hex_decode v)) Types.bad_sig_hash_hex
    sig ← or_error (schnorr_sign private_key hash) Types.sign_failed
    rest ← taproot_signatures private_key vs
    ok (hex_encode sig ∷ rest)

  unfoldable pub sign_taproot : TxBuilder → Bytes → Result TxError Bytes
  sign_taproot tx private_key = do
    signatures ← taproot_signatures private_key tx.sig_hash
    ok (join signatures)

  unfoldable pub sign : TxBuilder → Bytes → Result TxError Bytes
  unfolding sign_loop sign_taproot
  sign tx private_key = do
    guard (ltb 0 (length tx.sig_hash)) Types.sig_hash_missing
    (if bytes_eq tx.network network_btc_p2tr
        then sign_taproot tx private_key
        else sign_loop private_key 0 [] tx.sig_hash)

  -- updater.Sign for each input.
  unfoldable pub update_all : Bytes → ℕ → List TxIn → List Bytes → Packet → Result TxError Packet
  update_all pk_data idx (i ∷ is) (s ∷ ss) packet = do
    result ← or_error (update_sign idx s pk_data packet) Types.updater_failed
    guard (result.0 == 0) Types.outcome_not_zero
    update_all pk_data (idx + 1) is ss result.1
  update_all pk_data idx (i ∷ is) [] packet = err Types.signature_count
  update_all pk_data idx [] ss packet = ok packet

  unfoldable pub finish_psbt : Bytes → MsgTx → List Bytes → Packet → Result TxError MsgTx
  unfolding update_all
  finish_psbt pk_data msg sigs packet = do
    updater ← or_error (new_updater packet) Types.updater_failed
    updated ← update_all pk_data 0 msg.tx_in sigs updater
    final ← or_error (maybe_finalize_all updated) Types.finalize_failed
    or_error (extract final) Types.extract_failed

  unfoldable pub attach_to :
      (Bytes → TxIn → Result TxError TxIn) → MsgTx → List Bytes → Result TxError MsgTx
  unfolding attach
  attach_to change msg sigs = do ins ← attach change msg.tx_in sigs; ok (record msg { tx_in = ins })

  -- `txin.SignatureScript = …`
  unfoldable pub with_script : Bytes → Bytes → TxIn → Result TxError TxIn
  with_script pk_data sig i = do
    script ← or_error (signature_script sig pk_data) Types.script_builder_failed
    ok (record i { signature_script = script })

  -- The switch on the network: the signed transaction and its hash, which stays empty for a
  -- network that the switch does not name.
  unfoldable pub signed_tx :
      Bytes → Bool → Bytes → MsgTx → Packet → List Bytes → Result TxError MsgTx
  unfolding finish_psbt attach_to with_script with_key key_spend
  signed_tx network is_psbt pk_data msg packet sigs =
      if bytes_eq network network_btc
      then if is_psbt
        then finish_psbt pk_data msg sigs packet
        else attach_to (with_key pk_data) msg sigs
      else if bytes_eq network network_btc_p2tr
      then attach_to key_spend msg sigs
      else if bytes_eq network network_ltc
      then attach_to (with_key pk_data) msg sigs
      else if bytes_eq network network_doge
      then attach_to (with_script pk_data) msg sigs
      else if bytes_eq network network_sys
      then finish_psbt pk_data msg sigs packet
      else ok msg

  unfoldable pub hash_for : Bytes → MsgTx → Bytes
  hash_for network msg =
      if bytes_eq network network_btc
      then tx_hash msg
      else if bytes_eq network network_btc_p2tr
      then tx_hash msg
      else if bytes_eq network network_ltc
      then tx_hash msg
      else if bytes_eq network network_doge
      then tx_hash msg
      else if bytes_eq network network_sys
      then tx_hash msg
      else []

  -- The unsigned transaction, and the packet that it stands in.
  unfoldable pub parse_unsigned : Bool → Bytes → Result TxError (MsgTx × Packet)
  parse_unsigned true bytes = do
    packet ← or_error (new_from_raw_bytes bytes) Types.deserialize_failed
    ok (unsigned_tx packet, packet)
  parse_unsigned false bytes = do
    msg ← or_error (deserialize bytes) Types.deserialize_failed
    ok (msg, zero_packet)

  -- The hash and the text that a success stores and returns.
  unfoldable pub concat : TxBuilder → Ingredient → Bytes → Bool → Result TxError (Bytes × Bytes)
  unfolding parse_unsigned signed_tx hash_for split decode_all
  concat tx i signature is_der_format = do
    guard (ltb 0 (length tx.sig_hash)) Types.sig_hash_missing
    pk_data ← or_error (decoded (hex_decode i.sender_public_key)) Types.bad_public_key_hex
    unsigned_bytes ← or_error (decoded (hex_decode tx.unsigned_hex)) Types.bad_unsigned_hex
    parts ← parse_unsigned i.is_psbt unsigned_bytes
    guard (length (split signature) == length parts.0.tx_in) Types.signature_count
    guard (not is_der_format) Types.der_format
    sigs ← decode_all (split signature)
    msg ← signed_tx tx.network i.is_psbt pk_data parts.0 parts.1 sigs
    bytes ← or_error (serialize msg) Types.serialize_failed
    ok (hash_for tx.network msg, hex_encode bytes)

  store_hash : TxBuilder → Result TxError (Bytes × Bytes) → TxBuilder × Result TxError Bytes
  store_hash tx (ok (hash, text)) = (record tx { tx_hash = hash }, ok text)
  store_hash tx (err e) = (tx, err e)

  -- Of a builder with signature hashes and no ingredient, the access to the public key panics.
  unfoldable pub concat_signature :
      TxBuilder → Bytes → Bool → Option (TxBuilder × Result TxError Bytes)
  unfolding concat store_hash
  concat_signature tx signature is_der_format = elim tx.ingredient [
    | none ↦ if ltb 0 (length tx.sig_hash) then none else some (tx, err Types.sig_hash_missing)
    | some i ↦ some (store_hash tx (concat tx i signature is_der_format))
  ]
