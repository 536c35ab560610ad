-- ===== src/Examples/Signatures.antt =====
-- A transaction of two inputs, signed by a small stand-in for the library.
use wallet_sdk.Common.{ℕ, ◌≡◌, refl, arith, false, none, some, List, [], ◌∷◌, Bytes, codes, length}
use wallet_sdk.Utxo.Types.{Ingredient, TxBuilder, network_btc}
use wallet_sdk.Utxo.Btcd.{MsgTx, TxIn}
use wallet_sdk.Go.Hex.{hex_decode, hex_encode, hex_digit, from_hex}
use wallet_sdk.Utxo.Sign.{Signer, sign, sign_loop, concat_signature}
use wallet_sdk.Utxo.Sign.Chain.{SignedBy}
use wallet_sdk.Utxo.Sign.Spend.{witnessed, delivered, sign-concat_signature}
use wallet_sdk.Examples.Library.{spend, builder}

abbrev input : ℕ → TxIn
input index = record {
  previous_out_point = record { hash = codes "a1"; index = index };
  signature_script = [];
  witness = [];
  sequence = 0;
}

abbrev two_inputs : MsgTx
two_inputs = record { version = 1; tx_in = input 0 ∷ input 1 ∷ []; tx_out = [] }

-- A signature is the byte 48 whatever is signed, and a transaction the number of its inputs.
unfoldable toy_signer : Signer
toy_signer = record {
  Packet = MsgTx;
  ecdsa_sign = λ private_key hash. 48 ∷ [];
  schnorr_sign = λ private_key hash. none;
  serialize = λ msg. some (length msg.tx_in ∷ []);
  deserialize = λ bytes. some two_inputs;
  tx_hash = λ msg. codes "hash";
  signature_script = λ sig key. none;
  zero_packet = two_inputs;
  new_from_raw_bytes = λ bytes. none;
  unsigned_tx = λ packet. packet;
  new_updater = λ packet. some packet;
  update_sign = λ idx sig key packet. none;
  maybe_finalize_all = λ packet. some packet;
  extract = λ packet. some packet;
}

abbrev owner : Ingredient
owner = record spend { is_psbt = false; sender_public_key = codes "02ff" }

abbrev unsigned : TxBuilder
unsigned = record (builder (some owner) network_btc) {
  unsigned_hex = codes "02";
  sig_hash = codes "aa" ∷ codes "bb" ∷ [];
}

sign-concat_signature_example :
    (ss : List Bytes) × SignedBy toy_signer (codes "k") unsigned.sig_hash ss
    × (concat_signature toy_signer unsigned (codes "3001_3001") false
        ≡ some (
            delivered toy_signer unsigned
              (record two_inputs { tx_in = witnessed (2 ∷ 255 ∷ []) two_inputs.tx_in ss })))
unfolding toy_signer sign sign_loop hex_decode hex_encode hex_digit from_hex
sign-concat_signature_example =
    sign-concat_signature toy_signer unsigned owner (codes "k") (codes "3001_3001") (2 ∷ 255 ∷ [])
      (2 ∷ []) two_inputs (λ hash. (omega arith, tt)) refl refl refl refl refl refl refl refl
