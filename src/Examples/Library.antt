-- ===== src/Examples/Library.antt =====
-- A small instance of each parameter: addresses are texts, a hash is a prefix, and a serialized
-- transaction is the number of its inputs and of its outputs.
use wallet_sdk.Common.{true, some, map, Option, List, [], ◌∷◌, Bytes, codes, length, take}
use wallet_sdk.UtxoList.{UtxoInfo}
use wallet_sdk.Utxo.Types.{Ingredient, TxBuilder}
use wallet_sdk.Utxo.Btcd.{Btcd, MsgTx, pub_key_hash}
use wallet_sdk.Filecoin.Address.{Hashing}

unfoldable pub toy_btcd : Btcd
toy_btcd = record {
  Address = Bytes;
  Packet = MsgTx;
  tx_version = 1;
  max_tx_in_sequence_num = 4294967295;
  decode_address = λ address params. some address;
  is_for_net = λ address params. true;
  kind = λ address. pub_key_hash;
  pay_to_addr_script = λ address. some (0x51 ∷ address);
  is_pay_to_taproot = λ script. true;
  op_return_script = λ memo. some (0x6a ∷ length memo ∷ memo);
  var_int_serialize_size = λ n. 1;
  new_hash_from_str = λ text. some text;
  calc_witness_sig_hash = λ script amount tx idx. some (idx ∷ script);
  calc_signature_hash = λ script tx idx. some (idx ∷ script);
  calc_taproot_signature_hash = λ outs tx idx. some (idx ∷ []);
  serialize = λ tx. some (length tx.tx_in ∷ length tx.tx_out ∷ []);
  new_from_unsigned_tx = λ tx. some tx;
  set_witness_utxo = λ idx out packet. packet;
  sanity_check = λ packet. true;
  serialize_packet = λ tx. some (length tx.tx_in ∷ []);
}

unfoldable pub toy_hashing : Hashing
toy_hashing = record {
  blake2b = λ size bytes. some (take size bytes);
  base32_decode = λ text. some text;
}

abbrev pub coin : Bytes → UtxoInfo
coin value = record {
  hash = codes "a1";
  script = [];
  index = codes "0";
  value = value;
  version = [];
  is_coinbase = [];
  block_daa_score = [];
}

abbrev pub two_coins : List UtxoInfo
two_coins = coin (codes "90000") ∷ coin (codes "20000") ∷ []

abbrev pub spend : Ingredient
spend = record {
  sender = codes "me";
  sender_public_key = [];
  recipient = codes "you";
  amount = codes "50000";
  byte_fee = codes "3";
  utxos = some (map some two_coins);
  is_psbt = true;
  memo = codes "0x6869";
}

abbrev pub memo_script : Bytes
memo_script = 0x6a ∷ 2 ∷ 0x68 ∷ 0x69 ∷ []

abbrev pub builder : Option Ingredient → Bytes → TxBuilder
builder ingredient network = record {
  ingredient = ingredient;
  network = network;
  unsigned_hex = codes "old";
  sig_hash = [];
  tx_hash = [];
}
