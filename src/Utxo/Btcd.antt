-- ===== src/Utxo/Btcd.antt =====
-- What signing/utxo uses of github.com/btcsuite/btcd, which is not part of the repository. The
-- values of package wire that the code builds are records of the fields that it sets; addresses,
-- PSBT packets and every function are parameters.
use wallet_sdk.Common.{ℕ, Bool, Option, List, Bytes}

pub data AddressKind : Type 0 where
  pub_key_hash script_hash witness_pub_key_hash witness_script_hash taproot other : AddressKind

-- The package's four variables of type chaincfg.Params.
pub data Params : Type 0 where
  btc_params ltc_params doge_params sys_params : Params

pub record OutPoint : Type 0 where
  pub hash : Bytes
  pub index : ℕ

pub record TxIn : Type 0 where
  pub previous_out_point : OutPoint
  pub signature_script : Bytes
  pub witness : List Bytes
  pub sequence : ℕ

pub record TxOut : Type 0 where
  pub value : ℕ
  pub pk_script : Bytes

pub record MsgTx : Type 0 where
  pub version : ℕ
  pub tx_in : List TxIn
  pub tx_out : List TxOut

pub record Btcd : Type 1 where
  pub Address : Type 0
  pub Packet : Type 0
  pub tx_version : ℕ
  pub max_tx_in_sequence_num : ℕ
  -- btcaddr.DecodeAddress, addr.IsForNet and the type switch on an address
  pub decode_address : Bytes → Params → Option Address
  pub is_for_net : Address → Params → Bool
  pub kind : Address → AddressKind
  -- txscript.PayToAddrScript, IsPayToTaproot and the OP_RETURN script of a memo
  pub pay_to_addr_script : Address → Option Bytes
  pub is_pay_to_taproot : Bytes → Bool
  pub op_return_script : Bytes → Option Bytes
  -- wire.VarIntSerializeSize and chainhash.NewHashFromStr
  pub var_int_serialize_size : ℕ → ℕ
  pub new_hash_from_str : Bytes → Option Bytes
  -- signature hashes: of a script and an amount, of a script, and of the previous outputs, which
  -- are a map, given by the stores made to it in their order
  pub calc_witness_sig_hash : Bytes → ℕ → MsgTx → ℕ → Option Bytes
  pub calc_signature_hash : Bytes → MsgTx → ℕ → Option Bytes
  pub calc_taproot_signature_hash : List (OutPoint × TxOut) → MsgTx → ℕ → Option Bytes
  pub serialize : MsgTx → Option Bytes
  -- psbt: NewFromUnsignedTx, the store to packet.Inputs[idx].WitnessUtxo, SanityCheck, Serialize
  pub new_from_unsigned_tx : MsgTx → Option Packet
  pub set_witness_utxo : ℕ → TxOut → Packet → Packet
  pub sanity_check : Packet → Bool
  pub serialize_packet : Packet → Option Bytes
