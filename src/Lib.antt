-- ===== src/Lib.antt =====
-- A model of the wallet SDK: how it chooses coins, builds transactions and encodes them for a
-- chain, how signatures are put into them, and how a secret is split into shares.
--
-- The program is a library. A package of signing/ for each chain has a TxBuilder, which is made
-- from an Ingredient, texts that the caller gives, and whose Build method parses the texts,
-- checks them, and leaves the unsigned bytes and the hashes to be signed in the builder. The
-- packages share the list of coins of signing/utxolist.go, and each has its chain's encoding.
--
-- The files and what they model:
--   Go           functions of Go's standard library that the code calls: Strconv (ParseUint,
--                ParseInt, FormatUint), Hex (encoding/hex), Words (int64 as a bit pattern below
--                2^64, little-endian words)
--   Codec        encodings that can be told from the bytes in front of any rest; Uvarint is the
--                loop that aptos, sui and multiversx have each a copy of
--   Crypto       Shamir is crypto/internal/shamir/shamir.go: Split, Combine and the arithmetic on
--                bytes. Field is an interface for it, with interpolation over any field
--   UtxoList     signing/utxolist.go: AddUtxoInfo, SelectUtxo, CalcValue, IsEmpty
--   Utxo         signing/utxo/tx.go and utils.go. Types has Ingredient and TxBuilder, Address
--                decodeAddressForNet and ValidAddress, Fee the estimates and buildMemoScript. The
--                five builders buildForBTC, buildForBTCP2TR, buildForLTC, buildForDOGE and
--                buildForSYS repeat one text: Plan has the part that chooses the payments, Assemble
--                the rest, and each builder is one function of it. Build is TxBuilder.Build, Sign
--                has Sign and ConcatSignature
--   Kaspa        Script is signing/kaspa/script.go: ScriptBuilder, payToAddressScript, parseScript,
--                classifyScript. Bech32 is signing/kaspa/bech32.go, with PublicKey2Address and
--                ValidAddress of utils.go
--   Aptos        signing/aptos/bcs.go: the BCS encoder, transactions and addresses
--   Sui          signing/sui/bcs.go: suiEnc and buildSuiTransfer. Bcs/Transaction is what they encode
--   Stellar      Strkey is signing/stellar/utils.go: encode, decode, crc16Checksum, ValidAddress
--   Multiversx   signing/multiversx/protobuf.go: Marshal
--   Filecoin     signing/filecoin/utils.go: addressToBytes and the uvarints of its ID addresses
--   Rpc          rpc/confirmations.go: Confirmations
--   Examples     each theorem of the list below at a concrete input
--
-- A Go string or byte slice is the list of its bytes, a nil slice `none` where the code tells it
-- from an empty one. An int64 is its bit pattern, a number below 2^64, and sums and products
-- wrap as they do in Go. A (value, error) result is a Result whose errors are one constructor
-- for each place that returns one. A method on a pointer takes the record and returns the new
-- one. A panic is a result of its own; the coins of an Ingredient may be nil, and Build then
-- panics, but the list that SelectUtxo sorts has no nil coin. evaluate has at least one coefficient,
-- as Split gives it.
--
-- The module btcd is the record Btcd of Utxo/Btcd and, where it signs, the record Signer of
-- Utxo/Sign; blake2b and base32 are the record Hashing of Filecoin/Address; base58.Decode is an
-- argument of buildSuiTransfer; encoding/base32 is the record Base32 of Stellar/Strkey;
-- sort.Slice is an argument of SelectUtxo; rand.Reader is the list of the bytes that it has left,
-- which each read shortens. Nothing is assumed of them but what a theorem names.
--
-- Loops over slices are recursions on lists. The loops on numbers have fuel: a uvarint 9 rounds,
-- since 128^10 is above 2^64 (uvarint_fuel), the digits of FormatUint 20 rounds, since 10^20 is
-- above 2^64, bits.Len64 64 rounds, the bits of a byte in convertBits as many as it has, the
-- exponents of power 16, since they are a uint16, and parseScript the length of the script, each
-- round of which takes a byte at least.
--
-- Not modelled: signing on the other chains, the derivation of keys and of addresses but Kaspa's,
-- JSON, the network clients of rpc/ (all but the count of confirmations), dex/ and common/, the
-- bindings of mobile/, and the chains whose packages mostly call their libraries.
pub mod Common
pub mod Go
pub mod Codec
pub mod Crypto
pub mod UtxoList
pub mod Utxo
pub mod Kaspa
pub mod Aptos
pub mod Sui
pub mod Stellar
pub mod Multiversx
pub mod Filecoin
pub mod Rpc
pub mod Examples
