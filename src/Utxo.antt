-- ===== src/Utxo.antt =====
-- signing/utxo: transactions of the Bitcoin family. Types and Btcd hold the data and the outside
-- library, Address the addresses, Fee the fee estimates, Plan the choice of outputs, Assemble the
-- five builders, Build and Sign the methods of TxBuilder.
pub mod Types
pub mod Btcd
pub mod Address
pub mod Fee
pub mod Plan
pub mod Assemble
pub mod Build
pub mod Sign
