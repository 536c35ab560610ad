-- ===== src/Aptos.antt =====
-- signing/aptos: Bcs is bcs.go, the canonical serialization of transactions.
pub mod Bcs
