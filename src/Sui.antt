-- ===== src/Sui.antt =====
-- signing/sui: Bcs is bcs.go, the bytes of a transfer.
pub mod Bcs
