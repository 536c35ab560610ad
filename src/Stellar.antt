-- ===== src/Stellar.antt =====
-- signing/stellar: Strkey is utils.go, the text form of keys.
pub mod Strkey
