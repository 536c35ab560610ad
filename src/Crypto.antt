-- ===== src/Crypto.antt =====
-- The packages under crypto.
pub mod Shamir
pub mod Field
