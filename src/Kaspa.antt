-- ===== src/Kaspa.antt =====
-- signing/kaspa: Script is script.go, the scripts that lock an output.
pub mod Script
pub mod Bech32
