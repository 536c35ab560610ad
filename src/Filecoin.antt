-- ===== src/Filecoin.antt =====
-- signing/filecoin/utils.go: Uvarint has the integers of addresses, Address the addresses.
pub mod Uvarint
pub mod Address
