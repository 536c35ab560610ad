-- ===== src/Examples.antt =====
-- The theorems applied to concrete inputs.
mod Library
mod Transactions
mod Coins
mod Encodings
mod Signatures
mod Heights
mod Shares
mod Addresses
mod Transfers
mod Strkeys
