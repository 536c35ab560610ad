-- ===== src/Multiversx.antt =====
-- signing/multiversx/protobuf.go: the bytes that a transaction's hash is taken of.
pub mod Protobuf
