-- ===== src/Codec.antt =====
-- Encodings that several signing packages share, and what it means that they can be read back.
pub mod Split
pub mod Uvarint
