-- ===== src/Rpc.antt =====
-- rpc: what the clients of nodes compute.
pub mod Confirmations
