-- ===== src/Merkle.antt =====
-- Merkle trees: crates/stark-backend/src/prover/stacked_pcs.rs, crates/stark-backend/src/hasher.rs
-- and `merkle_verify` of crates/stark-backend/src/verifier/whir.rs.
pub mod Tree
pub mod Nodes
pub mod Opening
pub mod Binding
