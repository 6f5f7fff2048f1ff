-- ===== src/Proof.antt =====
-- crates/stark-backend/src/proof.rs: the proof and its parts, with their binary codecs.
pub mod Gkr
pub mod Batch
pub mod Stacking
pub mod Trace
pub mod Presence
pub mod Whir
pub mod WhirParts
pub mod WhirRead
pub mod Parts
pub mod Whole
pub mod Writing
pub mod Encodes
