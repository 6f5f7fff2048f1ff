-- ===== src/Codec.antt =====
-- crates/stark-backend/src/codec.rs
pub mod Bytes
pub mod Reads
pub mod Compound
pub mod RoundTrip
pub mod Field
pub mod Config
pub mod Canonical
pub mod Writes
