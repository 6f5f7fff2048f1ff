-- ===== src/Transcript.antt =====
-- The Fiat-Shamir transcript: crates/stark-backend/src/transcript/.
pub mod Sponge
pub mod SpongeInvariant
pub mod Duplex
pub mod DuplexRefinement
pub mod Log
pub mod LogExtend
pub mod RecorderLog
pub mod RecorderTotal
pub mod Replay
pub mod Pow
