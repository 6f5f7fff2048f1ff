-- ===== src/Tests.antt =====
-- Runs of the theorems at concrete inputs.
pub mod Data
pub mod FieldOfFive
mod CodecTests
mod ProofTests
mod TranscriptTests
mod SymbolicTests
mod StackedTests
mod MerkleTests
mod VerifierTests
mod WhirTests
