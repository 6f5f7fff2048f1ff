-- ===== src/Stacked.antt =====
-- Stacked matrices and their Merkle trees: crates/stark-backend/src/prover/stacked_pcs.rs.
pub mod Layout
pub mod Fitting
pub mod Placing
pub mod Placement
pub mod Lookup
pub mod Matrix
pub mod Stacking
pub mod Spread
pub mod Filling
pub mod Reading
pub mod Size
pub mod StackedMatrix
pub mod View
pub mod TraceRoundTrip
