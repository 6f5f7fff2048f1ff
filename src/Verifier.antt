-- ===== src/Verifier.antt =====
-- The verifier: crates/stark-backend/src/verifier.
pub mod Gkr
pub mod GkrRuns
pub mod GkrSumcheck
pub mod GkrLayers
pub mod WhirShape
pub mod WhirShapeRuns
pub mod WhirShapeRounds
pub mod WhirShapeLaws
