-- ===== src/Poly.antt =====
-- Polynomials: crates/stark-backend/src/poly_common.rs.
pub mod Algebra
pub mod Mle
pub mod Hypercube
pub mod Folding
