-- ===== src/Symbolic.antt =====
-- Symbolic expressions of AIR constraints, and the DAG that they are compiled to:
-- crates/stark-backend/src/air_builders/symbolic/.
pub mod Expr
pub mod Dag
pub mod Eval
pub mod Values
pub mod Interning
pub mod Simplify
pub mod Compile
pub mod Sorting
pub mod Constraints
pub mod Meaning
pub mod Rotation
pub mod Expand
pub mod Conversion
