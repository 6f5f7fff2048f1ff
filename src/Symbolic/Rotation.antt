-- ===== src/Symbolic/Rotation.antt =====
-- How far ahead the variables of a DAG look: `max_rotation` of crates/stark-backend/src/
-- air_builders/symbolic/dag.rs.
use stark_backend.Prelude.{ℕ, ◌≤◌, max, List, [], ◌∷◌, All, arith}
use stark_backend.Symbolic.Expr.{offset}
use stark_backend.Symbolic.Dag.{
  Node, variable, is_first_row, is_last_row, is_transition, constant, add, sub, neg, mul,
}
use stark_backend.Symbolic.Constraints.{ExpressionDag, offset_or_zero, rotation_from, max_rotation}

-- The variable of a node looks at most `n` rows ahead.
abbrev pub IsWithin : {F : Type 0} → ℕ → Node F → Type 0
IsWithin n (variable v) = offset_or_zero (offset v.entry) ≤ n
IsWithin n _ = Unit {0}

rotation_from-bound :
    {F : Type 0} (k : ℕ) (nodes : List (Node F))
    → (k ≤ rotation_from k nodes) × All (IsWithin (rotation_from k nodes)) nodes
unfolding rotation_from
rotation_from-bound k [] = (omega arith, tt)
rotation_from-bound k (variable v ∷ nodes) =
    let (le, a) = rotation_from-bound (max k (offset_or_zero (offset v.entry))) nodes in
    (omega arith, (omega arith, a))
rotation_from-bound k (is_first_row ∷ nodes) =
    let (le, a) = rotation_from-bound k nodes in (le, (tt, a))
rotation_from-bound k (is_last_row ∷ nodes) =
    let (le, a) = rotation_from-bound k nodes in (le, (tt, a))
rotation_from-bound k (is_transition ∷ nodes) =
    let (le, a) = rotation_from-bound k nodes in (le, (tt, a))
rotation_from-bound k (constant c ∷ nodes) =
    let (le, a) = rotation_from-bound k nodes in (le, (tt, a))
rotation_from-bound k (add x y e ∷ nodes) =
    let (le, a) = rotation_from-bound k nodes in (le, (tt, a))
rotation_from-bound k (sub x y e ∷ nodes) =
    let (le, a) = rotation_from-bound k nodes in (le, (tt, a))
rotation_from-bound k (neg x e ∷ nodes) = let (le, a) = rotation_from-bound k nodes in (le, (tt, a))
rotation_from-bound k (mul x y e ∷ nodes) =
    let (le, a) = rotation_from-bound k nodes in (le, (tt, a))

-- No variable of a DAG looks further ahead than its greatest rotation.
pub max_rotation-bound :
    {F : Type 0} (dag : ExpressionDag F) → All (IsWithin (max_rotation dag)) dag.nodes
unfolding max_rotation
max_rotation-bound dag = (rotation_from-bound 0 dag.nodes).1
