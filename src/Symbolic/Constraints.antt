-- ===== src/Symbolic/Constraints.antt =====
-- `SymbolicExpressionDag`, `SymbolicConstraintsDag` and `build_symbolic_constraints_dag` of
-- crates/stark-backend/src/air_builders/symbolic/dag.rs, and `Interaction` of
-- crates/stark-backend/src/interaction/mod.rs.
use stark_backend.Prelude.{ℕ, List, [], ◌∷◌, length, max, Option, none, some}
use stark_backend.Ring.{Ring}
use stark_backend.Symbolic.Expr.{Expr, offset}
use stark_backend.Symbolic.Dag.{Node, variable, Builder, new_builder, add_expr}
use stark_backend.Symbolic.Sorting.{sort, dedup}

pub record Interaction (X : Type 0) : Type 0 where
  pub message : List X
  pub count : X
  pub bus_index : ℕ
  pub count_weight : ℕ

pub record ExpressionDag (F : Type 0) : Type 0 where
  pub nodes : List (Node F)
  pub constraint_idx : List ℕ

pub record ConstraintsDag (F : Type 0) : Type 0 where
  pub constraints : ExpressionDag F
  pub interactions : List (Interaction ℕ)

-- `unwrap_or(0)`
abbrev pub offset_or_zero : Option ℕ → ℕ
offset_or_zero none = 0
offset_or_zero (some o) = o

module _ {F : Type 0} where
  -- The loop over the nodes, with the greatest rotation so far.
  unfoldable pub rotation_from : ℕ → List (Node F) → ℕ
  rotation_from rotation [] = rotation
  rotation_from rotation (variable v ∷ nodes) =
      rotation_from (max rotation (offset_or_zero (offset v.entry))) nodes
  rotation_from rotation (_ ∷ nodes) = rotation_from rotation nodes

  unfoldable pub max_rotation : ExpressionDag F → ℕ
  max_rotation dag = rotation_from 0 dag.nodes

  unfoldable pub num_constraints : ExpressionDag F → ℕ
  num_constraints dag = length dag.constraint_idx

module _ {F : Type 0} (field : Ring F) (d : Discrete F) where
  -- `add_expr` over a slice, in order.
  unfoldable pub add_exprs : Builder F → List (Expr F) → Builder F × List ℕ
  add_exprs b [] = (b, [])
  add_exprs b (e ∷ es) =
      let (b1, i) = add_expr field d b e in let (b2, is) = add_exprs b1 es in (b2, i ∷ is)

  unfoldable pub add_interaction : Builder F → Interaction (Expr F) → Builder F × Interaction ℕ
  add_interaction b x =
      let (b1, fields) = add_exprs b x.message in
      let (b2, count) = add_expr field d b1 x.count in
      (
        b2,
        record {
          message = fields;
          count = count;
          bus_index = x.bus_index;
          count_weight = x.count_weight;
        },
      )

  unfoldable pub add_interactions :
      Builder F → List (Interaction (Expr F)) → Builder F × List (Interaction ℕ)
  add_interactions b [] = (b, [])
  add_interactions b (x ∷ xs) =
      let (b1, y) = add_interaction b x in let (b2, ys) = add_interactions b1 xs in (b2, y ∷ ys)

  unfoldable pub build_symbolic_constraints_dag :
      List (Expr F) → List (Interaction (Expr F)) → ConstraintsDag F
  build_symbolic_constraints_dag constraints interactions =
      let (b1, constraint_idx) = add_exprs new_builder constraints in
      let (b2, xs) = add_interactions b1 interactions in
      record {
        constraints = record { nodes = b2.nodes; constraint_idx = dedup (sort constraint_idx) };
        interactions = xs;
      }
