-- ===== src/Symbolic/Dag.antt =====
-- `SymbolicExpressionNode` and `SymbolicDagBuilder` of
-- crates/stark-backend/src/air_builders/symbolic/dag.rs. The two hash maps are association lists,
-- newest entry first.
use stark_backend.Prelude.{
  ℕ, Bool, true, false, ◌||◌, Option, none, some, List, [], ◌∷◌, ◌++◌, length, get_elem?,
  if◌then◌else◌,
}
use stark_backend.Prelude.Outcome.{Outcome, ok, ◌>>=◌, index}
use stark_backend.Ring.{Ring}
use stark_backend.Symbolic.Expr.{Entry, SymbolicVariable, Expr, Evaluator}
use native.Mathlib.Decide.{ℕ_discrete}

-- The operands of an operation are indices of earlier nodes.
pub data Node (F : Type 0) : Type 0 where
  variable : SymbolicVariable → Node F
  is_first_row : Node F
  is_last_row : Node F
  is_transition : Node F
  constant : F → Node F
  add : ℕ → ℕ → ℕ → Node F
  sub : ℕ → ℕ → ℕ → Node F
  neg : ℕ → ℕ → Node F
  mul : ℕ → ℕ → ℕ → Node F

entry-discrete : Discrete Entry
entry-discrete = hlevel ℕ_discrete

variable-discrete : Discrete SymbolicVariable
variable-discrete = hlevel (ℕ_discrete, entry-discrete)

unfoldable pub node-discrete : {F : Type 0} → Discrete F → Discrete (Node F)
unfolding entry-discrete variable-discrete
node-discrete d = hlevel (d, ℕ_discrete, variable-discrete)

pub record Builder (F : Type 0) : Type 0 where
  pub expr_to_idx : List (ℕ × ℕ)
  pub node_to_idx : List (Node F × ℕ)
  pub nodes : List (Node F)

module _ {K V : Type 0} (d : Discrete K) where
  unfoldable pub lookup : K → List (K × V) → Option V
  lookup k [] = none
  lookup k ((j, v) ∷ m) = elim (d j k) [ yes _ ↦ some v | no _ ↦ lookup k m ]

abbrev pub Indexed : Type 0 → Type 0
Indexed F = Builder F × ℕ

abbrev pub is_yes {ℓ} : {P : Type ℓ} → Dec P → Bool
is_yes (yes _) = true
is_yes (no _) = false

module _ {F : Type 0} where
  unfoldable pub new_builder : Builder F
  new_builder = record { expr_to_idx = []; node_to_idx = []; nodes = [] }

  -- The constant of a node, and the operand of a negation. `self.nodes[idx]` out of range, a panic, is
  -- `none` here.
  abbrev pub constant_of : Option (Node F) → Option F
  constant_of (some (constant c)) = some c
  constant_of _ = none

  abbrev pub negated_of : Option (Node F) → Option ℕ
  negated_of (some (neg i k)) = some i
  negated_of _ = none

  -- Where the code would panic, on an index out of range, `get_const` and `get_neg_child` give `none`;
  -- the code calls them on the indices of children that it has just added.
  unfoldable pub get_const : Builder F → ℕ → Option F
  get_const b idx = constant_of (get_elem? b.nodes idx)

  unfoldable pub get_neg_child : Builder F → ℕ → Option ℕ
  get_neg_child b idx = negated_of (get_elem? b.nodes idx)

  abbrev pub both : Option F → Option F → Option (F × F)
  both (some a) (some c) = some (a, c)
  both _ _ = none

  -- The cache by address around the work for one expression.
  unfoldable pub cached : Builder F → ℕ → (Unit {0} → Indexed F) → Indexed F
  cached b ptr work = elim (lookup ℕ_discrete ptr b.expr_to_idx) [
    | some idx ↦ (b, idx)
    | none ↦ let r = work tt in (record (r.0) { expr_to_idx = (ptr, r.1) ∷ r.0.expr_to_idx }, r.1)
  ]

module _ {F : Type 0} (d : Discrete F) where
  unfoldable pub intern_node : Builder F → Node F → Indexed F
  unfolding node-discrete
  intern_node b node = elim (lookup (node-discrete d) node b.node_to_idx) [
    | some idx ↦ (b, idx)
    | none ↦ (
      record b {
        node_to_idx = (node, length b.nodes) ∷ b.node_to_idx;
        nodes = b.nodes ++ node ∷ [];
      },
      length b.nodes,
    )
  ]

  abbrev pub equals : Option F → F → Bool
  equals none c = false
  equals (some a) c = is_yes (d a c)

  unfoldable pub is_const : Builder F → ℕ → F → Bool
  is_const b idx val = equals (get_const b idx) val

module _ {F : Type 0} (field : Ring F) (d : Discrete F) where
  -- The node for `x + y`, `x - y`, `-x` and `x * y` over the nodes of the operands, after constant
  -- folding and simplification.
  unfoldable pub add_node : Builder F → ℕ → ℕ → ℕ → Indexed F
  add_node b left right k = elim (both (get_const b left) (get_const b right)) [
    | some p ↦ intern_node d b (constant (field.add p.0 p.1))
    | none ↦
        if is_const d b left field.zero
        then (b, right)
        else if is_const d b right field.zero
        then (b, left)
        else elim (get_neg_child b right) [
          | some child ↦ intern_node d b (sub left child k)
          | none ↦ intern_node d b (add left right k)
        ]
  ]

  unfoldable pub sub_node : Builder F → ℕ → ℕ → ℕ → Indexed F
  sub_node b left right k = elim (both (get_const b left) (get_const b right)) [
    | some p ↦ intern_node d b (constant (field.sub p.0 p.1))
    | none ↦ if is_const d b right field.zero then (b, left) else elim (get_neg_child b right) [
      | some child ↦ intern_node d b (add left child k)
      | none ↦ intern_node d b (sub left right k)
    ]
  ]

  unfoldable pub neg_node : Builder F → ℕ → ℕ → Indexed F
  neg_node b child k = elim (get_const b child) [
    | some c ↦ intern_node d b (constant (field.neg c))
    | none ↦ intern_node d b (neg child k)
  ]

  unfoldable pub mul_node : Builder F → ℕ → ℕ → ℕ → Indexed F
  mul_node b left right k = elim (both (get_const b left) (get_const b right)) [
    | some p ↦ intern_node d b (constant (field.mul p.0 p.1))
    | none ↦
        if is_const d b left field.zero || is_const d b right field.one
        then (b, left)
        else if is_const d b right field.zero || is_const d b left field.one
        then (b, right)
        else intern_node d b (mul left right k)
  ]

  unfoldable pub add_expr : Builder F → Expr F → Indexed F
  add_expr b (Expr.variable p v) = cached b p (λ _. intern_node d b (variable v))
  add_expr b (Expr.is_first_row p) = cached b p (λ _. intern_node d b is_first_row)
  add_expr b (Expr.is_last_row p) = cached b p (λ _. intern_node d b is_last_row)
  add_expr b (Expr.is_transition p) = cached b p (λ _. intern_node d b is_transition)
  add_expr b (Expr.constant p c) = cached b p (λ _. intern_node d b (constant c))
  add_expr b (Expr.add p x y k) = cached b p (λ _.
      let (b1, left) = add_expr b x in let (b2, right) = add_expr b1 y in add_node b2 left right k)
  add_expr b (Expr.sub p x y k) = cached b p (λ _.
      let (b1, left) = add_expr b x in let (b2, right) = add_expr b1 y in sub_node b2 left right k)
  add_expr b (Expr.neg p x k) =
      cached b p (λ _. let (b1, child) = add_expr b x in neg_node b1 child k)
  add_expr b (Expr.mul p x y k) = cached b p (λ _.
      let (b1, left) = add_expr b x in let (b2, right) = add_expr b1 y in mul_node b2 left right k)

-- `SymbolicEvaluator::eval_nodes`: each node from the values of those before it.
module _ {F E : Type 0} (r : Ring E) (ev : Evaluator F E) where
  unfoldable pub eval_node : List E → Node F → Outcome ⊥ E
  eval_node exprs (variable v) = ok (ev.eval_var v)
  eval_node exprs (constant c) = ok (ev.eval_const c)
  eval_node exprs (add left right k) = do
    x ← index exprs left
    y ← index exprs right
    ok (r.add x y)
  eval_node exprs (sub left right k) = do
    x ← index exprs left
    y ← index exprs right
    ok (r.sub x y)
  eval_node exprs (neg i k) = do x ← index exprs i; ok (r.neg x)
  eval_node exprs (mul left right k) = do
    x ← index exprs left
    y ← index exprs right
    ok (r.mul x y)
  eval_node exprs is_first_row = ok ev.eval_is_first_row
  eval_node exprs is_last_row = ok ev.eval_is_last_row
  eval_node exprs is_transition = ok ev.eval_is_transition

  unfoldable pub eval_from : List E → List (Node F) → Outcome ⊥ (List E)
  eval_from exprs [] = ok exprs
  eval_from exprs (node ∷ nodes) = do x ← eval_node exprs node; eval_from (exprs ++ x ∷ []) nodes

  unfoldable pub eval_nodes : List (Node F) → Outcome ⊥ (List E)
  eval_nodes nodes = eval_from [] nodes
