-- ===== src/Symbolic/Values.antt =====
-- The invariant of the DAG builder under an evaluator, and what it says of single nodes.
use stark_backend.Prelude.{ℕ, ◌≡◌, ap, true, Option, none, some, List, get_elem?}
use stark_backend.Prelude.Outcome.{ok, index, >>=-eq-ok}
use stark_backend.Ring.{Ring}
use stark_backend.Symbolic.Expr.{Expr, Evaluator, eval_expr}
use stark_backend.Symbolic.Dag.{
  is_yes, Node, constant, neg, Builder, lookup, node-discrete, constant_of, negated_of, get_const,
  get_neg_child, equals, is_const, eval_node, eval_nodes,
}
use stark_backend.Symbolic.Eval.{eval_nodes-at}
use native.Mathlib.Decide.{ℕ_discrete}

is_yes-inv {ℓ} : {P : Type ℓ} (x : Dec P) → is_yes x ≡ true → P
is_yes-inv (yes h) e = h
is_yes-inv (no h) e = cc

module _ {F : Type 0} where
  constant_of-inv : (o : Option (Node F)) (c : F) → constant_of o ≡ some c → o ≡ some (constant c)
  constant_of-inv none c e = cc
  constant_of-inv (some (constant a)) c e = cc
  constant_of-inv (some _) c e = cc

  negated_of-inv :
      (o : Option (Node F)) (i : ℕ) → negated_of o ≡ some i → (k : ℕ) × (o ≡ some (neg i k))
  negated_of-inv none i e = cc
  negated_of-inv (some (neg j k)) i e = (k, cc)
  negated_of-inv (some _) i e = cc

  equals-inv : (d : Discrete F) (o : Option F) (c : F) → equals d o c ≡ true → o ≡ some c
  equals-inv d none c e = cc
  equals-inv d (some a) c e = ap some (is_yes-inv (d a c) e)

module _ {F E : Type 0} (d : Discrete F) (r : Ring E) (ev : Evaluator F E)
    (deref : ℕ → Option (Expr F)) where
  -- The nodes evaluate to `vals`; the caches lead to the node and to the value that they stand for.
  pub record IsValid (b : Builder F) (vals : List E) : Type 0 where
    pub evaluated : eval_nodes r ev b.nodes ≡ ok vals
    pub interned :
        (n : Node F) (i : ℕ)
        → lookup (node-discrete d) n b.node_to_idx ≡ some i
        → get_elem? b.nodes i ≡ some n
    pub seen :
        (p i : ℕ) (e : Expr F)
        → lookup ℕ_discrete p b.expr_to_idx ≡ some i
        → deref p ≡ some e
        → index {E = ⊥} vals i ≡ ok (eval_expr r ev e)

  module _ (b : Builder F) (vals : List E) (valid : IsValid b vals) where
    -- A node that is known to be a constant has its value.
    pub const_value :
        (i : ℕ) (c : F) (x : E)
        → get_const b i ≡ some c
        → index {E = ⊥} vals i ≡ ok x
        → x ≡ ev.eval_const c
    unfolding get_const
    const_value i c x g h =
        let (w, e, f) =
          eval_nodes-at r ev b.nodes vals i (constant c) valid.evaluated (constant_of-inv _ c g) in
        unfold eval_node in cc (e, f, h)

    pub is_const_value :
        (i : ℕ) (c : F) (x : E)
        → is_const d b i c ≡ true
        → index {E = ⊥} vals i ≡ ok x
        → x ≡ ev.eval_const c
    unfolding is_const
    is_const_value i c x g h = const_value i c x (equals-inv d _ c g) h

    pub neg_value :
        (i j : ℕ) (x : E)
        → get_neg_child b i ≡ some j
        → index {E = ⊥} vals i ≡ ok x
        → (z : E) × (index {E = ⊥} vals j ≡ ok z) × (x ≡ r.neg z)
    unfolding get_neg_child eval_node
    neg_value i j x g h =
        let (k, n) = negated_of-inv _ j g in
        let (w, e, f) = eval_nodes-at r ev b.nodes vals i (neg j k) valid.evaluated n in
        let (z, e1, e2) = >>=-eq-ok (index {E = ⊥} vals j) _ e in (z, e1, cc (e2, f, h))
