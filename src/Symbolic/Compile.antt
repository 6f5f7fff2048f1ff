-- ===== src/Symbolic/Compile.antt =====
-- The DAG builder keeps the meaning of an expression: `add_expr` of crates/stark-backend/src/
-- air_builders/symbolic/dag.rs, under the evaluator of symbolic_expression.rs.
use stark_backend.Prelude.{
  ℕ, ◌≡◌, refl, sym, ap, ◌∙◌, Option, some, List, [], inl, inr, Option-cases,
}
use stark_backend.Prelude.Outcome.{ok, index}
use stark_backend.Ring.{Ring, IsRing, IsRingMap}
use stark_backend.Symbolic.Expr.{Expr, Evaluator, eval_expr}
use stark_backend.Symbolic.Dag.{
  Node, variable, is_first_row, is_last_row, is_transition, constant, Builder, Indexed, lookup,
  new_builder, intern_node, cached, add_expr, eval_node, eval_from, eval_nodes,
}
use stark_backend.Symbolic.Values.{IsValid}
use native.Mathlib.Decide.{ℕ_discrete}
use stark_backend.Symbolic.Interning.{
  Grows-trans, index-Grows, lookup-cons, Yields, keep-Yields, intern-Yields,
}
use stark_backend.Symbolic.Simplify.{
  add_node-Yields, sub_node-Yields, neg_node-Yields, mul_node-Yields,
}

some-inj : {A : Type 0} {x y : A} → some x ≡ some y → x ≡ y
some-inj e = cc

module _ {F : Type 0} (deref : ℕ → Option (Expr F)) where
  -- Every expression stands at its address.
  abbrev pub IsStored : Expr F → Type 0
  IsStored (Expr.variable p v) = deref p ≡ some (Expr.variable p v)
  IsStored (Expr.is_first_row p) = deref p ≡ some (Expr.is_first_row p)
  IsStored (Expr.is_last_row p) = deref p ≡ some (Expr.is_last_row p)
  IsStored (Expr.is_transition p) = deref p ≡ some (Expr.is_transition p)
  IsStored (Expr.constant p c) = deref p ≡ some (Expr.constant p c)
  IsStored (Expr.add p x y k) = (deref p ≡ some (Expr.add p x y k)) × IsStored x × IsStored y
  IsStored (Expr.sub p x y k) = (deref p ≡ some (Expr.sub p x y k)) × IsStored x × IsStored y
  IsStored (Expr.neg p x k) = (deref p ≡ some (Expr.neg p x k)) × IsStored x
  IsStored (Expr.mul p x y k) = (deref p ≡ some (Expr.mul p x y k)) × IsStored x × IsStored y

module _ {F E : Type 0} (field : Ring F) (d : Discrete F) (r : Ring E) (laws : IsRing r)
    (ev : Evaluator F E) (hom : IsRingMap field r ev.eval_const) (deref : ℕ → Option (Expr F)) where
  cached-Yields :
      (b : Builder F) (vals : List E) (p : ℕ) (work : Unit {0} → Indexed F) (e : Expr F)
      → IsValid d r ev deref b vals
      → deref p ≡ some e
      → Yields d r ev deref vals (work tt) (eval_expr r ev e)
      → Yields d r ev deref vals (cached b p work) (eval_expr r ev e)
  unfolding cached
  cached-Yields b vals p work e valid at y =
      elim (Option-cases (lookup ℕ_discrete p b.expr_to_idx)) [
        | inr (i, hit) ↦
            rw (hit, cached) (keep-Yields d r ev deref b vals i _ valid (valid.seen p i e hit at))
        | inl miss ↦
            let (vals', grown, valid', h) = y in
            rw (miss, cached)
              (
                vals',
                grown,
                record {
                  evaluated = valid'.evaluated;
                  interned = valid'.interned;
                  seen = λ q i x hit at'. elim (lookup-cons ℕ_discrete q p (work tt).1 i _ hit) [
                    | inl (same, here) ↦
                        let eq : e ≡ x = some-inj (sym at ∙ ap deref same ∙ at') in
                        rw (← here, ← eq) h
                    | inr old ↦ valid'.seen q i x old at'
                  ];
                },
                h,
              )
      ]

  leaf-Yields :
      (b : Builder F) (vals : List E) (p : ℕ) (n : Node F) (e : Expr F)
      → IsValid d r ev deref b vals
      → deref p ≡ some e
      → eval_node r ev vals n ≡ ok (eval_expr r ev e)
      → Yields d r ev deref vals (cached b p (λ _. intern_node d b n)) (eval_expr r ev e)
  leaf-Yields b vals p n e valid at h =
      cached-Yields b vals p _ e valid at (intern-Yields d r ev deref b vals n _ valid h)

  -- Two operands one after the other: the value of the first is still there after the second.
  operands-Yields :
      (b b1 b2 : Builder F) (vals : List E) (i j : ℕ) (u v w : E) (finish : Indexed F)
      → Yields d r ev deref vals (b1, i) u
      → ((vals1 : List E) → IsValid d r ev deref b1 vals1 → Yields d r ev deref vals1 (b2, j) v)
      → ((vals2 : List E)
          → IsValid d r ev deref b2 vals2
          → index {E = ⊥} vals2 i ≡ ok u
          → index {E = ⊥} vals2 j ≡ ok v
          → Yields d r ev deref vals2 finish w)
      → Yields d r ev deref vals finish w
  operands-Yields b b1 b2 vals i j u v w finish first second third =
      let (vals1, grown1, valid1, h1) = first in
      let (vals2, grown2, valid2, h2) = second vals1 valid1 in
      let (vals3, grown3, valid3, h3) =
        third vals2 valid2 (index-Grows vals1 vals2 i u grown2 h1) h2 in
      (
        vals3,
        Grows-trans vals vals1 vals3 grown1 (Grows-trans vals1 vals2 vals3 grown2 grown3),
        valid3,
        h3,
      )

  pub add_expr-Yields :
      (b : Builder F) (vals : List E) (e : Expr F)
      → IsValid d r ev deref b vals
      → IsStored deref e
      → Yields d r ev deref vals (add_expr field d b e) (eval_expr r ev e)
  unfolding add_expr eval_expr eval_node
  add_expr-Yields b vals (Expr.variable p v) valid at =
      leaf-Yields b vals p (variable v) (Expr.variable p v) valid at refl
  add_expr-Yields b vals (Expr.is_first_row p) valid at =
      leaf-Yields b vals p (is_first_row) (Expr.is_first_row p) valid at refl
  add_expr-Yields b vals (Expr.is_last_row p) valid at =
      leaf-Yields b vals p (is_last_row) (Expr.is_last_row p) valid at refl
  add_expr-Yields b vals (Expr.is_transition p) valid at =
      leaf-Yields b vals p (is_transition) (Expr.is_transition p) valid at refl
  add_expr-Yields b vals (Expr.constant p c) valid at =
      leaf-Yields b vals p (constant c) (Expr.constant p c) valid at refl
  add_expr-Yields b vals (Expr.add p x y k) valid (at, sx, sy) =
      let (b1, i) = add_expr field d b x in
      let (b2, j) = add_expr field d b1 y in
      cached-Yields b vals p _ (Expr.add p x y k) valid at (
        operands-Yields b b1 b2 vals i j _ _ _ _ (add_expr-Yields b vals x valid sx)
          (λ vals1 valid1. add_expr-Yields b1 vals1 y valid1 sy)
          (λ vals2 valid2 hx hy.
            add_node-Yields field d r laws ev hom deref b2 vals2 valid2 i j k _ _ hx hy))
  add_expr-Yields b vals (Expr.sub p x y k) valid (at, sx, sy) =
      let (b1, i) = add_expr field d b x in
      let (b2, j) = add_expr field d b1 y in
      cached-Yields b vals p _ (Expr.sub p x y k) valid at (
        operands-Yields b b1 b2 vals i j _ _ _ _ (add_expr-Yields b vals x valid sx)
          (λ vals1 valid1. add_expr-Yields b1 vals1 y valid1 sy)
          (λ vals2 valid2 hx hy.
            sub_node-Yields field d r laws ev hom deref b2 vals2 valid2 i j k _ _ hx hy))
  add_expr-Yields b vals (Expr.neg p x k) valid (at, sx) =
      let (b1, i) = add_expr field d b x in
      let (vals1, grown1, valid1, h1) = add_expr-Yields b vals x valid sx in
      let (vals2, grown2, valid2, h2) =
        neg_node-Yields field d r laws ev hom deref b1 vals1 valid1 i k _ h1 in
      cached-Yields b vals p _ (Expr.neg p x k) valid at
        (vals2, Grows-trans vals vals1 vals2 grown1 grown2, valid2, h2)
  add_expr-Yields b vals (Expr.mul p x y k) valid (at, sx, sy) =
      let (b1, i) = add_expr field d b x in
      let (b2, j) = add_expr field d b1 y in
      cached-Yields b vals p _ (Expr.mul p x y k) valid at (
        operands-Yields b b1 b2 vals i j _ _ _ _ (add_expr-Yields b vals x valid sx)
          (λ vals1 valid1. add_expr-Yields b1 vals1 y valid1 sy)
          (λ vals2 valid2 hx hy.
            mul_node-Yields field d r laws ev hom deref b2 vals2 valid2 i j k _ _ hx hy))

  pub new_builder-IsValid : IsValid d r ev deref new_builder []
  unfolding new_builder eval_nodes eval_from lookup
  new_builder-IsValid = record { evaluated = refl; interned = λ n i h. cc; seen = λ p i e h at. cc }

  -- Compiling an expression that is stored, with all its parts, at its addresses with a new builder
  -- gives nodes that all evaluate, and the value at the index that is returned is the value of the
  -- expression, in a commutative ring to which constants are taken by a map of rings.
  pub eval_nodes-add_expr :
      (e : Expr F)
      → IsStored deref e
      → (vals : List E) × (eval_nodes r ev (add_expr field d new_builder e).0.nodes ≡ ok vals)
        × (index {E = ⊥} vals (add_expr field d new_builder e).1 ≡ ok (eval_expr r ev e))
  eval_nodes-add_expr e stored =
      let (vals, grown, valid, h) = add_expr-Yields new_builder [] e new_builder-IsValid stored in
      (vals, valid.evaluated, h)
