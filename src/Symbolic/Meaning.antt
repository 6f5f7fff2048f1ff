-- ===== src/Symbolic/Meaning.antt =====
-- What the compiled constraints and interactions of dag.rs mean.
use stark_backend.Prelude.{ℕ, ◌≡◌, refl, sym, ap, ◌∙◌, ◌↔◌, List, [], ◌∷◌, append-nil, All, Option}
use stark_backend.Prelude.Outcome.{Outcome, ok, index}
use stark_backend.Ring.{Ring, IsRing, IsRingMap}
use stark_backend.Symbolic.Expr.{Expr, Evaluator, eval_expr}
use stark_backend.Symbolic.Dag.{Builder, new_builder, add_expr, eval_nodes}
use stark_backend.Symbolic.Values.{IsValid}
use stark_backend.Symbolic.Interning.{Grows, Grows-trans, index-Grows}
use stark_backend.Symbolic.Compile.{IsStored, add_expr-Yields, new_builder-IsValid}
use stark_backend.Symbolic.Sorting.{
  IsIncreasing, All-dedup-sort, dedup-sort-All, dedup-sort-IsIncreasing,
}
use stark_backend.Symbolic.Constraints.{
  Interaction, add_exprs, add_interaction, add_interactions, build_symbolic_constraints_dag,
}

module _ {F : Type 0} (deref : ℕ → Option (Expr F)) where
  -- Every expression of an interaction stands at its address.
  abbrev pub IsStoredInteraction : Interaction (Expr F) → Type 0
  IsStoredInteraction x = All (IsStored deref) x.message × IsStored deref x.count

-- The index is in range.
abbrev pub HasValue : {E : Type 0} → List E → ℕ → Type 0
HasValue {E} vals i = (v : E) × (index {E = ⊥} vals i ≡ ok v)

module _ {F E : Type 0} (r : Ring E) (ev : Evaluator F E) where
  -- The values at the indices are the values of the expressions.
  abbrev pub Agrees : List E → List ℕ → List (Expr F) → Type 0
  Agrees vals [] [] = Unit {0}
  Agrees vals (i ∷ is) (e ∷ es) = (index {E = ⊥} vals i ≡ ok (eval_expr r ev e)) × Agrees vals is es
  Agrees vals _ _ = ⊥

  abbrev pub AgreesInteraction : List E → Interaction ℕ → Interaction (Expr F) → Type 0
  AgreesInteraction vals y x =
      Agrees vals y.message x.message
      × (index {E = ⊥} vals y.count ≡ ok (eval_expr r ev x.count))
      × (y.bus_index ≡ x.bus_index)
      × (y.count_weight ≡ x.count_weight)

  abbrev pub AgreesInteractions :
      List E → List (Interaction ℕ) → List (Interaction (Expr F)) → Type 0
  AgreesInteractions vals [] [] = Unit {0}
  AgreesInteractions vals (y ∷ ys) (x ∷ xs) =
      AgreesInteraction vals y x × AgreesInteractions vals ys xs
  AgreesInteractions vals _ _ = ⊥

  pub Agrees-HasValue :
      (vals : List E) (is : List ℕ) (es : List (Expr F))
      → Agrees vals is es
      → All (HasValue vals) is
  Agrees-HasValue vals [] [] a = tt
  Agrees-HasValue vals [] (e ∷ es) a = absurd a
  Agrees-HasValue vals (i ∷ is) [] a = absurd a
  Agrees-HasValue vals (i ∷ is) (e ∷ es) a =
      ((eval_expr r ev e, a.0), Agrees-HasValue vals is es a.1)

  Agrees-Grows :
      (vals vals' : List E) (is : List ℕ) (es : List (Expr F))
      → Grows vals vals'
      → Agrees vals is es
      → Agrees vals' is es
  Agrees-Grows vals vals' [] [] g a = tt
  Agrees-Grows vals vals' [] (e ∷ es) g a = absurd a
  Agrees-Grows vals vals' (i ∷ is) [] g a = absurd a
  Agrees-Grows vals vals' (i ∷ is) (e ∷ es) g a =
      (index-Grows vals vals' i _ g a.0, Agrees-Grows vals vals' is es g a.1)

  -- A zero at each index, against a zero for each expression.
  pub zeros_at :
      (vals : List E) (is : List ℕ) (es : List (Expr F))
      → Agrees vals is es
      → All (λ e. eval_expr r ev e ≡ r.zero) es
      → All (λ i. index {E = ⊥} vals i ≡ ok r.zero) is
  zeros_at vals [] [] a z = tt
  zeros_at vals [] (e ∷ es) a z = absurd a
  zeros_at vals (i ∷ is) [] a z = absurd a
  zeros_at vals (i ∷ is) (e ∷ es) a z = (a.0 ∙ ap ok z.0, zeros_at vals is es a.1 z.1)

  ok-inj : {x y : E} → ◌≡◌ {A = Outcome ⊥ E} (ok x) (ok y) → x ≡ y
  ok-inj e = cc

  pub zeros_of :
      (vals : List E) (is : List ℕ) (es : List (Expr F))
      → Agrees vals is es
      → All (λ i. index {E = ⊥} vals i ≡ ok r.zero) is
      → All (λ e. eval_expr r ev e ≡ r.zero) es
  zeros_of vals [] [] a z = tt
  zeros_of vals [] (e ∷ es) a z = absurd a
  zeros_of vals (i ∷ is) [] a z = tt
  zeros_of vals (i ∷ is) (e ∷ es) a z = (ok-inj (sym a.0 ∙ z.0), zeros_of vals is es a.1 z.1)

module _ {F E : Type 0} (field : Ring F) (d : Discrete F) (r : Ring E) (laws : IsRing r)
    (ev : Evaluator F E) (hom : IsRingMap field r ev.eval_const) (deref : ℕ → Option (Expr F)) where
  -- A step from a builder with values `vals` to `b'`, after which `P` holds of the values.
  abbrev Reaches : List E → Builder F → (List E → Type 0) → Type 0
  Reaches vals b' P = (vals' : List E) × Grows vals vals' × IsValid d r ev deref b' vals' × P vals'

  add_exprs-Reaches :
      (b : Builder F) (vals : List E) (es : List (Expr F))
      → IsValid d r ev deref b vals
      → All (IsStored deref) es
      → Reaches vals
          (add_exprs field d b es).0
          (λ vals'. Agrees r ev vals' (add_exprs field d b es).1 es)
  unfolding add_exprs
  add_exprs-Reaches b vals [] valid s = (vals, ([], sym (append-nil vals)), valid, tt)
  add_exprs-Reaches b vals (e ∷ es) valid s =
      let (vals1, g1, valid1, h1) =
        add_expr-Yields field d r laws ev hom deref b vals e valid s.0 in
      let (vals2, g2, valid2, a2) =
        add_exprs-Reaches (add_expr field d b e).0 vals1 es valid1 s.1 in
      (vals2, Grows-trans vals vals1 vals2 g1 g2, valid2, (index-Grows vals1 vals2 _ _ g2 h1, a2))

  add_interaction-Reaches :
      (b : Builder F) (vals : List E) (x : Interaction (Expr F))
      → IsValid d r ev deref b vals
      → IsStoredInteraction deref x
      → Reaches vals
          (add_interaction field d b x).0
          (λ vals'. AgreesInteraction r ev vals' (add_interaction field d b x).1 x)
  unfolding add_interaction
  add_interaction-Reaches b vals x valid s =
      let (vals1, g1, valid1, a1) = add_exprs-Reaches b vals x.message valid s.0 in
      let (vals2, g2, valid2, h2) =
        add_expr-Yields field d r laws ev hom deref (add_exprs field d b x.message).0 vals1 x.count
          valid1 s.1 in
      (
        vals2,
        Grows-trans vals vals1 vals2 g1 g2,
        valid2,
        (Agrees-Grows r ev vals1 vals2 _ x.message g2 a1, h2, refl, refl),
      )

  add_interactions-Reaches :
      (b : Builder F) (vals : List E) (xs : List (Interaction (Expr F)))
      → IsValid d r ev deref b vals
      → All (IsStoredInteraction deref) xs
      → Reaches vals
          (add_interactions field d b xs).0
          (λ vals'. AgreesInteractions r ev vals' (add_interactions field d b xs).1 xs)
  unfolding add_interactions
  add_interactions-Reaches b vals [] valid s = (vals, ([], sym (append-nil vals)), valid, tt)
  add_interactions-Reaches b vals (x ∷ xs) valid s =
      let (vals1, g1, valid1, a1) = add_interaction-Reaches b vals x valid s.0 in
      let (vals2, g2, valid2, a2) =
        add_interactions-Reaches (add_interaction field d b x).0 vals1 xs valid1 s.1 in
      let y : Interaction ℕ = (add_interaction field d b x).1 in
      (
        vals2,
        Grows-trans vals vals1 vals2 g1 g2,
        valid2,
        (
          (
            Agrees-Grows r ev vals1 vals2 y.message x.message g2 a1.0,
            index-Grows vals1 vals2 y.count _ g2 a1.1,
            a1.2,
            a1.3,
          ),
          a2,
        ),
      )

  -- The DAG of a list of constraints and interactions that are stored at their addresses: all nodes
  -- evaluate, each constraint index is in range, the constraints all vanish exactly if the value at each of the DAG's constraint indices
  -- is zero, and the indices in its interactions lead to the values of the fields and counts, beside the
  -- same buses and weights, in a commutative ring to which constants are taken by a map of rings.
  pub eval_nodes-build_symbolic_constraints_dag :
      (constraints : List (Expr F)) (interactions : List (Interaction (Expr F)))
      → All (IsStored deref) constraints
      → All (IsStoredInteraction deref) interactions
      → (vals : List E) × (eval_nodes r ev
            (build_symbolic_constraints_dag field d constraints interactions).constraints.nodes
          ≡ ok vals)
        × All
            (HasValue vals)
            (build_symbolic_constraints_dag field d constraints
              interactions).constraints.constraint_idx
        × (All (λ e. eval_expr r ev e ≡ r.zero) constraints
            ↔ All
                (λ i. index {E = ⊥} vals i ≡ ok r.zero)
                (build_symbolic_constraints_dag field d constraints
                  interactions).constraints.constraint_idx)
        × AgreesInteractions r ev vals
            (build_symbolic_constraints_dag field d constraints interactions).interactions
            interactions
  unfolding build_symbolic_constraints_dag
  eval_nodes-build_symbolic_constraints_dag constraints interactions s t =
      let (vals1, g1, valid1, a1) =
        add_exprs-Reaches new_builder [] constraints
          (new_builder-IsValid field d r laws ev hom deref) s in
      let (vals2, g2, valid2, a2) =
        add_interactions-Reaches (add_exprs field d new_builder constraints).0 vals1 interactions
          valid1 t in
      let idx : List ℕ = (add_exprs field d new_builder constraints).1 in
      let agrees : Agrees r ev vals2 idx constraints =
        Agrees-Grows r ev vals1 vals2 idx constraints g2 a1 in
      (
        vals2,
        valid2.evaluated,
        All-dedup-sort (HasValue vals2) idx (Agrees-HasValue r ev vals2 idx constraints agrees),
        (
          λ z.
              All-dedup-sort (λ i. index {E = ⊥} vals2 i ≡ ok r.zero) idx
                (zeros_at r ev vals2 idx constraints agrees z),
          λ z.
              zeros_of r ev vals2 idx constraints agrees
                (dedup-sort-All (λ i. index {E = ⊥} vals2 i ≡ ok r.zero) idx z),
        ),
        a2,
      )

-- No constraint index occurs twice, and the indices are in ascending order.
pub constraint_idx-IsIncreasing :
    {F : Type 0} (field : Ring F) (d : Discrete F) (constraints : List (Expr F))
    (interactions : List (Interaction (Expr F)))
    → IsIncreasing
        (build_symbolic_constraints_dag field d constraints interactions).constraints.constraint_idx
unfolding build_symbolic_constraints_dag
constraint_idx-IsIncreasing field d constraints interactions =
    dedup-sort-IsIncreasing (add_exprs field d new_builder constraints).1
