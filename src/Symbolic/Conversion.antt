-- ===== src/Symbolic/Conversion.antt =====
-- `SymbolicConstraints` of crates/stark-backend/src/air_builders/symbolic/mod.rs, and its conversions
-- from and to `SymbolicConstraintsDag` in dag.rs.
use stark_backend.Prelude.{ℕ, ◌≡◌, ◌↔◌, refl, sym, ap, ◌∙◌, List, [], ◌∷◌, All, Option, map}
use stark_backend.Prelude.Outcome.{Outcome, ok, err, panic, ◌>>=◌, index}
use stark_backend.Ring.{Ring, IsRing, IsRingMap}
use stark_backend.Symbolic.Expr.{Expr, Evaluator, eval_expr}
use stark_backend.Symbolic.Compile.{IsStored}
use stark_backend.Symbolic.Constraints.{Interaction, ConstraintsDag, build_symbolic_constraints_dag}
use stark_backend.Symbolic.Meaning.{
  HasValue, IsStoredInteraction, Agrees, AgreesInteraction, AgreesInteractions, Agrees-HasValue,
  zeros_at, zeros_of, eval_nodes-build_symbolic_constraints_dag,
}
use stark_backend.Symbolic.Expand.{
  to_symbolic_expressions, map_ok, index-map, eval_nodes-to_symbolic_expressions,
}

pub record SymbolicConstraints (F : Type 0) : Type 0 where
  pub constraints : List (Expr F)
  pub interactions : List (Interaction (Expr F))

module _ {F : Type 0} where
  -- The expressions at a list of indices.
  unfoldable pub get_all : List (Expr F) → List ℕ → Outcome ⊥ (List (Expr F))
  get_all exprs [] = ok []
  get_all exprs (idx ∷ is) = do e ← index exprs idx; es ← get_all exprs is; ok (e ∷ es)

  unfoldable pub from_interaction : List (Expr F) → Interaction ℕ → Outcome ⊥ (Interaction (Expr F))
  from_interaction exprs x = do
    fields ← get_all exprs x.message
    count ← index exprs x.count
    ok (record {
      message = fields;
      count = count;
      bus_index = x.bus_index;
      count_weight = x.count_weight;
    })

  unfoldable pub from_interactions :
      List (Expr F) → List (Interaction ℕ) → Outcome ⊥ (List (Interaction (Expr F)))
  from_interactions exprs [] = ok []
  from_interactions exprs (x ∷ xs) = do
    y ← from_interaction exprs x
    ys ← from_interactions exprs xs
    ok (y ∷ ys)

module _ {F : Type 0} (fresh : ℕ → ℕ) where
  -- `From<&SymbolicConstraintsDag>`
  unfoldable pub from_dag : ConstraintsDag F → Outcome ⊥ (SymbolicConstraints F)
  from_dag dag = do
    exprs ← to_symbolic_expressions fresh dag.constraints.nodes
    constraints ← get_all exprs dag.constraints.constraint_idx
    interactions ← from_interactions exprs dag.interactions
    ok (record { constraints = constraints; interactions = interactions })

-- `From<SymbolicConstraints>`
unfoldable pub to_dag :
    {F : Type 0} → Ring F → Discrete F → SymbolicConstraints F → ConstraintsDag F
to_dag field d sc = build_symbolic_constraints_dag field d sc.constraints sc.interactions

map_ok-ok :
    {A B : Type 0} (f : A → B) (o : Outcome ⊥ A) (b : B)
    → map_ok f o ≡ ok b
    → (a : A) × (o ≡ ok a) × (f a ≡ b)
map_ok-ok f (ok a) b e = (a, refl, cc)
map_ok-ok f (err e') b e = cc
map_ok-ok f panic b e = cc

module _ {F E : Type 0} (r : Ring E) (ev : Evaluator F E) where
  -- Interactions that send the same values with the same counts, to the same buses.
  abbrev pub SameInteraction : Interaction (Expr F) → Interaction (Expr F) → Type 0
  SameInteraction y x =
      (map (eval_expr r ev) y.message ≡ map (eval_expr r ev) x.message)
      × (eval_expr r ev y.count ≡ eval_expr r ev x.count)
      × (y.bus_index ≡ x.bus_index)
      × (y.count_weight ≡ x.count_weight)

  abbrev pub SameInteractions : List (Interaction (Expr F)) → List (Interaction (Expr F)) → Type 0
  SameInteractions [] [] = Unit {0}
  SameInteractions (y ∷ ys) (x ∷ xs) = SameInteraction y x × SameInteractions ys xs
  SameInteractions _ _ = ⊥

  -- Two lists of expressions at the same indices have the same values.
  Agrees-map :
      (vals : List E) (is : List ℕ) (es fs : List (Expr F))
      → Agrees r ev vals is es
      → Agrees r ev vals is fs
      → map (eval_expr r ev) es ≡ map (eval_expr r ev) fs
  Agrees-map vals [] [] [] a b = refl
  Agrees-map vals [] (e ∷ es) fs a b = absurd a
  Agrees-map vals [] [] (f ∷ fs) a b = absurd b
  Agrees-map vals (i ∷ is) [] fs a b = absurd a
  Agrees-map vals (i ∷ is) (e ∷ es) [] a b = absurd b
  Agrees-map vals (i ∷ is) (e ∷ es) (f ∷ fs) a b =
      let rest = Agrees-map vals is es fs a.1 b.1 in cc (a.0, b.0, rest)

  module _ (exprs : List (Expr F)) (vals : List E) (same : map (eval_expr r ev) exprs ≡ vals) where
    index-exprs :
        (i : ℕ) (v : E)
        → index {E = ⊥} vals i ≡ ok v
        → (e : Expr F) × (index {E = ⊥} exprs i ≡ ok e) × (eval_expr r ev e ≡ v)
    index-exprs i v h =
        map_ok-ok (eval_expr r ev) (index exprs i) v
          (sym (index-map (eval_expr r ev) exprs i) ∙ ap (λ xs. index {E = ⊥} xs i) same ∙ h)

    get_all-Agrees :
        (is : List ℕ)
        → All (HasValue vals) is
        → (es : List (Expr F)) × (get_all exprs is ≡ ok es) × Agrees r ev vals is es
    unfolding get_all
    get_all-Agrees [] a = ([], refl, tt)
    get_all-Agrees (i ∷ is) a =
        let (e, h, same_value) = index-exprs i a.0.0 a.0.1 in
        let (es, hs, agrees) = get_all-Agrees is a.1 in
        (e ∷ es, rw (h, hs), (a.0.1 ∙ ap ok (sym same_value), agrees))

    from_interaction-same :
        (y : Interaction ℕ) (x : Interaction (Expr F))
        → AgreesInteraction r ev vals y x
        → (z : Interaction (Expr F)) × (from_interaction exprs y ≡ ok z) × SameInteraction z x
    unfolding from_interaction
    from_interaction-same y x a =
        let (es, hs, agrees) =
          get_all-Agrees y.message (Agrees-HasValue r ev vals y.message x.message a.0) in
        let (e, h, same_value) = index-exprs y.count _ a.1 in
        (
          record {
            message = es;
            count = e;
            bus_index = y.bus_index;
            count_weight = y.count_weight;
          },
          rw (hs, h),
          (Agrees-map vals y.message es x.message agrees a.0, same_value, a.2, a.3),
        )

    from_interactions-same :
        (ys : List (Interaction ℕ)) (xs : List (Interaction (Expr F)))
        → AgreesInteractions r ev vals ys xs
        → (zs : List (Interaction (Expr F))) × (from_interactions exprs ys ≡ ok zs)
          × SameInteractions zs xs
    unfolding from_interactions
    from_interactions-same [] [] a = ([], refl, tt)
    from_interactions-same [] (x ∷ xs) a = absurd a
    from_interactions-same (y ∷ ys) [] a = absurd a
    from_interactions-same (y ∷ ys) (x ∷ xs) a =
        let (z, h, b) = from_interaction-same y x a.0 in
        let (zs, hs, bs) = from_interactions-same ys xs a.1 in (z ∷ zs, rw (h, hs), (b, bs))

module _ {F E : Type 0} (field : Ring F) (d : Discrete F) (r : Ring E) (laws : IsRing r)
    (ev : Evaluator F E) (hom : IsRingMap field r ev.eval_const) (deref : ℕ → Option (Expr F))
    (fresh : ℕ → ℕ) where
  -- Constraints and interactions that are stored at their addresses, compiled to a DAG and turned back
  -- into expressions: the way back does not panic, its constraints all vanish exactly if the original ones
  -- do, and its interactions have the same messages, counts, buses and weights, in a commutative ring
  -- to which constants are taken by a map of rings.
  pub from_dag-to_dag :
      (sc : SymbolicConstraints F)
      → All (IsStored deref) sc.constraints
      → All (IsStoredInteraction deref) sc.interactions
      → (back : SymbolicConstraints F) × (from_dag fresh (to_dag field d sc) ≡ ok back)
        × (All (λ e. eval_expr r ev e ≡ r.zero) sc.constraints
            ↔ All (λ e. eval_expr r ev e ≡ r.zero) back.constraints)
        × SameInteractions r ev back.interactions sc.interactions
  unfolding from_dag to_dag
  from_dag-to_dag sc s t =
      let (vals, evaluated, in_range, zeros, agrees) =
        eval_nodes-build_symbolic_constraints_dag field d r laws ev hom deref sc.constraints
          sc.interactions s t in
      let dag : ConstraintsDag F =
        build_symbolic_constraints_dag field d sc.constraints sc.interactions in
      let (exprs, expanded, same) =
        map_ok-ok (map (eval_expr r ev)) (to_symbolic_expressions fresh dag.constraints.nodes) vals
          (sym (eval_nodes-to_symbolic_expressions r ev fresh dag.constraints.nodes) ∙ evaluated) in
      let (es, read, there) =
        get_all-Agrees r ev exprs vals same dag.constraints.constraint_idx in_range in
      let (xs, sent, alike) =
        from_interactions-same r ev exprs vals same dag.interactions sc.interactions agrees in
      (
        record { constraints = es; interactions = xs },
        rw (expanded, read, sent),
        (
          λ z. zeros_of r ev vals dag.constraints.constraint_idx es there (zeros.0 z),
          λ z. zeros.1 (zeros_at r ev vals dag.constraints.constraint_idx es there z),
        ),
        alike,
      )
