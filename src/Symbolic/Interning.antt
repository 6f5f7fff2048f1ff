-- ===== src/Symbolic/Interning.antt =====
-- A builder step that keeps or interns a node: `intern_node` of crates/stark-backend/src/
-- air_builders/symbolic/dag.rs.
use stark_backend.Prelude.{
  ℕ, ◌≡◌, refl, sym, ◌∙◌, Option, some, List, [], ◌∷◌, ◌++◌, append_assoc, append-nil, length, ◌⊎◌,
  inl, inr, Option-cases,
}
use stark_backend.Prelude.Outcome.{ok, index}
use stark_backend.Ring.{Ring}
use stark_backend.Symbolic.Expr.{Expr, Evaluator}
use stark_backend.Symbolic.Dag.{
  Node, Builder, Indexed, lookup, node-discrete, intern_node, eval_node,
}
use stark_backend.Symbolic.Eval.{
  index-append, index-length, get_elem?-length, get_elem?-append, length-eval_nodes, eval_nodes-at,
  eval_nodes-snoc,
}
use stark_backend.Symbolic.Values.{IsValid}

pub lookup-cons :
    {K V : Type 0} (d : Discrete K) (k j : K) (v w : V) (m : List (K × V))
    → lookup d k ((j, v) ∷ m) ≡ some w
    → ((j ≡ k) × (v ≡ w)) ⊎ (lookup d k m ≡ some w)
unfolding lookup
lookup-cons d k j v w m = go (d j k)
  where
    go :
        (x : Dec (j ≡ k))
        → (elim x [ yes _ ↦ some v | no _ ↦ lookup d k m ]) ≡ some w
        → ((j ≡ k) × (v ≡ w)) ⊎ (lookup d k m ≡ some w)
    go (yes h) e = inl (h, cc)
    go (no h) e = inr e

-- A longer list of values.
abbrev pub Grows : {E : Type 0} → List E → List E → Type 0
Grows {E} vals vals' = (more : List E) × (vals' ≡ vals ++ more)

pub Grows-trans : {E : Type 0} (xs ys zs : List E) → Grows xs ys → Grows ys zs → Grows xs zs
Grows-trans xs ys zs (a, e) (b, f) = (a ++ b, f ∙ rw e (append_assoc xs a b))

pub index-Grows :
    {E : Type 0} (xs ys : List E) (i : ℕ) (x : E)
    → Grows xs ys
    → index {E = ⊥} xs i ≡ ok x
    → index {E = ⊥} ys i ≡ ok x
index-Grows xs ys i x (a, e) h = rw e (index-append xs a i x h)

module _ {F E : Type 0} (d : Discrete F) (r : Ring E) (ev : Evaluator F E)
    (deref : ℕ → Option (Expr F)) where
  -- The result of a builder step from a builder with values `vals`: still valid, and `v` at its index.
  abbrev pub Yields : List E → Indexed F → E → Type 0
  Yields vals res v =
      (vals' : List E) × Grows vals vals'
      × IsValid d r ev deref res.0 vals'
      × (index {E = ⊥} vals' res.1 ≡ ok v)

  pub keep-Yields :
      (b : Builder F) (vals : List E) (i : ℕ) (v : E)
      → IsValid d r ev deref b vals
      → index {E = ⊥} vals i ≡ ok v
      → Yields vals (b, i) v
  keep-Yields b vals i v valid h = (vals, ([], sym (append-nil vals)), valid, h)

  pub intern-Yields :
      (b : Builder F) (vals : List E) (n : Node F) (w : E)
      → IsValid d r ev deref b vals
      → eval_node r ev vals n ≡ ok w
      → Yields vals (intern_node d b n) w
  unfolding intern_node
  intern-Yields b vals n w valid e =
      elim (Option-cases (lookup (node-discrete d) n b.node_to_idx)) [
        | inr (i, hit) ↦
            let (v, f, g) =
              eval_nodes-at r ev b.nodes vals i n valid.evaluated (valid.interned n i hit) in
            rw (hit, intern_node) (keep-Yields b vals i w valid (cc (e, f, g)))
        | inl miss ↦
            rw (miss, intern_node)
              (
                vals ++ w ∷ [],
                (w ∷ [], refl),
                record {
                  evaluated = eval_nodes-snoc r ev b.nodes vals n w valid.evaluated e;
                  interned = λ m i hit.
                      elim (lookup-cons (node-discrete d) m n (length b.nodes) i b.node_to_idx
                        hit) [
                          | inl (same, here) ↦ rw (← same, ← here) (get_elem?-length b.nodes n)
                          | inr old ↦ get_elem?-append b.nodes (n ∷ []) i m (valid.interned m i old)
                        ];
                  seen = λ p i x hit at. index-append vals (w ∷ []) i _ (valid.seen p i x hit at);
                },
                rw (← length-eval_nodes r ev b.nodes vals valid.evaluated) (index-length vals w),
              )
      ]
