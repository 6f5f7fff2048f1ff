-- ===== src/Symbolic/Simplify.antt =====
-- Constant folding and simplification keep the value: the four operations of `add_expr` in
-- crates/stark-backend/src/air_builders/symbolic/dag.rs.
use stark_backend.Prelude.{
  ℕ, ◌≡◌, ◌∙◌, Bool, true, Bool-cases, ◌||◌, Option, none, some, List, ◌⊎◌, inl, inr, Option-cases,
  arith,
}
use stark_backend.Prelude.Outcome.{ok, index}
use stark_backend.Ring.{
  Ring, IsRing, IsRingMap, add-zero, mul-one, mul-zero, zero-mul, sub-zero, sub-neg, add-neg_eq_sub,
}
use stark_backend.Symbolic.Expr.{Expr, Evaluator}
use stark_backend.Symbolic.Dag.{
  Builder, get_const, get_neg_child, both, is_const, add_node, sub_node, neg_node, mul_node,
  eval_node,
}
use stark_backend.Symbolic.Values.{IsValid, const_value, is_const_value, neg_value}
use stark_backend.Symbolic.Interning.{Yields, keep-Yields, intern-Yields}

both-inv :
    {F : Type 0} (o p : Option F) {q : F × F} → both o p ≡ some q → (o ≡ some q.0) × (p ≡ some q.1)
both-inv none p e = cc
both-inv (some a) none e = cc
both-inv (some a) (some c) e = (cc, cc)

or-inv : (a b : Bool) → (a || b) ≡ true → (a ≡ true) ⊎ (b ≡ true)
or-inv a b e = ground arith

module _ {F E : Type 0} (field : Ring F) (d : Discrete F) (r : Ring E) (laws : IsRing r)
    (ev : Evaluator F E) (hom : IsRingMap field r ev.eval_const) (deref : ℕ → Option (Expr F)) where
  module _ (b : Builder F) (vals : List E) (valid : IsValid d r ev deref b vals) where
    pub add_node-Yields :
        (i j k : ℕ) (x y : E)
        → index {E = ⊥} vals i ≡ ok x
        → index {E = ⊥} vals j ≡ ok y
        → Yields d r ev deref vals (add_node field d b i j k) (r.add x y)
    unfolding add_node
    add_node-Yields i j k x y hx hy = elim (Option-cases (both (get_const b i) (get_const b j))) [
      | inr (p, e) ↦
          let (ci, cj) = both-inv _ _ e in
          let vx = const_value d r ev deref b vals valid i p.0 x ci hx in
          let vy = const_value d r ev deref b vals valid j p.1 y cj hy in
          rw (e, add_node)
            (intern-Yields d r ev deref b vals _ _ valid
              (unfold eval_node in rw (vx, vy, hom.map-add)))
      | inl e ↦ elim (Bool-cases (is_const d b i field.zero)) [
        | inl z ↦
            let vx = is_const_value d r ev deref b vals valid i _ x z hx ∙ hom.map-zero in
            rw (e, z, add_node)
              (keep-Yields d r ev deref b vals j _ valid (rw (vx, laws.zero-add y) hy))
        | inr nz ↦ elim (Bool-cases (is_const d b j field.zero)) [
          | inl z ↦
              let vy = is_const_value d r ev deref b vals valid j _ y z hy ∙ hom.map-zero in
              rw (e, nz, z, add_node)
                (keep-Yields d r ev deref b vals i _ valid (rw (vy, add-zero r laws x) hx))
          | inr nz' ↦ elim (Option-cases (get_neg_child b j)) [
            | inr (c, n) ↦
                let (t, ht, vy) = neg_value d r ev deref b vals valid j c y n hy in
                rw (e, nz, nz', n, add_node)
                  (intern-Yields d r ev deref b vals _ _ valid
                    (unfold eval_node in rw (hx, ht, vy, add-neg_eq_sub r laws x t)))
            | inl n ↦
                rw (e, nz, nz', n, add_node)
                  (intern-Yields d r ev deref b vals _ _ valid (unfold eval_node in rw (hx, hy)))
          ]
        ]
      ]
    ]

    pub sub_node-Yields :
        (i j k : ℕ) (x y : E)
        → index {E = ⊥} vals i ≡ ok x
        → index {E = ⊥} vals j ≡ ok y
        → Yields d r ev deref vals (sub_node field d b i j k) (r.sub x y)
    unfolding sub_node
    sub_node-Yields i j k x y hx hy = elim (Option-cases (both (get_const b i) (get_const b j))) [
      | inr (p, e) ↦
          let (ci, cj) = both-inv _ _ e in
          let vx = const_value d r ev deref b vals valid i p.0 x ci hx in
          let vy = const_value d r ev deref b vals valid j p.1 y cj hy in
          rw (e, sub_node)
            (intern-Yields d r ev deref b vals _ _ valid
              (unfold eval_node in rw (vx, vy, hom.map-sub)))
      | inl e ↦ elim (Bool-cases (is_const d b j field.zero)) [
        | inl z ↦
            let vy = is_const_value d r ev deref b vals valid j _ y z hy ∙ hom.map-zero in
            rw (e, z, sub_node)
              (keep-Yields d r ev deref b vals i _ valid (rw (vy, sub-zero r laws x) hx))
        | inr nz ↦ elim (Option-cases (get_neg_child b j)) [
          | inr (c, n) ↦
              let (t, ht, vy) = neg_value d r ev deref b vals valid j c y n hy in
              rw (e, nz, n, sub_node)
                (intern-Yields d r ev deref b vals _ _ valid
                  (unfold eval_node in rw (hx, ht, vy, sub-neg r laws x t)))
          | inl n ↦
              rw (e, nz, n, sub_node)
                (intern-Yields d r ev deref b vals _ _ valid (unfold eval_node in rw (hx, hy)))
        ]
      ]
    ]

    pub neg_node-Yields :
        (i k : ℕ) (x : E)
        → index {E = ⊥} vals i ≡ ok x
        → Yields d r ev deref vals (neg_node field d b i k) (r.neg x)
    unfolding neg_node
    neg_node-Yields i k x hx = elim (Option-cases (get_const b i)) [
      | inr (c, e) ↦
          let vx = const_value d r ev deref b vals valid i c x e hx in
          rw (e, neg_node)
            (intern-Yields d r ev deref b vals _ _ valid (unfold eval_node in rw (vx, hom.map-neg)))
      | inl e ↦
          rw (e, neg_node) (intern-Yields d r ev deref b vals _ _ valid (unfold eval_node in rw hx))
    ]

    pub mul_node-Yields :
        (i j k : ℕ) (x y : E)
        → index {E = ⊥} vals i ≡ ok x
        → index {E = ⊥} vals j ≡ ok y
        → Yields d r ev deref vals (mul_node field d b i j k) (r.mul x y)
    unfolding mul_node
    mul_node-Yields i j k x y hx hy = elim (Option-cases (both (get_const b i) (get_const b j))) [
      | inr (p, e) ↦
          let (ci, cj) = both-inv _ _ e in
          let vx = const_value d r ev deref b vals valid i p.0 x ci hx in
          let vy = const_value d r ev deref b vals valid j p.1 y cj hy in
          rw (e, mul_node)
            (intern-Yields d r ev deref b vals _ _ valid
              (unfold eval_node in rw (vx, vy, hom.map-mul)))
      | inl e ↦ elim (Bool-cases (is_const d b i field.zero || is_const d b j field.one)) [
        | inl z ↦
            rw (e, z, mul_node)
              (keep-Yields d r ev deref b vals i _ valid (left_absorbs (or-inv _ _ z)))
        | inr nz ↦ elim (Bool-cases (is_const d b j field.zero || is_const d b i field.one)) [
          | inl z ↦
              rw (e, nz, z, mul_node)
                (keep-Yields d r ev deref b vals j _ valid (right_absorbs (or-inv _ _ z)))
          | inr nz' ↦
              rw (e, nz, nz', mul_node)
                (intern-Yields d r ev deref b vals _ _ valid (unfold eval_node in rw (hx, hy)))
        ]
      ]
    ]
      where
        left_absorbs :
            (is_const d b i field.zero ≡ true) ⊎ (is_const d b j field.one ≡ true)
            → index {E = ⊥} vals i ≡ ok (r.mul x y)
        left_absorbs (inl z) =
            let vx = is_const_value d r ev deref b vals valid i _ x z hx ∙ hom.map-zero in
            rw (vx, zero-mul r laws y, ← vx) hx
        left_absorbs (inr o) =
            let vy = is_const_value d r ev deref b vals valid j _ y o hy ∙ hom.map-one in
            rw (vy, mul-one r laws x) hx

        right_absorbs :
            (is_const d b j field.zero ≡ true) ⊎ (is_const d b i field.one ≡ true)
            → index {E = ⊥} vals j ≡ ok (r.mul x y)
        right_absorbs (inl z) =
            let vy = is_const_value d r ev deref b vals valid j _ y z hy ∙ hom.map-zero in
            rw (vy, mul-zero r laws x, ← vy) hy
        right_absorbs (inr o) =
            let vx = is_const_value d r ev deref b vals valid i _ x o hx ∙ hom.map-one in
            rw (vx, laws.one-mul y) hy
