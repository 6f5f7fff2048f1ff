-- ===== src/Merkle/Binding.antt =====
-- What an accepted path of `merkle_verify`, crates/stark-backend/src/verifier/whir.rs, binds.
use stark_backend.Prelude.{
  ℕ, ◌/◌, ◌%◌, ◌≡◌, ◌⊎◌, inl, inr, refl, sym, ◌∙◌, Bool, true, false, List, [], ◌∷◌, length,
  if◌then◌else◌, ◌==◌, arith,
}
use stark_backend.Prelude.Outcome.{Outcome, ok, err}
use stark_backend.Merkle.Tree.{VerifyWhirError, merkle_verify_failed, climb, merkle_verify}

module _ {D : Type 0} (compress : D → D → D) (eq : (a b : D) → Dec (a ≡ b)) where
  -- Two different pairs of digests that compress to the same.
  pub record Collision : Type 0 where
    pub left : D
    pub right : D
    pub other_left : D
    pub other_right : D
    pub different : ¬ ((left ≡ other_left) × (right ≡ other_right))
    pub same : compress left right ≡ compress other_left other_right

  -- Pairs that compress to the same are the same, or a collision.
  parts : (a b c d : D) → compress a b ≡ compress c d → ((a ≡ c) × (b ≡ d)) ⊎ Collision
  parts a b c d e = elim (eq a c) [
    | no p ↦ inr (record {
      left = a;
      right = b;
      other_left = c;
      other_right = d;
      different = λ h. p h.0;
      same = e;
    })
    | yes p ↦ elim (eq b d) [
      | yes q ↦ inl (p, q)
      | no q ↦ inr (record {
        left = a;
        right = b;
        other_left = c;
        other_right = d;
        different = λ h. q h.1;
        same = e;
      })
    ]
  ]

  -- One step of two paths, on the left or on the right.
  step_parts :
      (even : Bool) (c d x y : D)
      → (if even then compress c x else compress x c)
        ≡ (if even then compress d y else compress y d)
      → ((c ≡ d) × (x ≡ y)) ⊎ Collision
  step_parts true c d x y e = parts c x d y e
  step_parts false c d x y e = elim (parts x c y d e) [
    | inl (p, q) ↦ inl (q, p)
    | inr collision ↦ inr collision
  ]

  accepted-climb :
      (top : D) (i : ℕ) (d : D) (proof : List D)
      → merkle_verify compress eq top i d proof ≡ ok tt
      → top ≡ climb compress i d proof
  unfolding merkle_verify
  accepted-climb top i d proof h = from (eq top (climb compress i d proof)) h
    where
      from :
          (e : Dec (top ≡ climb compress i d proof))
          → elim e as (λ x. Outcome VerifyWhirError (Unit {0})) [
            | yes same ↦ ok tt
            | no differ ↦ err merkle_verify_failed
          ]
            ≡ ok tt
          → top ≡ climb compress i d proof
      from (yes same) h = same
      from (no differ) h = cc

  -- Paths of the same length to the same top from the same place.
  climb-binds :
      (i : ℕ) (c d : D) (proof other : List D)
      → length proof ≡ length other
      → climb compress i c proof ≡ climb compress i d other
      → ((c ≡ d) × (proof ≡ other)) ⊎ Collision
  unfolding climb
  climb-binds i c d [] [] n e = inl (e, refl)
  climb-binds i c d [] (y ∷ ys) n e = grind arith
  climb-binds i c d (x ∷ xs) [] n e = grind arith
  climb-binds i c d (x ∷ xs) (y ∷ ys) n e =
      let even : Bool = i % 2 == 0 in
      let above =
        climb-binds (i / 2) (if even then compress c x else compress x c)
          (if even then compress d y else compress y d) xs ys (omega arith) e in
      elim above [
        | inr collision ↦ inr collision
        | inl (same, rest) ↦ elim (step_parts even c d x y same) [
          | inr collision ↦ inr collision
          | inl (p, q) ↦ inl (p, cc)
        ]
      ]

  -- When `merkle_verify` accepts two leaves at the same place against the same root, with proofs of
  -- the same length, the leaves and the proofs are the same, or `compress` has a collision.
  pub merkle_verify-binds :
      (top : D) (i : ℕ) (c d : D) (proof other : List D)
      → length proof ≡ length other
      → merkle_verify compress eq top i c proof ≡ ok tt
      → merkle_verify compress eq top i d other ≡ ok tt
      → ((c ≡ d) × (proof ≡ other)) ⊎ Collision
  merkle_verify-binds top i c d proof other n h h' =
      climb-binds i c d proof other n
        (sym (accepted-climb top i c proof h) ∙ accepted-climb top i d other h')
