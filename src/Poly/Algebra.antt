-- ===== src/Poly/Algebra.antt =====
-- Identities of a commutative ring, and sums of products over lists.
use stark_backend.Prelude.{◌≡◌, refl, sym, ap, ◌∙◌, List, [], ◌∷◌}
use stark_backend.Ring.{
  Ring, IsRing, add-zero, neg-add, mul-one, mul-zero, zero-mul, neg_neg, sub-zero, add_left_cancel,
}

module _ {A : Type 0} (r : Ring A) (h : IsRing r) where
  open r use {zero, one, add, sub, neg, mul}

  pub add-mul : (a b c : A) → mul (add a b) c ≡ add (mul a c) (mul b c)
  add-mul a b c =
      h.mul_comm (add a b) c ∙ h.mul-add c a b ∙ rw (h.mul_comm c a, h.mul_comm c b) refl

  pub add_left_comm : (a b c : A) → add a (add b c) ≡ add b (add a c)
  add_left_comm a b c = sym (h.add_assoc a b c) ∙ rw (h.add_comm a b) (h.add_assoc b a c)

  pub mul_left_comm : (a b c : A) → mul a (mul b c) ≡ mul b (mul a c)
  mul_left_comm a b c = sym (h.mul_assoc a b c) ∙ rw (h.mul_comm a b) (h.mul_assoc b a c)

  pub neg-mul : (a b : A) → mul (neg a) b ≡ neg (mul a b)
  neg-mul a b =
      add_left_cancel r h (mul a b) (mul (neg a) b) (neg (mul a b))
        (sym (add-mul a (neg a) b) ∙ rw (h.add-neg a, zero-mul r h b, h.add-neg (mul a b)) refl)

  pub mul-neg : (a b : A) → mul a (neg b) ≡ neg (mul a b)
  mul-neg a b = h.mul_comm a (neg b) ∙ neg-mul b a ∙ ap neg (h.mul_comm b a)

  pub neg-add_distrib : (a b : A) → neg (add a b) ≡ add (neg a) (neg b)
  neg-add_distrib a b =
      add_left_cancel r h (add a b) (neg (add a b)) (add (neg a) (neg b))
        (h.add-neg (add a b) ∙ sym cancel)
    where
      cancel : add (add a b) (add (neg a) (neg b)) ≡ zero
      cancel =
          h.add_assoc a b (add (neg a) (neg b))
          ∙ rw (add_left_comm b (neg a) (neg b), h.add-neg b, add-zero r h (neg a)) (h.add-neg a)

  -- Cancels `a` across a sum.
  pub add-neg_add : (a b : A) → add a (add (neg a) b) ≡ b
  add-neg_add a b = sym (h.add_assoc a (neg a) b) ∙ rw (h.add-neg a) (h.zero-add b)

  pub neg-add_add : (a b : A) → add (neg a) (add a b) ≡ b
  neg-add_add a b = sym (h.add_assoc (neg a) a b) ∙ rw (neg-add r h a) (h.zero-add b)

  -- The two forms of the factor of `eq` agree.
  pub eq_factor :
      (x y : A)
      → add (mul x y) (mul (sub one x) (sub one y))
        ≡ add (sub (sub one y) x) (add (mul x y) (mul x y))
  eq_factor x y =
      simp
        (
          h.sub-eq-add,
          h.mul-add,
          add-mul,
          h.one-mul,
          mul-one r h,
          neg-mul,
          mul-neg,
          neg_neg r h,
          h.add_assoc,
          h.add_comm,
          add_left_comm,
        )
        refl

  pub eq_factor-zero :
      (x : A) → add (sub (sub one zero) x) (add (mul x zero) (mul x zero)) ≡ sub one x
  eq_factor-zero x =
      rw (mul-zero r h x, h.zero-add zero, add-zero r h (sub (sub one zero) x), sub-zero r h one)
        refl

  pub eq_factor-one : (x : A) → add (sub (sub one one) x) (add (mul x one) (mul x one)) ≡ x
  eq_factor-one x =
      rw
        (
          mul-one r h x,
          h.sub-eq-add one one,
          h.add-neg one,
          h.sub-eq-add zero x,
          h.zero-add (neg x),
        )
        (neg-add_add x x)

  -- `∑ a_i b_i`, as far as both lists go.
  abbrev pub dot : List A → List A → A
  dot [] bs = zero
  dot (a ∷ rest) [] = zero
  dot (a ∷ rest) (b ∷ bs) = add (mul a b) (dot rest bs)
