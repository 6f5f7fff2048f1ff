-- ===== src/Ring.antt =====
-- The interface `PrimeCharacteristicRing` of the `p3-field` crate, as far as the code uses it: the
-- operations of a commutative ring, and their laws. The rings themselves are not in the repository.
use stark_backend.Prelude.{◌≡◌, sym, ap, ◌∙◌, ◌≡⟨◌⟩◌, ◌∎}

pub record Ring (A : Type 0) : Type 0 where
  pub zero : A
  pub one : A
  pub add : A → A → A
  pub sub : A → A → A
  pub neg : A → A
  pub mul : A → A → A

pub record IsRing {A : Type 0} (r : Ring A) : Type 0 where
  pub add_assoc : (a b c : A) → r.add (r.add a b) c ≡ r.add a (r.add b c)
  pub add_comm : (a b : A) → r.add a b ≡ r.add b a
  pub zero-add : (a : A) → r.add r.zero a ≡ a
  pub add-neg : (a : A) → r.add a (r.neg a) ≡ r.zero
  pub sub-eq-add : (a b : A) → r.sub a b ≡ r.add a (r.neg b)
  pub mul_assoc : (a b c : A) → r.mul (r.mul a b) c ≡ r.mul a (r.mul b c)
  pub mul_comm : (a b : A) → r.mul a b ≡ r.mul b a
  pub one-mul : (a : A) → r.mul r.one a ≡ a
  pub mul-add : (a b c : A) → r.mul a (r.add b c) ≡ r.add (r.mul a b) (r.mul a c)

-- A map of rings, such as the embedding of a field into its extension.
pub record IsRingMap {A B : Type 0} (r : Ring A) (s : Ring B) (f : A → B) : Type 0 where
  pub map-zero : f r.zero ≡ s.zero
  pub map-one : f r.one ≡ s.one
  pub map-add : (a b : A) → f (r.add a b) ≡ s.add (f a) (f b)
  pub map-sub : (a b : A) → f (r.sub a b) ≡ s.sub (f a) (f b)
  pub map-neg : (a : A) → f (r.neg a) ≡ s.neg (f a)
  pub map-mul : (a b : A) → f (r.mul a b) ≡ s.mul (f a) (f b)

module _ {A : Type 0} (r : Ring A) (h : IsRing r) where
  open r use {zero, one, add, sub, neg, mul}

  pub add-zero : (a : A) → add a zero ≡ a
  add-zero a = h.add_comm a zero ∙ h.zero-add a

  pub neg-add : (a : A) → add (neg a) a ≡ zero
  neg-add a = h.add_comm (neg a) a ∙ h.add-neg a

  pub mul-one : (a : A) → mul a one ≡ a
  mul-one a = h.mul_comm a one ∙ h.one-mul a

  -- What is added on the left can be taken off.
  pub add_left_cancel : (a b c : A) → add a b ≡ add a c → b ≡ c
  add_left_cancel a b c e =
      b
      ≡⟨ sym (undo b) ⟩ add (neg a) (add a b)
      ≡⟨ ap (add (neg a)) e ⟩ add (neg a) (add a c)
      ≡⟨ undo c ⟩ c ∎
    where
      undo : (x : A) → add (neg a) (add a x) ≡ x
      undo x = sym (h.add_assoc (neg a) a x) ∙ rw (neg-add a) (h.zero-add x)

  pub mul-zero : (a : A) → mul a zero ≡ zero
  mul-zero a =
      add_left_cancel (mul a zero) (mul a zero) zero
        (sym (h.mul-add a zero zero) ∙ ap (mul a) (h.zero-add zero) ∙ sym (add-zero (mul a zero)))

  pub zero-mul : (a : A) → mul zero a ≡ zero
  zero-mul a = h.mul_comm zero a ∙ mul-zero a

  pub neg_neg : (a : A) → neg (neg a) ≡ a
  neg_neg a = add_left_cancel (neg a) (neg (neg a)) a (h.add-neg (neg a) ∙ sym (neg-add a))

  pub neg-zero : neg zero ≡ zero
  neg-zero = sym (h.zero-add (neg zero)) ∙ h.add-neg zero

  pub sub-zero : (a : A) → sub a zero ≡ a
  sub-zero a = rw (h.sub-eq-add a zero, neg-zero) (add-zero a)

  pub sub-neg : (a b : A) → sub a (neg b) ≡ add a b
  sub-neg a b = rw (h.sub-eq-add a (neg b), neg_neg b)

  pub add-neg_eq_sub : (a b : A) → add a (neg b) ≡ sub a b
  add-neg_eq_sub a b = sym (h.sub-eq-add a b)
