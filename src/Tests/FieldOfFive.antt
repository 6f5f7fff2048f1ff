-- ===== src/Tests/FieldOfFive.antt =====
-- The field of five elements.
use stark_backend.Prelude.{
  ℕ, zero, suc, ◌+◌, ◌-◌, ◌*◌, ◌%◌, ◌≡◌, ◌≢◌, refl, sym, ap, subst, ◌∙◌, Bool, true, false, ◌&&◌,
  ◌==◌, ==→eq, ==_refl,
}
use stark_backend.Prelude.Outcome.{Outcome, ok, panic}
use stark_backend.Codec.Bytes.{Writer, Reader, encode_u8, decode_u8, ◌>>=◌, pure}
use stark_backend.Codec.Reads.{Reads, Reads-map}
use stark_backend.Codec.RoundTrip.{u8-Reads}
use stark_backend.Ring.{Ring, IsRing}
use stark_backend.Poly.Mle.{FieldOps, IsFieldOps}

pub data Five : Type 0 where
  n0 : Five
  n1 : Five
  n2 : Five
  n3 : Five
  n4 : Five

abbrev pub to_number : Five → ℕ
to_number n0 = 0
to_number n1 = 1
to_number n2 = 2
to_number n3 = 3
to_number n4 = 4

-- The number modulo five, of the numbers below five.
abbrev pub of_digit : ℕ → Five
of_digit zero = n0
of_digit (suc zero) = n1
of_digit (suc (suc zero)) = n2
of_digit (suc (suc (suc zero))) = n3
of_digit (suc (suc (suc (suc n)))) = n4

abbrev pub of_number : ℕ → Five
of_number n = of_digit (n % 5)

pub of_number-to_number : (a : Five) → of_number (to_number a) ≡ a
of_number-to_number n0 = refl
of_number-to_number n1 = refl
of_number-to_number n2 = refl
of_number-to_number n3 = refl
of_number-to_number n4 = refl

pub different : (a b : Five) → (to_number a == to_number b) ≡ false → ¬ (a ≡ b)
different a b d p =
    let same_number : (to_number a == to_number b) ≡ true = rw p (==_refl (to_number b)) in cc

abbrev pub decide : (a b : Five) (t : Bool) → (to_number a == to_number b) ≡ t → Dec (a ≡ b)
decide a b true e = yes (
    sym (of_number-to_number a)
    ∙ ap of_number (==→eq (to_number a) (to_number b) e)
    ∙ of_number-to_number b)
decide a b false d = no (different a b d)

abbrev pub equal_five : (a b : Five) → Dec (a ≡ b)
equal_five a b = decide a b (to_number a == to_number b) refl

abbrev pub five : Ring Five
five = record {
  zero = n0;
  one = n1;
  add = λ a b. of_number (to_number a + to_number b);
  sub = λ a b. of_number (to_number a + (5 - to_number b));
  neg = λ a. of_number (5 - to_number a);
  mul = λ a b. of_number (to_number a * to_number b);
}

abbrev same : Five → Five → Bool
same a b = to_number a == to_number b

same→eq : (a b : Five) → same a b ≡ true → a ≡ b
same→eq a b e =
    sym (of_number-to_number a)
    ∙ ap of_number (==→eq (to_number a) (to_number b) e)
    ∙ of_number-to_number b

-- A test on all elements.
abbrev every : (Five → Bool) → Bool
every p = p n0 && (p n1 && (p n2 && (p n3 && p n4)))

both_true : (a b : Bool) → (a && b) ≡ true → (a ≡ true) × (b ≡ true)
both_true true b e = (refl, e)
both_true false b e = cc

every-at : (p : Five → Bool) → every p ≡ true → (a : Five) → p a ≡ true
every-at p e a =
    let (e0, r0) = both_true (p n0) _ e in
    let (e1, r1) = both_true (p n1) _ r0 in
    let (e2, r2) = both_true (p n2) _ r1 in
    let (e3, e4) = both_true (p n3) (p n4) r2 in
    elim a as (λ x. p x ≡ true) [ n0 ↦ e0 | n1 ↦ e1 | n2 ↦ e2 | n3 ↦ e3 | n4 ↦ e4 ]

-- Laws that a test on all elements shows.
law1 : (f g : Five → Five) → every (λ a. same (f a) (g a)) ≡ true → (a : Five) → f a ≡ g a
law1 f g e a = same→eq (f a) (g a) (every-at (λ a. same (f a) (g a)) e a)

law2 :
    (f g : Five → Five → Five)
    → every (λ a. every (λ b. same (f a b) (g a b))) ≡ true
    → (a b : Five) → f a b ≡ g a b
law2 f g e a = law1 (f a) (g a) (every-at (λ a. every (λ b. same (f a b) (g a b))) e a)

law3 :
    (f g : Five → Five → Five → Five)
    → every (λ a. every (λ b. every (λ c. same (f a b c) (g a b c)))) ≡ true
    → (a b c : Five) → f a b c ≡ g a b c
law3 f g e a =
    law2 (f a) (g a) (every-at (λ a. every (λ b. every (λ c. same (f a b c) (g a b c)))) e a)

pub five-IsRing : IsRing five
five-IsRing = record {
  add_assoc = law3 (λ a b c. five.add (five.add a b) c) (λ a b c. five.add a (five.add b c)) refl;
  add_comm = law2 (λ a b. five.add a b) (λ a b. five.add b a) refl;
  zero-add = law1 (λ a. five.add five.zero a) (λ a. a) refl;
  add-neg = law1 (λ a. five.add a (five.neg a)) (λ a. five.zero) refl;
  sub-eq-add = law2 (λ a b. five.sub a b) (λ a b. five.add a (five.neg b)) refl;
  mul_assoc = law3 (λ a b c. five.mul (five.mul a b) c) (λ a b c. five.mul a (five.mul b c)) refl;
  mul_comm = law2 (λ a b. five.mul a b) (λ a b. five.mul b a) refl;
  one-mul = law1 (λ a. five.mul five.one a) (λ a. a) refl;
  mul-add =
      law3 (λ a b c. five.mul a (five.add b c)) (λ a b c. five.add (five.mul a b) (five.mul a c))
        refl;
}

abbrev inverse_of : Five → Outcome ⊥ Five
inverse_of n0 = panic
inverse_of n1 = ok n1
inverse_of n2 = ok n3
inverse_of n3 = ok n2
inverse_of n4 = ok n4

abbrev pub five_ops : FieldOps Five
five_ops = record { halve = λ a. ok (five.mul a n3); inverse = inverse_of; from_u64 = of_number }

inverse_of-mul : (a : Five) → a ≢ n0 → (b : Five) × (inverse_of a ≡ ok b) × (five.mul a b ≡ n1)
inverse_of-mul n0 h = absurd (h refl)
inverse_of-mul n1 h = (n1, refl, refl)
inverse_of-mul n2 h = (n3, refl, refl)
inverse_of-mul n3 h = (n2, refl, refl)
inverse_of-mul n4 h = (n4, refl, refl)

pub five-IsFieldOps : IsFieldOps five five_ops
five-IsFieldOps = record {
  inverse-mul = inverse_of-mul;
  halve-add = λ h a.
      (five.mul a n3, refl, law1 (λ x. five.add (five.mul x n3) (five.mul x n3)) (λ x. x) refl a);
}

-- The codec: the number, in one byte.
abbrev pub encode_five : Five → Writer
encode_five a = encode_u8 (to_number a)

abbrev pub decode_five : Reader Five
decode_five = do n ← decode_u8; pure (of_number n)

pub five-Reads : (a : Five) → Reads (encode_five a) decode_five a
five-Reads a =
    subst (λ x. Reads (encode_five a) decode_five x) (of_number-to_number a)
      (Reads-map of_number (u8-Reads (to_number a)))
