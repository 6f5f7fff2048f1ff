-- ===== src/Poly/Hypercube.antt =====
-- Sums over the Boolean hypercube for crates/stark-backend/src/poly_common.rs.
use stark_backend.Prelude.{
  ℕ, zero, suc, ◌+◌, ◌-◌, ◌*◌, ◌/◌, ◌%◌, ◌^◌, ◌≤◌, ◌<◌, ◌≡◌, refl, sym, ap, ◌∙◌, List, [], ◌∷◌,
  ◌++◌, append_assoc, append-nil, length, length-append, length-replicate, drop, drop-append,
  replicate, replicate-add, sub_slice, write_at, zero_plus, sub_slice-middle, tabulate,
  tabulate-cong, length-tabulate, if◌then◌else◌, ◌==◌, pow_pos, arith,
}
use stark_backend.Prelude.Outcome.{ok}
use stark_backend.Ring.{Ring, IsRing}
use stark_backend.Poly.Mle.{
  eq_mle_from, eval_eq_mle, scale, eq_step, eq_steps, evals_eq_hypercube_serial,
}
use stark_backend.Poly.Algebra.{eq_factor-zero, eq_factor-one}
use native.Mathlib.Nat.{
  two-pow-succ, pow-le-pow_right, mul-add-div_right, mul-add-mod_self_right, div-lt_iff_lt-mul,
}

tabulate-add {ℓ} :
    {A : Type ℓ} (m n : ℕ) (f : ℕ → A)
    → tabulate (m + n) f ≡ tabulate m f ++ tabulate n (λ i. f (m + i))
tabulate-add zero n f =
    rw (zero_plus n) (tabulate-cong n f (λ i. f (0 + i)) (λ i lt. ap f (sym (zero_plus i))))
tabulate-add (suc m) n f =
    let e : suc m + n ≡ suc (m + n) = omega arith in
    rw e (
      ap (λ l. f 0 ∷ l)
        (tabulate-add m n (λ i. f (i + 1))
          ∙ ap (λ l. tabulate m (λ i. f (i + 1)) ++ l)
              (tabulate-cong n (λ i. f (m + i + 1)) (λ i. f (suc m + i))
                (λ i lt. ap f (omega arith)))))

module _ {A : Type 0} (r : Ring A) where
  open r use {one, add, sub, mul}

  -- The bits of a number, from the lowest.
  abbrev pub bits : ℕ → ℕ → List A
  bits zero b = []
  bits (suc n) b = (if b % 2 == 0 then r.zero else one) ∷ bits n (b / 2)

  bits-low : (n b : ℕ) → b < 2 ^ n → bits (suc n) b ≡ bits n b ++ r.zero ∷ []
  bits-low zero b h = let e : b ≡ 0 = omega arith in rw e refl
  bits-low (suc n) b h =
      ap (λ (l : List A). (if b % 2 == 0 then r.zero else one) ∷ l)
        (bits-low n (b / 2) ((div-lt_iff_lt-mul (omega arith)).1 (omega (arith, two-pow-succ n))))

  bits-high : (n b : ℕ) → b < 2 ^ n → bits (suc n) (2 ^ n + b) ≡ bits n b ++ one ∷ []
  bits-high zero b h = let e : b ≡ 0 = omega arith in rw e refl
  bits-high (suc n) b h =
      let split : 2 ^ suc n + b ≡ 2 ^ n * 2 + b = omega (arith, two-pow-succ n) in
      let half : (2 ^ suc n + b) / 2 ≡ 2 ^ n + b / 2 =
        ap (λ (x : ℕ). x / 2) split ∙ mul-add-div_right (omega arith) (2 ^ n) b in
      let low : (2 ^ suc n + b) % 2 ≡ b % 2 =
        ap (λ (x : ℕ). x % 2) split ∙ mul-add-mod_self_right (2 ^ n) 2 b in
      rw (half, low)
        (ap (λ (l : List A). (if b % 2 == 0 then r.zero else one) ∷ l)
          (bits-high n (b / 2)
            ((div-lt_iff_lt-mul (omega arith)).1 (omega (arith, two-pow-succ n)))))

  length-bits : (n b : ℕ) → length (bits n b) ≡ n
  length-bits zero b = refl
  length-bits (suc n) b = ap suc (length-bits n (b / 2))

  -- One more coordinate is one more factor.
  pub eq_mle_from-snoc :
      (xs ys : List A) (acc x y : A)
      → length xs ≡ length ys
      → eq_mle_from r acc (xs ++ x ∷ []) (ys ++ y ∷ [])
        ≡ mul (eq_mle_from r acc xs ys) (add (sub (sub one y) x) (add (mul x y) (mul x y)))
  unfolding eq_mle_from
  eq_mle_from-snoc [] [] acc x y e = refl
  eq_mle_from-snoc [] (b ∷ ys) acc x y e = grind arith
  eq_mle_from-snoc (a ∷ xs) [] acc x y e = grind arith
  eq_mle_from-snoc (a ∷ xs) (b ∷ ys) acc x y e = eq_mle_from-snoc xs ys _ x y (omega arith)

  -- The weight of each point of the hypercube.
  abbrev pub weights : List A → List A
  weights x = tabulate (2 ^ length x) (λ b. eval_eq_mle r x (bits (length x) b))

  scale-tabulate :
      (a : A) (n : ℕ) (f : ℕ → A) → scale r a (tabulate n f) ≡ tabulate n (λ i. mul (f i) a)
  scale-tabulate a zero f = refl
  scale-tabulate a (suc n) f =
      ap (λ (l : List A). mul (f 0) a ∷ l) (scale-tabulate a n (λ i. f (i + 1)))

  pub length-scale : (a : A) (xs : List A) → length (scale r a xs) ≡ length xs
  length-scale a [] = refl
  length-scale a (x ∷ xs) = ap suc (length-scale a xs)

  module _ (h : IsRing r) where
    -- The weights for one more coordinate.
    pub weights-snoc :
        (xs : List A) (x : A)
        → weights (xs ++ x ∷ []) ≡ scale r (sub one x) (weights xs) ++ scale r x (weights xs)
    weights-snoc xs x =
        let n : ℕ = length xs in
        let more : length (xs ++ x ∷ []) ≡ suc n = length-append xs (x ∷ []) ∙ omega arith in
        let both : 2 ^ suc n ≡ 2 ^ n + 2 ^ n = two-pow-succ n in
        let at : ℕ → A = λ b. eval_eq_mle r (xs ++ x ∷ []) (bits (suc n) b) in
        let w : ℕ → A = λ b. eval_eq_mle r xs (bits n b) in
        ap (λ (m : ℕ). tabulate (2 ^ m) (λ b. eval_eq_mle r (xs ++ x ∷ []) (bits m b))) more
        ∙ ap (λ (m : ℕ). tabulate m at) both
        ∙ tabulate-add (2 ^ n) (2 ^ n) at
        ∙ ap (λ (l : List A). l ++ tabulate (2 ^ n) (λ b. at (2 ^ n + b)))
            (tabulate-cong (2 ^ n) at (λ b. mul (w b) (sub one x))
                (λ b lt.
                  ap (eval_eq_mle r (xs ++ x ∷ [])) (bits-low n b lt)
                  ∙ eq_mle_from-snoc xs (bits n b) one x r.zero (sym (length-bits n b))
                  ∙ ap (mul (w b)) (eq_factor-zero r h x))
              ∙ sym (scale-tabulate (sub one x) (2 ^ n) w))
        ∙ ap (λ (l : List A). scale r (sub one x) (weights xs) ++ l)
            (tabulate-cong (2 ^ n) (λ b. at (2 ^ n + b)) (λ b. mul (w b) x)
                (λ b lt.
                  ap (eval_eq_mle r (xs ++ x ∷ [])) (bits-high n b lt)
                  ∙ eq_mle_from-snoc xs (bits n b) one x one (sym (length-bits n b))
                  ∙ ap (mul (w b)) (eq_factor-one r h x))
              ∙ sym (scale-tabulate x (2 ^ n) w))

    -- A step of the serial loop on the weights of the coordinates before.
    eq_step-weights :
        (done : List A) (x : A) (m : ℕ)
        → 2 ^ length done ≤ m
        → eq_step r (length done) x (weights done ++ replicate m r.zero)
          ≡ ok (weights (done ++ x ∷ []) ++ replicate (m - 2 ^ length done) r.zero)
    unfolding eq_step
    eq_step-weights done x m le =
        let n : ℕ = length done in
        let w : List A = weights done in
        let tail : List A = replicate (m - 2 ^ n) r.zero in
        let gap : List A = replicate (2 ^ n) r.zero in
        let long : length w ≡ 2 ^ n =
          length-tabulate (2 ^ n) (λ b. eval_eq_mle r done (bits n b)) in
        let long_gap : length gap ≡ 2 ^ n = length-replicate (2 ^ n) r.zero in
        let split : m ≡ 2 ^ n + (m - 2 ^ n) = omega arith in
        let zeros : replicate m r.zero ≡ gap ++ tail =
          ap (λ (t : ℕ). replicate t r.zero) split ∙ replicate-add (2 ^ n) (m - 2 ^ n) r.zero in
        let first : sub_slice {E = ⊥} (w ++ (gap ++ tail)) 0 (2 ^ n) ≡ ok w =
          ap (sub_slice {E = ⊥} (w ++ (gap ++ tail)) 0) (sym long)
          ∙ sub_slice-middle [] w (gap ++ tail) in
        let second : sub_slice {E = ⊥} (w ++ (gap ++ tail)) (2 ^ n) (2 ^ n) ≡ ok gap =
          ap (λ (t : ℕ). sub_slice {E = ⊥} (w ++ (gap ++ tail)) t (2 ^ n)) (sym long)
          ∙ ap (λ (t : ℕ). sub_slice {E = ⊥} (w ++ (gap ++ tail)) (length w) t) (sym long_gap)
          ∙ sub_slice-middle w gap tail in
        let both : 2 ^ suc n ≡ length (w ++ gap) =
          omega (arith, two-pow-succ n, length-append w gap) in
        let third : drop (2 ^ suc n) (w ++ (gap ++ tail)) ≡ tail =
          ap (λ (t : ℕ). drop t (w ++ (gap ++ tail))) both
          ∙ ap (drop (length (w ++ gap))) (sym (append_assoc w gap tail))
          ∙ drop-append (w ++ gap) tail in
        rw (zeros, first, second, third)
          (ap ok (
            sym (append_assoc (scale r (sub one x) w) (scale r x w) tail)
            ∙ ap (λ (l : List A). l ++ tail) (sym (weights-snoc done x))))

    eq_steps-weights :
        (done xs : List A) (m : ℕ)
        → 2 ^ length done + m ≡ 2 ^ (length done + length xs)
        → eq_steps r (length done) xs (weights done ++ replicate m r.zero)
          ≡ ok (weights (done ++ xs))
    unfolding eq_steps
    eq_steps-weights done [] m e =
        let same : 2 ^ (length done + 0) ≡ 2 ^ length done = ap (λ (t : ℕ). 2 ^ t) (omega arith) in
        let none_left : m ≡ 0 = omega arith in
        rw (append-nil done, none_left) (ap ok (append-nil (weights done)))
    eq_steps-weights done (x ∷ xs) m e =
        let n : ℕ = length done in
        let room : 2 ^ suc n ≤ 2 ^ (n + suc (length xs)) =
          pow-le-pow_right {n = 2} (omega arith) (omega arith) in
        let more : length (done ++ x ∷ []) ≡ n + 1 = length-append done (x ∷ []) in
        let pow_more : 2 ^ length (done ++ x ∷ []) ≡ 2 ^ n + 2 ^ n =
          ap (λ (t : ℕ). 2 ^ t) (more ∙ omega arith) ∙ two-pow-succ n in
        let target : 2 ^ (length (done ++ x ∷ []) + length xs) ≡ 2 ^ (n + suc (length xs)) =
          ap (λ (t : ℕ). 2 ^ t) (omega arith) in
        let step = eq_step-weights done x m (omega (arith, two-pow-succ n)) in
        let rest =
          eq_steps-weights (done ++ x ∷ []) xs (m - 2 ^ n) (omega (arith, two-pow-succ n)) in
        rw (step, sym more)
          (rest ∙ ap (λ (l : List A). ok (weights l)) (append_assoc done (x ∷ []) xs))

    -- `evals_eq_hypercube_serial` returns, at each index, `eq` at `x` and the bits of the index.
    pub evals_eq_hypercube_serial-eval_eq_mle :
        (x : List A)
        → evals_eq_hypercube_serial r x
          ≡ ok (tabulate (2 ^ length x) (λ b. eval_eq_mle r x (bits (length x) b)))
    unfolding evals_eq_hypercube_serial eq_mle_from
    evals_eq_hypercube_serial-eval_eq_mle x =
        let n : ℕ = length x in
        let z : 0 + n ≡ n = omega arith in
        let split : 2 ^ n ≡ suc (2 ^ n - 1) = omega (arith, pow_pos n) in
        let start : write_at {E = ⊥} (replicate (2 ^ n) r.zero) 0 one
            ≡ ok (one ∷ replicate (2 ^ n - 1) r.zero) =
          ap (λ (t : ℕ). write_at {E = ⊥} (replicate t r.zero) 0 one) split in
        rw start
          (eq_steps-weights [] x (2 ^ n - 1) (omega (arith, pow_pos n, ap (λ (t : ℕ). 2 ^ t) z)))
