-- ===== src/Poly/Folding.antt =====
-- `eval_mle_evals_at_point` of crates/stark-backend/src/poly_common.rs.
use stark_backend.Prelude.{
  ℕ, suc, ◌+◌, ◌/◌, ◌^◌, ◌≡◌, refl, sym, ap, ◌∙◌, List, [], ◌∷◌, ◌++◌, append_assoc, append-nil,
  length, length-append, take, drop, take-drop, length-take, length-drop, drop-append,
  sub_slice-middle, tabulate, length-tabulate, arith,
}
use stark_backend.Prelude.Outcome.{ok}
use stark_backend.Ring.{Ring, IsRing, add-zero, mul-one}
use stark_backend.Poly.Mle.{
  eq_mle_from, eval_eq_mle, fold_pairs, fold_evals, eval_mle_evals_at_point, scale,
  evals_eq_hypercube_serial,
}
use stark_backend.Poly.Algebra.{dot, add-mul, add_left_comm}
use stark_backend.Poly.Hypercube.{
  bits, weights, length-scale, weights-snoc, evals_eq_hypercube_serial-eval_eq_mle,
}
use mathlib.Core.List.{reverse, reverse-cons, reverse-reverse}
use native.Mathlib.Nat.{two-pow-succ, mul-div_left}

module _ {A : Type 0} (r : Ring A) (h : IsRing r) where
  open r use {one, add, sub, mul}

  -- The pairs without their bounds.
  abbrev mixed : A → List A → List A → List A
  mixed x [] hi = []
  mixed x (l ∷ lo) [] = []
  mixed x (l ∷ lo) (u ∷ hi) = add (mul l (sub one x)) (mul u x) ∷ mixed x lo hi

  fold_pairs-mixed :
      (x : A) (lo hi junk : List A)
      → length lo ≡ length hi
      → fold_pairs r x lo (hi ++ junk) ≡ ok (mixed x lo hi)
  unfolding fold_pairs
  fold_pairs-mixed x [] hi junk e = refl
  fold_pairs-mixed x (l ∷ lo) [] junk e = grind arith
  fold_pairs-mixed x (l ∷ lo) (u ∷ hi) junk e =
      rw (fold_pairs-mixed x lo hi junk (omega arith)) refl

  length-mixed :
      (x : A) (lo hi : List A) → length lo ≡ length hi → length (mixed x lo hi) ≡ length lo
  length-mixed x [] hi e = refl
  length-mixed x (l ∷ lo) [] e = grind arith
  length-mixed x (l ∷ lo) (u ∷ hi) e = ap suc (length-mixed x lo hi (omega arith))

  dot-append :
      (us vs ws zs : List A)
      → length us ≡ length ws
      → dot r h (us ++ vs) (ws ++ zs) ≡ add (dot r h us ws) (dot r h vs zs)
  dot-append [] vs [] zs e = sym (h.zero-add (dot r h vs zs))
  dot-append [] vs (w ∷ ws) zs e = grind arith
  dot-append (u ∷ us) vs [] zs e = grind arith
  dot-append (u ∷ us) vs (w ∷ ws) zs e =
      rw (dot-append us vs ws zs (omega arith))
        (sym (h.add_assoc (mul u w) (dot r h us ws) (dot r h vs zs)))

  -- One fold is one more coordinate of the weights.
  dot-mixed :
      (x : A) (lo hi w : List A)
      → length lo ≡ length hi
      → dot r h (mixed x lo hi) w
        ≡ add (dot r h lo (scale r (sub one x) w)) (dot r h hi (scale r x w))
  dot-mixed x [] [] w e = sym (h.zero-add r.zero)
  dot-mixed x [] (u ∷ hi) w e = grind arith
  dot-mixed x (l ∷ lo) [] w e = grind arith
  dot-mixed x (l ∷ lo) (u ∷ hi) [] e = sym (h.zero-add r.zero)
  dot-mixed x (l ∷ lo) (u ∷ hi) (v ∷ w) e =
      rw
        (
          dot-mixed x lo hi w (omega arith),
          add-mul r h (mul l (sub one x)) (mul u x) v,
          h.mul_assoc l (sub one x) v,
          h.mul_assoc u x v,
          h.mul_comm (sub one x) v,
          h.mul_comm x v,
        )
        (swap (mul l (mul v (sub one x))) (mul u (mul v x)) (dot r h lo (scale r (sub one x) w))
          (dot r h hi (scale r x w)))
    where
      swap : (a b c d : A) → add (add a b) (add c d) ≡ add (add a c) (add b d)
      swap a b c d =
          h.add_assoc a b (add c d)
          ∙ ap (add a) (add_left_comm r h b c d)
          ∙ sym (h.add_assoc a c (add b d))

  length-reverse_lem : (xs : List A) → length (reverse xs) ≡ length xs
  length-reverse_lem [] = refl
  length-reverse_lem (x ∷ xs) =
      ap length (reverse-cons x xs)
      ∙ length-append (reverse xs) (x ∷ [])
      ∙ omega (arith, length-reverse_lem xs)

  fold_evals-step :
      (x : A) (xs lo hi junk : List A)
      → length lo ≡ 2 ^ length xs
      → length hi ≡ 2 ^ length xs
      → fold_evals r (x ∷ xs) (2 ^ suc (length xs)) ((lo ++ hi) ++ junk)
        ≡ fold_evals r xs (2 ^ length xs) (mixed x lo hi ++ (hi ++ junk))
  unfolding fold_evals
  fold_evals-step x xs lo hi junk e f =
      let half : 2 ^ suc (length xs) / 2 ≡ length lo =
        ap (λ (t : ℕ). t / 2) (two-pow-succ (length xs) ∙ omega arith)
        ∙ mul-div_left (2 ^ length xs) (omega arith)
        ∙ sym e in
      rw
        (
          half,
          append_assoc lo hi junk,
          sub_slice-middle {E = ⊥} [] lo (hi ++ junk),
          drop-append lo (hi ++ junk),
          fold_pairs-mixed x lo hi junk (e ∙ sym f),
          e,
        )
        refl

  -- The loop ends with the sum of the values by the weights at the front.
  fold_evals-dot :
      (xs act junk : List A)
      → length act ≡ 2 ^ length xs
      → (rest : List A) × (fold_evals r xs (2 ^ length xs) (act ++ junk)
          ≡ ok (dot r h act (weights r (reverse xs)) ∷ rest))
  unfolding fold_evals eq_mle_from
  fold_evals-dot [] [] junk e = grind arith
  fold_evals-dot [] (a ∷ []) junk e =
      (junk, ap (λ (t : A). ok (t ∷ junk)) (sym (add-zero r h (mul a one) ∙ mul-one r h a)))
  fold_evals-dot [] (a ∷ b ∷ act) junk e = grind arith
  fold_evals-dot (x ∷ xs) act junk e =
      let n : ℕ = length xs in
      let lo : List A = take (2 ^ n) act in
      let hi : List A = drop (2 ^ n) act in
      let double_pow : 2 ^ suc n ≡ 2 ^ n + 2 ^ n = two-pow-succ n in
      let long_lo : length lo ≡ 2 ^ n = length-take (2 ^ n) act (omega arith) in
      let long_hi : length hi ≡ 2 ^ n = length-drop (2 ^ n) act ∙ omega arith in
      let same : length lo ≡ length hi = omega arith in
      let (rest, ran) =
        fold_evals-dot xs (mixed x lo hi) (hi ++ junk) (length-mixed x lo hi same ∙ long_lo) in
      let w : List A = weights r (reverse xs) in
      let long_w : length w ≡ 2 ^ n =
        length-tabulate (2 ^ length (reverse xs)) _
        ∙ ap (λ (t : ℕ). 2 ^ t) (length-reverse_lem xs) in
      let total : dot r h (mixed x lo hi) w ≡ dot r h act (weights r (reverse (x ∷ xs))) =
        dot-mixed x lo hi w same
        ∙ sym (
            dot-append lo hi (scale r (sub one x) w) (scale r x w)
              (long_lo ∙ sym long_w ∙ sym (length-scale r (sub one x) w)))
        ∙ ap (λ (l : List A). dot r h l (scale r (sub one x) w ++ scale r x w))
            (take-drop (2 ^ n) act)
        ∙ ap (dot r h act) (sym (weights-snoc r h (reverse xs) x))
        ∙ ap (λ (l : List A). dot r h act (weights r l)) (sym (reverse-cons x xs)) in
      (
        rest,
        ap (λ (l : List A). fold_evals r (x ∷ xs) (2 ^ suc n) (l ++ junk))
              (sym (take-drop (2 ^ n) act))
            ∙ fold_evals-step x xs lo hi junk long_lo long_hi
            ∙ ran
            ∙ ap (λ (t : A). ok (t ∷ rest)) total,
      )

  -- For `2 ^ n` values and `n` coordinates, `eval_mle_evals_at_point` returns the sum over the points of the
  -- hypercube of the value there times `eq` at the point, which are the weights that
  -- `evals_eq_hypercube_serial` returns.
  pub eval_mle_evals_at_point-dot :
      (evals x : List A)
      → length evals ≡ 2 ^ length x
      → (ws : List A) × (evals_eq_hypercube_serial r x ≡ ok ws)
        × (ws ≡ tabulate (2 ^ length x) (λ b. eval_eq_mle r x (bits r (length x) b)))
        × (eval_mle_evals_at_point r evals x ≡ ok (dot r h evals ws))
  unfolding eval_mle_evals_at_point
  eval_mle_evals_at_point-dot evals x e =
      let (rest, ran) =
        fold_evals-dot (reverse x) evals []
          (e ∙ ap (λ (t : ℕ). 2 ^ t) (sym (length-reverse_lem x))) in
      let size : length evals ≡ 2 ^ length (reverse x) =
        e ∙ ap (λ (t : ℕ). 2 ^ t) (sym (length-reverse_lem x)) in
      let ran' : fold_evals r (reverse x) (length evals) evals
          ≡ ok (dot r h evals (weights r (reverse (reverse x))) ∷ rest) =
        ap (λ (t : ℕ). fold_evals r (reverse x) t evals) size
        ∙ ap (fold_evals r (reverse x) (2 ^ length (reverse x))) (sym (append-nil evals))
        ∙ ran in
      (
        weights r x,
        evals_eq_hypercube_serial-eval_eq_mle r h x,
        refl,
        rw ran' (ap (λ (l : List A). ok (dot r h evals (weights r l))) (reverse-reverse x)),
      )
