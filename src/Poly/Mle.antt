-- ===== src/Poly/Mle.antt =====
-- Multilinear extensions in crates/stark-backend/src/poly_common.rs. Debug assertions are left out;
-- a slice or an index out of range is a panic.
use stark_backend.Prelude.{
  ℕ, suc, ◌+◌, ◌/◌, ◌^◌, ◌≡◌, ◌≢◌, List, [], ◌∷◌, ◌++◌, length, drop, replicate, sub_slice,
  write_at,
}
use stark_backend.Prelude.Outcome.{Outcome, ok, panic, ◌>>=◌, index}
use stark_backend.Ring.{Ring}
use mathlib.Core.List.{reverse}

module _ {A : Type 0} (r : Ring A) where
  open r use {one, add, sub, mul}

  -- `double`
  abbrev pub double : A → A
  double a = add a a

  -- The loop of `eval_eq_mle`, from the accumulator on.
  unfoldable pub eq_mle_from : A → List A → List A → A
  eq_mle_from acc [] ys = acc
  eq_mle_from acc (x ∷ xs) [] = acc
  eq_mle_from acc (x ∷ xs) (y ∷ ys) =
      eq_mle_from (mul acc (add (sub (sub one y) x) (double (mul x y)))) xs ys

  abbrev pub eval_eq_mle : List A → List A → A
  eval_eq_mle xs ys = eq_mle_from one xs ys

  unfoldable pub mobius_from : A → List A → List A → A
  mobius_from acc [] xs = acc
  mobius_from acc (u ∷ us) [] = acc
  mobius_from acc (u ∷ us) (x ∷ xs) =
      mobius_from (mul acc (add (mul (sub one (double u)) (sub one x)) (mul u x))) us xs

  abbrev pub eval_mobius_eq_mle : List A → List A → A
  eval_mobius_eq_mle us xs = mobius_from one us xs

  -- `lo[i] = lo[i] * (1 - xj) + hi[i] * xj` for all of `lo`.
  unfoldable pub fold_pairs : A → List A → List A → Outcome ⊥ (List A)
  fold_pairs xj [] hi = ok []
  fold_pairs xj (l ∷ lo) [] = panic
  fold_pairs xj (l ∷ lo) (u ∷ hi) = do
    rest ← fold_pairs xj lo hi
    ok (add (mul l (sub one xj)) (mul u xj) ∷ rest)

  -- The loop of `eval_mle_evals_at_point`, with the coordinates in the order of the loop.
  unfoldable pub fold_evals : List A → ℕ → List A → Outcome ⊥ (List A)
  fold_evals [] len evals = ok evals
  fold_evals (xj ∷ xs) len evals = do
    lo ← sub_slice evals 0 (len / 2)
    let hi : List A = drop (len / 2) evals
    lo' ← fold_pairs xj lo hi
    fold_evals xs (len / 2) (lo' ++ hi)

  unfoldable pub eval_mle_evals_at_point : List A → List A → Outcome ⊥ A
  eval_mle_evals_at_point evals x = do
    folded ← fold_evals (reverse x) (length evals) evals
    index folded 0

  abbrev pub scale : A → List A → List A
  scale a [] = []
  scale a (b ∷ bs) = mul b a ∷ scale a bs

  -- One step of `evals_eq_hypercube_serial`.
  unfoldable pub eq_step : ℕ → A → List A → Outcome ⊥ (List A)
  eq_step i x_i out = do
    los ← sub_slice out 0 (2 ^ i)
    his ← sub_slice out (2 ^ i) (2 ^ i)
    ok (scale (sub one x_i) los ++ (scale x_i los ++ drop (2 ^ suc i) out))

  unfoldable pub eq_steps : ℕ → List A → List A → Outcome ⊥ (List A)
  eq_steps i [] out = ok out
  eq_steps i (x_i ∷ xs) out = do out' ← eq_step i x_i out; eq_steps (i + 1) xs out'

  unfoldable pub evals_eq_hypercube_serial : List A → Outcome ⊥ (List A)
  evals_eq_hypercube_serial x = do
    out ← write_at (replicate (2 ^ length x) r.zero) 0 one
    eq_steps 0 x out

  -- The loop of `eval_eq_rot_cube`, from the last coordinate to the first: `eq` and `rot`.
  unfoldable pub eval_eq_rot_cube : List A → List A → Outcome ⊥ (A × A)
  eval_eq_rot_cube [] ys = ok (one, one)
  eval_eq_rot_cube (x ∷ xs) [] = panic
  eval_eq_rot_cube (x ∷ xs) (y ∷ ys) = do
    p ← eval_eq_rot_cube xs ys
    ok (
      mul p.0 (add (mul x y) (mul (sub one x) (sub one y))),
      add (mul (mul x (sub one y)) p.0) (mul (mul (sub one x) y) p.1),
    )

  -- `rfold`
  unfoldable pub horner_eval : List A → A → A
  horner_eval [] x = r.zero
  horner_eval (c ∷ coeffs) x = add (mul (horner_eval coeffs x) x) c

  -- `[F; 2]`
  unfoldable pub interpolate_linear_at_01 : A → A → A → A
  interpolate_linear_at_01 ev0 ev1 x = add (mul (sub ev1 ev0) x) ev0

-- The operations of a field that the interpolations use besides those of a ring. A field has no
-- inverse of zero, and in characteristic 2 no halves: there the operations panic.
pub record FieldOps (A : Type 0) : Type 0 where
  pub halve : A → Outcome ⊥ A
  pub inverse : A → Outcome ⊥ A
  pub from_u64 : ℕ → A

-- What the `p3-field` crate documents of them.
pub record IsFieldOps {A : Type 0} (r : Ring A) (f : FieldOps A) : Type 0 where
  pub inverse-mul : (a : A) → a ≢ r.zero → (b : A) × (f.inverse a ≡ ok b) × (r.mul a b ≡ r.one)
  pub halve-add :
      r.add r.one r.one ≢ r.zero → (a : A) → (b : A) × (f.halve a ≡ ok b) × (r.add b b ≡ a)

module _ {A : Type 0} (r : Ring A) (f : FieldOps A) where
  open r use {add, sub, mul}

  unfoldable pub interpolate_quadratic_at_012 : A → A → A → A → Outcome ⊥ A
  interpolate_quadratic_at_012 ev0 ev1 ev2 x = do
    let s1 : A = sub ev1 ev0
    let s2 : A = sub ev2 ev1
    p ← f.halve (sub s2 s1)
    let q : A = sub s1 p
    ok (add (mul (add (mul p x) q) x) ev0)

  unfoldable pub interpolate_cubic_at_0123 : A → A → A → A → A → Outcome ⊥ A
  interpolate_cubic_at_0123 ev0 ev1 ev2 ev3 x = do
    inv6 ← f.inverse (f.from_u64 6)
    let s1 : A = sub ev1 ev0
    let s2 : A = sub ev2 ev0
    let s3 : A = sub ev3 ev0
    let d3 : A = sub s3 (mul (sub s2 s1) (f.from_u64 3))
    let p : A = mul d3 inv6
    half ← f.halve (sub s2 d3)
    let q : A = sub half s1
    let r0 : A = sub (sub s1 p) q
    ok (add (mul (add (mul (add (mul p x) q) x) r0) x) ev0)
