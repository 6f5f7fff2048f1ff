-- ===== src/Stacked/Size.antt =====
-- The sizes that `stacked_matrix` of crates/stark-backend/src/prover/stacked_pcs.rs computes.
use stark_backend.Prelude.{
  ℕ, zero, suc, ◌+◌, ◌-◌, ◌*◌, ◌^◌, ◌≤◌, ◌<◌, ◌≡◌, ap, ◌∙◌, max, List, [], ◌∷◌, ltb, ltb→lt,
  ltb-false, Bool-cases, inl, inr, pow_pos, arith,
}
use stark_backend.Prelude.Outcome.{ok}
use stark_backend.Prelude.Machine.{to_usize, shift_left, to_usize-ok, shift_left-ok}
use stark_backend.Stacked.Layout.{LayoutError}
use stark_backend.Stacked.Matrix.{ColMajorMatrix}
use stark_backend.Stacked.Stacking.{div_ceil, total_cells, sum_cells}
use native.Mathlib.Nat.{lt-mul-div-succ, le-mul_of_pos_right, pow-le-pow_right}

below_mul : (q b : ℕ) → 0 < q * b → 0 < q
below_mul zero b h = omega arith
below_mul (suc q) b h = omega arith

-- The exponent of a power below `2 ^ 64`.
exponent_below : (n : ℕ) → 2 ^ n < 2 ^ 64 → n < 64
exponent_below n h = elim (Bool-cases (ltb n 64)) [
  | inl low ↦ ltb→lt n 64 low
  | inr high ↦
      let le : 64 ≤ n = ltb-false n 64 high in
      let grows : 2 ^ 64 ≤ 2 ^ n = pow-le-pow_right {n = 2} (omega arith) le in omega arith
]

pub exponent :
    (l_skip n_stack : ℕ)
    → l_skip + n_stack < 64
    → to_usize {E = LayoutError} (l_skip + n_stack) ≡ ok (l_skip + n_stack)
exponent l_skip n_stack low = to_usize-ok (l_skip + n_stack) (omega arith)

pub height_ok :
    (l_skip n_stack : ℕ)
    → l_skip + n_stack < 64
    → shift_left {E = LayoutError} (l_skip + n_stack) ≡ ok (2 ^ (l_skip + n_stack))
height_ok l_skip n_stack low = shift_left-ok (l_skip + n_stack) low

module _ {F : Type 0} (l_skip n_stack : ℕ) where
  -- The sum of the cells, where it fits in a `usize`.
  pub sum_cells-ok :
      (acc : ℕ) (traces : List (ColMajorMatrix F))
      → l_skip < 64
      → acc + total_cells l_skip traces < 2 ^ 64
      → sum_cells l_skip acc traces ≡ ok (acc + total_cells l_skip traces)
  unfolding sum_cells
  sum_cells-ok acc [] low few = ap ok (omega arith)
  sum_cells-ok acc (t ∷ ts) low few =
      let area : ℕ = max t.height (2 ^ l_skip) * t.width in
      let least : shift_left {E = LayoutError} l_skip ≡ ok (2 ^ l_skip) =
        shift_left-ok l_skip low in
      let own : to_usize {E = LayoutError} area ≡ ok area = to_usize-ok area (omega arith) in
      let more : to_usize {E = LayoutError} (acc + area) ≡ ok (acc + area) =
        to_usize-ok (acc + area) (omega arith) in
      rw (least, own, more) (sum_cells-ok (acc + area) ts low (omega arith) ∙ ap ok (omega arith))

  -- A size in 64 bits leaves room for the height and for the cells.
  pub size-small :
      (traces : List (ColMajorMatrix F))
      → 0 < total_cells l_skip traces
      → div_ceil (total_cells l_skip traces) (2 ^ (l_skip + n_stack)) * 2 ^ (l_skip + n_stack)
        < 2 ^ 64
      → (l_skip + n_stack < 64) × (total_cells l_skip traces < 2 ^ 64)
  size-small traces some small =
      let c : ℕ = total_cells l_skip traces in
      let b : ℕ = 2 ^ (l_skip + n_stack) in
      let q : ℕ = div_ceil c b in
      let pos : 0 < b = pow_pos (l_skip + n_stack) in
      let above : c + (b - 1) < b * (q + 1) = lt-mul-div-succ (c + (b - 1)) pos in
      let room : c ≤ q * b = omega arith in
      let column : 0 < q → b ≤ q * b = λ some_col. omega (arith, le-mul_of_pos_right b some_col) in
      let one_col : 0 < q = below_mul q b (omega arith) in
      (exponent_below (l_skip + n_stack) (omega (arith, column one_col)), omega arith)

  pub total-ok :
      (traces : List (ColMajorMatrix F))
      → l_skip < 64
      → total_cells l_skip traces < 2 ^ 64
      → sum_cells l_skip 0 traces ≡ ok (total_cells l_skip traces)
  total-ok traces low few = sum_cells-ok 0 traces low (omega arith) ∙ ap ok (omega arith)
