-- ===== src/Stacked/Stacking.antt =====
-- `stacked_matrix` and `StackedLayout::mat_view`, crates/stark-backend/src/prover/stacked_pcs.rs.
-- An index or a range in a list that would overflow is out of range. `log2_strict` stands for the function of the `p3-util` crate.
use stark_backend.Prelude.{
  ℕ, ◌+◌, ◌-◌, ◌*◌, ◌/◌, ◌^◌, List, [], ◌∷◌, ◌++◌, length, take, drop, replicate, sub_slice,
  write_at, if◌then◌else◌, ltb, leb, ◌==◌, max,
}
use stark_backend.Prelude.Outcome.{no_error, Outcome, ok, err, panic, ◌>>=◌, index}
use stark_backend.Prelude.Machine.{to_usize, shift_left}
use stark_backend.Stacked.Layout.{
  len, stride, SortedCol, StackedLayout, LayoutError, new_layout, stacked_matrix_overflow,
}
use stark_backend.Stacked.Matrix.{
  ColMajorMatrix, new_matrix, column, col_maj_idx, StridedView, new_view,
}

abbrev pub div_ceil : ℕ → ℕ → ℕ
div_ceil a b = (a + (b - 1)) / b

-- The columns of one matrix, in order.
abbrev pub slices_of : ℕ → List SortedCol → List SortedCol
slices_of mat_idx [] = []
slices_of mat_idx (c ∷ cols) =
    let rest = slices_of mat_idx cols in if c.0 == mat_idx then c ∷ rest else rest

module _ {F : Type 0} where
  -- `q[start..start + vals.len()].copy_from_slice(vals)`
  unfoldable pub copy_at : ℕ → List F → List F → Outcome ⊥ (List F)
  copy_at start vals q =
      if leb (start + length vals) (length q)
      then ok (take start q ++ (vals ++ drop (start + length vals) q))
      else panic

  -- `for (i, val)`: `q[start + i * stride] = val`
  unfoldable pub write_strided : ℕ → ℕ → ℕ → List F → List F → Outcome ⊥ (List F)
  write_strided start step i [] q = ok q
  write_strided start step i (v ∷ vals) q = do
    q' ← write_at q (start + i * step) v
    write_strided start step (i + 1) vals q'

  unfoldable pub write_col :
      ℕ → ℕ → List (ColMajorMatrix F) → SortedCol → List F → Outcome ⊥ (List F)
  write_col l_skip height traces (mat_idx, j, s) q = do
    trace ← index traces mat_idx
    t_col ← column trace j
    if leb l_skip s.log_height then copy_at (s.col_idx * height + s.row_idx) t_col q else (do
      step ← stride s l_skip
      write_strided (s.col_idx * height + s.row_idx) step 0 t_col q)

  unfoldable pub write_cols :
      ℕ → ℕ → List (ColMajorMatrix F) → List SortedCol → List F → Outcome ⊥ (List F)
  write_cols l_skip height traces [] q = ok q
  write_cols l_skip height traces (c ∷ cols) q = do
    q' ← write_col l_skip height traces c q
    write_cols l_skip height traces cols q'

  abbrev pub total_cells : ℕ → List (ColMajorMatrix F) → ℕ
  total_cells l_skip [] = 0
  total_cells l_skip (t ∷ ts) = max t.height (2 ^ l_skip) * t.width + total_cells l_skip ts

  -- The code's sum of these cells, on top of `acc`.
  unfoldable pub sum_cells : ℕ → ℕ → List (ColMajorMatrix F) → Outcome LayoutError ℕ
  sum_cells l_skip acc [] = ok acc
  sum_cells l_skip acc (t ∷ ts) = do
    least ← shift_left l_skip
    area ← to_usize (max t.height least * t.width)
    more ← to_usize (acc + area)
    sum_cells l_skip more ts

  module _ (log2_strict : ℕ → ℕ) where
    abbrev pub sorted_meta : List (ColMajorMatrix F) → List (ℕ × ℕ)
    sorted_meta [] = []
    sorted_meta (t ∷ ts) = (t.width, log2_strict t.height) ∷ sorted_meta ts

    unfoldable pub stacked_matrix :
        F → ℕ → ℕ → List (ColMajorMatrix F) → Outcome LayoutError (ColMajorMatrix F × StackedLayout)
    stacked_matrix zero_f l_skip n_stack traces = do
      log_stacked_height ← to_usize (l_skip + n_stack)
      layout ← new_layout l_skip log_stacked_height (sorted_meta traces)
      cells ← sum_cells l_skip 0 traces
      height ← shift_left log_stacked_height
      let width : ℕ = div_ceil cells height
      size ←
          (if ltb (width * height) (2 ^ 64)
            then ok (width * height)
            else err stacked_matrix_overflow)
      q_mat ← no_error (write_cols l_skip height traces layout.sorted_cols (replicate size zero_f))
      q_trace ← no_error (new_matrix q_mat width)
      ok (q_trace, layout)

  unfoldable pub mat_view : StackedLayout → ℕ → ColMajorMatrix F → Outcome ⊥ (StridedView F)
  mat_view layout mat_idx m = do
    let col_slices : List SortedCol = slices_of mat_idx layout.sorted_cols
    first ← index col_slices 0
    lifted_height ← len first.2 layout.l_skip
    step ← stride first.2 layout.l_skip
    values ←
        sub_slice m.values (col_maj_idx first.2.row_idx first.2.col_idx m.height)
          (lifted_height * length col_slices)
    new_view values (length col_slices) step
