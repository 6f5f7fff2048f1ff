-- ===== src/Stacked/StackedMatrix.antt =====
-- What `stacked_matrix` of crates/stark-backend/src/prover/stacked_pcs.rs returns.
use stark_backend.Prelude.{
  ℕ, zero, suc, ◌+◌, ◌-◌, ◌*◌, ◌^◌, ◌≤◌, ◌<◌, ◌≡◌, refl, sym, Bool, true, false, ◌||◌, List, [],
  ◌++◌, length, map, replicate, length-append, length-replicate, lt→ltb, le→ltb_false, ◌==◌,
  ==_refl, Bool-cases, inl, inr, ==→eq, pow_pos, below_pow, arith, All,
}
use stark_backend.Prelude.Outcome.{ok, err}
use stark_backend.Stacked.Layout.{StackedLayout, new_layout, stacked_matrix_overflow}
use stark_backend.Stacked.Fitting.{column_of}
use stark_backend.Stacked.Placing.{Descending, cells}
use stark_backend.Stacked.Placement.{IsLayout, new_layout-IsLayout}
use stark_backend.Stacked.Matrix.{ColMajorMatrix, new_matrix, is_power_of_two, power_among}
use stark_backend.Stacked.Stacking.{div_ceil, write_cols, total_cells, sorted_meta, stacked_matrix}
use stark_backend.Stacked.Size.{exponent, height_ok, size-small, total-ok}
use stark_backend.Stacked.Filling.{size, Reads, write_cols-zeros, Contiguous-size}
use stark_backend.Stacked.Reading.{
  IsTrace, IsLog2, stacked_values, length-stacked_values, columns-Reads, total_cells-eq,
}
use native.Mathlib.Nat.{mul-div_cancel_left, mul-mod_right, div-eq_of_lt-le}

or_true : (b : Bool) → (b || true) ≡ true
or_true true = refl
or_true false = refl

power_among_lem : (m k : ℕ) → k ≤ m → power_among m (2 ^ k) ≡ true
power_among_lem zero k h = let e : k ≡ 0 = omega arith in rw e refl
power_among_lem (suc m) k h = elim (Bool-cases (k == suc m)) [
  | inl last ↦ let e : k ≡ suc m = ==→eq k (suc m) last in rw (e, ==_refl (2 ^ suc m)) refl
  | inr earlier ↦ rw (power_among_lem m k (ground (arith, earlier))) (or_true (2 ^ k == 2 ^ suc m))
]

pub is_power_of_two-pow : (k : ℕ) → is_power_of_two (2 ^ k) ≡ true
is_power_of_two-pow k = power_among_lem (2 ^ k) k (omega (arith, below_pow k))

-- A matrix of a positive width and of a height that is a power of two.
pub new_matrix_lem :
    {F : Type 0} (values : List F) (width k : ℕ)
    → 0 < width
    → length values ≡ width * 2 ^ k
    → new_matrix values width ≡ ok (record { values = values; width = width; height = 2 ^ k })
unfolding new_matrix
new_matrix_lem values zero k h e = grind arith
new_matrix_lem values (suc w) k h e =
    rw (e, mul-mod_right (suc w) (2 ^ k), mul-div_cancel_left (2 ^ k) h, is_power_of_two-pow k) refl

-- The width that the layout computes is the one that `stacked_matrix` computes.
div_ceil_lem : (c w b : ℕ) → 0 < b → c ≤ w * b → w * b < c + b → div_ceil c b ≡ w
div_ceil_lem c w b h le lt = div-eq_of_lt-le b (omega arith) (grind arith)

module _ {F : Type 0} (zero_f : F) (log2_strict : ℕ → ℕ) (l_skip n_stack : ℕ) where
  -- The traces one after the other from the first cell on, each value followed by the zeros of
  -- its stride, and zeros up to the end of the last column.
  abbrev pub stacked_cells : ℕ → List (ColMajorMatrix F) → List F
  stacked_cells width traces =
      stacked_values zero_f l_skip log2_strict traces
      ++ replicate (width * 2 ^ (l_skip + n_stack) - total_cells l_skip traces) zero_f

  -- The writes of the loop, on the layout of the traces.
  write_cols_lem :
      (traces : List (ColMajorMatrix F)) (layout : StackedLayout)
      → IsLog2 log2_strict
      → All IsTrace traces
      → l_skip < 64
      → IsLayout l_skip (l_skip + n_stack) (sorted_meta log2_strict traces) layout
      → write_cols l_skip
          (2 ^ (l_skip + n_stack))
          traces
          layout.sorted_cols
          (replicate (layout.width * 2 ^ (l_skip + n_stack)) zero_f)
        ≡ ok (stacked_cells layout.width traces)
  write_cols_lem traces layout law h narrow v =
      let cols = layout.sorted_cols in
      let reads : Reads zero_f l_skip traces (map column_of cols)
          (stacked_values zero_f l_skip log2_strict traces) =
        rw v.all-columns (columns-Reads zero_f l_skip log2_strict [] traces law h) in
      let total : total_cells l_skip traces ≡ size l_skip cols = omega (
        arith,
        total_cells-eq zero_f l_skip log2_strict (l_skip + n_stack) traces law h,
        Contiguous-size l_skip (l_skip + n_stack) 0 _ cols v.no-gap,
      ) in
      rw total (
        write_cols-zeros zero_f l_skip traces (l_skip + n_stack) narrow cols
          (stacked_values zero_f l_skip log2_strict traces) []
          (layout.width * 2 ^ (l_skip + n_stack))
          (cells l_skip (l_skip + n_stack) (sorted_meta log2_strict traces)) v.no-gap reads
          (omega (arith, v.enough, Contiguous-size l_skip (l_skip + n_stack) 0 _ cols v.no-gap)))

  -- The layout of the traces, and its width as `stacked_matrix` computes it.
  stacked_layout :
      (traces : List (ColMajorMatrix F))
      → IsLog2 log2_strict
      → All IsTrace traces
      → Descending (l_skip + n_stack) (sorted_meta log2_strict traces)
      → l_skip + n_stack < 64
      → total_cells l_skip traces < 2 ^ 64
      → (layout : StackedLayout) × (new_layout l_skip
            (l_skip + n_stack)
            (sorted_meta log2_strict traces)
          ≡ ok layout)
        × IsLayout l_skip (l_skip + n_stack) (sorted_meta log2_strict traces) layout
        × (div_ceil (total_cells l_skip traces) (2 ^ (l_skip + n_stack)) ≡ layout.width)
  stacked_layout traces law h d low few =
      let total = total_cells-eq zero_f l_skip log2_strict (l_skip + n_stack) traces law h in
      let (layout, ran, v) =
        new_layout-IsLayout l_skip (l_skip + n_stack) (l_skip + n_stack)
          (sorted_meta log2_strict traces) (omega arith) (omega arith) d low
          (inr (omega (arith, total))) in
      (
        layout,
        ran,
        v,
        div_ceil_lem (total_cells l_skip traces) layout.width (2 ^ (l_skip + n_stack))
            (pow_pos (l_skip + n_stack)) (omega (arith, v.enough)) (omega (arith, v.least)),
      )

  -- For traces whose heights descend and fit, with a cell at least and a total size in 64 bits,
  -- `stacked_matrix` returns the layout of their widths and heights, and a matrix of the layout's
  -- width that holds every trace from the first cell on, each value followed by the zeros of its stride,
  -- and zeros behind.
  pub stacked_matrix_lem :
      (traces : List (ColMajorMatrix F))
      → IsLog2 log2_strict
      → All IsTrace traces
      → Descending (l_skip + n_stack) (sorted_meta log2_strict traces)
      → 0 < total_cells l_skip traces
      → div_ceil (total_cells l_skip traces) (2 ^ (l_skip + n_stack)) * 2 ^ (l_skip + n_stack)
        < 2 ^ 64
      → (layout : StackedLayout) × IsLayout l_skip
          (l_skip + n_stack)
          (sorted_meta log2_strict traces)
          layout
        × (stacked_matrix log2_strict zero_f l_skip n_stack traces
            ≡ ok (
              record {
                values = stacked_cells layout.width traces;
                width = layout.width;
                height = 2 ^ (l_skip + n_stack);
              },
              layout,
            ))
  unfolding stacked_matrix
  stacked_matrix_lem traces law h d some_cell small =
      let (low, few) = size-small l_skip n_stack traces some_cell small in
      let (layout, ran, v, w) = stacked_layout traces law h d low few in
      let total = total_cells-eq zero_f l_skip log2_strict (l_skip + n_stack) traces law h in
      let size_ok : layout.width * 2 ^ (l_skip + n_stack) < 2 ^ 64 = rw (sym w) small in
      let positive : 0 < layout.width = grind (arith, v.enough) in
      let whole : length (stacked_cells layout.width traces)
          ≡ layout.width * 2 ^ (l_skip + n_stack) =
        omega (
          arith,
          v.enough,
          length-append (stacked_values zero_f l_skip log2_strict traces) (
              replicate (layout.width * 2 ^ (l_skip + n_stack) - total_cells l_skip traces) zero_f),
          length-replicate (layout.width * 2 ^ (l_skip + n_stack) - total_cells l_skip traces)
              zero_f,
          length-stacked_values zero_f l_skip log2_strict traces law h,
        ) in
      (
        layout,
        v,
        rw
            (
              exponent l_skip n_stack low,
              ran,
              total-ok l_skip n_stack traces (omega arith) few,
              height_ok l_skip n_stack low,
              w,
              lt→ltb (layout.width * 2 ^ (l_skip + n_stack)) (2 ^ 64) size_ok,
              write_cols_lem traces layout law h (omega arith) v,
              new_matrix_lem (stacked_cells layout.width traces) layout.width (l_skip + n_stack)
                  positive whole,
            )
            refl,
      )

  -- For traces whose heights are powers of two, descend and fit, whose cells and whose stacked height
  -- fit in 64 bits, but not the size of the stacked matrix, `stacked_matrix` fails with
  -- `StackedMatrixOverflow`.
  pub stacked_matrix-overflow :
      (traces : List (ColMajorMatrix F))
      → IsLog2 log2_strict
      → All IsTrace traces
      → Descending (l_skip + n_stack) (sorted_meta log2_strict traces)
      → l_skip + n_stack < 64
      → total_cells l_skip traces < 2 ^ 64
      → 2 ^ 64
        ≤ div_ceil (total_cells l_skip traces) (2 ^ (l_skip + n_stack)) * 2 ^ (l_skip + n_stack)
      → stacked_matrix log2_strict zero_f l_skip n_stack traces ≡ err stacked_matrix_overflow
  unfolding stacked_matrix
  stacked_matrix-overflow traces law h d low few large =
      let (layout, ran, v, w) = stacked_layout traces law h d low few in
      rw
        (
          exponent l_skip n_stack low,
          ran,
          total-ok l_skip n_stack traces (omega arith) few,
          height_ok l_skip n_stack low,
          le→ltb_false
              (div_ceil (total_cells l_skip traces) (2 ^ (l_skip + n_stack))
                * 2 ^ (l_skip + n_stack))
              (2 ^ 64) large,
        )
        refl
