-- ===== src/Stacked/Lookup.antt =====
-- `get` and `width_of` of `StackedLayout`, crates/stark-backend/src/prover/stacked_pcs.rs.
use stark_backend.Prelude.{
  ℕ, zero, suc, ◌+◌, ◌-◌, ◌<◌, ◌≡◌, refl, ap, subst, ◌∙◌, List, [], ◌∷◌, ◌++◌, length, map, arith,
  some, get_elem?, zero_plus, get-append_left, get-append_right, get-map, le→leb, length-append,
  length-map,
}
use stark_backend.Prelude.Outcome.{ok, index}
use stark_backend.Stacked.Layout.{StackedSlice, StackedLayout, get_slice, width_of, or_else}
use stark_backend.Stacked.Fitting.{column_of}
use stark_backend.Stacked.Placing.{row, columns, starts, length-row}
use stark_backend.Stacked.Placement.{IsLayout}

-- The columns of the first `i` matrices.
abbrev pub before : ℕ → List (ℕ × ℕ) → ℕ
before i [] = 0
before zero (m ∷ ms) = 0
before (suc i) (m ∷ ms) = m.0 + before i ms

get-row :
    (mat_idx log_ht j count i : ℕ)
    → i < count
    → get_elem? (row mat_idx log_ht j count) i ≡ some (mat_idx, j + i, log_ht)
get-row mat_idx log_ht j zero i h = grind arith
get-row mat_idx log_ht j (suc count) zero h = let e : j + 0 ≡ j = omega arith in rw e refl
get-row mat_idx log_ht j (suc count) (suc i) h =
    let e : j + suc i ≡ (j + 1) + i = omega arith in
    rw e (get-row mat_idx log_ht (j + 1) count i (omega arith))

get-columns :
    (m i : ℕ) (sorted : List (ℕ × ℕ)) (width log_ht j : ℕ)
    → get_elem? sorted i ≡ some (width, log_ht)
    → j < width
    → get_elem? (columns m sorted) (before i sorted + j) ≡ some (m + i, j, log_ht)
get-columns m i [] width log_ht j h lt = cc
get-columns m zero (n ∷ ms) width log_ht j h lt =
    let e : n ≡ (width, log_ht) = cc in
    let f : m + 0 ≡ m = omega arith in
    rw (e, f, zero_plus j)
      (get-append_left (row m log_ht 0 width) _ j _ (
        subst (λ (t : ℕ). get_elem? (row m log_ht 0 width) j ≡ some (m, t, log_ht)) (zero_plus j)
          (get-row m log_ht 0 width j lt)))
get-columns m (suc i) (n ∷ ms) width log_ht j h lt =
    let e : n.0 + before i ms + j ≡ length (row m n.1 0 n.0) + (before i ms + j) =
      omega (arith, length-row m n.1 0 n.0) in
    let f : m + suc i ≡ (m + 1) + i = omega arith in
    rw (e, f)
      (get-append_right (row m n.1 0 n.0) (columns (m + 1) ms) (before i ms + j)
        ∙ get-columns (m + 1) i ms width log_ht j h lt)

index-starts :
    (n i : ℕ) (sorted : List (ℕ × ℕ)) (m : ℕ × ℕ)
    → get_elem? sorted i ≡ some m
    → index {E = ⊥} (starts n sorted) i ≡ ok (n + before i sorted)
index-starts n i [] m h = cc
index-starts n zero (x ∷ ms) m h = let e : n + 0 ≡ n = omega arith in rw e refl
index-starts n (suc i) (x ∷ ms) m h =
    let e : n + (x.0 + before i ms) ≡ n + x.0 + before i ms = omega arith in
    rw e (index-starts (n + x.0) i ms m h)

-- The start of the next matrix, or the end of the list.
next-starts :
    (n k i : ℕ) (sorted : List (ℕ × ℕ)) (m : ℕ × ℕ)
    → get_elem? sorted i ≡ some m
    → or_else (get_elem? (starts n sorted) (i + 1)) (n + length (columns k sorted))
      ≡ n + before i sorted + m.0
next-starts n k i [] m h = cc
next-starts n k zero (x ∷ []) m h =
    let e : x ≡ m = cc in
    rw e (omega (arith, length-append (row k m.1 0 m.0) [], length-row k m.1 0 m.0))
next-starts n k zero (x ∷ y ∷ ms) m h = let e : x ≡ m = cc in rw e (omega arith)
next-starts n k (suc i) (x ∷ ms) m h =
    let e : suc i + 1 ≡ suc (i + 1) = omega arith in
    let l : n + length (row k x.1 0 x.0 ++ columns (k + 1) ms)
        ≡ n + x.0 + length (columns (k + 1) ms) =
      omega (arith, length-append (row k x.1 0 x.0) (columns (k + 1) ms), length-row k x.1 0 x.0) in
    rw (e, l) (omega (arith, next-starts (n + x.0) (k + 1) i ms m h))

module _ (l_skip log_height : ℕ) (sorted : List (ℕ × ℕ)) (layout : StackedLayout) where
  -- `get` finds the slice that is listed for the column.
  get_slice_lem :
      (mat_idx width log_ht col_idx : ℕ)
      → IsLayout l_skip log_height sorted layout
      → get_elem? sorted mat_idx ≡ some (width, log_ht)
      → col_idx < width
      → (s : StackedSlice) × (get_slice layout mat_idx col_idx ≡ ok (some s))
        × (get_elem? layout.sorted_cols (before mat_idx sorted + col_idx)
            ≡ some (mat_idx, col_idx, s))
        × (s.log_height ≡ log_ht)
  unfolding get_slice
  get_slice_lem mat_idx width log_ht col_idx v h lt =
      let found : get_elem? (map column_of layout.sorted_cols) (before mat_idx sorted + col_idx)
          ≡ some (mat_idx, col_idx, log_ht) =
        rw v.all-columns (
          subst
            (λ (t : ℕ).
              get_elem? (columns 0 sorted) (before mat_idx sorted + col_idx)
              ≡ some (t, col_idx, log_ht))
            (zero_plus mat_idx) (get-columns 0 mat_idx sorted width log_ht col_idx h lt)) in
      let (c, at, same) =
        get-map column_of layout.sorted_cols (before mat_idx sorted + col_idx)
          (mat_idx, col_idx, log_ht) found in
      let named : c ≡ (mat_idx, col_idx, c.2) = cc in
      (
        c.2,
        rw
            (
              v.all-starts,
              index-starts 0 mat_idx sorted (width, log_ht) h,
              zero_plus (before mat_idx sorted),
              at,
            )
            refl,
        at ∙ ap some named,
        cc,
      )

  -- `width_of` does not underflow.
  width_of_lem :
      (mat_idx width log_ht : ℕ)
      → IsLayout l_skip log_height sorted layout
      → get_elem? sorted mat_idx ≡ some (width, log_ht)
      → width_of layout mat_idx ≡ ok width
  unfolding width_of
  width_of_lem mat_idx width log_ht v h =
      let n : length layout.sorted_cols ≡ 0 + length (columns 0 sorted) =
        omega (arith, length-map column_of layout.sorted_cols, ap length v.all-columns) in
      let b : ℕ = before mat_idx sorted in
      let diff : (b + width) - b ≡ width = omega arith in
      let at : 0 + b + width ≡ b + width = omega arith in
      rw
        (
          v.all-starts,
          index-starts 0 mat_idx sorted (width, log_ht) h,
          n,
          next-starts 0 0 mat_idx sorted (width, log_ht) h,
          zero_plus b,
          le→leb b (b + width) (omega arith),
          diff,
        )
        refl

  -- In the layout of these matrices, `get` with the indices of a matrix and of one of its columns
  -- returns the slice listed for that very column, of the matrix's height, and `width_of` returns the
  -- matrix's width, without an underflow.
  pub get_slice-width_of :
      (mat_idx width log_ht col_idx : ℕ)
      → IsLayout l_skip log_height sorted layout
      → get_elem? sorted mat_idx ≡ some (width, log_ht)
      → col_idx < width
      → (s : StackedSlice) × (get_slice layout mat_idx col_idx ≡ ok (some s))
        × (get_elem? layout.sorted_cols (before mat_idx sorted + col_idx)
            ≡ some (mat_idx, col_idx, s))
        × (s.log_height ≡ log_ht)
        × (width_of layout mat_idx ≡ ok width)
  get_slice-width_of mat_idx width log_ht col_idx v h lt =
      let (s, found, listed, same) = get_slice_lem mat_idx width log_ht col_idx v h lt in
      (s, found, listed, same, width_of_lem mat_idx width log_ht v h)
