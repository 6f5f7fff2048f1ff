-- ===== src/Tests/StackedTests.antt =====
-- Runs of the theorems on stacked matrices.
use stark_backend.Prelude.{
  ℕ, zero, suc, ◌^◌, ◌≤◌, ◌≡◌, refl, List, [], ◌∷◌, Bool-cases, inl, inr, if◌then◌else◌, ◌==◌,
  ==→eq, ==_refl, ne→==, pow_pos, below_pow, some, get_elem?, arith,
}
use stark_backend.Prelude.Outcome.{ok, err, ◌>>=◌}
use stark_backend.Stacked.Layout.{
  StackedLayout, StackedSlice, new_layout, get_slice, width_of, stacked_matrix_overflow,
}
use stark_backend.Stacked.Placement.{IsLayout, new_layout-IsLayout}
use stark_backend.Stacked.Lookup.{get_slice-width_of}
use stark_backend.Stacked.Matrix.{ColMajorMatrix, to_matrix}
use stark_backend.Stacked.Stacking.{stacked_matrix, mat_view}
use stark_backend.Stacked.Reading.{IsLog2}
use stark_backend.Stacked.StackedMatrix.{stacked_cells, stacked_matrix_lem, stacked_matrix-overflow}
use stark_backend.Stacked.TraceRoundTrip.{trace_round_trip}
use native.Mathlib.Nat.{pow-le-pow_right, two-pow-succ}

-- The greatest exponent up to the first argument that gives this power.
abbrev pub find_log2 : ℕ → ℕ → ℕ
find_log2 zero n = 0
find_log2 (suc k) n = let below = find_log2 k n in if n == 2 ^ suc k then suc k else below

abbrev pub search_log2 : ℕ → ℕ
search_log2 n = find_log2 n n

find_log2_lem : (m k : ℕ) → k ≤ m → find_log2 m (2 ^ k) ≡ k
find_log2_lem zero k h = omega arith
find_log2_lem (suc m) k h = elim (Bool-cases (k == suc m)) [
  | inl last ↦ let e : k ≡ suc m = ==→eq k (suc m) last in rw (e, ==_refl (2 ^ suc m)) refl
  | inr earlier ↦
      let le : k ≤ m = ground (arith, earlier) in
      let grows : 2 ^ k ≤ 2 ^ m = pow-le-pow_right {n = 2} (omega arith) le in
      rw (ne→== (2 ^ k) (2 ^ suc m) (omega (arith, pow_pos m, two-pow-succ m)))
        (find_log2_lem m k le)
]

pub search_log2-IsLog2 : IsLog2 search_log2
search_log2-IsLog2 k = find_log2_lem (2 ^ k) k (omega (arith, below_pow k))

abbrev first : ColMajorMatrix ℕ
first = record { values = 1 ∷ 2 ∷ 3 ∷ 4 ∷ []; width = 1; height = 4 }

abbrev second : ColMajorMatrix ℕ
second = record { values = 5 ∷ 6 ∷ []; width = 1; height = 2 }

abbrev third : ColMajorMatrix ℕ
third = record { values = 7 ∷ []; width = 1; height = 1 }

abbrev three : List (ColMajorMatrix ℕ)
three = first ∷ second ∷ third ∷ []

trace_round_trip_example :
    (m : ColMajorMatrix ℕ) × (layout : StackedLayout) × (stacked_matrix search_log2 0 1 2 three
      ≡ ok (m, layout))
    × ((mat_view layout 2 m >>= to_matrix 0) ≡ ok third)
trace_round_trip_example =
    trace_round_trip 0 search_log2 1 2 three 2 third search_log2-IsLog2
      ((2, refl, refl), ((1, refl, refl), ((0, refl, refl), tt)))
      (omega arith, (omega arith, (omega arith, tt))) (omega arith) refl (omega arith)

new_layout-IsLayout_example :
    (layout : StackedLayout) × (new_layout 1 3 ((1, 2) ∷ (1, 1) ∷ (1, 0) ∷ []) ≡ ok layout)
    × IsLayout 1 3 ((1, 2) ∷ (1, 1) ∷ (1, 0) ∷ []) layout
new_layout-IsLayout_example =
    new_layout-IsLayout 1 3 2 ((1, 2) ∷ (1, 1) ∷ (1, 0) ∷ []) (omega arith) (omega arith)
      (omega arith, (omega arith, (omega arith, tt))) (omega arith) (inl (omega arith))

stacked_matrix_lem_example :
    (layout : StackedLayout) × IsLayout 1 3 ((1, 2) ∷ (1, 1) ∷ (1, 0) ∷ []) layout
    × (stacked_matrix search_log2 0 1 2 three
        ≡ ok (
          record {
            values = stacked_cells 0 search_log2 1 2 layout.width three;
            width = layout.width;
            height = 8;
          },
          layout,
        ))
stacked_matrix_lem_example =
    stacked_matrix_lem 0 search_log2 1 2 three search_log2-IsLog2
      ((2, refl, refl), ((1, refl, refl), ((0, refl, refl), tt)))
      (omega arith, (omega arith, (omega arith, tt))) (omega arith) (omega arith)

-- Three columns of one cell, each lifted to 2^62 cells, in a matrix of height 2^63.
abbrev tall_columns : List (ColMajorMatrix ℕ)
tall_columns = record { values = 1 ∷ 2 ∷ 3 ∷ []; width = 3; height = 1 } ∷ []

stacked_matrix-overflow_example :
    stacked_matrix search_log2 0 62 1 tall_columns ≡ err stacked_matrix_overflow
stacked_matrix-overflow_example =
    stacked_matrix-overflow 0 search_log2 62 1 tall_columns search_log2-IsLog2 ((0, refl, refl), tt)
      (omega arith, tt) (omega arith) (omega arith) (omega arith)

abbrev placed_three :
    (layout : StackedLayout) × (new_layout 1 3 ((1, 2) ∷ (1, 1) ∷ (1, 0) ∷ []) ≡ ok layout)
    × IsLayout 1 3 ((1, 2) ∷ (1, 1) ∷ (1, 0) ∷ []) layout
placed_three =
    new_layout-IsLayout 1 3 2 ((1, 2) ∷ (1, 1) ∷ (1, 0) ∷ []) (omega arith) (omega arith)
      (omega arith, (omega arith, (omega arith, tt))) (omega arith) (inl (omega arith))

get_slice-width_of_example :
    (s : StackedSlice) × (get_slice placed_three.0 1 0 ≡ ok (some s))
    × (get_elem? placed_three.0.sorted_cols 1 ≡ some (1, 0, s))
    × (s.log_height ≡ 1)
    × (width_of placed_three.0 1 ≡ ok 1)
get_slice-width_of_example =
    get_slice-width_of 1 3 ((1, 2) ∷ (1, 1) ∷ (1, 0) ∷ []) placed_three.0 1 1 1 0 placed_three.2
      refl (omega arith)
