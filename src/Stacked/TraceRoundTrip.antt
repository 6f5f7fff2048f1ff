-- ===== src/Stacked/TraceRoundTrip.antt =====
-- Traces read back from the stacked matrix: `mat_view` of
-- crates/stark-backend/src/prover/stacked_pcs.rs and `to_matrix` of
-- crates/stark-backend/src/prover/matrix.rs after `stacked_matrix`.
use stark_backend.Prelude.{
  ℕ, zero, suc, ◌+◌, ◌-◌, ◌*◌, ◌/◌, ◌%◌, ◌^◌, ◌≤◌, ◌<◌, ◌≡◌, refl, sym, ap, subst, ◌∙◌, List, [],
  ◌∷◌, ◌++◌, append_assoc, length, length-append, length-replicate, get_or, replicate, pow_pos,
  arith, All, max,
}
use stark_backend.Prelude.Outcome.{ok, ◌>>=◌, index}
use stark_backend.Stacked.Layout.{StackedLayout}
use stark_backend.Stacked.Fitting.{lifted}
use stark_backend.Stacked.Placing.{Descending}
use stark_backend.Stacked.Placement.{IsLayout}
use stark_backend.Stacked.Matrix.{
  ColMajorMatrix, StridedView, get_unchecked, view_values, to_matrix,
}
use stark_backend.Stacked.Stacking.{div_ceil, total_cells, sorted_meta, stacked_matrix, mat_view}
use stark_backend.Stacked.Spread.{spread}
use stark_backend.Stacked.Filling.{step_of}
use stark_backend.Stacked.Reading.{IsTrace, IsLog2, stacked_values}
use stark_backend.Stacked.Size.{size-small}
use stark_backend.Stacked.StackedMatrix.{new_matrix_lem, stacked_cells, stacked_matrix_lem}
use stark_backend.Stacked.View.{mat_view_lem}
use native.Mathlib.Nat.{mod-add-div, mul-pos}

module _ {F : Type 0} (zero_f : F) where
  get_or-append :
      (xs ys : List F) (n : ℕ) → get_or (xs ++ ys) (length xs + n) zero_f ≡ get_or ys n zero_f
  get_or-append [] ys n = let e : 0 + n ≡ n = omega arith in rw e refl
  get_or-append (x ∷ xs) ys n =
      let e : suc (length xs) + n ≡ suc (length xs + n) = omega arith in
      rw e (get_or-append xs ys n)

  get_or-middle : (xs : List F) (y : F) (ys : List F) → get_or (xs ++ y ∷ ys) (length xs) zero_f ≡ y
  get_or-middle [] y ys = refl
  get_or-middle (x ∷ xs) y ys = get_or-middle xs y ys

  -- The values stand a stride apart.
  get_or-spread :
      (step : ℕ) (xs : List F) (i : ℕ)
      → 0 < step
      → get_or (spread zero_f step xs) (i * step) zero_f ≡ get_or xs i zero_f
  get_or-spread step [] i h = refl
  get_or-spread step (x ∷ xs) zero h = let e : 0 * step ≡ 0 = omega arith in rw e refl
  get_or-spread step (x ∷ xs) (suc i) h =
      let gap : List F = replicate (step - 1) zero_f in
      let e : suc i * step ≡ suc (length gap + i * step) =
        omega (arith, length-replicate (step - 1) zero_f) in
      rw e (get_or-append gap (spread zero_f step xs) (i * step) ∙ get_or-spread step xs i h)

  module _ (v : StridedView F) (vals : List F) where
    -- The read of `to_matrix` with index `i` is of the value with this index.
    get_unchecked-spread :
        (i : ℕ)
        → 0 < v.stride
        → v.values ≡ spread zero_f v.stride vals
        → get_unchecked zero_f v (i % v.height) (i / v.height) ≡ get_or vals i zero_f
    unfolding get_unchecked
    get_unchecked-spread i h e =
        let at : i / v.height * (v.height * v.stride) + i % v.height * v.stride ≡ i * v.stride =
          omega (arith, ap (λ (x : ℕ). x * v.stride) (mod-add-div i v.height)) in
        rw (e, at) (get_or-spread v.stride vals i h)

    view_values-spread :
        (done rest : List F)
        → 0 < v.stride
        → v.values ≡ spread zero_f v.stride vals
        → done ++ rest ≡ vals
        → view_values zero_f v (length done) (length rest) ≡ rest
    unfolding view_values
    view_values-spread done [] h e f = refl
    view_values-spread done (x ∷ rest) h e f =
        let at : length (done ++ x ∷ []) ≡ length done + 1 = length-append done (x ∷ []) in
        rw (get_unchecked-spread (length done) h e, sym f, get_or-middle done x rest, sym at)
          (ap (λ (l : List F). x ∷ l)
            (view_values-spread (done ++ x ∷ []) rest h e (append_assoc done (x ∷ []) rest ∙ f)))

  -- A trace spread out by a stride is read back by `to_matrix`.
  to_matrix-spread :
      (t : ColMajorMatrix F) (step : ℕ)
      → 0 < step
      → 0 < t.width
      → IsTrace t
      → to_matrix zero_f (record {
        values = spread zero_f step t.values;
        width = t.width;
        height = t.height;
        stride = step;
      })
        ≡ ok t
  unfolding to_matrix
  to_matrix-spread t step h wide (k, e, n) =
      let v : StridedView F = record {
        values = spread zero_f step t.values;
        width = t.width;
        height = t.height;
        stride = step;
      } in
      let reads : view_values zero_f v 0 (t.width * t.height) ≡ t.values =
        rw (sym n) (view_values-spread v t.values [] t.values h refl refl) in
      rw (reads, new_matrix_lem t.values t.width k wide (rw (sym e) n), sym e) refl

  split_at :
      (ts : List (ColMajorMatrix F)) (i : ℕ) (t : ColMajorMatrix F)
      → index {E = ⊥} ts i ≡ ok t
      → (before : List (ColMajorMatrix F)) × (after : List (ColMajorMatrix F)) × (ts
          ≡ before ++ t ∷ after)
        × (length before ≡ i)
  split_at [] i t h = cc
  split_at (x ∷ ts) zero t h = let e : x ≡ t = cc in ([], ts, ap (λ y. y ∷ ts) e, refl)
  split_at (x ∷ ts) (suc i) t h =
      let (before, after, e, n) = split_at ts i t h in
      (x ∷ before, after, ap (λ l. x ∷ l) e, ap suc n)

  All-parts :
      (xs ys : List (ColMajorMatrix F)) (y : ColMajorMatrix F)
      → All IsTrace (xs ++ y ∷ ys)
      → All IsTrace xs × IsTrace y
  All-parts [] ys y h = (tt, h.0)
  All-parts (x ∷ xs) ys y h = let (g, k) = All-parts xs ys y h.1 in ((h.0, g), k)

  module _ (log2_strict : ℕ → ℕ) (l_skip : ℕ) where
    stacked_values-append :
        (xs ys : List (ColMajorMatrix F))
        → stacked_values zero_f l_skip log2_strict (xs ++ ys)
          ≡ stacked_values zero_f l_skip log2_strict xs
            ++ stacked_values zero_f l_skip log2_strict ys
    stacked_values-append [] ys = refl
    stacked_values-append (x ∷ xs) ys =
        let own : List F = spread zero_f (step_of l_skip (log2_strict x.height)) x.values in
        ap (λ (l : List F). own ++ l) (stacked_values-append xs ys)
        ∙ sym (
            append_assoc own (stacked_values zero_f l_skip log2_strict xs)
              (stacked_values zero_f l_skip log2_strict ys))

    some_cell :
        (ts : List (ColMajorMatrix F)) (i : ℕ) (t : ColMajorMatrix F)
        → index {E = ⊥} ts i ≡ ok t
        → 0 < t.width
        → 0 < total_cells l_skip ts
    some_cell [] i t h wide = cc
    some_cell (x ∷ ts) zero t h wide =
        let same : t.width ≡ x.width = cc in
        let tall : 0 < max x.height (2 ^ l_skip) = omega (arith, pow_pos l_skip) in
        let cell : 0 < max x.height (2 ^ l_skip) * x.width = mul-pos tall (omega arith) in
        omega arith
    some_cell (x ∷ ts) (suc i) t h wide = omega (arith, some_cell ts i t h wide)

    -- No trace is higher than the bound.
    height_below :
        (bound : ℕ) (ts : List (ColMajorMatrix F)) (i : ℕ) (t : ColMajorMatrix F)
        → Descending bound (sorted_meta log2_strict ts)
        → index {E = ⊥} ts i ≡ ok t
        → log2_strict t.height ≤ bound
    height_below bound [] i t d h = cc
    height_below bound (x ∷ ts) zero t d h =
        let same : x ≡ t = cc in
        let own : log2_strict x.height ≤ bound = d.0 in
        subst (λ y. log2_strict y.height ≤ bound) same own
    height_below bound (x ∷ ts) (suc i) t d h =
        let rest : log2_strict t.height ≤ log2_strict x.height =
          height_below (log2_strict x.height) ts i t d.1 h in
        omega (arith, d.0)

    -- For traces whose heights descend and fit, and a total size in 64 bits, the matrix and the
    -- layout that `stacked_matrix` returns give every trace that has a column back unchanged, through
    -- `mat_view` and `to_matrix`.
    pub trace_round_trip :
        (n_stack : ℕ) (traces : List (ColMajorMatrix F)) (i : ℕ) (t : ColMajorMatrix F)
        → IsLog2 log2_strict
        → All IsTrace traces
        → Descending (l_skip + n_stack) (sorted_meta log2_strict traces)
        → div_ceil (total_cells l_skip traces) (2 ^ (l_skip + n_stack)) * 2 ^ (l_skip + n_stack)
          < 2 ^ 64
        → index {E = ⊥} traces i ≡ ok t
        → 0 < t.width
        → (m : ColMajorMatrix F) × (layout : StackedLayout) × (stacked_matrix log2_strict zero_f
              l_skip n_stack traces
            ≡ ok (m, layout))
          × ((mat_view layout i m >>= to_matrix zero_f) ≡ ok t)
    trace_round_trip n_stack traces i t law h d small at wide =
        let (layout, v, ran) =
          stacked_matrix_lem zero_f log2_strict l_skip n_stack traces law h d
            (some_cell traces i t at wide) small in
        let (before, after, e, n) = split_at traces i t at in
        let (h_before, h_t) = All-parts before after t (subst (All IsTrace) e h) in
        let own : List F = spread zero_f (step_of l_skip (log2_strict t.height)) t.values in
        let end : List F =
          replicate (layout.width * 2 ^ (l_skip + n_stack) - total_cells l_skip traces) zero_f in
        let others : List F = stacked_values zero_f l_skip log2_strict after ++ end in
        let filled : stacked_cells zero_f log2_strict l_skip n_stack layout.width traces
            ≡ stacked_values zero_f l_skip log2_strict before ++ (own ++ others) =
          ap (λ (l : List F). l ++ end)
            (ap (stacked_values zero_f l_skip log2_strict) e
              ∙ stacked_values-append before (t ∷ after))
          ∙ append_assoc (stacked_values zero_f l_skip log2_strict before)
              (own ++ stacked_values zero_f l_skip log2_strict after) end
          ∙ ap (λ (l : List F). stacked_values zero_f l_skip log2_strict before ++ l)
              (append_assoc own (stacked_values zero_f l_skip log2_strict after) end) in
        let m : ColMajorMatrix F = record {
          values = stacked_cells zero_f log2_strict l_skip n_stack layout.width traces;
          width = layout.width;
          height = 2 ^ (l_skip + n_stack);
        } in
        let low = size-small l_skip n_stack traces (some_cell traces i t at wide) small in
        let lifts : lifted (log2_strict t.height) l_skip < 64 =
          omega (arith, low.0, height_below (l_skip + n_stack) traces i t d at) in
        let view =
          mat_view_lem zero_f log2_strict l_skip (l_skip + n_stack) before after t layout m others
            law h_before h_t
            (subst (λ ts. IsLayout l_skip (l_skip + n_stack) (sorted_meta log2_strict ts) layout) e
              v)
            wide refl lifts filled in
        (
          m,
          layout,
          ran,
          rw (sym n, view)
              (to_matrix-spread t (step_of l_skip (log2_strict t.height))
                (pow_pos (l_skip - log2_strict t.height)) wide h_t),
        )
