-- ===== src/Stacked/View.antt =====
-- `StackedLayout::mat_view` of crates/stark-backend/src/prover/stacked_pcs.rs, on what
-- `stacked_matrix` returns.
use stark_backend.Prelude.{
  ℕ, zero, suc, ◌+◌, ◌-◌, ◌*◌, ◌%◌, ◌^◌, ◌≤◌, ◌<◌, ◌≡◌, ◌≢◌, ◌⊎◌, refl, sym, ap, subst, ◌∙◌, List,
  [], ◌∷◌, ◌++◌, append_assoc, append-nil, length, map, length-map, sub_slice, sub_slice-middle,
  ◌==◌, eq→==, ne→==, Bool-cases, inl, inr, pow_pos, arith, All, All-append, zero_plus,
}
use stark_backend.Prelude.Outcome.{ok}
use stark_backend.Prelude.Machine.{shift_left, shift_left-ok}
use stark_backend.Stacked.Layout.{slice_len, lifted_len, span, stride, SortedCol, StackedLayout}
use stark_backend.Stacked.Fitting.{
  Column, column_of, position, Contiguous, lifted, lifted_len-pow, slice_len-ok,
}
use stark_backend.Stacked.Placing.{row, length-row, columns}
use stark_backend.Stacked.Matrix.{ColMajorMatrix, new_view, checked_rem}
use stark_backend.Stacked.Stacking.{slices_of, sorted_meta, mat_view}
use stark_backend.Stacked.Spread.{spread, length-spread}
use stark_backend.Stacked.Filling.{step_of, lifted_len-steps, size, Reads, length-Reads}
use stark_backend.Stacked.Reading.{IsTrace, IsLog2, stacked_values, columns-Reads, height-log2}
use stark_backend.Stacked.Placement.{IsLayout}
use native.Mathlib.Nat.{mul-div_cancel_left, mul-mod_right}

-- A list that a map takes to an append is an append.
map-split {ℓ κ} :
    {A : Type ℓ} {B : Type κ} (f : A → B) (xs : List A) (ys zs : List B)
    → map f xs ≡ ys ++ zs
    → (us : List A) × (vs : List A) × (xs ≡ us ++ vs) × (map f us ≡ ys) × (map f vs ≡ zs)
map-split f xs [] zs h = ([], xs, refl, refl, h)
map-split f [] (y ∷ ys) zs h = cc
map-split f (x ∷ xs) (y ∷ ys) zs h =
    let (cs, ds, e, g, k) = map-split f xs ys zs cc in (x ∷ cs, ds, ap (λ l. x ∷ l) e, cc, k)

All-row : (m k j n : ℕ) (P : Column → Type 0) → ((j : ℕ) → P (m, j, k)) → All P (row m k j n)
All-row m k j zero P p = tt
All-row m k j (suc n) P p = (p j, All-row m k (j + 1) n P p)

module _ (i : ℕ) where
  slices_of-append :
      (xs ys : List SortedCol) → slices_of i (xs ++ ys) ≡ slices_of i xs ++ slices_of i ys
  slices_of-append [] ys = refl
  slices_of-append (c ∷ xs) ys = elim (Bool-cases (c.0 == i)) [
    | inl own ↦ rw (own, slices_of-append xs ys) refl
    | inr other ↦ rw (other, slices_of-append xs ys) refl
  ]

  slices_of-All :
      (xs : List SortedCol) → All (λ c. c.0 ≡ i) (map column_of xs) → slices_of i xs ≡ xs
  slices_of-All [] h = refl
  slices_of-All (c ∷ xs) h = rw (eq→== c.0 i h.0) (ap (λ l. c ∷ l) (slices_of-All xs h.1))

  slices_of-All_none :
      (xs : List SortedCol) → All (λ c. c.0 ≢ i) (map column_of xs) → slices_of i xs ≡ []
  slices_of-All_none [] h = refl
  slices_of-All_none (c ∷ xs) h = rw (ne→== c.0 i h.0) (slices_of-All_none xs h.1)

  slices_of-middle :
      (us os ws : List SortedCol)
      → All (λ c. c.0 ≢ i) (map column_of us)
      → All (λ c. c.0 ≡ i) (map column_of os)
      → All (λ c. c.0 ≢ i) (map column_of ws)
      → slices_of i (us ++ (os ++ ws)) ≡ os
  slices_of-middle us os ws g h k =
      rw
        (
          slices_of-append us (os ++ ws),
          slices_of-append os ws,
          slices_of-All_none us g,
          slices_of-All os h,
          slices_of-All_none ws k,
        )
        (append-nil os)

  -- The columns of other matrices have other indices.
  All-columns :
      (m : ℕ) (ms : List (ℕ × ℕ))
      → (i < m) ⊎ (m + length ms ≤ i)
      → All (λ (c : Column). c.0 ≢ i) (columns m ms)
  All-columns m [] h = tt
  All-columns m (n ∷ ms) h =
      All-append (λ (c : Column). c.0 ≢ i) (row m n.1 0 n.0) (columns (m + 1) ms)
        (All-row m n.1 0 n.0 (λ c. c.0 ≢ i) (λ j. grind arith))
        (All-columns (m + 1) ms (elim h [ inl l ↦ inl (omega arith) | inr l ↦ inr (omega arith) ]))

columns-append :
    (m : ℕ) (xs ys : List (ℕ × ℕ))
    → columns m (xs ++ ys) ≡ columns m xs ++ columns (m + length xs) ys
columns-append m [] ys = let e : m + 0 ≡ m = omega arith in rw e refl
columns-append m (x ∷ xs) ys =
    let e : m + suc (length xs) ≡ (m + 1) + length xs = omega arith in
    rw (e, columns-append (m + 1) xs ys)
      (sym (append_assoc (row m x.1 0 x.0) (columns (m + 1) xs) _))

Contiguous-append :
    (l_skip log_height p q : ℕ) (xs ys : List SortedCol)
    → Contiguous l_skip log_height p (xs ++ ys) q
    → Contiguous l_skip log_height (p + size l_skip xs) ys q
Contiguous-append l_skip log_height p q [] ys h = let e : p + 0 ≡ p = omega arith in rw e h
Contiguous-append l_skip log_height p q (x ∷ xs) ys h =
    let e : p + (span x.2 l_skip + size l_skip xs) ≡ p + span x.2 l_skip + size l_skip xs =
      omega arith in
    rw e (Contiguous-append l_skip log_height (p + span x.2 l_skip) q xs ys h.1)

checked_rem_lem : (a b : ℕ) → 0 < b → checked_rem a b ≡ ok (a % b)
checked_rem_lem a zero h = grind arith
checked_rem_lem a (suc b) h = refl

pub new_view_lem :
    {F : Type 0} (values : List F) (width step k : ℕ)
    → 0 < width * step
    → length values ≡ width * step * k
    → new_view values width step
      ≡ ok (record { values = values; width = width; height = k; stride = step })
unfolding new_view
new_view_lem values width step k h e =
    rw
      (
        e,
        checked_rem_lem (width * step * k) (width * step) h,
        mul-mod_right (width * step) k,
        mul-div_cancel_left k h,
      )
      refl

module _ (l_skip log_height i k w : ℕ) where
  -- Where the slices of matrix `i` are, when its columns stand between those of other matrices.
  Own : List Column → List SortedCol → Type 0
  Own before cols =
      (us : List SortedCol) × (c : SortedCol) × (cs : List SortedCol) × (slices_of i cols ≡ c ∷ cs)
      × (suc (length cs) ≡ w)
      × (c.2.log_height ≡ k)
      × (map column_of us ≡ before)
      × (position l_skip log_height c.2 ≡ size l_skip us)

  Own-parts :
      (us os ws : List SortedCol) (before after : List Column) (q : ℕ)
      → map column_of us ≡ before
      → map column_of os ≡ row i k 0 w
      → map column_of ws ≡ after
      → All (λ c. c.0 ≢ i) before
      → All (λ c. c.0 ≢ i) after
      → Contiguous l_skip log_height 0 (us ++ (os ++ ws)) q
      → 0 < w
      → Own before (us ++ (os ++ ws))
  unfolding Own
  Own-parts us [] ws before after q e f g h h' p wide =
      let none_left : 0 ≡ w = ap length f ∙ length-row i k 0 w in grind arith
  Own-parts us (c ∷ cs) ws before after q e f g h h' p wide = (
    us,
    c,
    cs,
    slices_of-middle i us (c ∷ cs) ws (subst (All (λ (c : Column). c.0 ≢ i)) (sym e) h)
        (subst (All (λ (c : Column). c.0 ≡ i)) (sym f) (All-row i k 0 w (λ c. c.0 ≡ i) (λ j. refl)))
        (subst (All (λ (c : Column). c.0 ≢ i)) (sym g) h'),
    ap suc (sym (length-map column_of cs)) ∙ ap length f ∙ length-row i k 0 w,
    (subst (All (λ (c : Column). c.2 ≡ k)) (sym f) (All-row i k 0 w (λ c. c.2 ≡ k) (λ j. refl))).0,
    e,
    omega (arith, (Contiguous-append l_skip log_height 0 q us (c ∷ cs ++ ws) p).0),
  )

  Own-columns :
      (cols : List SortedCol) (before after : List Column) (q : ℕ)
      → map column_of cols ≡ before ++ (row i k 0 w ++ after)
      → All (λ c. c.0 ≢ i) before
      → All (λ c. c.0 ≢ i) after
      → Contiguous l_skip log_height 0 cols q
      → 0 < w
      → Own before cols
  Own-columns cols before after q e h h' p wide =
      let (us, vs, cut, f, g) = map-split column_of cols before (row i k 0 w ++ after) e in
      let (os, ws, cut_again, g', g'') = map-split column_of vs (row i k 0 w) after g in
      let whole : cols ≡ us ++ (os ++ ws) = cut ∙ ap (λ (l : List SortedCol). us ++ l) cut_again in
      subst (Own before) (sym whole) (
        Own-parts us os ws before after q f g' g'' h h'
          (subst (λ (l : List SortedCol). Contiguous l_skip log_height 0 l q) whole p) wide)

module _ {F : Type 0} (zero_f : F) (log2_strict : ℕ → ℕ) (l_skip log_height : ℕ) where
  sorted_meta-append :
      (xs ys : List (ColMajorMatrix F))
      → sorted_meta log2_strict (xs ++ ys)
        ≡ sorted_meta log2_strict xs ++ sorted_meta log2_strict ys
  sorted_meta-append [] ys = refl
  sorted_meta-append (x ∷ xs) ys =
      ap (λ l. (x.width, log2_strict x.height) ∷ l) (sorted_meta-append xs ys)

  length-sorted_meta :
      (xs : List (ColMajorMatrix F)) → length (sorted_meta log2_strict xs) ≡ length xs
  length-sorted_meta [] = refl
  length-sorted_meta (x ∷ xs) = ap suc (length-sorted_meta xs)

  -- The slices of one of the matrices: as many as it has columns, of its height, from the end of
  -- the matrices before it on.
  own_slices :
      (before after : List (ColMajorMatrix F)) (t : ColMajorMatrix F) (layout : StackedLayout)
      → IsLog2 log2_strict
      → All IsTrace before
      → IsLayout l_skip log_height (sorted_meta log2_strict (before ++ t ∷ after)) layout
      → 0 < t.width
      → (c : SortedCol) × (cs : List SortedCol) × (slices_of (length before) layout.sorted_cols
          ≡ c ∷ cs)
        × (suc (length cs) ≡ t.width)
        × (c.2.log_height ≡ log2_strict t.height)
        × (position l_skip log_height c.2
            ≡ length (stacked_values zero_f l_skip log2_strict before))
  unfolding Own
  own_slices before after t layout law h v wide =
      let i : ℕ = length before in
      let k : ℕ = log2_strict t.height in
      let named : map column_of layout.sorted_cols
          ≡ columns 0 (sorted_meta log2_strict before)
            ++ (row i k 0 t.width ++ columns (i + 1) (sorted_meta log2_strict after)) =
        v.all-columns
        ∙ ap (columns 0) (sorted_meta-append before (t ∷ after))
        ∙ columns-append 0 (sorted_meta log2_strict before) (sorted_meta log2_strict (t ∷ after))
        ∙ ap
            (λ (x : ℕ).
              columns 0 (sorted_meta log2_strict before)
              ++ columns x (sorted_meta log2_strict (t ∷ after)))
            (zero_plus (length (sorted_meta log2_strict before)) ∙ length-sorted_meta before) in
      let (us, c, cs, slices, n, same, us_named, at) =
        Own-columns l_skip log_height i k t.width layout.sorted_cols
          (columns 0 (sorted_meta log2_strict before))
          (columns (i + 1) (sorted_meta log2_strict after)) _ named
          (All-columns i 0 (sorted_meta log2_strict before)
            (inr (omega (arith, length-sorted_meta before))))
          (All-columns i (i + 1) (sorted_meta log2_strict after) (inl (omega arith))) v.no-gap
          wide in
      let reads : Reads zero_f l_skip before (map column_of us)
          (stacked_values zero_f l_skip log2_strict before) =
        rw us_named (columns-Reads zero_f l_skip log2_strict [] before law h) in
      (
        c,
        cs,
        slices,
        n,
        same,
        at
            ∙ sym (
                length-Reads zero_f l_skip before us
                  (stacked_values zero_f l_skip log2_strict before) reads),
      )

  -- The view is the trace, spread out by its stride.
  pub mat_view_lem :
      (before after : List (ColMajorMatrix F)) (t : ColMajorMatrix F) (layout : StackedLayout)
      (m : ColMajorMatrix F) (rest : List F)
      → IsLog2 log2_strict
      → All IsTrace before
      → IsTrace t
      → IsLayout l_skip log_height (sorted_meta log2_strict (before ++ t ∷ after)) layout
      → 0 < t.width
      → m.height ≡ 2 ^ log_height
      → lifted (log2_strict t.height) l_skip < 64
      → m.values
        ≡ stacked_values zero_f l_skip log2_strict before
          ++ (spread zero_f (step_of l_skip (log2_strict t.height)) t.values ++ rest)
      → mat_view layout (length before) m
        ≡ ok (record {
          values = spread zero_f (step_of l_skip (log2_strict t.height)) t.values;
          width = t.width;
          height = t.height;
          stride = step_of l_skip (log2_strict t.height);
        })
  unfolding mat_view stride
  mat_view_lem before after t layout m rest law h h_t v wide tall small filled =
      let k : ℕ = log2_strict t.height in
      let own : List F = spread zero_f (step_of l_skip k) t.values in
      let pos : 0 < step_of l_skip k = pow_pos (l_skip - k) in
      let (c, cs, slices, n, same, at) = own_slices before after t layout law h v wide in
      let long : length own ≡ t.width * step_of l_skip k * t.height = omega (
        arith,
        length-spread zero_f (step_of l_skip k) t.values pos,
        ap (λ (x : ℕ). x * step_of l_skip k) h_t.2,
      ) in
      let high : t.height ≡ 2 ^ k = height-log2 zero_f l_skip log2_strict t law h_t in
      let cut : span c.2 layout.l_skip * suc (length cs) ≡ length own =
        ap (λ (x : ℕ). lifted_len c.2.log_height x * suc (length cs)) v.same-skip
        ∙ ap (λ (x : ℕ). lifted_len x l_skip * suc (length cs)) same
        ∙ ap (λ (x : ℕ). lifted_len k l_skip * x) n
        ∙ omega (
          arith,
          long,
          ap (λ (x : ℕ). x * t.width) (lifted_len-steps l_skip k),
          ap (λ (x : ℕ). t.width * step_of l_skip k * x) high,
        ) in
      let view : sub_slice {E = ⊥} m.values (c.2.col_idx * m.height + c.2.row_idx)
            (span c.2 layout.l_skip * suc (length cs))
          ≡ ok own =
        rw (filled, tall, at, cut)
          (sub_slice-middle (stacked_values zero_f l_skip log2_strict before) own rest) in
      let lifts : slice_len {E = ⊥} c.2.log_height layout.l_skip ≡ ok (span c.2 layout.l_skip) =
        rw (same, v.same-skip)
          (slice_len-ok k l_skip (lifted k l_skip) refl small
            ∙ ap ok (sym (lifted_len-pow k l_skip))) in
      let step : shift_left {E = ⊥} (layout.l_skip - c.2.log_height)
          ≡ ok (2 ^ (layout.l_skip - c.2.log_height)) =
        shift_left-ok (layout.l_skip - c.2.log_height) (omega (arith, same, v.same-skip)) in
      rw (slices, lifts, step, view, n, same, v.same-skip)
        (new_view_lem own t.width (step_of l_skip k) t.height (grind arith) long)
