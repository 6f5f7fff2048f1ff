-- ===== src/Stacked/Placing.antt =====
-- The loops of `StackedLayout::new` of crates/stark-backend/src/prover/stacked_pcs.rs.
use stark_backend.Prelude.{
  ℕ, zero, suc, ◌+◌, ◌*◌, ◌^◌, ◌≤◌, ◌<◌, ◌≡◌, refl, sym, ap, subst, ◌∙◌, false, List, [], ◌∷◌, ◌++◌,
  length, map, append_assoc, append-nil, ltb, ◌==◌, Bool-cases, inl, inr, ==→eq, le→ltb_false,
  length-append, length-map, Divides-pow, Divides-trans, arith,
}
use stark_backend.Prelude.Outcome.{ok}
use stark_backend.Stacked.Layout.{Cursor, place_cols, place_mat, place_mats}
use stark_backend.Stacked.Fitting.{
  lifted, Column, column_of, IsPlaced, Moves, reached, Roomy, Roomy-le, place_col_fits,
}

-- The columns from column `j` of a matrix on.
abbrev pub row : ℕ → ℕ → ℕ → ℕ → List Column
row mat_idx log_ht j zero = []
row mat_idx log_ht j (suc count) = (mat_idx, j, log_ht) ∷ row mat_idx log_ht (j + 1) count

pub length-row : (mat_idx log_ht j count : ℕ) → length (row mat_idx log_ht j count) ≡ count
length-row mat_idx log_ht j zero = refl
length-row mat_idx log_ht j (suc count) = ap suc (length-row mat_idx log_ht (j + 1) count)

-- The columns of matrices of these widths and heights, and where each matrix starts among them.
abbrev pub columns : ℕ → List (ℕ × ℕ) → List Column
columns mat_idx [] = []
columns mat_idx (m ∷ ms) = row mat_idx m.1 0 m.0 ++ columns (mat_idx + 1) ms

abbrev pub starts : ℕ → List (ℕ × ℕ) → List ℕ
starts n [] = []
starts n (m ∷ ms) = n ∷ starts (n + m.0) ms

-- Heights that descend from a bound on.
abbrev pub Descending : ℕ → List (ℕ × ℕ) → Type 0
Descending bound [] = Unit {0}
Descending bound (m ∷ ms) = (m.1 ≤ bound) × Descending m.1 ms

module _ (l_skip log_height : ℕ) where
  -- The cells that the lifted columns take.
  abbrev pub cells : List (ℕ × ℕ) → ℕ
  cells [] = 0
  cells (m ∷ ms) = m.0 * 2 ^ lifted m.1 l_skip + cells ms

  IsPlaced-finer :
      (k l : ℕ) (s : Cursor)
      → l ≤ k
      → IsPlaced l_skip log_height k s
      → IsPlaced l_skip log_height l s
  IsPlaced-finer k l s le v = record {
    row-le = v.row-le;
    aligned = Divides-trans (2 ^ l) (2 ^ k) s.row_idx (Divides-pow l k le) v.aligned;
    contiguous = v.contiguous;
    within = v.within;
  }

  Moves-stay :
      (k : ℕ) (s : Cursor) → IsPlaced l_skip log_height k s → Moves l_skip log_height k 0 [] [] s s
  Moves-stay k s v = record {
    placed = v;
    moved = omega arith;
    pushed = sym (append-nil (map column_of s.sorted_cols));
    started = sym (append-nil s.mat_starts);
  }

  Moves-seq :
      (k l a b c : ℕ) (cs ds : List Column) (ms ns : List ℕ) (s t u : Cursor)
      → a + b ≡ c
      → Moves l_skip log_height k a cs ms s t
      → Moves l_skip log_height l b ds ns t u
      → Moves l_skip log_height l c (cs ++ ds) (ms ++ ns) s u
  Moves-seq k l a b c cs ds ms ns s t u e v w = record {
    placed = w.placed;
    moved = omega (arith, v.moved, w.moved);
    pushed =
        w.pushed ∙ ap (λ xs. xs ++ ds) v.pushed ∙ append_assoc (map column_of s.sorted_cols) cs ds;
    started = w.started ∙ ap (λ xs. xs ++ ns) v.started ∙ append_assoc s.mat_starts ms ns;
  }

  -- A matrix that starts here has placed nothing yet.
  Moves-start :
      (k : ℕ) (s : Cursor)
      → IsPlaced l_skip log_height k s
      → Moves l_skip log_height k 0 []
          (length s.sorted_cols ∷ [])
          s
          (record s { mat_starts = s.mat_starts ++ length s.sorted_cols ∷ [] })
  Moves-start k s v = record {
    placed = record {
      row-le = v.row-le;
      aligned = v.aligned;
      contiguous = v.contiguous;
      within = v.within;
    };
    moved = omega arith;
    pushed = sym (append-nil (map column_of s.sorted_cols));
    started = refl;
  }

  pub place_cols_fits :
      (mat_idx log_ht k : ℕ)
      → lifted log_ht l_skip ≡ k
      → k ≤ log_height
      → log_height < 64
      → (j count : ℕ) (s : Cursor) → IsPlaced l_skip log_height k s
      → Roomy l_skip log_height (reached l_skip log_height s + count * 2 ^ k)
      → (s' : Cursor) × (place_cols l_skip log_height mat_idx log_ht j count s ≡ ok s')
        × Moves l_skip log_height k (count * 2 ^ k) (row mat_idx log_ht j count) [] s s'
  unfolding place_cols
  place_cols_fits mat_idx log_ht k e le small j zero s v roomy =
      let nothing : 0 * 2 ^ k ≡ 0 = omega arith in (s, refl, rw nothing (Moves-stay k s v))
  place_cols_fits mat_idx log_ht k e le small j (suc count) s v roomy =
      let one =
        Roomy-le l_skip log_height (reached l_skip log_height s + 2 ^ k) _ (omega arith) roomy in
      let (t, ran, m) = place_col_fits l_skip log_height mat_idx log_ht j k s e le small one v in
      let others =
        Roomy-le l_skip log_height (reached l_skip log_height t + count * 2 ^ k) _
          (omega (arith, m.moved)) roomy in
      let (u, rest, n) =
        place_cols_fits mat_idx log_ht k e le small (j + 1) count t m.placed others in
      (u, rw ran rest, Moves-seq k k (2 ^ k) (count * 2 ^ k) _ _ _ [] [] s t u (omega arith) m n)

  pub place_mat_fits :
      (mat_idx width log_ht k : ℕ) (s : Cursor)
      → lifted log_ht l_skip ≤ k
      → k ≤ log_height
      → log_height < 64
      → Roomy l_skip log_height (reached l_skip log_height s + width * 2 ^ lifted log_ht l_skip)
      → IsPlaced l_skip log_height k s
      → (s' : Cursor) × (place_mat l_skip log_height mat_idx width log_ht s ≡ ok s')
        × Moves l_skip log_height
            (lifted log_ht l_skip)
            (width * 2 ^ lifted log_ht l_skip)
            (row mat_idx log_ht 0 width)
            (length s.sorted_cols ∷ [])
            s
            s'
  unfolding place_mat
  place_mat_fits mat_idx width log_ht k s fine le small roomy v =
      let l : ℕ = lifted log_ht l_skip in
      let t : Cursor = record s { mat_starts = s.mat_starts ++ length s.sorted_cols ∷ [] } in
      let begun : Moves l_skip log_height l 0 [] (length s.sorted_cols ∷ []) s t =
        Moves-start l s (IsPlaced-finer k l s fine v) in
      elim (Bool-cases (width == 0)) [
        | inl none ↦
            let no_width : width ≡ 0 = ==→eq width 0 none in
            let nothing : 0 * 2 ^ l ≡ 0 = omega arith in
            (t, rw none refl, rw (no_width, nothing) begun)
        | inr some ↦
            let low : ltb log_height log_ht ≡ false =
              le→ltb_false log_height log_ht (omega arith) in
            let (u, ran, m) =
              place_cols_fits mat_idx log_ht l refl (omega arith) small 0 width t begun.placed
                roomy in
            (
              u,
              rw (some, low) ran,
              Moves-seq l l 0 (width * 2 ^ l) _ [] _ (length s.sorted_cols ∷ []) [] s t u
                  (omega arith) begun m,
            )
      ]

  Moves-length :
      (k c : ℕ) (cs : List Column) (ms : List ℕ) (s t : Cursor)
      → Moves l_skip log_height k c cs ms s t
      → length t.sorted_cols ≡ length s.sorted_cols + length cs
  Moves-length k c cs ms s t m = omega (
    arith,
    length-map column_of t.sorted_cols,
    length-map column_of s.sorted_cols,
    ap length m.pushed,
    length-append (map column_of s.sorted_cols) cs,
  )

  pub place_mats_fits :
      (mat_idx bound : ℕ) (sorted : List (ℕ × ℕ)) (s : Cursor)
      → lifted bound l_skip ≤ log_height
      → Descending bound sorted
      → log_height < 64
      → Roomy l_skip log_height (reached l_skip log_height s + cells sorted)
      → IsPlaced l_skip log_height (lifted bound l_skip) s
      → (s' : Cursor) × (place_mats l_skip log_height mat_idx sorted s ≡ ok s')
        × (k : ℕ) × Moves l_skip log_height k
            (cells sorted)
            (columns mat_idx sorted)
            (starts (length s.sorted_cols) sorted)
            s
            s'
  unfolding place_mats
  place_mats_fits mat_idx bound [] s le d small roomy v =
      (s, refl, lifted bound l_skip, Moves-stay (lifted bound l_skip) s v)
  place_mats_fits mat_idx bound ((width, log_ht) ∷ sorted) s le d small roomy v =
      let l : ℕ = lifted log_ht l_skip in
      let smaller : log_ht ≤ bound = d.0 in
      let fine : l ≤ lifted bound l_skip = omega arith in
      let own =
        Roomy-le l_skip log_height (reached l_skip log_height s + width * 2 ^ l) _ (omega arith)
          roomy in
      let (t, ran, m) =
        place_mat_fits mat_idx width log_ht (lifted bound l_skip) s fine le small own v in
      let others =
        Roomy-le l_skip log_height (reached l_skip log_height t + cells sorted) _
          (omega (arith, m.moved)) roomy in
      let (u, rest, k, n) =
        place_mats_fits (mat_idx + 1) log_ht sorted t (omega arith) d.1 small others m.placed in
      let at : length t.sorted_cols ≡ length s.sorted_cols + width =
        Moves-length l (width * 2 ^ l) (row mat_idx log_ht 0 width) (length s.sorted_cols ∷ []) s t
          m
        ∙ ap (λ (w : ℕ). length s.sorted_cols + w) (length-row mat_idx log_ht 0 width) in
      (
        u,
        rw ran rest,
        k,
        Moves-seq l k (width * 2 ^ l) (cells sorted) _ _ _ (length s.sorted_cols ∷ []) _ s t u refl
            m
            (subst
              (λ w.
                Moves l_skip log_height k (cells sorted) (columns (mat_idx + 1) sorted)
                  (starts w sorted) t u)
              at n),
      )
