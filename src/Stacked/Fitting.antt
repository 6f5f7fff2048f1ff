-- ===== src/Stacked/Fitting.antt =====
-- Where `StackedLayout::new` of crates/stark-backend/src/prover/stacked_pcs.rs puts the columns.
use stark_backend.Prelude.{
  ℕ, ◌+◌, ◌*◌, ◌^◌, ◌≤◌, ◌<◌, ◌≡◌, refl, sym, ap, ◌∙◌, List, [], ◌∷◌, ◌++◌, All, All-append,
  append-nil, map-append, map, if◌then◌else◌, ltb, leb, ◌==◌, Bool-cases, ◌⊎◌, inl, inr, leb→le,
  leb-false, ltb→lt, ltb-false, eq→==, pow_pos, Divides, Divides-pow, Divides-add, Divides-refl,
  Divides-zero, Divides-step, max, arith,
}
use stark_backend.Prelude.Outcome.{ok}
use stark_backend.Prelude.Machine.{to_usize, shift_left, to_usize-ok, shift_left-ok}
use stark_backend.Stacked.Layout.{
  LayoutError, StackedSlice, slice_len, lifted_len, span, SortedCol, Cursor, push_col, place_col,
}
use native.Mathlib.Nat.{pow-le-pow_right}

-- The exponent of a slice's length.
abbrev pub lifted : ℕ → ℕ → ℕ
lifted log_ht l_skip = max log_ht l_skip

pub lifted_len-pow : (log_ht l_skip : ℕ) → lifted_len log_ht l_skip ≡ 2 ^ lifted log_ht l_skip
unfolding lifted_len
lifted_len-pow log_ht l_skip = elim (Bool-cases (leb l_skip log_ht)) [
  | inl h ↦ let e : max log_ht l_skip ≡ log_ht = omega (arith, leb→le l_skip log_ht h) in rw (h, e)
  | inr h ↦
      let e : max log_ht l_skip ≡ l_skip = omega (arith, leb-false l_skip log_ht h) in rw (h, e)
]

pub slice_len-ok :
    {E : Type 0} (log_ht l_skip k : ℕ)
    → lifted log_ht l_skip ≡ k
    → k < 64
    → slice_len {E = E} log_ht l_skip ≡ ok (2 ^ k)
unfolding slice_len
slice_len-ok log_ht l_skip k e small = elim (Bool-cases (leb l_skip log_ht)) [
  | inl h ↦
      let same : log_ht ≡ k = omega (arith, leb→le l_skip log_ht h) in
      rw (h, same) (shift_left-ok k small)
  | inr h ↦
      let same : l_skip ≡ k = omega (arith, leb-false l_skip log_ht h) in
      rw (h, same) (shift_left-ok k small)
]

-- Matrix, column, and the exponent of its height.
abbrev pub Column : Type 0
Column = ℕ × ℕ × ℕ

abbrev pub column_of : SortedCol → Column
column_of c = (c.0, c.1, c.2.log_height)

module _ (l_skip log_height : ℕ) where
  -- The place of a slice in the stacked matrix, column by column.
  abbrev pub position : StackedSlice → ℕ
  position s = s.col_idx * 2 ^ log_height + s.row_idx

  -- Each slice begins where the one before it ends, from `p` on up to `q`.
  abbrev pub Contiguous : ℕ → List SortedCol → ℕ → Type 0
  Contiguous p [] q = p ≡ q
  Contiguous p (c ∷ cols) q = (position c.2 ≡ p) × Contiguous (p + span c.2 l_skip) cols q

  -- Each slice lies in one of `width` columns.
  abbrev pub Within : ℕ → List SortedCol → Type 0
  Within width cols =
      All (λ c. (c.2.row_idx + span c.2 l_skip ≤ 2 ^ log_height) × (c.2.col_idx < width)) cols

  Contiguous-snoc :
      (cols : List SortedCol) (c : SortedCol) (p q r : ℕ)
      → Contiguous p cols q
      → position c.2 ≡ q
      → q + span c.2 l_skip ≡ r
      → Contiguous p (cols ++ c ∷ []) r
  Contiguous-snoc [] c p q r e f g = (f ∙ sym e, omega arith)
  Contiguous-snoc (d ∷ cols) c p q r e f g =
      (e.0, Contiguous-snoc cols c (p + span d.2 l_skip) q r e.1 f g)

  Within-mono : (cols : List SortedCol) (w w' : ℕ) → w ≤ w' → Within w cols → Within w' cols
  Within-mono [] w w' h a = tt
  Within-mono (c ∷ cols) w w' h a = ((a.0.0, omega arith), Within-mono cols w w' h a.1)

  -- The width so far.
  abbrev pub used : Cursor → ℕ
  used s = s.col_idx + (if s.row_idx == 0 then 0 else 1)

  -- The cursor is at the end of what has been placed, in steps of `2 ^ k`.
  pub record IsPlaced (k : ℕ) (s : Cursor) : Type 0 where
    pub row-le : s.row_idx ≤ 2 ^ log_height
    pub aligned : Divides (2 ^ k) s.row_idx
    pub contiguous : Contiguous 0 s.sorted_cols (s.col_idx * 2 ^ log_height + s.row_idx)
    pub within : Within (used s) s.sorted_cols

  -- The place of the cursor.
  abbrev pub reached : Cursor → ℕ
  reached s = s.col_idx * 2 ^ log_height + s.row_idx

  -- What a step of the loops does to a cursor: it places these columns in this many cells.
  pub record Moves (k cells : ℕ) (columns : List Column) (starts : List ℕ) (s s' : Cursor)
      : Type 0 where
    pub placed : IsPlaced k s'
    pub moved : reached s' ≡ reached s + cells
    pub pushed : map column_of s'.sorted_cols ≡ map column_of s.sorted_cols ++ columns
    pub started : s'.mat_starts ≡ s.mat_starts ++ starts

  push_col_fits :
      (mat_idx log_ht j k : ℕ) (s : Cursor) (col row : ℕ)
      → lifted_len log_ht l_skip ≡ 2 ^ k
      → IsPlaced k s
      → row + 2 ^ k ≤ 2 ^ log_height
      → Divides (2 ^ k) row
      → col * 2 ^ log_height + row ≡ s.col_idx * 2 ^ log_height + s.row_idx
      → used s ≤ col + 1
      → Moves k
          (2 ^ k)
          ((mat_idx, j, log_ht) ∷ [])
          []
          s
          (push_col l_skip log_height mat_idx j log_ht col row (2 ^ k) s)
  push_col_fits mat_idx log_ht j k s col row e v fits d same wide = record {
    placed = record {
      row-le = omega arith;
      aligned = (Divides-add (2 ^ k) row (2 ^ k) d (Divides-refl (2 ^ k)));
      contiguous = Contiguous-snoc s.sorted_cols _ 0 _ _ v.contiguous same (omega arith);
      within =
          All-append _ s.sorted_cols _
            (Within-mono s.sorted_cols (used s) _ (ground (arith, pow_pos k)) v.within)
            ((omega arith, ground (arith, pow_pos k)), tt);
    };
    moved = omega arith;
    pushed = map-append column_of s.sorted_cols _;
    started = sym (append-nil s.mat_starts);
  }

  at_end :
      (s : Cursor) (k : ℕ)
      → IsPlaced k s
      → k ≤ log_height
      → 2 ^ log_height < s.row_idx + 2 ^ k
      → s.row_idx ≡ 2 ^ log_height
  at_end s k v le past = elim (Bool-cases (ltb s.row_idx (2 ^ log_height))) [
    | inl below ↦
        let step : s.row_idx + 2 ^ k ≤ 2 ^ log_height =
          Divides-step (2 ^ k) s.row_idx (2 ^ log_height) v.aligned (Divides-pow k log_height le)
            (ltb→lt s.row_idx (2 ^ log_height) below) in
        omega arith
    | inr above ↦ omega (arith, v.row-le, ltb-false s.row_idx (2 ^ log_height) above)
  ]

  -- No sum of the loops overflows, where `n` cells are placed in the end.
  abbrev pub Roomy : ℕ → Type 0
  Roomy n = (log_height < 63) ⊎ (n < 2 ^ 64)

  pub Roomy-le : (m n : ℕ) → m ≤ n → Roomy n → Roomy m
  Roomy-le m n le (inl low) = inl low
  Roomy-le m n le (inr few) = inr (omega arith)

  sum-small :
      (s : Cursor) (k : ℕ)
      → k ≤ log_height
      → IsPlaced k s
      → Roomy (reached s + 2 ^ k)
      → s.row_idx + 2 ^ k < 2 ^ 64
  sum-small s k le v (inl low) =
      let low' : log_height ≤ 62 = omega arith in
      let column : 2 ^ log_height ≤ 2 ^ 62 = pow-le-pow_right (omega arith) low' in
      let added : 2 ^ k ≤ 2 ^ log_height = pow-le-pow_right (omega arith) le in
      omega (arith, v.row-le)
  sum-small s k le v (inr few) = omega arith

  pub place_col_fits :
      (mat_idx log_ht j k : ℕ) (s : Cursor)
      → lifted log_ht l_skip ≡ k
      → k ≤ log_height
      → log_height < 64
      → Roomy (reached s + 2 ^ k)
      → IsPlaced k s
      → (s' : Cursor) × (place_col l_skip log_height mat_idx log_ht j s ≡ ok s')
        × Moves k (2 ^ k) ((mat_idx, j, log_ht) ∷ []) [] s s'
  unfolding place_col
  place_col_fits mat_idx log_ht j k s e le small roomy v =
      let l : lifted_len log_ht l_skip ≡ 2 ^ k =
        lifted_len-pow log_ht l_skip ∙ ap (λ (t : ℕ). 2 ^ t) e in
      let bound : 2 ^ k ≤ 2 ^ log_height = pow-le-pow_right (omega arith) le in
      let added : slice_len {E = LayoutError} log_ht l_skip ≡ ok (2 ^ k) =
        slice_len-ok log_ht l_skip k e (omega arith) in
      let past_ok : to_usize {E = LayoutError} (s.row_idx + 2 ^ k) ≡ ok (s.row_idx + 2 ^ k) =
        to_usize-ok (s.row_idx + 2 ^ k) (sum-small s k le v roomy) in
      let height : shift_left {E = LayoutError} log_height ≡ ok (2 ^ log_height) =
        shift_left-ok log_height small in
      elim (Bool-cases (ltb (2 ^ log_height) (s.row_idx + 2 ^ k))) [
        | inl over ↦
            let past : 2 ^ log_height < s.row_idx + 2 ^ k =
              ltb→lt (2 ^ log_height) (s.row_idx + 2 ^ k) over in
            let full : s.row_idx ≡ 2 ^ log_height = at_end s k v le past in
            (
              _,
              rw (added, past_ok, height, over, eq→== s.row_idx (2 ^ log_height) full),
              push_col_fits mat_idx log_ht j k s (s.col_idx + 1) 0 l v (omega arith)
                  (Divides-zero (2 ^ k)) (omega arith) (ground arith),
            )
        | inr fits ↦ (
          _,
          rw (added, past_ok, height, fits),
          push_col_fits mat_idx log_ht j k s s.col_idx s.row_idx l v
              (omega (arith, ltb-false (2 ^ log_height) (s.row_idx + 2 ^ k) fits)) v.aligned refl
              (ground arith),
        )
      ]
