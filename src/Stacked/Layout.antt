-- ===== src/Stacked/Layout.antt =====
-- `StackedSlice` and `StackedLayout` of crates/stark-backend/src/prover/stacked_pcs.rs. Debug
-- assertions are left out; an index out of range is a panic.
use stark_backend.Prelude.{
  ℕ, zero, suc, ◌+◌, ◌-◌, ◌^◌, List, [], ◌∷◌, ◌++◌, Option, none, some, length, get_elem?,
  if◌then◌else◌, ltb, leb, ◌==◌, max, not, ◌||◌,
}
use stark_backend.Prelude.Outcome.{Outcome, ok, err, panic, ◌>>=◌, index}
use stark_backend.Prelude.Machine.{to_usize, shift_left}

pub record StackedSlice : Type 0 where
  pub col_idx : ℕ
  pub row_idx : ℕ
  pub log_height : ℕ

-- The number of cells that a column takes, at least `2 ^ l_skip`.
unfoldable pub lifted_len : ℕ → ℕ → ℕ
lifted_len log_height l_skip = if leb l_skip log_height then 2 ^ log_height else 2 ^ l_skip

abbrev pub span : StackedSlice → ℕ → ℕ
span s l_skip = lifted_len s.log_height l_skip

-- `_len`, which computes that number.
unfoldable pub slice_len : {E : Type 0} → ℕ → ℕ → Outcome E ℕ
slice_len log_height l_skip =
    if leb l_skip log_height then shift_left log_height else shift_left l_skip

abbrev pub len : {E : Type 0} → StackedSlice → ℕ → Outcome E ℕ
len s l_skip = slice_len s.log_height l_skip

-- The subtraction saturates.
unfoldable pub stride : {E : Type 0} → StackedSlice → ℕ → Outcome E ℕ
stride s l_skip = shift_left (l_skip - s.log_height)

-- The errors of the layout. Sizes that only the message shows are left in.
pub data LayoutError : Type 0 where
  height_exceeded : ℕ → ℕ → LayoutError
  row_overflow : ℕ → ℕ → LayoutError
  raw_parts_mat_idx : ℕ → ℕ → LayoutError
  stacked_matrix_overflow : LayoutError

-- Matrix index, column index, and where the column is.
abbrev pub SortedCol : Type 0
SortedCol = ℕ × ℕ × StackedSlice

pub record StackedLayout : Type 0 where
  pub l_skip : ℕ
  pub height : ℕ
  pub width : ℕ
  pub sorted_cols : List SortedCol
  pub mat_starts : List ℕ

-- The variables of the loops of `new`.
pub record Cursor : Type 0 where
  pub sorted_cols : List SortedCol
  pub mat_starts : List ℕ
  pub col_idx : ℕ
  pub row_idx : ℕ

abbrev pub start : Cursor
start = record { sorted_cols = []; mat_starts = []; col_idx = 0; row_idx = 0 }

module _ (l_skip log_stacked_height : ℕ) where
  -- A column at the cursor, which moves behind it.
  abbrev pub push_col : ℕ → ℕ → ℕ → ℕ → ℕ → ℕ → Cursor → Cursor
  push_col mat_idx j log_ht col_idx row_idx added s = record s {
    sorted_cols =
        s.sorted_cols
        ++ (mat_idx, j, record { col_idx = col_idx; row_idx = row_idx; log_height = log_ht }) ∷ [];
    col_idx = col_idx;
    row_idx = row_idx + added;
  }

  unfoldable pub place_col : ℕ → ℕ → ℕ → Cursor → Outcome LayoutError Cursor
  place_col mat_idx log_ht j s = do
    added ← slice_len log_ht l_skip
    past ← to_usize (s.row_idx + added)
    height ← shift_left log_stacked_height
    if ltb height past
        then (if s.row_idx == height
            then ok (push_col mat_idx j log_ht (s.col_idx + 1) 0 added s)
            else err (row_overflow s.col_idx height))
        else ok (push_col mat_idx j log_ht s.col_idx s.row_idx added s)

  -- `for j in 0..width`, with `count` columns left from column `j` on.
  unfoldable pub place_cols : ℕ → ℕ → ℕ → ℕ → Cursor → Outcome LayoutError Cursor
  place_cols mat_idx log_ht j zero s = ok s
  place_cols mat_idx log_ht j (suc count) s = do
    s' ← place_col mat_idx log_ht j s
    place_cols mat_idx log_ht (j + 1) count s'

  unfoldable pub place_mat : ℕ → ℕ → ℕ → Cursor → Outcome LayoutError Cursor
  place_mat mat_idx width log_ht s =
      let started : Cursor = record s { mat_starts = s.mat_starts ++ length s.sorted_cols ∷ [] } in
      if width == 0
      then ok started
      else if ltb log_stacked_height log_ht
      then err (height_exceeded log_ht log_stacked_height)
      else place_cols mat_idx log_ht 0 width started

  unfoldable pub place_mats : ℕ → List (ℕ × ℕ) → Cursor → Outcome LayoutError Cursor
  place_mats mat_idx [] s = ok s
  place_mats mat_idx ((width, log_ht) ∷ sorted) s = do
    s' ← place_mat mat_idx width log_ht s
    place_mats (mat_idx + 1) sorted s'

  abbrev pub finish : ℕ → Cursor → StackedLayout
  finish height s = record {
    l_skip = l_skip;
    height = height;
    width = s.col_idx + (if s.row_idx == 0 then 0 else 1);
    sorted_cols = s.sorted_cols;
    mat_starts = s.mat_starts;
  }

  unfoldable pub new_layout : List (ℕ × ℕ) → Outcome LayoutError StackedLayout
  new_layout sorted = do
    s ← place_mats 0 sorted start
    height ← shift_left log_stacked_height
    ok (finish height s)

  -- The check of `from_raw_parts`: the matrices occur in order, none left out.
  unfoldable pub raw_starts : ℕ → List SortedCol → List ℕ → Outcome LayoutError (List ℕ)
  raw_starts idx [] mat_starts = ok mat_starts
  raw_starts idx ((mat_idx, j, s) ∷ cols) mat_starts =
      let pushed = raw_starts (idx + 1) cols (mat_starts ++ idx ∷ []) in
      let kept = raw_starts (idx + 1) cols mat_starts in
      if idx == 0 || not (mat_idx + 1 == length mat_starts)
      then (if not (mat_idx == length mat_starts)
          then err (raw_parts_mat_idx mat_idx (length mat_starts))
          else pushed)
      else kept

  abbrev pub max_width : List SortedCol → ℕ
  max_width [] = 0
  max_width ((mat_idx, j, s) ∷ cols) = max (s.col_idx + 1) (max_width cols)

  unfoldable pub from_raw_parts : List SortedCol → Outcome LayoutError StackedLayout
  from_raw_parts cols = do
    height ← shift_left log_stacked_height
    mat_starts ← raw_starts 0 cols []
    ok (record {
      l_skip = l_skip;
      height = height;
      width = max_width cols;
      sorted_cols = cols;
      mat_starts = mat_starts;
    })

abbrev pub slice_of : Option SortedCol → Option StackedSlice
slice_of none = none
slice_of (some (mat_idx, j, s)) = some s

-- `get`
unfoldable pub get_slice : StackedLayout → ℕ → ℕ → Outcome ⊥ (Option StackedSlice)
get_slice layout mat_idx col_idx = do
  idx ← index layout.mat_starts mat_idx
  ok (slice_of (get_elem? layout.sorted_cols (idx + col_idx)))

abbrev pub or_else : Option ℕ → ℕ → ℕ
or_else none d = d
or_else (some n) d = n

abbrev pub checked_sub : ℕ → ℕ → Outcome ⊥ ℕ
checked_sub a b = if leb b a then ok (a - b) else panic

unfoldable pub width_of : StackedLayout → ℕ → Outcome ⊥ ℕ
width_of layout mat_idx = do
  start_idx ← index layout.mat_starts mat_idx
  checked_sub (or_else (get_elem? layout.mat_starts (mat_idx + 1)) (length layout.sorted_cols))
      start_idx
