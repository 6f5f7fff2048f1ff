-- ===== src/Stacked/Matrix.antt =====
-- Column-major matrices: crates/stark-backend/src/prover/matrix.rs. Debug assertions are left out;
-- reads that are not checked return the zero of the field when they are out of range.
use stark_backend.Prelude.{
  ℕ, zero, suc, ◌+◌, ◌*◌, ◌/◌, ◌%◌, ◌^◌, Bool, List, [], ◌∷◌, length, get_or, sub_slice, ◌==◌, ◌||◌,
}
use stark_backend.Prelude.Outcome.{Outcome, ok, panic, assert, ◌>>=◌}

pub record ColMajorMatrix (F : Type 0) : Type 0 where
  pub values : List F
  pub width : ℕ
  pub height : ℕ

-- `is_power_of_two`, for the exponents from 0 up to the first argument.
abbrev pub power_among : ℕ → ℕ → Bool
power_among zero n = n == 1
power_among (suc k) n = n == 2 ^ suc k || power_among k n

abbrev pub is_power_of_two : ℕ → Bool
is_power_of_two n = power_among n n

-- `a % b`, which panics on zero.
abbrev pub checked_rem : ℕ → ℕ → Outcome ⊥ ℕ
checked_rem a zero = panic
checked_rem a (suc b) = ok (a % suc b)

abbrev pub col_maj_idx : ℕ → ℕ → ℕ → ℕ
col_maj_idx row_idx col_idx height = col_idx * height + row_idx

module _ {F : Type 0} where
  -- `ColMajorMatrix::new`
  unfoldable pub new_matrix : List F → ℕ → Outcome ⊥ (ColMajorMatrix F)
  new_matrix values width = do
    rem ← checked_rem (length values) width
    _ ← assert (rem == 0)
    _ ← assert (is_power_of_two (length values / width))
    ok (record { values = values; width = width; height = length values / width })

  unfoldable pub column : ColMajorMatrix F → ℕ → Outcome ⊥ (List F)
  column m col_idx = sub_slice m.values (col_idx * m.height) m.height

-- `StridedColMajorMatrixView`
pub record StridedView (F : Type 0) : Type 0 where
  pub values : List F
  pub width : ℕ
  pub height : ℕ
  pub stride : ℕ

module _ {F : Type 0} where
  -- `StridedColMajorMatrixView::new`
  unfoldable pub new_view : List F → ℕ → ℕ → Outcome ⊥ (StridedView F)
  new_view values width stride = do
    rem ← checked_rem (length values) (width * stride)
    _ ← assert (rem == 0)
    ok (record {
      values = values;
      width = width;
      height = length values / (width * stride);
      stride = stride;
    })

  module _ (zero_f : F) where
    unfoldable pub get_unchecked : StridedView F → ℕ → ℕ → F
    get_unchecked v row_idx col_idx =
        get_or v.values (col_maj_idx (row_idx * v.stride) col_idx (v.height * v.stride)) zero_f

    -- The reads of `to_matrix`, `count` of them from index `i` on.
    unfoldable pub view_values : StridedView F → ℕ → ℕ → List F
    view_values v i zero = []
    view_values v i (suc count) =
        get_unchecked v (i % v.height) (i / v.height) ∷ view_values v (i + 1) count

    unfoldable pub to_matrix : StridedView F → Outcome ⊥ (ColMajorMatrix F)
    to_matrix v = new_matrix (view_values v 0 (v.width * v.height)) v.width
