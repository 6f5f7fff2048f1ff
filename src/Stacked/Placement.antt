-- ===== src/Stacked/Placement.antt =====
-- The layout that `StackedLayout::new` of crates/stark-backend/src/prover/stacked_pcs.rs returns.
use stark_backend.Prelude.{
  ℕ, ◌+◌, ◌*◌, ◌^◌, ◌≤◌, ◌<◌, ◌≡◌, refl, sym, List, map, ◌==◌, Bool-cases, inl, inr, ==→eq,
  Divides-zero, pow_pos, arith,
}
use stark_backend.Prelude.Outcome.{ok}
use stark_backend.Prelude.Machine.{shift_left, shift_left-ok}
use stark_backend.Stacked.Layout.{LayoutError, StackedLayout, Cursor, start, finish, new_layout}
use stark_backend.Stacked.Fitting.{
  lifted, Roomy, Roomy-le, column_of, reached, used, IsPlaced, Within, Contiguous,
}
use stark_backend.Stacked.Placing.{row, columns, starts, Descending, cells, place_mats_fits}

-- What a layout of matrices with these widths and heights promises.
pub record IsLayout (l_skip log_height : ℕ) (sorted : List (ℕ × ℕ)) (layout : StackedLayout)
    : Type 0 where
  -- Every column is there, matrix by matrix, with its own height.
  pub all-columns : map column_of layout.sorted_cols ≡ columns 0 sorted
  pub all-starts : layout.mat_starts ≡ starts 0 sorted
  -- The slices lie one after the other from the first cell on, without a gap.
  pub no-gap : Contiguous l_skip log_height 0 layout.sorted_cols (cells l_skip log_height sorted)
  -- No slice crosses the end of a column of the stacked matrix.
  pub within : Within l_skip log_height layout.width layout.sorted_cols
  -- The width is the least that has room.
  pub enough : cells l_skip log_height sorted ≤ layout.width * 2 ^ log_height
  pub least : layout.width * 2 ^ log_height < cells l_skip log_height sorted + 2 ^ log_height
  pub same-height : layout.height ≡ 2 ^ log_height
  pub same-skip : layout.l_skip ≡ l_skip

module _ (l_skip log_height : ℕ) where
  start-IsPlaced : (k : ℕ) → IsPlaced l_skip log_height k start
  start-IsPlaced k = record {
    row-le = omega (arith, pow_pos log_height);
    aligned = Divides-zero (2 ^ k);
    contiguous = omega arith;
    within = tt;
  }

  -- The columns in use have room for what is placed, and one column fewer has not.
  used-room :
      (s : Cursor)
      → s.row_idx ≤ 2 ^ log_height
      → (reached l_skip log_height s ≤ used l_skip log_height s * 2 ^ log_height)
        × (used l_skip log_height s * 2 ^ log_height < reached l_skip log_height s + 2 ^ log_height)
  used-room s le = elim (Bool-cases (s.row_idx == 0)) [
    | inl empty ↦
        let none_used : s.row_idx ≡ 0 = ==→eq s.row_idx 0 empty in
        rw empty (omega arith, omega (arith, pow_pos log_height))
    | inr row ↦ rw row (omega arith, ground arith)
  ]

  -- For a stacked height below 2^64 and not below 2^l_skip, heights that descend from one that fits,
  -- and either a stacked height below 2^63 or fewer than 2^64 cells, `new` neither overflows, in an
  -- integer or in a row, nor refuses a height: the layout it returns lists every column of every matrix
  -- in order, puts the slices one after the other without a gap or an overlap, keeps each in one
  -- column, and is as narrow as possible.
  pub new_layout-IsLayout :
      (bound : ℕ) (sorted : List (ℕ × ℕ))
      → l_skip ≤ log_height
      → bound ≤ log_height
      → Descending bound sorted
      → log_height < 64
      → Roomy l_skip log_height (cells l_skip log_height sorted)
      → (layout : StackedLayout) × (new_layout l_skip log_height sorted ≡ ok layout)
        × IsLayout l_skip log_height sorted layout
  unfolding new_layout
  new_layout-IsLayout bound sorted skip fits d small roomy =
      let (s, ran, k, m) =
        place_mats_fits l_skip log_height 0 bound sorted start (omega arith) d small
          (Roomy-le l_skip log_height _ (cells l_skip log_height sorted) (omega arith) roomy)
          (start-IsPlaced (lifted bound l_skip)) in
      let all : reached l_skip log_height s ≡ cells l_skip log_height sorted =
        omega (arith, m.moved) in
      let height : shift_left {E = LayoutError} log_height ≡ ok (2 ^ log_height) =
        shift_left-ok log_height small in
      let room = used-room s m.placed.row-le in
      (
        finish l_skip log_height (2 ^ log_height) s,
        rw (ran, height) refl,
        record {
          all-columns = m.pushed;
          all-starts = m.started;
          no-gap = rw (sym all) m.placed.contiguous;
          within = m.placed.within;
          enough = omega (arith, room.0);
          least = omega (arith, room.1);
          same-height = refl;
          same-skip = refl;
        },
      )
