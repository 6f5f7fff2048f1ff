-- ===== src/Stacked/Filling.antt =====
-- The columns that `stacked_matrix` of crates/stark-backend/src/prover/stacked_pcs.rs writes.
use stark_backend.Prelude.{
  ℕ, ◌+◌, ◌-◌, ◌*◌, ◌^◌, ◌≤◌, ◌<◌, ◌≡◌, refl, sym, ap, subst, ◌∙◌, List, [], ◌∷◌, ◌++◌,
  append_assoc, length, map, replicate, replicate-add, length-append, leb, Bool-cases, inl, inr,
  leb→le, pow_pos, pow-add, arith,
}
use stark_backend.Prelude.Outcome.{ok, index}
use stark_backend.Prelude.Machine.{shift_left, shift_left-ok}
use stark_backend.Stacked.Layout.{lifted_len, span, stride, SortedCol}
use stark_backend.Stacked.Fitting.{lifted, lifted_len-pow, Column, column_of, position, Contiguous}
use stark_backend.Stacked.Matrix.{ColMajorMatrix, column}
use stark_backend.Stacked.Stacking.{write_col, write_cols}
use stark_backend.Stacked.Spread.{
  spread, spread-one, length-spread, write_strided-zeros, copy_at-zeros,
}

-- The distance between two values of a column in the stacked matrix.
abbrev pub step_of : ℕ → ℕ → ℕ
step_of l_skip log_ht = 2 ^ (l_skip - log_ht)

-- The cells of a list of columns.
abbrev pub size : ℕ → List SortedCol → ℕ
size l_skip [] = 0
size l_skip (c ∷ cols) = span c.2 l_skip + size l_skip cols

pub lifted_len-steps :
    (l_skip log_ht : ℕ) → lifted_len log_ht l_skip ≡ 2 ^ log_ht * step_of l_skip log_ht
lifted_len-steps l_skip log_ht =
    let e : lifted log_ht l_skip ≡ log_ht + (l_skip - log_ht) = omega arith in
    lifted_len-pow log_ht l_skip ∙ ap (λ (t : ℕ). 2 ^ t) e ∙ pow-add log_ht (l_skip - log_ht)

pub Contiguous-size :
    (l_skip log_height p q : ℕ) (cols : List SortedCol)
    → Contiguous l_skip log_height p cols q
    → q ≡ p + size l_skip cols
Contiguous-size l_skip log_height p q [] h = omega arith
Contiguous-size l_skip log_height p q (c ∷ cols) h =
    omega (arith, Contiguous-size l_skip log_height (p + span c.2 l_skip) q cols h.1)

module _ {F : Type 0} (zero_f : F) (l_skip : ℕ) (traces : List (ColMajorMatrix F)) where
  -- These columns of the traces, spread out one after the other, are these values.
  abbrev pub Reads : List Column → List F → Type 0
  Reads [] out = out ≡ []
  Reads (c ∷ cols) out =
      (trace : ColMajorMatrix F) × (vals : List F) × (rest : List F) × (index {E = ⊥} traces c.0
        ≡ ok trace)
      × (column trace c.1 ≡ ok vals)
      × (length vals ≡ 2 ^ c.2)
      × (out ≡ spread zero_f (step_of l_skip c.2) vals ++ rest)
      × Reads cols rest

  pub Reads-append :
      (cs ds : List Column) (xs ys : List F)
      → Reads cs xs
      → Reads ds ys
      → Reads (cs ++ ds) (xs ++ ys)
  Reads-append [] ds xs ys h g = rw h g
  Reads-append (c ∷ cs) ds xs ys (t, vals, rest, e, f, n, o, h) g = (
    t,
    vals,
    rest ++ ys,
    e,
    f,
    n,
    ap (λ (l : List F). l ++ ys) o ∙ append_assoc (spread zero_f (step_of l_skip c.2) vals) rest ys,
    Reads-append cs ds rest ys h g,
  )

  pub length-Reads :
      (cols : List SortedCol) (out : List F)
      → Reads (map column_of cols) out
      → length out ≡ size l_skip cols
  length-Reads [] out h = ap length h
  length-Reads (c ∷ cols) out (t, vals, rest, e, f, n, o, h) =
      let step : ℕ = step_of l_skip c.2.log_height in
      omega (
        arith,
        ap length o,
        length-append (spread zero_f step vals) rest,
        length-spread zero_f step vals (pow_pos (l_skip - c.2.log_height)),
        ap (λ (t : ℕ). t * step) n,
        lifted_len-steps l_skip c.2.log_height,
        length-Reads cols rest h,
      )

  module _ (log_height : ℕ) (narrow : l_skip < 64) where
    write_col-zeros :
        (c : SortedCol) (trace : ColMajorMatrix F) (vals done rest : List F)
        → index {E = ⊥} traces c.0 ≡ ok trace
        → column trace c.1 ≡ ok vals
        → length vals ≡ 2 ^ c.2.log_height
        → position l_skip log_height c.2 ≡ length done
        → write_col l_skip
            (2 ^ log_height)
            traces
            c
            (done ++ (replicate (span c.2 l_skip) zero_f ++ rest))
          ≡ ok (done ++ (spread zero_f (step_of l_skip c.2.log_height) vals ++ rest))
    unfolding write_col stride
    write_col-zeros (m, j, s) trace vals done rest e f n at =
        elim (Bool-cases (leb l_skip s.log_height)) [
          | inl tall ↦
              let above : l_skip ≤ s.log_height = leb→le l_skip s.log_height tall in
              let none_left : l_skip - s.log_height ≡ 0 = omega arith in
              let one : 2 ^ 0 ≡ 1 = omega arith in
              let all : span s l_skip ≡ length vals = omega (
                arith,
                lifted_len-steps l_skip s.log_height,
                ap (λ (t : ℕ). 2 ^ s.log_height * 2 ^ t) none_left,
              ) in
              rw (e, f, tall, at, all, none_left, one, spread-one zero_f vals)
                (copy_at-zeros zero_f vals done rest)
          | inr short ↦
              let all : span s l_skip ≡ length vals * step_of l_skip s.log_height = omega (
                arith,
                lifted_len-steps l_skip s.log_height,
                ap (λ (t : ℕ). t * step_of l_skip s.log_height) n,
              ) in
              let step : shift_left {E = ⊥} (l_skip - s.log_height)
                  ≡ ok (2 ^ (l_skip - s.log_height)) =
                shift_left-ok (l_skip - s.log_height) (omega arith) in
              rw (e, f, short, step, at, all)
                (write_strided-zeros zero_f (length done) (step_of l_skip s.log_height) 0 vals done
                  rest (pow_pos (l_skip - s.log_height)) (omega arith))
        ]

    -- The columns go one after the other into the zeros behind what is written.
    pub write_cols-zeros :
        (cols : List SortedCol) (out done : List F) (n q : ℕ)
        → Contiguous l_skip log_height (length done) cols q
        → Reads (map column_of cols) out
        → size l_skip cols ≤ n
        → write_cols l_skip (2 ^ log_height) traces cols (done ++ replicate n zero_f)
          ≡ ok (done ++ (out ++ replicate (n - size l_skip cols) zero_f))
    unfolding write_cols
    write_cols-zeros [] out done n q h g le = let e : n - 0 ≡ n = omega arith in rw (g, e) refl
    write_cols-zeros (c ∷ cols) out done n q (at, h) (t, vals, rest, e, f, len_eq, o, g) le =
        let l : ℕ = span c.2 l_skip in
        let own : List F = spread zero_f (step_of l_skip c.2.log_height) vals in
        let split : n ≡ l + (n - l) = omega arith in
        let left : (n - l) - size l_skip cols ≡ n - (l + size l_skip cols) = omega arith in
        let begun : length (done ++ own) ≡ length done + l = omega (
          arith,
          length-append done own,
          length-spread zero_f (step_of l_skip c.2.log_height) vals
              (pow_pos (l_skip - c.2.log_height)),
          ap (λ (t : ℕ). t * step_of l_skip c.2.log_height) len_eq,
          lifted_len-steps l_skip c.2.log_height,
        ) in
        let zeros : replicate n zero_f ≡ replicate l zero_f ++ replicate (n - l) zero_f =
          ap (λ (t : ℕ). replicate t zero_f) split ∙ replicate-add l (n - l) zero_f in
        let first : write_col l_skip (2 ^ log_height) traces c (done ++ replicate n zero_f)
            ≡ ok ((done ++ own) ++ replicate (n - l) zero_f) =
          rw (zeros, append_assoc done own (replicate (n - l) zero_f))
            (write_col-zeros c t vals done (replicate (n - l) zero_f) e f len_eq at) in
        let others =
          write_cols-zeros cols rest (done ++ own) (n - l) q
            (subst (λ (t : ℕ). Contiguous l_skip log_height t cols q) (sym begun) h) g
            (omega arith) in
        rw first (
          others
          ∙ ap ok (
              append_assoc done own (rest ++ replicate ((n - l) - size l_skip cols) zero_f)
              ∙ ap (λ (x : List F). done ++ x)
                  (sym (append_assoc own rest (replicate ((n - l) - size l_skip cols) zero_f))
                    ∙ ap (λ (x : List F). x ++ replicate ((n - l) - size l_skip cols) zero_f)
                        (sym o)
                    ∙ ap (λ (t : ℕ). out ++ replicate t zero_f) left)))
