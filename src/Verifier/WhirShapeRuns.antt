-- ===== src/Verifier/WhirShapeRuns.antt =====
-- The loops of the WHIR section of `verify_proof_shape`,
-- crates/stark-backend/src/verifier/proof_shape.rs.
use stark_backend.Prelude.{
  ℕ, zero, suc, ◌+◌, ◌-◌, ◌*◌, ◌^◌, ◌<◌, ◌≤◌, ◌≡◌, refl, sym, ap, subst, ◌∙◌, List, [], ◌∷◌, length,
  mul_step, ◌==◌, ==→eq, All, pow_pos, arith,
}
use stark_backend.Prelude.Outcome.{Outcome, ok, ◌>>=◌}
use stark_backend.Prelude.Ends.{
  Ends, Ends-index, Ends-index-All, Ends-bind, Ends-map, Ends-check, Ends-return,
}
use native.Mathlib.Nat.{le-mul_of_pos_right}
use stark_backend.Prelude.Machine.{to_usize-ok, minus-ok, shift_left-ok}
use stark_backend.Codec.Config.{Config}
use stark_backend.Proof.Whir.{row_width}
use stark_backend.Proof.WhirParts.{HasRows, HasDepths}
use stark_backend.Verifier.WhirShape.{
  SystemParams, WhirRoundConfig, WhirProofShapeError, Checked, each_length, check_rows,
  check_initial, check_codewords,
}

-- Code that returns a value goes on with it.
pub Ends-known {ℓ} :
    {E : Type 0} {A B : Type ℓ} {m : Outcome E A} {a : A} (P : B → Type 0) (f : A → Outcome E B)
    → m ≡ ok a
    → Ends P (f a)
    → Ends P (m >>= f)
Ends-known P f e h = rw e h

module _ {A : Type 0} where
  each_length-Ends :
      (refuse : ℕ → ℕ → ℕ → WhirProofShapeError) (expected : Checked ℕ) (n i : ℕ)
      (xs : List (List A))
      → expected ≡ ok n
      → Ends (λ _. All (λ x. length x ≡ n) xs) (each_length refuse expected i xs)
  unfolding each_length
  each_length-Ends refuse expected n i [] e = Ends-return _ _ _ tt
  each_length-Ends refuse expected n i (x ∷ xs) e = Ends-known _ _ e (
      Ends-check _ (length x == n) _ _ (λ h.
        Ends-map _ _ _ (λ _ all. (==→eq _ _ h, all))
          (each_length-Ends refuse expected n (i + 1) xs e)))

  check_rows-Ends :
      (params : SystemParams) (commit_idx width i : ℕ) (xs : List (List (List A)))
      → params.whir.k < 64
      → Ends
          (λ _.
            All
              (λ rows. (length rows ≡ 2 ^ params.whir.k) × All (λ row. length row ≡ width) rows)
              xs)
          (check_rows params commit_idx width i xs)
  unfolding check_rows
  check_rows-Ends params commit_idx width i [] lt = Ends-return _ _ _ tt
  check_rows-Ends params commit_idx width i (rows ∷ xs) lt =
      Ends-known _ _ (shift_left-ok params.whir.k lt) (
        Ends-check _ (length rows == 2 ^ params.whir.k) _ _ (λ h.
          Ends-bind (λ _. All (λ row. length row ≡ width) rows) _ _ _
            (each_length-Ends _ (ok width) width 0 rows refl)
            (λ _ all.
              Ends-map _ _ _ (λ _ rest. ((==→eq _ _ h, all), rest))
                (check_rows-Ends params commit_idx width (i + 1) xs lt))))

  -- The width of the rows is that of the first one.
  row_width-All :
      (n width : ℕ) (xs : List (List (List A)))
      → 0 < n
      → 0 < length xs
      → All (λ rows. (length rows ≡ n) × All (λ row. length row ≡ width) rows) xs
      → width ≡ row_width xs
  row_width-All n width [] pos some all = absurd (omega arith)
  row_width-All n width ([] ∷ xs) pos some all = absurd (omega (arith, all.0.0))
  row_width-All n width ((row ∷ rows) ∷ xs) pos some all = sym all.0.1.0

-- Positive factors.
pub add-le-mul : (i n k : ℕ) → i < n → 0 < k → i + k ≤ n * k
add-le-mul i n k lt pos = omega (arith, mul_step i n k lt, le-mul_of_pos_right i pos)

module _ (c : Config) (params : SystemParams) (height : ℕ) (lt : params.whir.k < 64)
    (fits : height + params.log_blowup < 2 ^ 64) where
  pub check_initial-Ends :
      (queries i : ℕ) (openings : List (List c.EF)) (rows : List (List (List (List c.F))))
      (proofs : List (List (List c.Digest)))
      → 0 < queries
      → length rows ≡ length proofs
      → i + length rows ≡ length openings
      → Ends
          (λ _.
            All (HasRows c queries (2 ^ params.whir.k)) rows
            × All
                (λ ps.
                  (length ps ≡ queries)
                  × All
                      (λ (p : List c.Digest). length p ≡ height + params.log_blowup - params.whir.k)
                      ps)
                proofs)
          (check_initial c params height queries openings i rows proofs)
  unfolding check_initial
  check_initial-Ends queries i openings [] [] pos same more = Ends-return _ _ _ (tt, tt)
  check_initial-Ends queries i openings [] (p ∷ ps) pos same more = absurd (omega arith)
  check_initial-Ends queries i openings (r ∷ rs) [] pos same more = absurd (omega arith)
  check_initial-Ends queries i openings (r ∷ rs) (p ∷ ps) pos same more =
      Ends-check _ (length r == queries) _ _ (λ e. Ends-check _ (length p == queries) _ _ (λ e'.
        Ends-bind (λ _. Unit {0}) _ _ _ (Ends-index _ openings i (omega arith))
          (λ opening _.
            Ends-bind
              (λ _.
                All
                  (λ t. (length t ≡ 2 ^ params.whir.k) × All (λ row. length row ≡ length opening) t)
                  r)
              _ _ _ (check_rows-Ends params i (length opening) 0 r lt)
              (λ _ all. Ends-known _ _ (to_usize-ok _ fits) (
                Ends-bind (λ _. All (λ q. length q ≡ height + params.log_blowup - params.whir.k) p)
                  _ _ _ (each_length-Ends _ _ _ 0 p refl)
                  (λ _ deep.
                    Ends-map _ _ _
                      (λ _ rest. (
                        (
                          (
                            ==→eq _ _ e,
                            subst
                                (λ (w : ℕ).
                                  All
                                    (λ t.
                                      (length t ≡ 2 ^ params.whir.k)
                                      × All (λ row. length row ≡ w) t)
                                    r)
                                (row_width-All (2 ^ params.whir.k) (length opening) r
                                  (pow_pos params.whir.k) (omega (arith, ==→eq _ _ e)) all)
                                all,
                          ),
                          rest.0,
                        ),
                        ((==→eq _ _ e', deep), rest.1),
                      ))
                      (check_initial-Ends queries (i + 1) openings rs ps pos (omega arith)
                        (omega arith))))))))

  pub check_codewords-Ends :
      (count round depth : ℕ) (values : List (List (List c.EF)))
      (proofs : List (List (List c.Digest)))
      → length values ≡ count
      → length proofs ≡ count
      → round + count ≤ length params.whir.rounds
      → All (λ (r : WhirRoundConfig). 0 < r.num_queries) params.whir.rounds
      → depth + round + params.whir.k ≡ height + params.log_blowup
      → count ≤ depth
      → Ends
          (λ _.
            HasDepths c depth values proofs
            × All (λ (ps : List (List c.Digest)). 0 < length ps) proofs
            × All (All (λ (vs : List c.EF). length vs ≡ 2 ^ params.whir.k)) values)
          (check_codewords c params height count round values proofs)
  unfolding check_codewords
  check_codewords-Ends zero round depth [] [] e e' le pos at deep = Ends-return _ _ _ (tt, tt, tt)
  check_codewords-Ends zero round depth [] (p ∷ ps) e e' le pos at deep = absurd (omega arith)
  check_codewords-Ends zero round depth (v ∷ vs) ps e e' le pos at deep = absurd (omega arith)
  check_codewords-Ends (suc count) round depth [] ps e e' le pos at deep = absurd (omega arith)
  check_codewords-Ends (suc count) round depth (v ∷ vs) [] e e' le pos at deep =
      absurd (omega arith)
  check_codewords-Ends (suc count) round depth (v ∷ vs) (p ∷ ps) e e' le pos at deep =
      Ends-bind (λ (r : WhirRoundConfig). 0 < r.num_queries) _ _ _
        (Ends-index-All _ _ params.whir.rounds round (omega arith) pos)
        (λ r some. Ends-check _ (length v == r.num_queries) _ _ (λ h.
          Ends-check _ (length p == r.num_queries) _ _ (λ h'.
            let eq : length v ≡ r.num_queries = ==→eq _ _ h in
            let eq' : length p ≡ r.num_queries = ==→eq _ _ h' in
            Ends-bind (λ _. All (λ x. length x ≡ 2 ^ params.whir.k) v) _ _ _
              (each_length-Ends _ _ _ 0 v (shift_left-ok params.whir.k lt))
              (λ _ long. Ends-known _ _ (to_usize-ok _ fits) (
                Ends-known _ _ (minus-ok _ _ (omega arith)) (
                  Ends-known _ _ (minus-ok _ _ (omega arith)) (
                    Ends-bind (λ _. All (λ x. length x ≡ depth) p) _ _ _
                      (each_length-Ends _ _ _ 0 p (ap ok (omega arith)))
                      (λ _ all.
                        Ends-map _ _ _
                          (λ _ rest. (
                            (eq' ∙ sym eq, all, omega arith, rest.0),
                            (omega arith, rest.1),
                            (long, rest.2),
                          ))
                          (check_codewords-Ends count (round + 1) (depth - 1) vs ps (omega arith)
                            (omega arith) (omega arith) pos (omega arith) (omega arith))))))))))
