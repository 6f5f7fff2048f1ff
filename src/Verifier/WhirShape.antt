-- ===== src/Verifier/WhirShape.antt =====
-- The WHIR section of `verify_proof_shape`, crates/stark-backend/src/verifier/proof_shape.rs, with the
-- parameters that it reads, crates/stark-backend/src/config.rs. Of the layouts it reads their number.
-- `SystemParams` and `WhirConfig` have the fields that the section reads. A debug assertion is left out.
use stark_backend.Prelude.{
  ℕ, zero, suc, ◌+◌, ◌-◌, ◌*◌, List, [], ◌∷◌, length, ◌==◌, not, if◌then◌else◌,
}
use stark_backend.Prelude.Outcome.{Outcome, ok, err, ◌>>=◌, index, checked_pred}
use stark_backend.Prelude.Machine.{to_usize, minus, shift_left}
use stark_backend.Codec.Config.{Config}
use stark_backend.Proof.Whir.{WhirProof}

pub record WhirRoundConfig : Type 0 where
  pub num_queries : ℕ

pub record WhirConfig : Type 0 where
  pub k : ℕ
  pub rounds : List WhirRoundConfig

pub record SystemParams : Type 0 where
  pub l_skip : ℕ
  pub n_stack : ℕ
  pub log_blowup : ℕ
  pub whir : WhirConfig

pub data WhirProofShapeError : Type 0 where
  invalid_sumcheck_polys : ℕ → ℕ → WhirProofShapeError
  invalid_final_poly_len : ℕ → ℕ → WhirProofShapeError
  invalid_codeword_commits : ℕ → ℕ → WhirProofShapeError
  invalid_ood_values : ℕ → ℕ → WhirProofShapeError
  invalid_folding_pow_witnesses : ℕ → ℕ → WhirProofShapeError
  invalid_query_phase_pow_witnesses : ℕ → ℕ → WhirProofShapeError
  invalid_initial_round_opened_rows : ℕ → ℕ → WhirProofShapeError
  invalid_initial_round_merkle_proofs : ℕ → ℕ → WhirProofShapeError
  invalid_codeword_opened_rows : ℕ → ℕ → WhirProofShapeError
  invalid_codeword_merkle_proofs : ℕ → ℕ → WhirProofShapeError
  invalid_initial_round_opened_rows_queries : ℕ → ℕ → ℕ → WhirProofShapeError
  invalid_initial_round_merkle_proofs_queries : ℕ → ℕ → ℕ → WhirProofShapeError
  invalid_initial_round_opened_row_k : ℕ → ℕ → ℕ → ℕ → WhirProofShapeError
  invalid_initial_round_opened_row_width : ℕ → ℕ → ℕ → ℕ → WhirProofShapeError
  invalid_initial_round_merkle_proof_depth : ℕ → ℕ → ℕ → ℕ → WhirProofShapeError
  invalid_codeword_opened_rows_queries : ℕ → ℕ → ℕ → WhirProofShapeError
  invalid_codeword_merkle_proofs_queries : ℕ → ℕ → ℕ → WhirProofShapeError
  invalid_codeword_opened_values : ℕ → ℕ → ℕ → ℕ → WhirProofShapeError
  invalid_codeword_merkle_proof_depth : ℕ → ℕ → ℕ → ℕ → WhirProofShapeError

-- What a check returns.
abbrev pub Checked : Type 0 → Type 0
Checked A = Outcome WhirProofShapeError A

abbrev pub log_stacked_height : SystemParams → Checked ℕ
log_stacked_height params = to_usize (params.l_skip + params.n_stack)

abbrev pub num_whir_rounds : SystemParams → ℕ
num_whir_rounds params = length params.whir.rounds

abbrev pub num_whir_sumcheck_rounds : SystemParams → Checked ℕ
num_whir_sumcheck_rounds params = to_usize (length params.whir.rounds * params.whir.k)

unfoldable pub log_final_poly_len : SystemParams → Checked ℕ
log_final_poly_len params = do
  height ← log_stacked_height params
  folded ← num_whir_sumcheck_rounds params
  minus height folded

-- The loop over lists that are each to have the length that `expected` computes, from index `i` on.
unfoldable pub each_length :
    {A : Type 0}
    → (ℕ → ℕ → ℕ → WhirProofShapeError)
    → Checked ℕ
    → ℕ
    → List (List A)
    → Checked (Unit {0})
each_length refuse expected i [] = ok tt
each_length refuse expected i (x ∷ xs) = do
  n ← expected
  if not (length x == n)
      then err (refuse i n (length x))
      else each_length refuse expected (i + 1) xs

-- The opened rows of one commit, from query `opened_idx` on.
unfoldable pub check_rows :
    {A : Type 0} → SystemParams → ℕ → ℕ → ℕ → List (List (List A)) → Checked (Unit {0})
check_rows params commit_idx width opened_idx [] = ok tt
check_rows params commit_idx width opened_idx (rows ∷ more) = do
  n ← shift_left params.whir.k
  if not (length rows == n)
      then err (invalid_initial_round_opened_row_k opened_idx commit_idx n (length rows))
      else (do
        _ ←
            each_length (λ row_idx. invalid_initial_round_opened_row_width row_idx commit_idx)
              (ok width) 0 rows
        check_rows params commit_idx width (opened_idx + 1) more)

module _ (c : Config) where
  -- The commits of the initial round, from `commit_idx` on.
  unfoldable pub check_initial :
      SystemParams
      → ℕ
      → ℕ
      → List (List c.EF)
      → ℕ
      → List (List (List (List c.F)))
      → List (List (List c.Digest))
      → Checked (Unit {0})
  check_initial params height queries openings commit_idx [] [] = ok tt
  check_initial params height queries openings commit_idx [] (p ∷ ps) = ok tt
  check_initial params height queries openings commit_idx (r ∷ rs) [] = ok tt
  check_initial params height queries openings commit_idx (opened_rows ∷ rs) (proofs ∷ ps) =
      if not (length opened_rows == queries)
      then err (invalid_initial_round_opened_rows_queries commit_idx queries (length opened_rows))
      else if not (length proofs == queries)
      then err (invalid_initial_round_merkle_proofs_queries commit_idx queries (length proofs))
      else (do
        opening ← index openings commit_idx
        _ ← check_rows params commit_idx (length opening) 0 opened_rows
        log_domain ← to_usize (height + params.log_blowup)
        _ ←
            each_length
              (λ opened_idx. invalid_initial_round_merkle_proof_depth opened_idx commit_idx)
              (ok (log_domain - params.whir.k)) 0 proofs
        check_initial params height queries openings (commit_idx + 1) rs ps)

  -- The rounds after the initial one, from `round` on, `count` of them at most.
  unfoldable pub check_codewords :
      SystemParams
      → ℕ
      → ℕ
      → ℕ
      → List (List (List c.EF))
      → List (List (List c.Digest))
      → Checked (Unit {0})
  check_codewords params height zero round vs ps = ok tt
  check_codewords params height (suc count) round [] ps = ok tt
  check_codewords params height (suc count) round (v ∷ vs) [] = ok tt
  check_codewords params height (suc count) round (values ∷ vs) (proofs ∷ ps) = do
    config ← index params.whir.rounds round
    if not (length values == config.num_queries)
        then err (invalid_codeword_opened_rows_queries round config.num_queries (length values))
        else if not (length proofs == config.num_queries)
        then err (invalid_codeword_merkle_proofs_queries round config.num_queries (length proofs))
        else (do
          _ ← each_length (invalid_codeword_opened_values round) (shift_left params.whir.k) 0 values
          log_domain ← to_usize (height + params.log_blowup)
          folded ← minus log_domain params.whir.k
          merkle_depth ← minus folded round
          _ ← each_length (invalid_codeword_merkle_proof_depth round) (ok merkle_depth) 0 proofs
          check_codewords params height count (round + 1) vs ps)

  -- The two loops, where `rounds` rounds follow the initial one.
  unfoldable pub check_rounds :
      SystemParams → ℕ → ℕ → List (List c.EF) → WhirProof c → Checked (Unit {0})
  check_rounds params height rounds openings x = do
    initial ← index params.whir.rounds 0
    _ ←
        check_initial params height initial.num_queries openings 0 x.initial_round_opened_rows
          x.initial_round_merkle_proofs
    check_codewords params height rounds 1 x.codeword_opened_values x.codeword_merkle_proofs

  -- The section, for `num_layouts` layouts and the openings of the stacking proof.
  unfoldable pub check_whir : SystemParams → ℕ → List (List c.EF) → WhirProof c → Checked (Unit {0})
  check_whir params num_layouts openings x = do
    height ← log_stacked_height params
    foldings ← num_whir_sumcheck_rounds params
    if not (length x.whir_sumcheck_polys == foldings)
        then err (invalid_sumcheck_polys foldings (length x.whir_sumcheck_polys))
        else (do
          rounds ← checked_pred (num_whir_rounds params)
          if not (length x.codeword_commits == rounds)
              then err (invalid_codeword_commits rounds (length x.codeword_commits))
              else if not (length x.ood_values == rounds)
              then err (invalid_ood_values rounds (length x.ood_values))
              else if not (length x.folding_pow_witnesses == foldings)
              then err (invalid_folding_pow_witnesses foldings (length x.folding_pow_witnesses))
              else if not (length x.query_phase_pow_witnesses == num_whir_rounds params)
              then err (
                  invalid_query_phase_pow_witnesses (num_whir_rounds params)
                    (length x.query_phase_pow_witnesses))
              else if not (length x.initial_round_opened_rows == num_layouts)
              then err (
                  invalid_initial_round_opened_rows num_layouts
                    (length x.initial_round_opened_rows))
              else if not (length x.initial_round_merkle_proofs == num_layouts)
              then err (
                  invalid_initial_round_merkle_proofs num_layouts
                    (length x.initial_round_merkle_proofs))
              else if not (length x.codeword_opened_values == rounds)
              then err (invalid_codeword_opened_rows rounds (length x.codeword_opened_values))
              else if not (length x.codeword_merkle_proofs == rounds)
              then err (invalid_codeword_merkle_proofs rounds (length x.codeword_merkle_proofs))
              else (do
                log_len ← log_final_poly_len params
                final ← shift_left log_len
                if not (length x.final_poly == final)
                    then err (invalid_final_poly_len final (length x.final_poly))
                    else check_rounds params height rounds openings x))
