-- ===== src/Verifier/WhirShapeRounds.antt =====
-- The rounds of the WHIR section of `verify_proof_shape`,
-- crates/stark-backend/src/verifier/proof_shape.rs, under parameters that it does not panic for.
use stark_backend.Prelude.{
  ℕ, ◌+◌, ◌-◌, ◌*◌, ◌^◌, ◌<◌, ◌≤◌, ◌≡◌, refl, ap, List, [], ◌∷◌, length, ltb, lt→ltb, All,
  if◌then◌else◌, arith,
}
use stark_backend.Prelude.Outcome.{ok}
use stark_backend.Prelude.Ends.{Ends, Ends-index-All, Ends-bind, Ends-map}
use stark_backend.Codec.Config.{Config}
use stark_backend.Proof.Whir.{WhirProof, first_depth, first_length}
use stark_backend.Proof.WhirParts.{HasRows, HasDepths}
use stark_backend.Verifier.WhirShape.{SystemParams, WhirRoundConfig, check_rounds}
use stark_backend.Verifier.WhirShapeRuns.{add-le-mul, check_initial-Ends, check_codewords-Ends}

-- `log_stacked_height`
abbrev pub height : SystemParams → ℕ
height params = params.l_skip + params.n_stack

-- Parameters that the section does not panic for: at least one round, each with a query, a folding
-- factor from 1 to 63, foldings that leave between 0 and 63 of the logarithm of the stacked height, a
-- rate below 1, and a codeword height whose logarithm is a `usize`.
pub record IsWhirConfig (params : SystemParams) : Type 0 where
  pub rounds-pos : 0 < length params.whir.rounds
  pub queries-pos : All (λ (r : WhirRoundConfig). 0 < r.num_queries) params.whir.rounds
  pub k-pos : 0 < params.whir.k
  pub k-lt : params.whir.k < 64
  pub foldings : length params.whir.rounds * params.whir.k ≤ height params
  pub final : height params - length params.whir.rounds * params.whir.k < 64
  pub rate : 0 < params.log_blowup
  pub fits : height params + params.log_blowup < 2 ^ 64

-- The depth of the Merkle proofs of the initial round, and of the round after it (0 without one).
abbrev pub initial_depth : SystemParams → ℕ
initial_depth params = height params + params.log_blowup - params.whir.k

abbrev pub codeword_depth : SystemParams → ℕ
codeword_depth params = if ltb 1 (length params.whir.rounds) then initial_depth params - 1 else 0

module _ (c : Config) where
  first_depth-HasDepths :
      (depth : ℕ) (values : List (List (List c.EF))) (proofs : List (List (List c.Digest)))
      → 0 < length proofs
      → HasDepths c depth values proofs
      → All (λ (ps : List (List c.Digest)). 0 < length ps) proofs
      → first_depth proofs ≡ ok depth
  first_depth-HasDepths depth [] [] some h pos = absurd (omega arith)
  first_depth-HasDepths depth (v ∷ vs) [] some h pos = absurd (omega arith)
  first_depth-HasDepths depth [] (p ∷ ps) some h pos = absurd h
  first_depth-HasDepths depth (v ∷ vs) ([] ∷ ps) some h pos = absurd (omega (arith, pos.0))
  first_depth-HasDepths depth (v ∷ vs) ((p ∷ more) ∷ ps) some h pos = ap ok h.1.0

  first_length-HasRows :
      (queries n : ℕ) (rows : List (List (List (List c.F))))
      → 0 < length rows
      → All (HasRows c queries n) rows
      → first_length rows ≡ queries
  first_length-HasRows queries n [] some h = absurd (omega arith)
  first_length-HasRows queries n (r ∷ rs) some h = h.0.0

  -- The depth that the encoding writes for the rounds after the initial one, `n` rounds in all.
  codeword_depth-lem :
      (n depth : ℕ) (values : List (List (List c.EF))) (proofs : List (List (List c.Digest)))
      → length values + 1 ≡ n
      → length proofs + 1 ≡ n
      → HasDepths c depth values proofs
      → All (λ (ps : List (List c.Digest)). 0 < length ps) proofs
      → HasDepths c (if ltb 1 n then depth else 0) values proofs
        × ((if ltb 1 n then first_depth proofs else ok 0) ≡ ok (if ltb 1 n then depth else 0))
  codeword_depth-lem n depth [] [] e e' h pos = rw (← e) (tt, refl)
  codeword_depth-lem n depth [] (p ∷ ps) e e' h pos = absurd h
  codeword_depth-lem n depth (v ∷ vs) [] e e' h pos = absurd h
  codeword_depth-lem n depth (v ∷ vs) (p ∷ ps) e e' h pos =
      rw (lt→ltb 1 n (omega arith))
        (h, first_depth-HasDepths depth (v ∷ vs) (p ∷ ps) (omega arith) h pos)

  -- What the two loops establish.
  pub record Rounds (params : SystemParams) (x : WhirProof c) : Type 0 where
    pub queries-pos : 0 < first_length x.initial_round_opened_rows
    pub rows :
        All
          (HasRows c (first_length x.initial_round_opened_rows) (2 ^ params.whir.k))
          x.initial_round_opened_rows
    pub proofs :
        All
          (λ ps.
            (length ps ≡ first_length x.initial_round_opened_rows)
            × All (λ (p : List c.Digest). length p ≡ initial_depth params) ps)
          x.initial_round_merkle_proofs
    pub values :
        All (All (λ (vs : List c.EF). length vs ≡ 2 ^ params.whir.k)) x.codeword_opened_values
    pub depths :
        HasDepths c (codeword_depth params) x.codeword_opened_values x.codeword_merkle_proofs
    pub first :
        (if ltb 1 (length params.whir.rounds) then first_depth x.codeword_merkle_proofs else ok 0)
        ≡ ok (codeword_depth params)

  pub check_rounds-Rounds :
      (params : SystemParams) (rounds : ℕ) (openings : List (List c.EF)) (x : WhirProof c)
      → IsWhirConfig params
      → rounds + 1 ≡ length params.whir.rounds
      → 0 < length openings
      → length x.initial_round_opened_rows ≡ length openings
      → length x.initial_round_merkle_proofs ≡ length openings
      → length x.codeword_opened_values ≡ rounds
      → length x.codeword_merkle_proofs ≡ rounds
      → Ends (λ _. Rounds params x) (check_rounds c params (height params) rounds openings x)
  unfolding check_rounds
  check_rounds-Rounds params rounds openings x w n some e1 e2 e3 e4 =
      let room : rounds + params.whir.k ≤ length params.whir.rounds * params.whir.k =
        add-le-mul rounds (length params.whir.rounds) params.whir.k (omega arith) w.k-pos in
      Ends-bind (λ (r : WhirRoundConfig). 0 < r.num_queries) _ _ _
        (Ends-index-All _ _ params.whir.rounds 0 w.rounds-pos w.queries-pos)
        (λ r pos.
          Ends-bind _ _ _ _
            (check_initial-Ends c params (height params) w.k-lt w.fits r.num_queries 0 openings
              x.initial_round_opened_rows x.initial_round_merkle_proofs pos (omega arith)
              (omega arith))
            (λ _ initial.
              let queries : first_length x.initial_round_opened_rows ≡ r.num_queries =
                first_length-HasRows r.num_queries (2 ^ params.whir.k) x.initial_round_opened_rows
                  (omega arith) initial.0 in
              Ends-map _ _ _
                (λ _ rest.
                  let deep =
                    codeword_depth-lem (length params.whir.rounds) (initial_depth params - 1)
                      x.codeword_opened_values x.codeword_merkle_proofs (omega arith) (omega arith)
                      rest.0 rest.1 in
                  record {
                    queries-pos = omega arith;
                    rows = rw queries initial.0;
                    proofs = rw queries initial.1;
                    values = rest.2;
                    depths = deep.0;
                    first = deep.1;
                  })
                (check_codewords-Ends c params (height params) w.k-lt w.fits rounds 1
                  (initial_depth params - 1) x.codeword_opened_values x.codeword_merkle_proofs e3 e4
                  (omega arith) w.queries-pos (omega (arith, w.foldings, w.rate))
                  (omega (arith, w.foldings, w.rate)))))
