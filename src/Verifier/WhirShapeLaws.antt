-- ===== src/Verifier/WhirShapeLaws.antt =====
-- What the WHIR section of `verify_proof_shape`, crates/stark-backend/src/verifier/proof_shape.rs,
-- establishes.
use stark_backend.Prelude.{
  ℕ, zero, suc, ◌+◌, ◌-◌, ◌*◌, ◌^◌, ◌<◌, ◌≡◌, sym, ap, ◌∙◌, List, ◌++◌, length, ◌==◌, ==→eq, arith,
}
use native.Mathlib.Nat.{mul-div_cancel_left, mul-mod_right}
use stark_backend.Prelude.Outcome.{ok, checked_pred}
use stark_backend.Prelude.Ends.{Ends, Ends-map, Ends-check, Ends-ok}
use stark_backend.Codec.Bytes.{Bytes}
use stark_backend.Codec.Config.{Config, IsLawful}
use stark_backend.Proof.Whir.{WhirProof, num_whir_rounds, encode_whir, decode_whir}
use stark_backend.Proof.WhirParts.{IsWhirShaped, k_whir}
use stark_backend.Proof.Parts.{decode-encode_whir}
use stark_backend.Verifier.WhirShape.{
  WhirProofShapeError, SystemParams, log_final_poly_len, check_whir,
}
use stark_backend.Verifier.WhirShapeRuns.{Ends-known}
use stark_backend.Prelude.Machine.{to_usize, to_usize-ok, shift_left-ok, minus-ok}
use stark_backend.Verifier.WhirShapeRounds.{
  height, IsWhirConfig, initial_depth, codeword_depth, Rounds, check_rounds-Rounds,
}

module _ (c : Config) where
  -- What the section establishes of a proof: the shape that its encoding leaves out, the rounds, the
  -- foldings of a round and the length of the last polynomial.
  pub record HasWhirShape (params : SystemParams) (num_layouts : ℕ) (x : WhirProof c) : Type 0 where
    pub shaped : IsWhirShaped c x (initial_depth params) (codeword_depth params)
    pub rounds : num_whir_rounds c x ≡ length params.whir.rounds
    pub k : k_whir c x ≡ params.whir.k
    pub powers : length x.query_phase_pow_witnesses ≡ length params.whir.rounds
    pub commits : length x.initial_round_opened_rows ≡ num_layouts
    pub final :
        length x.final_poly ≡ 2 ^ (height params - length params.whir.rounds * params.whir.k)

  checked_pred-ok : {E : Type 0} (n : ℕ) → 0 < n → checked_pred {E = E} n ≡ ok (n - 1)
  checked_pred-ok zero h = absurd (omega arith)
  checked_pred-ok (suc n) h = ap ok (omega arith)

  log_final_poly_len-ok :
      (params : SystemParams)
      → IsWhirConfig params
      → log_final_poly_len params ≡ ok (height params - length params.whir.rounds * params.whir.k)
  unfolding log_final_poly_len
  log_final_poly_len-ok params w =
      rw
        (
          to_usize-ok (height params) (omega (arith, w.fits)),
          to_usize-ok (length params.whir.rounds * params.whir.k)
              (omega (arith, w.fits, w.foldings)),
        )
        (minus-ok _ _ w.foldings)

  shape :
      (params : SystemParams) (num_layouts : ℕ) (x : WhirProof c)
      → IsWhirConfig params
      → length x.whir_sumcheck_polys ≡ length params.whir.rounds * params.whir.k
      → length x.codeword_commits ≡ length params.whir.rounds - 1
      → length x.ood_values ≡ length params.whir.rounds - 1
      → length x.folding_pow_witnesses ≡ length params.whir.rounds * params.whir.k
      → length x.query_phase_pow_witnesses ≡ length params.whir.rounds
      → length x.initial_round_opened_rows ≡ num_layouts
      → length x.initial_round_merkle_proofs ≡ num_layouts
      → length x.codeword_opened_values ≡ length params.whir.rounds - 1
      → length x.final_poly ≡ 2 ^ (height params - length params.whir.rounds * params.whir.k)
      → Rounds c params x
      → HasWhirShape params num_layouts x
  shape params num_layouts x w e1 e2 e3 e4 e5 e6 e7 e8 e10 loops =
      let rounds : length x.codeword_commits + 1 ≡ length params.whir.rounds =
        omega (arith, e2, w.rounds-pos) in
      let k : k_whir c x ≡ params.whir.k =
        rw (rounds, e1) (mul-div_cancel_left params.whir.k w.rounds-pos) in
      record {
        shaped = record {
          multiple = rw (rounds, e1) (mul-mod_right (length params.whir.rounds) params.whir.k);
          k-lt = rw k w.k-lt;
          oods = e3 ∙ sym e2;
          foldings = e4 ∙ sym e1;
          queries-pos = loops.queries-pos;
          rows = rw k loops.rows;
          proofs-length = e7 ∙ sym e6;
          proofs = loops.proofs;
          values-length = e8 ∙ sym e2;
          values = rw k loops.values;
          codeword-depth = rw rounds loops.first;
          depths = loops.depths;
        };
        rounds = rounds;
        k = k;
        powers = e5;
        commits = e6;
        final = e10;
      }

  -- Under parameters with at least one round, a query in every round, a folding factor from 1 to 63,
  -- a positive `log_blowup` whose sum with the logarithm of the stacked height is below 2^64, and as
  -- many foldings in all rounds (the rounds times the factor) as leave between 0 and 63 of that
  -- logarithm, and for at least one layout and as many rows of openings as layouts, the section returns
  -- an error or accepts and does not panic, whatever the WHIR proof is; when it accepts, the proof has
  -- the shape that its encoding leaves out, with Merkle proofs of the depths that the parameters give,
  -- opened rows for every layout, the rounds and the folding factor of the parameters, and a last
  -- polynomial of the length that the foldings leave.
  pub check_whir-Ends :
      (params : SystemParams) (num_layouts : ℕ) (openings : List (List c.EF)) (x : WhirProof c)
      → IsWhirConfig params
      → 0 < num_layouts
      → length openings ≡ num_layouts
      → Ends (λ _. HasWhirShape params num_layouts x) (check_whir c params num_layouts openings x)
  unfolding check_whir log_final_poly_len
  check_whir-Ends params num_layouts openings x w some own =
      let n : ℕ = length params.whir.rounds in
      let k : ℕ = params.whir.k in
      let height_ok : to_usize {E = WhirProofShapeError} (height params) ≡ ok (height params) =
        to_usize-ok (height params) (omega (arith, w.fits)) in
      let foldings_ok : to_usize {E = WhirProofShapeError} (n * k) ≡ ok (n * k) =
        to_usize-ok (n * k) (omega (arith, w.fits, w.foldings)) in
      Ends-known _ _ height_ok (
        Ends-known _ _ foldings_ok (
          Ends-check _ (length x.whir_sumcheck_polys == n * k) _ _ (λ h1.
            Ends-known _ _ (checked_pred-ok n w.rounds-pos) (
              Ends-check _ (length x.codeword_commits == n - 1) _ _ (λ h2.
                Ends-check _ (length x.ood_values == n - 1) _ _ (λ h3.
                  Ends-check _ (length x.folding_pow_witnesses == n * k) _ _ (λ h4.
                    Ends-check _ (length x.query_phase_pow_witnesses == n) _ _ (λ h5.
                      Ends-check _ (length x.initial_round_opened_rows == num_layouts) _ _ (λ h6.
                        Ends-check _ (length x.initial_round_merkle_proofs == num_layouts) _ _
                          (λ h7. Ends-check _ (length x.codeword_opened_values == n - 1) _ _ (λ h8.
                            Ends-check _ (length x.codeword_merkle_proofs == n - 1) _ _ (λ h9.
                              Ends-known _ _ (log_final_poly_len-ok params w) (
                                Ends-known _ _ (shift_left-ok _ w.final) (
                                  Ends-check _ (length x.final_poly == 2 ^ (height params - n * k))
                                    _ _
                                    (λ h10.
                                      Ends-map _ _ _
                                        (λ _ loops.
                                          shape params num_layouts x w (==→eq _ _ h1) (==→eq _ _ h2)
                                            (==→eq _ _ h3) (==→eq _ _ h4) (==→eq _ _ h5)
                                            (==→eq _ _ h6) (==→eq _ _ h7) (==→eq _ _ h8)
                                            (==→eq _ _ h10) loops)
                                        (check_rounds-Rounds c params (n - 1) openings x w
                                          (omega (arith, w.rounds-pos)) (omega arith)
                                          (==→eq _ _ h6 ∙ sym own) (==→eq _ _ h7 ∙ sym own)
                                          (==→eq _ _ h8) (==→eq _ _ h9)))))))))))))))))

  -- A WHIR proof that the section accepts, under parameters with at least one round, a query in every
  -- round, a folding factor from 1 to 63, a positive `log_blowup` whose sum with the logarithm of the
  -- stacked height is below 2^64, and as many foldings in all rounds as leave between 0 and 63 of that
  -- logarithm, and for at least one layout and as many rows of openings as layouts, decodes to itself
  -- from what is written of it, and what follows is left, under a configuration whose readers undo its
  -- writers.
  pub check_whir-decode_whir :
      (params : SystemParams) (num_layouts : ℕ) (openings : List (List c.EF)) (x : WhirProof c)
      (bytes rest : Bytes)
      → IsLawful c
      → IsWhirConfig params
      → 0 < num_layouts
      → length openings ≡ num_layouts
      → check_whir c params num_layouts openings x ≡ ok tt
      → encode_whir c x ≡ ok bytes
      → decode_whir c (bytes ++ rest) ≡ ok (x, rest)
  check_whir-decode_whir params num_layouts openings x bytes rest lawful w some own accepted
        written =
      let has =
        Ends-ok _ (check_whir c params num_layouts openings x) tt
          (check_whir-Ends params num_layouts openings x w some own) accepted in
      decode-encode_whir c lawful bytes rest x (initial_depth params) (codeword_depth params)
        has.shaped written
