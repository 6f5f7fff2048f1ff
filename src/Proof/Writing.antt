-- ===== src/Proof/Writing.antt =====
-- Which proofs the encoder of crates/stark-backend/src/proof.rs accepts.
use stark_backend.Prelude.{
  ℕ, suc, ◌%◌, ◌<◌, ◌≡◌, Option, List, [], ◌∷◌, length, map, All, ltb, if◌then◌else◌,
}
use stark_backend.Prelude.Outcome.{ok}
use stark_backend.Codec.Bytes.{encode_u8}
use stark_backend.Codec.Compound.{encode_iter, encode_slice}
use stark_backend.Codec.Config.{Config}
use stark_backend.Codec.Writes.{
  Writes, Fits32, Writes-⨾, Writes-u8, Writes-usize, Writes-iter, Writes-slice, Writes-all,
  Writes-vec, Writes-rows,
}
use stark_backend.Proof.Trace.{
  TraceVData, encode_vdata, encode_trace_vdata, chunk_byte, chunks, present,
}
use stark_backend.Proof.Gkr.{
  GkrProof, GkrLayerClaims, Triple, encode_claims, encode_triple, encode_gkr,
}
use stark_backend.Proof.Batch.{BatchConstraintProof, encode_round_polys, encode_batch}
use stark_backend.Proof.Stacking.{StackingProof, Pair, encode_pair_array, encode_stacking}
use stark_backend.Proof.Whir.{WhirProof, num_whir_rounds, first_depth, first_length, row_width}
use stark_backend.Proof.Whole.{Proof}

-- The encoders of a configuration that never fail.
pub record IsTotal (c : Config) : Type 0 where
  pub base : (x : c.F) → Writes (c.encode_base_field x)
  pub ext : (x : c.EF) → Writes (c.encode_extension_field x)
  pub digest : (x : c.Digest) → Writes (c.encode_digest x)

-- The lengths of a list of lists, written out.
abbrev pub FitRows : {T : Type 0} → List (List T) → Type 0
FitRows xs = All (λ ys. Fits32 (length ys)) xs

abbrev pub FitFirst : {T : Type 0} → List (List T) → Type 0
FitFirst [] = Unit {0}
FitFirst (x ∷ xs) = Fits32 (length x)

module _ (c : Config) where
  pub record FitsBatch (x : BatchConstraintProof c) : Type 0 where
    pub numerators : Fits32 (length x.numerator_term_per_air)
    pub coeffs : Fits32 (length x.univariate_round_coeffs)
    pub rounds : Fits32 (length x.sumcheck_round_polys)
    pub degree : FitFirst x.sumcheck_round_polys
    pub openings : All (λ parts. Fits32 (length parts) × FitRows parts) x.column_openings

  pub record FitsStacking (x : StackingProof c) : Type 0 where
    pub coeffs : Fits32 (length x.univariate_round_coeffs)
    pub rounds : Fits32 (length x.sumcheck_round_polys)
    pub openings : Fits32 (length x.stacking_openings)
    pub rows : FitRows x.stacking_openings

  -- With at least one commitment and one query, and Merkle proofs that have a first one.
  pub record FitsWhir (x : WhirProof c) (depth codeword_depth : ℕ) : Type 0 where
    pub sumchecks : Fits32 (length x.whir_sumcheck_polys)
    pub commits : Fits32 (length x.codeword_commits)
    pub multiple : length x.whir_sumcheck_polys % num_whir_rounds c x ≡ 0
    pub powers : num_whir_rounds c x ≡ length x.query_phase_pow_witnesses
    pub rows-pos : 0 < length x.initial_round_opened_rows
    pub rows : Fits32 (length x.initial_round_opened_rows)
    pub queries-pos : 0 < first_length x.initial_round_opened_rows
    pub queries : Fits32 (first_length x.initial_round_opened_rows)
    pub first : first_depth x.initial_round_merkle_proofs ≡ ok depth
    pub depth-fits : Fits32 depth
    pub widths : All Fits32 (map row_width x.initial_round_opened_rows)
    pub values : FitRows x.codeword_opened_values
    pub codeword-first :
        (if ltb 1 (num_whir_rounds c x) then first_depth x.codeword_merkle_proofs else ok 0)
        ≡ ok codeword_depth
    pub codeword-fits : Fits32 codeword_depth
    pub final : Fits32 (length x.final_poly)

  pub record FitsProof (x : Proof c) : Type 0 where
    pub depth : ℕ
    pub codeword_depth : ℕ
    pub airs : Fits32 (length x.trace_vdata)
    pub vdata :
        All
          (λ v. Fits32 v.log_height × Fits32 (length v.cached_commitments))
          (present c x.trace_vdata)
    pub public : Fits32 (length x.public_values)
    pub public_rows : FitRows x.public_values
    pub layers : Fits32 (length x.gkr_proof.claims_per_layer)
    pub batch : FitsBatch x.batch_constraint_proof
    pub stacking : FitsStacking x.stacking_proof
    pub whir : FitsWhir x.whir_proof depth codeword_depth

module _ (c : Config) (t : IsTotal c) where
  pub trace-Writes :
      (xs : List (Option (TraceVData c)))
      → Fits32 (length xs)
      → All (λ v. Fits32 v.log_height × Fits32 (length v.cached_commitments)) (present c xs)
      → Writes (encode_trace_vdata c xs)
  unfolding encode_trace_vdata encode_vdata
  trace-Writes xs h a = Writes-⨾ _ _ (Writes-usize (length xs) h) (
      Writes-⨾ _ _ (Writes-all encode_u8 Writes-u8 (map (chunk_byte c) (chunks c xs)))
        (Writes-iter (encode_vdata c) (present c xs) (each (present c xs) a)))
    where
      each :
          (vs : List (TraceVData c))
          → All (λ v. Fits32 v.log_height × Fits32 (length v.cached_commitments)) vs
          → All (λ v. Writes (encode_vdata c v)) vs
      each [] b = tt
      each (v ∷ vs) b = (
        Writes-⨾ _ _ (Writes-usize v.log_height b.0.0)
            (Writes-vec c.encode_digest t.digest v.cached_commitments b.0.1),
        each vs b.1,
      )

  claims-Writes : (x : GkrLayerClaims c) → Writes (encode_claims c x)
  unfolding encode_claims
  claims-Writes x =
      Writes-⨾ _ _ (t.ext x.p_xi_0)
        (Writes-⨾ _ _ (t.ext x.p_xi_1) (Writes-⨾ _ _ (t.ext x.q_xi_0) (t.ext x.q_xi_1)))

  triple-Writes : (x : Triple c) → Writes (encode_triple c x)
  unfolding encode_triple
  triple-Writes (x, y, z) = Writes-all c.encode_extension_field t.ext (x ∷ y ∷ z ∷ [])

  pub pair-Writes : (x : Pair c) → Writes (encode_pair_array c x)
  unfolding encode_pair_array
  pair-Writes (x, y) = Writes-all c.encode_extension_field t.ext (x ∷ y ∷ [])

  pub gkr-Writes : (x : GkrProof c) → Fits32 (length x.claims_per_layer) → Writes (encode_gkr c x)
  unfolding encode_gkr
  gkr-Writes x h = Writes-⨾ _ _ (t.base x.logup_pow_witness) (
      Writes-⨾ _ _ (t.ext x.q0_claim) (
        Writes-⨾ _ _ (Writes-vec (encode_claims c) claims-Writes x.claims_per_layer h) (
          Writes-all (encode_iter (encode_triple c)) (Writes-all (encode_triple c) triple-Writes)
            x.sumcheck_polys)))

  round_polys-Writes :
      (xs : List (List c.EF)) → Fits32 (length xs) → FitFirst xs → Writes (encode_round_polys c xs)
  unfolding encode_round_polys
  round_polys-Writes [] h f = Writes-usize 0 h
  round_polys-Writes (p ∷ ps) h f = Writes-⨾ _ _ (Writes-usize (suc (length ps)) h) (
      Writes-⨾ _ _ (Writes-usize (length p) f) (
        Writes-all (encode_iter c.encode_extension_field)
          (Writes-all c.encode_extension_field t.ext) (p ∷ ps)))

  pub batch-Writes : (x : BatchConstraintProof c) → FitsBatch c x → Writes (encode_batch c x)
  unfolding encode_batch
  batch-Writes x f =
      Writes-⨾ _ _ (Writes-vec c.encode_extension_field t.ext x.numerator_term_per_air f.numerators)
        (Writes-⨾ _ _ (Writes-all c.encode_extension_field t.ext x.denominator_term_per_air) (
          Writes-⨾ _ _
            (Writes-vec c.encode_extension_field t.ext x.univariate_round_coeffs f.coeffs)
            (Writes-⨾ _ _ (round_polys-Writes x.sumcheck_round_polys f.rounds f.degree) (
              Writes-iter (encode_slice (encode_slice c.encode_extension_field)) x.column_openings
                (each x.column_openings f.openings)))))
    where
      each :
          (xs : List (List (List c.EF)))
          → All (λ parts. Fits32 (length parts) × FitRows parts) xs
          → All (λ parts. Writes (encode_slice (encode_slice c.encode_extension_field) parts)) xs
      each [] a = tt
      each (parts ∷ xs) a = (
        Writes-slice (encode_slice c.encode_extension_field) parts a.0.0
            (Writes-rows c.encode_extension_field t.ext parts a.0.1),
        each xs a.1,
      )

  pub stacking-Writes : (x : StackingProof c) → FitsStacking c x → Writes (encode_stacking c x)
  unfolding encode_stacking
  stacking-Writes x f =
      Writes-⨾ _ _ (Writes-vec c.encode_extension_field t.ext x.univariate_round_coeffs f.coeffs) (
        Writes-⨾ _ _ (Writes-vec (encode_pair_array c) pair-Writes x.sumcheck_round_polys f.rounds)
          (Writes-slice (encode_slice c.encode_extension_field) x.stacking_openings f.openings
            (Writes-rows c.encode_extension_field t.ext x.stacking_openings f.rows)))
