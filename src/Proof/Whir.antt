-- ===== src/Proof/Whir.antt =====
-- `WhirProof` of crates/stark-backend/src/proof.rs, with its codec. A failed `assert!`, an index out
-- of range and an arithmetic overflow are panics; `debug_assert!` is left out.
use stark_backend.Prelude.{
  ℕ, zero, suc, ◌+◌, ◌/◌, ◌%◌, ◌^◌, ◌&&◌, List, [], ◌∷◌, length, map, replicate, if◌then◌else◌, ltb,
  ◌==◌, not,
}
use stark_backend.Prelude.Outcome.{Outcome, ok, panic, ensure, assert, ◌>>=◌ as bind}
use stark_backend.Codec.Bytes.{
  IoError, invalid_data, Writer, Reader, ◌⨾◌, ◌>>=◌, pure, encode_usize, decode_usize,
}
use stark_backend.Codec.Compound.{encode_iter, encode_slice, decode_into_vec, decode_vec}
use stark_backend.Codec.Config.{
  Config, encode_base_field_iter, encode_extension_field_slice, encode_extension_field_iter,
  encode_digest_slice, encode_digest_iter, decode_base_field_n, decode_extension_field_n,
  decode_extension_field_vec, decode_digest_n, decode_digest_vec,
}
use stark_backend.Proof.Stacking.{Pair, encode_pair_array, decode_pair_array}

-- A test of the encoder that writes nothing.
abbrev pub then_write : Outcome IoError (Unit {0}) → Writer → Writer
then_write test w = bind test (λ _. w)

abbrev pub lift : {A : Type 0} → Outcome IoError A → Reader A
lift m bs = bind m (λ a. ok (a, bs))

-- `v[0][0].len()`
abbrev pub first_depth {ℓ} : {D : Type ℓ} → List (List (List D)) → Outcome IoError ℕ
first_depth [] = panic
first_depth ([] ∷ _) = panic
first_depth ((proof ∷ _) ∷ _) = ok (length proof)

-- `depth -= 1`, with overflow checks.
abbrev pub decrement : ℕ → Outcome IoError ℕ
decrement zero = panic
decrement (suc d) = ok d

-- The length of the first row of the first query, or 0.
abbrev pub row_width {ℓ} : {A : Type ℓ} → List (List (List A)) → ℕ
row_width [] = 0
row_width ([] ∷ _) = 0
row_width ((row ∷ _) ∷ _) = length row

-- `v[0].len()`, where `v` is not empty.
abbrev pub first_length {ℓ} : {A : Type ℓ} → List (List A) → ℕ
first_length [] = 0
first_length (x ∷ _) = length x

module _ (c : Config) where
  pub record WhirProof : Type 0 where
    pub mu_pow_witness : c.F
    pub whir_sumcheck_polys : List (Pair c)
    pub codeword_commits : List c.Digest
    pub ood_values : List c.EF
    pub folding_pow_witnesses : List c.F
    pub query_phase_pow_witnesses : List c.F
    pub initial_round_opened_rows : List (List (List (List c.F)))
    pub initial_round_merkle_proofs : List (List (List c.Digest))
    pub codeword_opened_values : List (List (List c.EF))
    pub codeword_merkle_proofs : List (List (List c.Digest))
    pub final_poly : List c.EF

  abbrev pub num_whir_rounds : WhirProof → ℕ
  num_whir_rounds x = length x.codeword_commits + 1

  -- The opened rows and Merkle proofs of the initial round, for `queries` queries.
  unfoldable pub encode_initial :
      ℕ → List (List (List (List c.F))) → List (List (List c.Digest)) → Writer
  encode_initial queries rows proofs =
      if ltb 0 queries
      then bind (first_depth proofs) (λ merkle_depth.
        encode_usize merkle_depth
        ⨾ encode_iter encode_usize (map row_width rows)
        ⨾ encode_iter (encode_iter (encode_iter (encode_base_field_iter c))) rows
        ⨾ encode_iter (encode_iter (encode_digest_iter c)) proofs)
      else ok []

  unfoldable pub encode_codewords : ℕ → WhirProof → Writer
  encode_codewords queries x =
      encode_iter (encode_slice (encode_extension_field_iter c)) x.codeword_opened_values
      ⨾ bind
          (if ltb 1 (num_whir_rounds x) && ltb 0 queries
            then first_depth x.codeword_merkle_proofs
            else ok 0)
          (λ first_merkle_depth.
            encode_usize first_merkle_depth
            ⨾ encode_iter (encode_iter (encode_digest_iter c)) x.codeword_merkle_proofs
            ⨾ encode_extension_field_slice c x.final_poly)

  unfoldable pub encode_whir : WhirProof → Writer
  encode_whir x =
      c.encode_base_field x.mu_pow_witness
      ⨾ encode_slice (encode_pair_array c) x.whir_sumcheck_polys
      ⨾ encode_digest_slice c x.codeword_commits
      ⨾ encode_extension_field_iter c x.ood_values
      ⨾ then_write (ensure (length x.whir_sumcheck_polys % num_whir_rounds x == 0) invalid_data) (
          then_write (assert (num_whir_rounds x == length x.query_phase_pow_witnesses)) (
            encode_base_field_iter c x.folding_pow_witnesses
            ⨾ encode_base_field_iter c x.query_phase_pow_witnesses
            ⨾ then_write (assert (ltb 0 (length x.initial_round_opened_rows))) (
                encode_usize (length x.initial_round_opened_rows)
                ⨾ encode_usize (first_length x.initial_round_opened_rows)
                ⨾ encode_initial (first_length x.initial_round_opened_rows)
                    x.initial_round_opened_rows x.initial_round_merkle_proofs
                ⨾ encode_codewords (first_length x.initial_round_opened_rows) x)))

  abbrev pub Initial : Type 0
  Initial = List (List (List (List c.F))) × List (List (List c.Digest))

  -- One commit's rows after another, each with its width.
  unfoldable pub decode_opened_rows : ℕ → ℕ → List ℕ → Reader (List (List (List (List c.F))))
  decode_opened_rows queries k_whir_exp [] = pure []
  decode_opened_rows queries k_whir_exp (width ∷ widths) = do
    rows ← decode_into_vec (decode_into_vec (decode_base_field_n c width) k_whir_exp) queries
    more ← decode_opened_rows queries k_whir_exp widths
    pure (rows ∷ more)

  unfoldable pub decode_initial : ℕ → ℕ → ℕ → Reader Initial
  decode_initial num_commits queries k_whir_exp = do
    merkle_depth ← if ltb 0 queries then decode_usize else pure 0
    widths ←
        if ltb 0 queries
        then decode_into_vec decode_usize num_commits
        else pure (replicate num_commits 0)
    rows ← decode_opened_rows queries k_whir_exp widths
    proofs ← decode_into_vec (decode_into_vec (decode_digest_n c merkle_depth) queries) num_commits
    pure (rows, proofs)

  -- One round's proofs after another, each a level less deep.
  unfoldable pub decode_codeword_proofs :
      ℕ → List (List (List c.EF)) → Reader (List (List (List c.Digest)))
  decode_codeword_proofs merkle_depth [] = pure []
  decode_codeword_proofs merkle_depth (values ∷ rounds) = do
    proof ← decode_into_vec (decode_digest_n c merkle_depth) (length values)
    less ← lift (decrement merkle_depth)
    proofs ← decode_codeword_proofs less rounds
    pure (proof ∷ proofs)

  unfoldable pub decode_whir : Reader WhirProof
  decode_whir = do
    mu_pow_witness ← c.decode_base_field
    whir_sumcheck_polys ← decode_vec (decode_pair_array c)
    codeword_commits ← decode_digest_vec c
    let num_rounds = length codeword_commits + 1
    _ ← lift (ensure (length whir_sumcheck_polys % num_rounds == 0) invalid_data)
    let k_whir = length whir_sumcheck_polys / num_rounds
    ood_values ← decode_extension_field_n c (length codeword_commits)
    folding_pow_witnesses ← decode_base_field_n c (length whir_sumcheck_polys)
    query_phase_pow_witnesses ← decode_base_field_n c num_rounds
    num_commits ← decode_usize
    _ ← lift (ensure (not (num_commits == 0)) invalid_data)
    queries ← decode_usize
    _ ← lift (assert (ltb k_whir 64))
    initial ← decode_initial num_commits queries (2 ^ k_whir)
    codeword_opened_values ←
        decode_into_vec (decode_vec (decode_extension_field_n c (2 ^ k_whir)))
          (length codeword_commits)
    merkle_depth ← decode_usize
    codeword_merkle_proofs ← decode_codeword_proofs merkle_depth codeword_opened_values
    final_poly ← decode_extension_field_vec c
    pure (record {
      mu_pow_witness = mu_pow_witness;
      whir_sumcheck_polys = whir_sumcheck_polys;
      codeword_commits = codeword_commits;
      ood_values = ood_values;
      folding_pow_witnesses = folding_pow_witnesses;
      query_phase_pow_witnesses = query_phase_pow_witnesses;
      initial_round_opened_rows = initial.0;
      initial_round_merkle_proofs = initial.1;
      codeword_opened_values = codeword_opened_values;
      codeword_merkle_proofs = codeword_merkle_proofs;
      final_poly = final_poly;
    })
