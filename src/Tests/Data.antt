-- ===== src/Tests/Data.antt =====
-- Concrete data for the tests: a configuration whose fields and digests are single bytes, and a
-- proof of two WHIR rounds.
use stark_backend.Prelude.{ℕ, List, [], ◌∷◌, Option, none, some}
use stark_backend.Codec.Bytes.{Bytes, encode_u8, decode_u8}
use stark_backend.Codec.RoundTrip.{u8-Reads}
use stark_backend.Codec.Config.{Config, IsLawful}
use stark_backend.Proof.Trace.{TraceVData}
use stark_backend.Proof.Gkr.{GkrProof}
use stark_backend.Proof.Batch.{BatchConstraintProof}
use stark_backend.Proof.Stacking.{StackingProof}
use stark_backend.Proof.Whir.{WhirProof}
use stark_backend.Proof.Whole.{Proof}

abbrev pub bytes : Config
bytes = record {
  F = ℕ;
  EF = ℕ;
  Digest = ℕ;
  encode_base_field = encode_u8;
  encode_extension_field = encode_u8;
  encode_digest = encode_u8;
  decode_base_field = decode_u8;
  decode_extension_field = decode_u8;
  decode_digest = decode_u8;
}

pub bytes-IsLawful : IsLawful bytes
bytes-IsLawful = record { base = u8-Reads; ext = u8-Reads; digest = u8-Reads }

abbrev pub airs : List (Option (TraceVData bytes))
airs =
    some (record { log_height = 4; cached_commitments = 9 ∷ [] })
    ∷ none
    ∷ some (record { log_height = 300; cached_commitments = [] })
    ∷ []

abbrev pub gkr : GkrProof bytes
gkr = record {
  logup_pow_witness = 1;
  q0_claim = 2;
  claims_per_layer =
      record { p_xi_0 = 1; p_xi_1 = 2; q_xi_0 = 3; q_xi_1 = 4 }
      ∷ record { p_xi_0 = 5; p_xi_1 = 6; q_xi_0 = 7; q_xi_1 = 8 }
      ∷ [];
  sumcheck_polys = ((1, 2, 3) ∷ []) ∷ [];
}

abbrev pub batch : BatchConstraintProof bytes
batch = record {
  numerator_term_per_air = 1 ∷ [];
  denominator_term_per_air = 2 ∷ [];
  univariate_round_coeffs = 3 ∷ 4 ∷ [];
  sumcheck_round_polys = (5 ∷ 6 ∷ []) ∷ (7 ∷ 8 ∷ []) ∷ [];
  column_openings = ((9 ∷ []) ∷ []) ∷ [];
}

abbrev pub stacking : StackingProof bytes
stacking = record {
  univariate_round_coeffs = 1 ∷ [];
  sumcheck_round_polys = (2, 3) ∷ [];
  stacking_openings = (4 ∷ []) ∷ [];
}

abbrev pub whir : WhirProof bytes
whir = record {
  mu_pow_witness = 1;
  whir_sumcheck_polys = (1, 2) ∷ (3, 4) ∷ [];
  codeword_commits = 7 ∷ [];
  ood_values = 5 ∷ [];
  folding_pow_witnesses = 1 ∷ 2 ∷ [];
  query_phase_pow_witnesses = 3 ∷ 4 ∷ [];
  initial_round_opened_rows = (((9 ∷ []) ∷ (8 ∷ []) ∷ []) ∷ []) ∷ [];
  initial_round_merkle_proofs = ((1 ∷ 2 ∷ 3 ∷ []) ∷ []) ∷ [];
  codeword_opened_values = ((1 ∷ 2 ∷ []) ∷ []) ∷ [];
  codeword_merkle_proofs = ((4 ∷ 5 ∷ []) ∷ []) ∷ [];
  final_poly = 6 ∷ 7 ∷ [];
}

abbrev pub proof : Proof bytes
proof = record {
  common_main_commit = 42;
  trace_vdata = airs;
  public_values = (1 ∷ 2 ∷ []) ∷ [];
  gkr_proof = gkr;
  batch_constraint_proof = batch;
  stacking_proof = stacking;
  whir_proof = whir;
}

-- What is written of `proof`.
abbrev pub proof_bytes : Bytes
proof_bytes =
    3 ∷ 0 ∷ 0 ∷ 0 ∷ 42 ∷ 3 ∷ 0 ∷ 0 ∷ 0 ∷ 5 ∷ 4 ∷ 0 ∷ 0 ∷ 0 ∷ 1 ∷ 0 ∷ 0 ∷ 0 ∷ 9 ∷ 44 ∷ 1 ∷ 0 ∷ 0 ∷ 0
    ∷ 0 ∷ 0 ∷ 0 ∷ 1 ∷ 0 ∷ 0 ∷ 0 ∷ 2 ∷ 0 ∷ 0 ∷ 0 ∷ 1 ∷ 2 ∷ 1 ∷ 2 ∷ 2 ∷ 0 ∷ 0 ∷ 0 ∷ 1 ∷ 2 ∷ 3 ∷ 4 ∷ 5
    ∷ 6 ∷ 7 ∷ 8 ∷ 1 ∷ 2 ∷ 3 ∷ 1 ∷ 0 ∷ 0 ∷ 0 ∷ 1 ∷ 2 ∷ 2 ∷ 0 ∷ 0 ∷ 0 ∷ 3 ∷ 4 ∷ 2 ∷ 0 ∷ 0 ∷ 0 ∷ 2 ∷ 0
    ∷ 0 ∷ 0 ∷ 5 ∷ 6 ∷ 7 ∷ 8 ∷ 1 ∷ 0 ∷ 0 ∷ 0 ∷ 1 ∷ 0 ∷ 0 ∷ 0 ∷ 9 ∷ 1 ∷ 0 ∷ 0 ∷ 0 ∷ 1 ∷ 1 ∷ 0 ∷ 0 ∷ 0
    ∷ 2 ∷ 3 ∷ 1 ∷ 0 ∷ 0 ∷ 0 ∷ 1 ∷ 0 ∷ 0 ∷ 0 ∷ 4 ∷ 1 ∷ 2 ∷ 0 ∷ 0 ∷ 0 ∷ 1 ∷ 2 ∷ 3 ∷ 4 ∷ 1 ∷ 0 ∷ 0 ∷ 0
    ∷ 7 ∷ 5 ∷ 1 ∷ 2 ∷ 3 ∷ 4 ∷ 1 ∷ 0 ∷ 0 ∷ 0 ∷ 1 ∷ 0 ∷ 0 ∷ 0 ∷ 3 ∷ 0 ∷ 0 ∷ 0 ∷ 1 ∷ 0 ∷ 0 ∷ 0 ∷ 9 ∷ 8
    ∷ 1 ∷ 2 ∷ 3 ∷ 1 ∷ 0 ∷ 0 ∷ 0 ∷ 1 ∷ 2 ∷ 2 ∷ 0 ∷ 0 ∷ 0 ∷ 4 ∷ 5 ∷ 2 ∷ 0 ∷ 0 ∷ 0 ∷ 6 ∷ 7 ∷ []

abbrev pub gkr_bytes : Bytes
gkr_bytes = 1 ∷ 2 ∷ 2 ∷ 0 ∷ 0 ∷ 0 ∷ 1 ∷ 2 ∷ 3 ∷ 4 ∷ 5 ∷ 6 ∷ 7 ∷ 8 ∷ 1 ∷ 2 ∷ 3 ∷ []

abbrev pub batch_bytes : Bytes
batch_bytes =
    1 ∷ 0 ∷ 0 ∷ 0 ∷ 1 ∷ 2 ∷ 2 ∷ 0 ∷ 0 ∷ 0 ∷ 3 ∷ 4 ∷ 2 ∷ 0 ∷ 0 ∷ 0 ∷ 2 ∷ 0 ∷ 0 ∷ 0 ∷ 5 ∷ 6 ∷ 7 ∷ 8
    ∷ 1 ∷ 0 ∷ 0 ∷ 0 ∷ 1 ∷ 0 ∷ 0 ∷ 0 ∷ 9 ∷ []

abbrev pub whir_bytes : Bytes
whir_bytes =
    1 ∷ 2 ∷ 0 ∷ 0 ∷ 0 ∷ 1 ∷ 2 ∷ 3 ∷ 4 ∷ 1 ∷ 0 ∷ 0 ∷ 0 ∷ 7 ∷ 5 ∷ 1 ∷ 2 ∷ 3 ∷ 4 ∷ 1 ∷ 0 ∷ 0 ∷ 0 ∷ 1
    ∷ 0 ∷ 0 ∷ 0 ∷ 3 ∷ 0 ∷ 0 ∷ 0 ∷ 1 ∷ 0 ∷ 0 ∷ 0 ∷ 9 ∷ 8 ∷ 1 ∷ 2 ∷ 3 ∷ 1 ∷ 0 ∷ 0 ∷ 0 ∷ 1 ∷ 2 ∷ 2 ∷ 0
    ∷ 0 ∷ 0 ∷ 4 ∷ 5 ∷ 2 ∷ 0 ∷ 0 ∷ 0 ∷ 6 ∷ 7 ∷ []

abbrev pub airs_bytes : Bytes
airs_bytes =
    3 ∷ 0 ∷ 0 ∷ 0 ∷ 5 ∷ 4 ∷ 0 ∷ 0 ∷ 0 ∷ 1 ∷ 0 ∷ 0 ∷ 0 ∷ 9 ∷ 44 ∷ 1 ∷ 0 ∷ 0 ∷ 0 ∷ 0 ∷ 0 ∷ 0 ∷ []

abbrev pub stacking_bytes : Bytes
stacking_bytes = 1 ∷ 0 ∷ 0 ∷ 0 ∷ 1 ∷ 1 ∷ 0 ∷ 0 ∷ 0 ∷ 2 ∷ 3 ∷ 1 ∷ 0 ∷ 0 ∷ 0 ∷ 1 ∷ 0 ∷ 0 ∷ 0 ∷ 4 ∷ []
