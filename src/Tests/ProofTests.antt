-- ===== src/Tests/ProofTests.antt =====
-- The codec of a proof on the proof of Tests/Data.
use stark_backend.Prelude.{◌≡◌, ◌≢◌, refl, [], ◌∷◌, ◌++◌, arith}
use stark_backend.Prelude.Outcome.{ok, err}
use stark_backend.Codec.Bytes.{Bytes, other, encode_u32, encode_u8, encode_usize}
use stark_backend.Codec.Compound.{encode_iter, encode_slice}
use stark_backend.Codec.Writes.{Writes-u8}
use stark_backend.Proof.Writing.{IsTotal, FitsProof}
use stark_backend.Proof.Encodes.{decode_from_bytes-encode_proof}
use stark_backend.Proof.Trace.{
  encode_trace_vdata, decode_trace_vdata, chunks, present, encode_vdata, chunk_byte,
}
use stark_backend.Proof.Gkr.{IsGkrShaped, encode_gkr, decode_gkr, encode_claims, encode_triple}
use stark_backend.Proof.Batch.{IsBatchShaped, encode_batch, decode_batch, encode_round_polys}
use stark_backend.Proof.Stacking.{encode_stacking, decode_stacking, encode_pair_array}
use stark_backend.Proof.Parts.{
  decode-encode_trace_vdata, decode-encode_gkr, decode-encode_batch, decode-encode_stacking,
  decode-encode_whir,
}
use stark_backend.Proof.Whir.{
  encode_whir, decode_whir, encode_initial, encode_codewords, decode_codeword_proofs,
}
use stark_backend.Proof.WhirParts.{IsWhirShaped}
use stark_backend.Proof.WhirRead.{decode_codeword_proofs_underflow}
use stark_backend.Proof.Whole.{
  encode_proof, decode_proof, decode_from_bytes, IsShaped, decode-encode_proof,
  decode-encode_trailing,
}
use stark_backend.Tests.Data.{
  bytes, bytes-IsLawful, airs, gkr, batch, whir, stacking, proof, proof_bytes, gkr_bytes,
  batch_bytes, whir_bytes, airs_bytes, stacking_bytes,
}

gkr-IsGkrShaped : IsGkrShaped bytes gkr
gkr-IsGkrShaped = record { rounds = refl; subrounds = (refl, tt) }

batch-IsBatchShaped : IsBatchShaped bytes batch
batch-IsBatchShaped = record { denominators = refl; degrees = (refl, tt); openings = refl }

whir-IsWhirShaped : IsWhirShaped bytes whir 3 2
whir-IsWhirShaped = record {
  multiple = refl;
  k-lt = omega arith;
  oods = refl;
  foldings = refl;
  queries-pos = omega arith;
  rows = ((refl, ((refl, (refl, (refl, tt))), tt)), tt);
  proofs-length = refl;
  proofs = ((refl, (refl, tt)), tt);
  values-length = refl;
  values = ((refl, tt), tt);
  codeword-depth = refl;
  depths = (refl, (refl, tt), omega arith, tt);
}

proof-IsShaped : IsShaped bytes proof
proof-IsShaped = record {
  depth = 3;
  codeword_depth = 2;
  gkr = gkr-IsGkrShaped;
  batch = batch-IsBatchShaped;
  whir = whir-IsWhirShaped;
}

decode-encode_proof_example : decode_from_bytes (decode_proof bytes) proof_bytes ≡ ok proof
unfolding encode_proof encode_trace_vdata encode_gkr encode_batch encode_whir encode_stacking
    encode_u32 encode_u8 encode_usize encode_iter encode_slice chunks present encode_vdata
    chunk_byte encode_claims encode_triple encode_round_polys encode_pair_array encode_initial
    encode_codewords
decode-encode_proof_example =
    decode-encode_proof bytes bytes-IsLawful proof proof_bytes proof-IsShaped refl

decode-encode_trailing_example :
    decode_from_bytes (decode_proof bytes) (proof_bytes ++ 0 ∷ []) ≡ err other
unfolding encode_proof encode_trace_vdata encode_gkr encode_batch encode_whir encode_stacking
    encode_u32 encode_u8 encode_usize encode_iter encode_slice chunks present encode_vdata
    chunk_byte encode_claims encode_triple encode_round_polys encode_pair_array encode_initial
    encode_codewords
decode-encode_trailing_example =
    decode-encode_trailing bytes bytes-IsLawful proof proof_bytes [] 0 proof-IsShaped refl

decode-encode_trace_vdata_example :
    decode_trace_vdata bytes (airs_bytes ++ 5 ∷ []) ≡ ok (airs, 5 ∷ [])
unfolding encode_proof encode_trace_vdata encode_gkr encode_batch encode_whir encode_stacking
    encode_u32 encode_u8 encode_usize encode_iter encode_slice chunks present encode_vdata
    chunk_byte encode_claims encode_triple encode_round_polys encode_pair_array encode_initial
    encode_codewords
decode-encode_trace_vdata_example =
    decode-encode_trace_vdata bytes bytes-IsLawful airs_bytes (5 ∷ []) airs refl

decode-encode_gkr_example : decode_gkr bytes (gkr_bytes ++ 5 ∷ []) ≡ ok (gkr, 5 ∷ [])
unfolding encode_proof encode_trace_vdata encode_gkr encode_batch encode_whir encode_stacking
    encode_u32 encode_u8 encode_usize encode_iter encode_slice chunks present encode_vdata
    chunk_byte encode_claims encode_triple encode_round_polys encode_pair_array encode_initial
    encode_codewords
decode-encode_gkr_example =
    decode-encode_gkr bytes bytes-IsLawful gkr_bytes (5 ∷ []) gkr gkr-IsGkrShaped refl

decode-encode_batch_example : decode_batch bytes (batch_bytes ++ 5 ∷ []) ≡ ok (batch, 5 ∷ [])
unfolding encode_proof encode_trace_vdata encode_gkr encode_batch encode_whir encode_stacking
    encode_u32 encode_u8 encode_usize encode_iter encode_slice chunks present encode_vdata
    chunk_byte encode_claims encode_triple encode_round_polys encode_pair_array encode_initial
    encode_codewords
decode-encode_batch_example =
    decode-encode_batch bytes bytes-IsLawful batch_bytes (5 ∷ []) batch batch-IsBatchShaped refl

decode-encode_stacking_example :
    decode_stacking bytes (stacking_bytes ++ 5 ∷ []) ≡ ok (stacking, 5 ∷ [])
unfolding encode_proof encode_trace_vdata encode_gkr encode_batch encode_whir encode_stacking
    encode_u32 encode_u8 encode_usize encode_iter encode_slice chunks present encode_vdata
    chunk_byte encode_claims encode_triple encode_round_polys encode_pair_array encode_initial
    encode_codewords
decode-encode_stacking_example =
    decode-encode_stacking bytes bytes-IsLawful stacking_bytes (5 ∷ []) stacking refl

decode-encode_whir_example : decode_whir bytes (whir_bytes ++ 5 ∷ []) ≡ ok (whir, 5 ∷ [])
unfolding encode_proof encode_trace_vdata encode_gkr encode_batch encode_whir encode_stacking
    encode_u32 encode_u8 encode_usize encode_iter encode_slice chunks present encode_vdata
    chunk_byte encode_claims encode_triple encode_round_polys encode_pair_array encode_initial
    encode_codewords
decode-encode_whir_example =
    decode-encode_whir bytes bytes-IsLawful whir_bytes (5 ∷ []) whir 3 2 whir-IsWhirShaped refl

-- Two rounds, and Merkle proofs of one level.
decode_codeword_proofs_underflow_example :
    decode_codeword_proofs bytes 1 (((1 ∷ []) ∷ []) ∷ ((2 ∷ []) ∷ []) ∷ []) (7 ∷ []) ≢ ok ([], [])
decode_codeword_proofs_underflow_example =
    decode_codeword_proofs_underflow bytes 1 (((1 ∷ []) ∷ []) ∷ ((2 ∷ []) ∷ []) ∷ []) (7 ∷ [])
      ([], []) (omega arith)

bytes-IsTotal : IsTotal bytes
bytes-IsTotal = record { base = Writes-u8; ext = Writes-u8; digest = Writes-u8 }

proof-FitsProof : FitsProof bytes proof
unfolding present
proof-FitsProof = record {
  depth = 3;
  codeword_depth = 2;
  airs = omega arith;
  vdata = ((omega arith, omega arith), ((omega arith, omega arith), tt));
  public = omega arith;
  public_rows = (omega arith, tt);
  layers = omega arith;
  batch = record {
    numerators = omega arith;
    coeffs = omega arith;
    rounds = omega arith;
    degree = omega arith;
    openings = ((omega arith, (omega arith, tt)), tt);
  };
  stacking = record {
    coeffs = omega arith;
    rounds = omega arith;
    openings = omega arith;
    rows = (omega arith, tt);
  };
  whir = record {
    sumchecks = omega arith;
    commits = omega arith;
    multiple = refl;
    powers = refl;
    rows-pos = omega arith;
    rows = omega arith;
    queries-pos = omega arith;
    queries = omega arith;
    first = refl;
    depth-fits = omega arith;
    widths = (omega arith, tt);
    values = (omega arith, tt);
    codeword-first = refl;
    codeword-fits = omega arith;
    final = omega arith;
  };
}

decode_from_bytes-encode_proof_example :
    (written : Bytes) × (encode_proof bytes proof ≡ ok written)
    × (decode_from_bytes (decode_proof bytes) written ≡ ok proof)
decode_from_bytes-encode_proof_example =
    decode_from_bytes-encode_proof bytes bytes-IsLawful bytes-IsTotal proof proof-IsShaped
      proof-FitsProof
