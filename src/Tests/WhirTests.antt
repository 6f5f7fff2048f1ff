-- ===== src/Tests/WhirTests.antt =====
-- Runs of the theorems on the WHIR section of the proof shape.
use stark_backend.Prelude.{◌≡◌, refl, [], ◌∷◌, ◌++◌, arith}
use stark_backend.Prelude.Outcome.{ok, err}
use stark_backend.Prelude.Ends.{Ends}
use stark_backend.Prelude.Machine.{to_usize, minus, shift_left}
use stark_backend.Codec.Bytes.{encode_u8, encode_usize, encode_u32}
use stark_backend.Codec.Compound.{encode_slice, encode_iter}
use stark_backend.Proof.Stacking.{encode_pair_array}
use stark_backend.Proof.Whir.{WhirProof, encode_whir, decode_whir, encode_initial, encode_codewords}
use stark_backend.Verifier.WhirShape.{
  SystemParams, check_whir, check_rounds, check_initial, check_codewords, check_rows, each_length,
  log_final_poly_len, invalid_codeword_merkle_proof_depth,
}
use stark_backend.Verifier.WhirShapeRounds.{IsWhirConfig}
use stark_backend.Verifier.WhirShapeLaws.{HasWhirShape, check_whir-Ends, check_whir-decode_whir}
use stark_backend.Tests.Data.{bytes, bytes-IsLawful, whir, whir_bytes}

abbrev params : SystemParams
params = record {
  l_skip = 1;
  n_stack = 2;
  log_blowup = 1;
  whir = record { k = 1; rounds = record { num_queries = 1 } ∷ record { num_queries = 1 } ∷ [] };
}

params-IsWhirConfig : IsWhirConfig params
params-IsWhirConfig = record {
  rounds-pos = omega arith;
  queries-pos = (omega arith, (omega arith, tt));
  k-pos = omega arith;
  k-lt = omega arith;
  foldings = omega arith;
  final = omega arith;
  rate = omega arith;
  fits = omega arith;
}

-- A Merkle proof that is a level too deep.
abbrev deeper : WhirProof bytes
deeper = record whir { codeword_merkle_proofs = ((4 ∷ 5 ∷ 6 ∷ []) ∷ []) ∷ [] }

deeper_refused :
    check_whir bytes params 1 ((0 ∷ []) ∷ []) deeper
    ≡ err (invalid_codeword_merkle_proof_depth 1 0 2 3)
unfolding check_whir check_rounds check_initial check_codewords check_rows each_length
    log_final_poly_len to_usize minus shift_left
deeper_refused = refl

check_whir-Ends_example :
    Ends
      (λ _. HasWhirShape bytes params 1 deeper)
      (check_whir bytes params 1 ((0 ∷ []) ∷ []) deeper)
check_whir-Ends_example =
    check_whir-Ends bytes params 1 ((0 ∷ []) ∷ []) deeper params-IsWhirConfig (omega arith) refl

check_whir-decode_whir_example : decode_whir bytes (whir_bytes ++ 5 ∷ []) ≡ ok (whir, 5 ∷ [])
unfolding encode_whir encode_u32 encode_u8 encode_usize encode_iter encode_slice encode_pair_array
    encode_initial encode_codewords check_whir check_rounds check_initial check_codewords check_rows
    each_length log_final_poly_len to_usize minus shift_left
check_whir-decode_whir_example =
    check_whir-decode_whir bytes params 1 ((0 ∷ []) ∷ []) whir whir_bytes (5 ∷ []) bytes-IsLawful
      params-IsWhirConfig (omega arith) refl refl refl
