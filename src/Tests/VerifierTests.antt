-- ===== src/Tests/VerifierTests.antt =====
-- Runs of the theorems on polynomials, over the field of two elements, and on the verifier, over the
-- field of five elements.
use stark_backend.Prelude.{
  ℕ, ◌≡◌, refl, Bool, true, false, List, [], ◌∷◌, length, tabulate, map, length-map, arith,
}
use stark_backend.Prelude.Outcome.{ok}
use stark_backend.Prelude.Ends.{Ends}
use stark_backend.Codec.Bytes.{encode_u8, decode_u8, encode_usize, encode_u32}
use stark_backend.Codec.Compound.{encode_slice, encode_iter}
use stark_backend.Codec.RoundTrip.{u8-Reads}
use stark_backend.Codec.Config.{Config, IsLawful}
use stark_backend.Proof.Gkr.{
  GkrProof, GkrLayerClaims, IsGkrShaped, encode_gkr, decode_gkr, encode_claims, encode_triple,
}
use stark_backend.Transcript.Sponge.{DuplexSponge, new_sponge, absorb, squeeze, ready}
use stark_backend.Transcript.Pow.{observe_ext, sample_ext, sample_values}
use stark_backend.Transcript.Log.{sponge_transcript}
use stark_backend.Transcript.SpongeInvariant.{IsValid, new_sponge-IsValid}
use stark_backend.Poly.Mle.{
  eval_eq_mle, eval_mle_evals_at_point, evals_eq_hypercube_serial, interpolate_linear_at_01,
  interpolate_cubic_at_0123,
}
use stark_backend.Poly.Algebra.{dot}
use stark_backend.Poly.Hypercube.{bits}
use stark_backend.Poly.Folding.{eval_mle_evals_at_point-dot}
use stark_backend.Verifier.Gkr.{
  Setting, verify_gkr_sumcheck, verify_gkr, verify_root, verify_layers, verify_layer,
  sumcheck_rounds, sumcheck_round, observe_layer_claims, observe_element, sample_element,
  next_claim, compute_recursive_relations, reduce_to_single_evaluation,
}
use stark_backend.Verifier.GkrRuns.{IsTotal, Interpolates, sponge-IsTotal}
use stark_backend.Verifier.GkrSumcheck.{Holds, verify_gkr_sumcheck-Holds}
use stark_backend.Verifier.GkrLayers.{verify_gkr-Ends, verify_gkr-decode_gkr}
use stark_backend.Tests.SymbolicTests.{two, two-IsRing}
use stark_backend.Tests.FieldOfFive.{
  Five, n0, n1, to_number, of_number, equal_five, five, five-IsRing, five_ops, five-IsFieldOps,
  encode_five, decode_five, five-Reads,
}

eval_mle_evals_at_point-dot_example :
    (ws : List Bool) × (evals_eq_hypercube_serial two (true ∷ false ∷ []) ≡ ok ws)
    × (ws ≡ tabulate 4 (λ b. eval_eq_mle two (true ∷ false ∷ []) (bits two 2 b)))
    × (eval_mle_evals_at_point two (false ∷ true ∷ true ∷ false ∷ []) (true ∷ false ∷ [])
        ≡ ok (dot two two-IsRing (false ∷ true ∷ true ∷ false ∷ []) ws))
eval_mle_evals_at_point-dot_example =
    eval_mle_evals_at_point-dot two two-IsRing (false ∷ true ∷ true ∷ false ∷ [])
      (true ∷ false ∷ []) refl

abbrev fives : Config
fives = record {
  F = Five;
  EF = Five;
  Digest = ℕ;
  encode_base_field = encode_five;
  encode_extension_field = encode_five;
  encode_digest = encode_u8;
  decode_base_field = decode_five;
  decode_extension_field = decode_five;
  decode_digest = decode_u8;
}

fives-IsLawful : IsLawful fives
fives-IsLawful = record { base = five-Reads; ext = five-Reads; digest = u8-Reads }

-- A permutation for tests that clears the state.
abbrev clear : List Five → List Five
clear xs = map (λ x. n0) xs

abbrev head_of : List Five → Five
head_of [] = n0
head_of (x ∷ xs) = x

abbrev setting : Setting fives
setting = record {
  field = record { order_u64 = 5; as_canonical_u64 = to_number; from_u64 = of_number };
  ring = five;
  ops = five_ops;
  equal = equal_five;
  dimension = 1;
  as_basis_coefficients = λ x. x ∷ [];
  from_basis_coefficients = head_of;
  transcript = sponge_transcript clear 1;
}

setting-Interpolates : Interpolates setting
setting-Interpolates = record { ops = five-IsFieldOps; two = λ e. cc; six = λ e. cc }

abbrev empty_sponge : DuplexSponge Five
empty_sponge = new_sponge n0 2

setting-IsTotal : IsTotal (sponge_transcript clear 1) (IsValid 1 2)
setting-IsTotal =
    sponge-IsTotal clear 1 2 (omega arith) (omega arith) (λ xs. length-map (λ x. n0) xs)

empty_sponge-IsValid : IsValid 1 2 empty_sponge
empty_sponge-IsValid =
    new_sponge-IsValid clear 1 2 (omega arith) (omega arith) (λ xs. length-map (λ x. n0) xs) n0

abbrev layer : GkrLayerClaims fives
layer = record { p_xi_0 = n0; p_xi_1 = n0; q_xi_0 = n1; q_xi_1 = n1 }

abbrev gkr : GkrProof fives
gkr = record {
  logup_pow_witness = n0;
  q0_claim = n1;
  claims_per_layer = layer ∷ layer ∷ [];
  sumcheck_polys = ((n0, n0, n0) ∷ []) ∷ [];
}

verify_gkr-Ends_example :
    Ends
      (λ v. IsValid 1 2 v.state × (length v.gkr_r ≡ 2) × (◌≡◌ {A = ℕ} 2 2) × IsGkrShaped fives gkr)
      (verify_gkr fives setting gkr empty_sponge 2)
verify_gkr-Ends_example =
    verify_gkr-Ends fives setting five-IsRing setting-Interpolates (IsValid 1 2) setting-IsTotal gkr
      empty_sponge 2 (omega arith) empty_sponge-IsValid

verify_gkr_sumcheck-Holds_example :
    Ends
      (λ v.
        Holds fives setting five-IsRing setting-Interpolates
          (IsValid 1 2)
          setting-IsTotal
          (n1 ∷ [])
          v
        × (◌≡◌ {A = ℕ} 1 1))
      (verify_gkr_sumcheck fives setting gkr empty_sponge 1 n0 (n1 ∷ []))
verify_gkr_sumcheck-Holds_example =
    verify_gkr_sumcheck-Holds fives setting five-IsRing setting-Interpolates (IsValid 1 2)
      setting-IsTotal gkr empty_sponge 0 n0 (n1 ∷ []) ((n0, n0, n0) ∷ []) empty_sponge-IsValid refl
      refl

verify_gkr-decode_gkr_example :
    decode_gkr fives (0 ∷ 1 ∷ 2 ∷ 0 ∷ 0 ∷ 0 ∷ 0 ∷ 0 ∷ 1 ∷ 1 ∷ 0 ∷ 0 ∷ 1 ∷ 1 ∷ 0 ∷ 0 ∷ 0 ∷ 7 ∷ [])
    ≡ ok (gkr, 7 ∷ [])
unfolding verify_gkr verify_root verify_layers verify_layer verify_gkr_sumcheck sumcheck_rounds
    sumcheck_round observe_layer_claims observe_element sample_element observe_ext sample_ext
    sample_values compute_recursive_relations reduce_to_single_evaluation interpolate_linear_at_01
    interpolate_cubic_at_0123 absorb squeeze new_sponge encode_gkr encode_claims encode_triple ready
    encode_u8 next_claim encode_slice encode_usize encode_u32 encode_iter
verify_gkr-decode_gkr_example =
    verify_gkr-decode_gkr fives setting five-IsRing setting-Interpolates (IsValid 1 2)
      setting-IsTotal gkr empty_sponge 2
      (record {
        state = record {
          state = n0 ∷ n0 ∷ [];
          absorb_idx = 0;
          sample_idx = 0;
          last_op_perm = false;
        };
        numer_claim = n0;
        denom_claim = n1;
        gkr_r = n0 ∷ n0 ∷ [];
      })
      (0 ∷ 1 ∷ 2 ∷ 0 ∷ 0 ∷ 0 ∷ 0 ∷ 0 ∷ 1 ∷ 1 ∷ 0 ∷ 0 ∷ 1 ∷ 1 ∷ 0 ∷ 0 ∷ 0 ∷ []) (7 ∷ [])
      fives-IsLawful (omega arith) empty_sponge-IsValid refl refl
