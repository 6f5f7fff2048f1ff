-- ===== src/Verifier/Gkr.antt =====
-- `verify_gkr` of crates/stark-backend/src/verifier/fractional_sumcheck_gkr.rs, over the provided
-- methods of the transcript, the ring of the extension field and the operations of a field. Debug
-- assertions and logging are left out.
use stark_backend.Prelude.{
  ℕ, zero, suc, ◌+◌, ◌-◌, ◌≡◌, Bool, true, false, List, [], ◌∷◌, ◌++◌, length, ltb, ◌==◌, not,
  if◌then◌else◌,
}
use stark_backend.Prelude.Outcome.{Outcome, ok, err, ◌>>=◌, assert, no_error, index}
use stark_backend.Codec.Config.{Config}
use stark_backend.Proof.Gkr.{GkrProof, GkrLayerClaims, Triple}
use stark_backend.Transcript.Log.{Transcript}
use stark_backend.Transcript.Pow.{PrimeField64, observe_ext, sample_ext}
use stark_backend.Ring.{Ring}
use stark_backend.Poly.Mle.{FieldOps, interpolate_linear_at_01, interpolate_cubic_at_0123}

pub data GkrVerificationError (EF : Type 0) : Type 0 where
  invalid_zero_round_value : EF → GkrVerificationError EF
  zero_check_failed : EF → GkrVerificationError EF
  root_consistency_check_failed : EF → EF → GkrVerificationError EF
  layer_consistency_check_failed : ℕ → EF → EF → GkrVerificationError EF
  incorrect_layer_count : ℕ → ℕ → GkrVerificationError EF
  incorrect_sumcheck_poly_count : ℕ → ℕ → GkrVerificationError EF
  incorrect_subround_count : ℕ → ℕ → ℕ → GkrVerificationError EF

-- What the verifier uses of the extension field and of the transcript.
pub record Setting (c : Config) : Type 1 where
  pub field : PrimeField64 c.F
  pub ring : Ring c.EF
  pub ops : FieldOps c.EF
  pub equal : (a b : c.EF) → Dec (a ≡ b)
  pub dimension : ℕ
  pub as_basis_coefficients : c.EF → List c.F
  pub from_basis_coefficients : List c.F → c.EF
  pub transcript : Transcript c.F

module _ (c : Config) (s : Setting c) where
  abbrev pub State : Type 0
  State = s.transcript.State

  -- What the verifier returns.
  abbrev pub Result : Type 0 → Type 0
  Result A = Outcome (GkrVerificationError c.EF) A

  unfoldable pub observe_element : State → c.EF → Result State
  observe_element t x = no_error (observe_ext s.field s.transcript t (s.as_basis_coefficients x))

  unfoldable pub sample_element : State → Result (State × c.EF)
  sample_element t =
      no_error (sample_ext s.field s.transcript s.dimension s.from_basis_coefficients t)

  -- `==` of the extension field
  abbrev pub same : c.EF → c.EF → Bool
  same a b = elim (s.equal a b) [ yes e ↦ true | no d ↦ false ]

  unfoldable pub observe_layer_claims : State → GkrLayerClaims c → Result State
  observe_layer_claims t claims = do
    t1 ← observe_element t claims.p_xi_0
    t2 ← observe_element t1 claims.q_xi_0
    t3 ← observe_element t2 claims.p_xi_1
    observe_element t3 claims.q_xi_1

  unfoldable pub compute_recursive_relations : GkrLayerClaims c → c.EF × c.EF
  compute_recursive_relations claims = (
    s.ring.add (s.ring.mul claims.p_xi_0 claims.q_xi_1) (s.ring.mul claims.p_xi_1 claims.q_xi_0),
    s.ring.mul claims.q_xi_0 claims.q_xi_1,
  )

  unfoldable pub reduce_to_single_evaluation : GkrLayerClaims c → c.EF → c.EF × c.EF
  reduce_to_single_evaluation claims mu = (
    interpolate_linear_at_01 s.ring claims.p_xi_0 claims.p_xi_1 mu,
    interpolate_linear_at_01 s.ring claims.q_xi_0 claims.q_xi_1 mu,
  )

  -- The variables of the loop of `verify_gkr_sumcheck`.
  pub record Sumcheck : Type 0 where
    pub state : State
    pub claim : c.EF
    pub gkr_r_prime : List c.EF
    pub eq : c.EF

  -- The claim at the end of a round, whose challenge is `ri`.
  unfoldable pub next_claim : c.EF → Triple c → c.EF → Result c.EF
  next_claim claim (ev1, ev2, ev3) ri =
      no_error (interpolate_cubic_at_0123 s.ring s.ops (s.ring.sub claim ev1) ev1 ev2 ev3 ri)

  unfoldable pub sumcheck_round : List c.EF → ℕ → Triple c → Sumcheck → Result Sumcheck
  sumcheck_round gkr_r round (ev1, ev2, ev3) v = do
    t1 ← observe_element v.state ev1
    t2 ← observe_element t1 ev2
    t3 ← observe_element t2 ev3
    p ← sample_element t3
    let ri : c.EF = p.1
    claim ← next_claim v.claim (ev1, ev2, ev3) ri
    xi ← index gkr_r round
    ok (record {
      state = p.0;
      claim = claim;
      gkr_r_prime = v.gkr_r_prime ++ ri ∷ [];
      eq = s.ring.mul v.eq (
          s.ring.add (s.ring.mul xi ri)
            (s.ring.mul (s.ring.sub s.ring.one xi) (s.ring.sub s.ring.one ri)));
    })

  unfoldable pub sumcheck_rounds : List c.EF → ℕ → List (Triple c) → Sumcheck → Result Sumcheck
  sumcheck_rounds gkr_r round [] v = ok v
  sumcheck_rounds gkr_r round (poly_evals ∷ polys) v = do
    v' ← sumcheck_round gkr_r round poly_evals v
    sumcheck_rounds gkr_r (round + 1) polys v'

  unfoldable pub verify_gkr_sumcheck : GkrProof c → State → ℕ → c.EF → List c.EF → Result Sumcheck
  verify_gkr_sumcheck proof t round claim gkr_r = do
    polys ← index proof.sumcheck_polys (round - 1)
    if not (length polys == round)
        then err (incorrect_subround_count round round (length polys))
        else sumcheck_rounds gkr_r 0 polys
            (record { state = t; claim = claim; gkr_r_prime = []; eq = s.ring.one })

  -- The variables of the loop of `verify_gkr`.
  pub record Layers : Type 0 where
    pub state : State
    pub numer_claim : c.EF
    pub denom_claim : c.EF
    pub gkr_r : List c.EF

  -- A round from 1 on.
  unfoldable pub verify_layer : GkrProof c → ℕ → Layers → Result Layers
  verify_layer proof round v = do
    l ← sample_element v.state
    let lambda : c.EF = l.1
    u ←
        verify_gkr_sumcheck proof l.0 round
          (s.ring.add v.numer_claim (s.ring.mul lambda v.denom_claim)) v.gkr_r
    layer_claims ← index proof.claims_per_layer round
    t ← observe_layer_claims u.state layer_claims
    let cross : c.EF × c.EF = compute_recursive_relations layer_claims
    let expected_claim : c.EF = s.ring.mul (s.ring.add cross.0 (s.ring.mul lambda cross.1)) u.eq
    if not (same expected_claim u.claim)
        then err (layer_consistency_check_failed round expected_claim u.claim)
        else (do
          m ← sample_element t
          let claims : c.EF × c.EF = reduce_to_single_evaluation layer_claims m.1
          ok (record {
            state = m.0;
            numer_claim = claims.0;
            denom_claim = claims.1;
            gkr_r = m.1 ∷ u.gkr_r_prime;
          }))

  -- The rounds from `round` on, `count` of them.
  unfoldable pub verify_layers : GkrProof c → ℕ → ℕ → Layers → Result Layers
  verify_layers proof round zero v = ok v
  verify_layers proof round (suc count) v = do
    v' ← verify_layer proof round v
    verify_layers proof (round + 1) count v'

  -- Round 0.
  unfoldable pub verify_root : GkrProof c → State → Result Layers
  verify_root proof t = do
    t0 ← observe_element t proof.q0_claim
    layer_claims ← index proof.claims_per_layer 0
    t1 ← observe_layer_claims t0 layer_claims
    let cross : c.EF × c.EF = compute_recursive_relations layer_claims
    if not (same cross.0 s.ring.zero)
        then err (zero_check_failed cross.0)
        else if not (same cross.1 proof.q0_claim)
        then err (root_consistency_check_failed proof.q0_claim cross.1)
        else (do
          m ← sample_element t1
          let claims : c.EF × c.EF = reduce_to_single_evaluation layer_claims m.1
          ok (record {
            state = m.0;
            numer_claim = claims.0;
            denom_claim = claims.1;
            gkr_r = m.1 ∷ [];
          }))

  unfoldable pub verify_gkr : GkrProof c → State → ℕ → Result Layers
  verify_gkr proof t total_rounds = do
    _ ← assert (ltb 0 total_rounds)
    if not (length proof.claims_per_layer == total_rounds)
        then err (incorrect_layer_count total_rounds (length proof.claims_per_layer))
        else if not (length proof.sumcheck_polys == total_rounds - 1)
        then err (incorrect_sumcheck_poly_count (total_rounds - 1) (length proof.sumcheck_polys))
        else (do v ← verify_root proof t; verify_layers proof 1 (total_rounds - 1) v)
