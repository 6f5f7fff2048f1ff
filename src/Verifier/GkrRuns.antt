-- ===== src/Verifier/GkrRuns.antt =====
-- How the runs of `verify_gkr` end, crates/stark-backend/src/verifier/fractional_sumcheck_gkr.rs.
use stark_backend.Prelude.{ℕ, zero, suc, ◌≤◌, ◌<◌, ◌≡◌, ◌≢◌, List, [], ◌∷◌, length}
use stark_backend.Prelude.Ends.{Ends, Ends-bind, Ends-no_error}
use stark_backend.Poly.Mle.{IsFieldOps, interpolate_cubic_at_0123}
use stark_backend.Codec.Config.{Config}
use stark_backend.Proof.Gkr.{GkrLayerClaims, Triple}
use stark_backend.Transcript.Log.{Transcript, sponge_transcript}
use stark_backend.Transcript.SpongeInvariant.{IsValid, absorb-IsValid, squeeze-IsValid}
use stark_backend.Transcript.Pow.{observe_ext, sample_values, sample_ext}
use stark_backend.Verifier.Gkr.{
  Setting, State, observe_element, sample_element, observe_layer_claims, next_claim,
}

-- A transcript that does not panic in these states, and stays in them.
pub record IsTotal {F : Type 0} (t : Transcript F) (Valid : t.State → Type 0) : Type 0 where
  pub observe_total : (s : t.State) (x : F) → Valid s → Ends Valid (t.observe_value s x)
  pub sample_total : (s : t.State) → Valid s → Ends (λ p. Valid p.0) (t.sample_value s)

-- A field whose interpolations do not panic: 2 and 6 are not zero in it.
pub record Interpolates {c : Config} (s : Setting c) : Type 0 where
  pub ops : IsFieldOps s.ring s.ops
  pub two : s.ring.add s.ring.one s.ring.one ≢ s.ring.zero
  pub six : s.ops.from_u64 6 ≢ s.ring.zero

interpolate_cubic-total :
    {c : Config} (s : Setting c) (ev0 ev1 ev2 ev3 x : c.EF)
    → Interpolates s
    → Ends (λ y. Unit {0}) (interpolate_cubic_at_0123 s.ring s.ops ev0 ev1 ev2 ev3 x)
unfolding interpolate_cubic_at_0123 Ends
interpolate_cubic-total s ev0 ev1 ev2 ev3 x h =
    let (inv6, e, e') = h.ops.inverse-mul (s.ops.from_u64 6) h.six in
    let d3 =
      s.ring.sub (s.ring.sub ev3 ev0)
        (s.ring.mul (s.ring.sub (s.ring.sub ev2 ev0) (s.ring.sub ev1 ev0)) (s.ops.from_u64 3)) in
    let (half, g, g') = h.ops.halve-add h.two (s.ring.sub (s.ring.sub ev2 ev0) d3) in rw (e, g) tt

pub next_claim-total :
    (c : Config) (s : Setting c) (claim : c.EF) (poly : Triple c) (ri : c.EF)
    → Interpolates s
    → Ends (λ y. Unit {0}) (next_claim c s claim poly ri)
unfolding next_claim
next_claim-total c s claim (ev1, ev2, ev3) ri h =
    Ends-no_error _ _ _ (interpolate_cubic-total s (s.ring.sub claim ev1) ev1 ev2 ev3 ri h)

-- The duplex sponge does not panic in valid states.
pub sponge-IsTotal :
    {F : Type 0} (perm : List F → List F) (rate width : ℕ)
    → 0 < rate
    → rate ≤ width
    → ((xs : List F) → length (perm xs) ≡ length xs)
    → IsTotal (sponge_transcript perm rate) (IsValid rate width)
unfolding Ends
sponge-IsTotal perm rate width pos le keeps = record {
  observe_total =
      λ s x v. let (s', e, w) = absorb-IsValid perm rate width pos le keeps s x v in rw e w;
  sample_total =
      λ s v. let (s', x, e, w) = squeeze-IsValid perm rate width pos le keeps s v in rw e w;
}

module _ (c : Config) (s : Setting c) (Valid : State c s → Type 0)
    (total : IsTotal s.transcript Valid) where
  observe_ext-total :
      (t : State c s) (xs : List c.F) → Valid t → Ends Valid (observe_ext s.field s.transcript t xs)
  unfolding observe_ext Ends
  observe_ext-total t [] v = v
  observe_ext-total t (x ∷ xs) v =
      Ends-bind Valid Valid (s.transcript.observe_value t x) _ (total.observe_total t x v)
        (λ t' v'. observe_ext-total t' xs v')

  sample_values-total :
      (t : State c s) (n : ℕ)
      → Valid t
      → Ends (λ p. Valid p.0) (sample_values s.field s.transcript t n)
  unfolding sample_values Ends
  sample_values-total t zero v = v
  sample_values-total t (suc n) v =
      Ends-bind (λ p. Valid p.0) (λ p. Valid p.0) (s.transcript.sample_value t) _
        (total.sample_total t v)
        (λ p v'.
          Ends-bind (λ q. Valid q.0) (λ q. Valid q.0) (sample_values s.field s.transcript p.0 n) _
            (sample_values-total p.0 n v') (λ q w. w))

  pub observe_element-total :
      (t : State c s) (x : c.EF) → Valid t → Ends Valid (observe_element c s t x)
  unfolding observe_element
  observe_element-total t x v =
      Ends-no_error _ Valid _ (observe_ext-total t (s.as_basis_coefficients x) v)

  pub sample_element-total :
      (t : State c s) → Valid t → Ends (λ p. Valid p.0) (sample_element c s t)
  unfolding sample_element sample_ext Ends
  sample_element-total t v =
      Ends-no_error _ (λ p. Valid p.0)
        (sample_ext s.field s.transcript s.dimension s.from_basis_coefficients t)
        (Ends-bind (λ p. Valid p.0) (λ p. Valid p.0)
          (sample_values s.field s.transcript t s.dimension) _ (sample_values-total t s.dimension v)
          (λ p w. w))

  pub observe_layer_claims-total :
      (t : State c s) (claims : GkrLayerClaims c)
      → Valid t
      → Ends Valid (observe_layer_claims c s t claims)
  unfolding observe_layer_claims
  observe_layer_claims-total t claims v =
      Ends-bind Valid Valid _ _ (observe_element-total t claims.p_xi_0 v) (λ t1 v1.
        Ends-bind Valid Valid _ _ (observe_element-total t1 claims.q_xi_0 v1) (λ t2 v2.
          Ends-bind Valid Valid _ _ (observe_element-total t2 claims.p_xi_1 v2)
            (λ t3 v3. observe_element-total t3 claims.q_xi_1 v3)))
