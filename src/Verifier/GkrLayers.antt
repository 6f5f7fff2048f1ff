-- ===== src/Verifier/GkrLayers.antt =====
-- The rounds of `verify_gkr`, crates/stark-backend/src/verifier/fractional_sumcheck_gkr.rs.
use stark_backend.Prelude.{
  ℕ, suc, ◌+◌, ◌-◌, ◌<◌, ◌≡◌, refl, sym, ap, subst, ◌∙◌, List, [], ◌∷◌, ◌++◌, append_assoc, length,
  length-append, index-append, lt→ltb, ◌==◌, ==→eq, arith,
}
use stark_backend.Prelude.Outcome.{ok, index}
use stark_backend.Prelude.Ends.{
  Ends, Ends-index, Ends-bind, Ends-map, Ends-check, Ends-ok, Ends-return,
}
use stark_backend.Ring.{IsRing}
use stark_backend.Codec.Bytes.{Bytes}
use stark_backend.Codec.Config.{Config, IsLawful}
use stark_backend.Proof.Gkr.{GkrProof, Triple, IsGkrShaped, HasRounds, encode_gkr, decode_gkr}
use stark_backend.Proof.Parts.{decode-encode_gkr}
use stark_backend.Verifier.Gkr.{
  GkrVerificationError, Setting, State, same, compute_recursive_relations, Layers, verify_layer,
  verify_layers, verify_root, verify_gkr,
}
use stark_backend.Verifier.GkrRuns.{
  IsTotal, Interpolates, observe_element-total, sample_element-total, observe_layer_claims-total,
}
use stark_backend.Verifier.GkrSumcheck.{Holds, verify_gkr_sumcheck-Holds}

module _ (c : Config) (s : Setting c) (laws : IsRing s.ring) (field : Interpolates s)
    (Valid : State c s → Type 0) (total : IsTotal s.transcript Valid) where
  -- The state before round `round`: a point with as many coordinates.
  pub record Before (round : ℕ) (v : Layers c s) : Type 0 where
    pub valid : Valid v.state
    pub point : length v.gkr_r ≡ round

  verify_layer-Before :
      (proof : GkrProof c) (i : ℕ) (polys : List (Triple c)) (v : Layers c s)
      → i + 1 < length proof.claims_per_layer
      → index {E = GkrVerificationError c.EF} proof.sumcheck_polys i ≡ ok polys
      → Before (i + 1) v
      → Ends
          (λ v'. Before (i + 1 + 1) v' × (length polys ≡ i + 1))
          (verify_layer c s proof (i + 1) v)
  unfolding verify_layer
  verify_layer-Before proof i polys v lt at w =
      Ends-bind (λ p. Valid p.0) _ _ _ (sample_element-total c s Valid total v.state w.valid)
        (λ l v1.
          Ends-bind (λ u. Holds c s laws field Valid total v.gkr_r u × (length polys ≡ i + 1)) _ _ _
            (verify_gkr_sumcheck-Holds c s laws field Valid total proof l.0 i _ v.gkr_r polys v1
              w.point at)
            (λ u v2.
              Ends-bind (λ x. Unit {0}) _ _ _ (Ends-index _ proof.claims_per_layer (i + 1) lt)
                (λ claims k.
                  Ends-bind Valid _ _ _
                    (observe_layer_claims-total c s Valid total u.state claims v2.0.valid)
                    (λ t v3.
                      let cross : c.EF × c.EF = compute_recursive_relations c s claims in
                      let more : suc (length u.gkr_r_prime) ≡ i + 1 + 1 =
                        omega (arith, v2.0.as-long, w.point) in
                      Ends-check _
                        (same c s (s.ring.mul (s.ring.add cross.0 (s.ring.mul l.1 cross.1)) u.eq)
                          u.claim)
                        _ _
                        (λ e.
                          Ends-bind (λ p. Valid p.0) _ _ _
                            (sample_element-total c s Valid total t v3)
                            (λ m v4.
                              Ends-return _ _ _ (record { valid = v4; point = more }, v2.1)))))))

  verify_layers-Before :
      (proof : GkrProof c) (done rest : List (List (Triple c))) (v : Layers c s)
      → proof.sumcheck_polys ≡ done ++ rest
      → length done + length rest + 1 ≡ length proof.claims_per_layer
      → Before (length done + 1) v
      → Ends
          (λ v'. Before (length proof.claims_per_layer) v' × HasRounds c (length done) rest)
          (verify_layers c s proof (length done + 1) (length rest) v)
  unfolding verify_layers
  verify_layers-Before proof done [] v e n w =
      Ends-return _ _ _ (subst (λ (x : ℕ). Before x v) (omega arith) w, tt)
  verify_layers-Before proof done (polys ∷ rest) v e n w =
      let at : index {E = GkrVerificationError c.EF} proof.sumcheck_polys (length done) ≡ ok polys =
        ap (λ l. index {E = GkrVerificationError c.EF} l (length done)) e
        ∙ index-append done polys rest in
      let more : length (done ++ polys ∷ []) ≡ length done + 1 = length-append done (polys ∷ []) in
      Ends-bind (λ v'. Before (length done + 1 + 1) v' × (length polys ≡ length done + 1)) _ _ _
        (verify_layer-Before proof (length done) polys v (omega arith) at w)
        (λ v' w'.
          Ends-map
            (λ u. Before (length proof.claims_per_layer) u × HasRounds c (length done + 1) rest) _ _
            (λ u x. (x.0, (w'.1, x.1)))
            (subst
              (λ (x : ℕ).
                Ends (λ u. Before (length proof.claims_per_layer) u × HasRounds c x rest)
                  (verify_layers c s proof (x + 1) (length rest) v'))
              more
              (verify_layers-Before proof (done ++ polys ∷ []) rest v'
                (e ∙ sym (append_assoc done (polys ∷ []) rest)) (omega arith)
                (subst (λ (x : ℕ). Before (x + 1) v') (sym more) w'.0))))

  verify_root-Before :
      (proof : GkrProof c) (t : State c s)
      → 0 < length proof.claims_per_layer
      → Valid t
      → Ends (Before 1) (verify_root c s proof t)
  unfolding verify_root
  verify_root-Before proof t lt v =
      Ends-bind Valid _ _ _ (observe_element-total c s Valid total t proof.q0_claim v) (λ t0 v0.
        Ends-bind (λ x. Unit {0}) _ _ _ (Ends-index _ proof.claims_per_layer 0 lt)
          (λ claims k.
            Ends-bind Valid _ _ _ (observe_layer_claims-total c s Valid total t0 claims v0)
              (λ t1 v1.
                let cross : c.EF × c.EF = compute_recursive_relations c s claims in
                Ends-check _ (same c s cross.0 s.ring.zero) _ _ (λ e.
                  Ends-check _ (same c s cross.1 proof.q0_claim) _ _ (λ e'.
                    Ends-bind (λ p. Valid p.0) _ _ _ (sample_element-total c s Valid total t1 v1)
                      (λ m v2. Ends-return _ _ _ (record { valid = v2; point = refl })))))))

  -- Over a field in which 2 and 6 are not zero, on a transcript that does not panic, and for a
  -- positive number of rounds, `verify_gkr` returns an error or a result and does not panic, whatever
  -- the proof is; when it accepts, the proof has as many layers as rounds and the shape that its
  -- encoding leaves out, and the point returned has a coordinate for each round.
  pub verify_gkr-Ends :
      (proof : GkrProof c) (t : State c s) (total_rounds : ℕ)
      → 0 < total_rounds
      → Valid t
      → Ends
          (λ v.
            Valid v.state
            × (length v.gkr_r ≡ total_rounds)
            × (length proof.claims_per_layer ≡ total_rounds)
            × IsGkrShaped c proof)
          (verify_gkr c s proof t total_rounds)
  unfolding verify_gkr
  verify_gkr-Ends proof t total_rounds pos v = rw (lt→ltb 0 total_rounds pos) (
      Ends-check _ (length proof.claims_per_layer == total_rounds) _ _ (λ e.
        Ends-check _ (length proof.sumcheck_polys == total_rounds - 1) _ _ (λ e'.
          let layers : length proof.claims_per_layer ≡ total_rounds = ==→eq _ _ e in
          let rounds : length proof.sumcheck_polys ≡ total_rounds - 1 = ==→eq _ _ e' in
          Ends-bind (Before 1) _ _ _ (verify_root-Before proof t (omega arith) v) (λ u w.
            rw (sym rounds) (
              Ends-map _ _ _
                (λ u' x. (
                  x.0.valid,
                  x.0.point ∙ layers,
                  layers,
                  record { rounds = rounds ∙ omega arith; subrounds = x.1 },
                ))
                (verify_layers-Before proof [] proof.sumcheck_polys u refl (omega arith) w))))))

  -- A proof that `verify_gkr` accepts over a field in which 2 and 6 are not zero, on a transcript that
  -- does not panic, and for a positive number of rounds, decodes to itself from what is written of it,
  -- and what follows is left, under a configuration whose readers undo its writers.
  pub verify_gkr-decode_gkr :
      (proof : GkrProof c) (t : State c s) (total_rounds : ℕ) (v : Layers c s) (bytes rest : Bytes)
      → IsLawful c
      → 0 < total_rounds
      → Valid t
      → verify_gkr c s proof t total_rounds ≡ ok v
      → encode_gkr c proof ≡ ok bytes
      → decode_gkr c (bytes ++ rest) ≡ ok (proof, rest)
  verify_gkr-decode_gkr proof t total_rounds v bytes rest lawful pos valid accepted written =
      let shaped =
        Ends-ok _ (verify_gkr c s proof t total_rounds) v
          (verify_gkr-Ends proof t total_rounds pos valid) accepted in
      decode-encode_gkr c lawful bytes rest proof shaped.3 written
