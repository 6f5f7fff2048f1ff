-- ===== src/Verifier/GkrSumcheck.antt =====
-- `verify_gkr_sumcheck` of crates/stark-backend/src/verifier/fractional_sumcheck_gkr.rs.
use stark_backend.Prelude.{
  ℕ, ◌+◌, ◌-◌, ◌≡◌, refl, sym, ap, subst, ◌∙◌, List, [], ◌∷◌, ◌++◌, append_assoc, append-nil,
  length, length-append, index-append, ◌==◌, ==→eq, arith,
}
use stark_backend.Prelude.Outcome.{ok, index}
use stark_backend.Prelude.Ends.{Ends, Ends-bind, Ends-map, Ends-check}
use stark_backend.Ring.{IsRing}
use stark_backend.Codec.Config.{Config}
use stark_backend.Proof.Gkr.{GkrProof, Triple}
use stark_backend.Poly.Mle.{eq_mle_from, eval_eq_mle}
use stark_backend.Poly.Algebra.{eq_factor}
use stark_backend.Poly.Hypercube.{eq_mle_from-snoc}
use stark_backend.Verifier.Gkr.{
  GkrVerificationError, Setting, State, Sumcheck, sumcheck_round, sumcheck_rounds,
  verify_gkr_sumcheck,
}
use stark_backend.Verifier.GkrRuns.{
  IsTotal, Interpolates, next_claim-total, observe_element-total, sample_element-total,
}

module _ (c : Config) (s : Setting c) (laws : IsRing s.ring) (field : Interpolates s)
    (Valid : State c s → Type 0) (total : IsTotal s.transcript Valid) where
  -- The state of the loop after the coordinates `done`.
  pub record Holds (done : List c.EF) (v : Sumcheck c s) : Type 0 where
    pub valid : Valid v.state
    pub as-long : length v.gkr_r_prime ≡ length done
    pub is-eq : v.eq ≡ eval_eq_mle s.ring done v.gkr_r_prime

  sumcheck_round-Holds :
      (done rest : List c.EF) (xi : c.EF) (poly : Triple c) (v : Sumcheck c s)
      → Holds done v
      → Ends (Holds (done ++ xi ∷ [])) (sumcheck_round c s (done ++ xi ∷ rest) (length done) poly v)
  unfolding sumcheck_round Ends
  sumcheck_round-Holds done rest xi (ev1, ev2, ev3) v w =
      Ends-bind Valid _ _ _ (observe_element-total c s Valid total v.state ev1 w.valid) (λ t1 v1.
        Ends-bind Valid _ _ _ (observe_element-total c s Valid total t1 ev2 v1) (λ t2 v2.
          Ends-bind Valid _ _ _ (observe_element-total c s Valid total t2 ev3 v2) (λ t3 v3.
            Ends-bind (λ p. Valid p.0) _ _ _ (sample_element-total c s Valid total t3 v3)
              (λ p v4.
                Ends-bind (λ y. Unit {0}) _ _ _
                  (next_claim-total c s v.claim (ev1, ev2, ev3) p.1 field)
                  (λ claim u. rw (index-append done xi rest) (record {
                    valid = v4;
                    as-long = omega (
                      arith,
                      w.as-long,
                      length-append v.gkr_r_prime (p.1 ∷ []),
                      length-append done (xi ∷ []),
                    );
                    is-eq =
                        ap
                          (λ (t : c.EF). s.ring.mul t (
                            s.ring.add (s.ring.mul xi p.1)
                              (s.ring.mul (s.ring.sub s.ring.one xi) (s.ring.sub s.ring.one p.1))))
                          w.is-eq
                        ∙ ap (s.ring.mul (eval_eq_mle s.ring done v.gkr_r_prime))
                            (eq_factor s.ring laws xi p.1)
                        ∙ sym (
                            eq_mle_from-snoc s.ring done v.gkr_r_prime s.ring.one xi p.1
                              (sym w.as-long));
                  }))))))

  sumcheck_rounds-Holds :
      (polys : List (Triple c)) (done rest : List c.EF) (v : Sumcheck c s)
      → length polys ≡ length rest
      → Holds done v
      → Ends (Holds (done ++ rest)) (sumcheck_rounds c s (done ++ rest) (length done) polys v)
  unfolding sumcheck_rounds Ends
  sumcheck_rounds-Holds [] done [] v n w = rw (append-nil done) w
  sumcheck_rounds-Holds [] done (x ∷ rest) v n w = grind arith
  sumcheck_rounds-Holds (poly ∷ polys) done [] v n w = grind arith
  sumcheck_rounds-Holds (poly ∷ polys) done (x ∷ rest) v n w =
      Ends-bind (Holds (done ++ x ∷ [])) _ _ _ (sumcheck_round-Holds done rest x poly v w) (λ v' w'.
        let same : (done ++ x ∷ []) ++ rest ≡ done ++ x ∷ rest = append_assoc done (x ∷ []) rest in
        let more : length (done ++ x ∷ []) ≡ length done + 1 = length-append done (x ∷ []) in
        subst (λ l. Ends (Holds l) (sumcheck_rounds c s l (length done + 1) polys v')) same
          (subst
            (λ (k : ℕ).
              Ends (Holds ((done ++ x ∷ []) ++ rest))
                (sumcheck_rounds c s ((done ++ x ∷ []) ++ rest) k polys v'))
            more (sumcheck_rounds-Holds polys (done ++ x ∷ []) rest v' (omega arith) w')))

  -- Over a field in which 2 and 6 are not zero, on a transcript that does not panic, and with a point
  -- of as many coordinates as the round's number, the sumcheck of a round that the proof has an entry
  -- for does not panic, and when it returns, it returns as many challenges as there are coordinates,
  -- and `eq` of the two points, and the entry has a polynomial for each coordinate.
  pub verify_gkr_sumcheck-Holds :
      (proof : GkrProof c) (t : State c s) (i : ℕ) (claim : c.EF) (gkr_r : List c.EF)
      (polys : List (Triple c))
      → Valid t
      → length gkr_r ≡ i + 1
      → index {E = GkrVerificationError c.EF} proof.sumcheck_polys i ≡ ok polys
      → Ends
          (λ v. Holds gkr_r v × (length polys ≡ i + 1))
          (verify_gkr_sumcheck c s proof t (i + 1) claim gkr_r)
  unfolding verify_gkr_sumcheck eq_mle_from
  verify_gkr_sumcheck-Holds proof t i claim gkr_r polys v n at =
      let e : i + 1 - 1 ≡ i = omega arith in
      rw (e, at)
        (Ends-check _ (length polys == i + 1) _ _ (λ h.
          let size : length polys ≡ i + 1 = ==→eq (length polys) (i + 1) h in
          Ends-map (Holds gkr_r) _ _ (λ u w. (w, size))
            (sumcheck_rounds-Holds polys [] gkr_r _ (omega arith)
              (record { valid = v; as-long = refl; is-eq = refl }))))
