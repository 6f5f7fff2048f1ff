-- ===== src/Proof/WhirRead.antt =====
-- The WHIR part of a proof, read back.
use stark_backend.Prelude.{
  ℕ, zero, suc, ◌^◌, ◌<◌, ◌≡◌, ◌≢◌, refl, sym, Bool, true, false, ◌&&◌, List, [], ◌∷◌, length, ltb,
  lt→ltb, eq→==, ne→==, ==→eq, All, ltb→lt, arith, if◌then◌else◌,
}
use stark_backend.Prelude.Outcome.{ok, >>=-eq-ok}
use stark_backend.Codec.Bytes.{Bytes, ◌>>=◌, pure, decode_usize}
use stark_backend.Codec.Reads.{Reads, Reads-bind, Reads-map}
use stark_backend.Codec.Compound.{encode_iter, encode_slice, decode_into_vec, decode_vec}
use stark_backend.Codec.RoundTrip.{usize-Reads, iter-Reads, slice-Reads}
use stark_backend.Codec.Config.{
  Config, IsLawful, count-Reads, vec-Reads, encode_extension_field_iter, decode_extension_field_n,
  decode_digest_n,
}
use stark_backend.Proof.Stacking.{pair_array-Reads}
use stark_backend.Proof.Whir.{
  WhirProof, num_whir_rounds, first_depth, first_length, encode_codewords, encode_whir, decode_whir,
  decode_codeword_proofs,
}
use stark_backend.Proof.WhirParts.{
  IsWhirShaped, k_whir, HasDepths, Reads-assert, initial-Reads, codeword_proofs-Reads,
}

pub and_true : (b : Bool) → (b && true) ≡ b
and_true true = refl
and_true false = refl

module _ (c : Config) (h : IsLawful c) where
  values-Reads :
      (n k_exp : ℕ) (xs : List (List (List c.EF)))
      → length xs ≡ n
      → All (All (λ (vs : List c.EF). length vs ≡ k_exp)) xs
      → Reads
          (encode_iter (encode_slice (encode_extension_field_iter c)) xs)
          (decode_into_vec (decode_vec (decode_extension_field_n c k_exp)) n)
          xs
  values-Reads n k_exp xs e s = rw (← e) (
      iter-Reads (encode_slice (encode_extension_field_iter c))
        (decode_vec (decode_extension_field_n c k_exp)) xs (all xs s))
    where
      row :
          (vs : List (List c.EF))
          → All (λ v. length v ≡ k_exp) vs
          → All
              (λ v. Reads (encode_extension_field_iter c v) (decode_extension_field_n c k_exp) v)
              vs
      row [] t = tt
      row (v ∷ vs) t = (count-Reads _ _ h.ext k_exp v t.0, row vs t.1)

      all :
          (ys : List (List (List c.EF)))
          → All (All (λ v. length v ≡ k_exp)) ys
          → All
              (λ y.
                Reads
                  (encode_slice (encode_extension_field_iter c) y)
                  (decode_vec (decode_extension_field_n c k_exp))
                  y)
              ys
      all [] t = tt
      all (y ∷ ys) t = (
        slice-Reads (encode_extension_field_iter c) (decode_extension_field_n c k_exp) y
            (row y t.0),
        all ys t.1,
      )

  codewords-Reads :
      (x : WhirProof c) (codeword_depth queries : ℕ)
      → 0 < queries
      → length x.codeword_opened_values ≡ length x.codeword_commits
      → All (All (λ (vs : List c.EF). length vs ≡ 2 ^ k_whir c x)) x.codeword_opened_values
      → (if ltb 1 (num_whir_rounds c x) then first_depth x.codeword_merkle_proofs else ok 0)
        ≡ ok codeword_depth
      → HasDepths c codeword_depth x.codeword_opened_values x.codeword_merkle_proofs
      → {B : Type 0} (f : List (List (List c.EF)) → List (List (List c.Digest)) → List c.EF → B)
      → Reads
          (encode_codewords c queries x)
          (do
            values ←
                decode_into_vec
                  (decode_vec (decode_extension_field_n c (2 ^ k_whir c x)))
                  (length x.codeword_commits)
            merkle_depth ← decode_usize
            proofs ← decode_codeword_proofs c merkle_depth values
            final_poly ← decode_vec c.decode_extension_field
            pure (f values proofs final_poly))
          (f x.codeword_opened_values x.codeword_merkle_proofs x.final_poly)
  unfolding encode_codewords
  codewords-Reads x codeword_depth queries q l v e d f =
      Reads-bind _ (values-Reads _ _ x.codeword_opened_values l v) (
        rw (lt→ltb 0 queries q, and_true, e)
          (Reads-bind _ (usize-Reads codeword_depth) (
            Reads-bind _ (codeword_proofs-Reads c h codeword_depth _ x.codeword_merkle_proofs d)
              (Reads-map _ (vec-Reads _ _ h.ext x.final_poly)))))

  pub whir-Reads :
      (x : WhirProof c) (depth codeword_depth : ℕ)
      → IsWhirShaped c x depth codeword_depth
      → Reads (encode_whir c x) (decode_whir c) x
  unfolding encode_whir decode_whir
  whir-Reads x depth codeword_depth s = Reads-bind _ (h.base x.mu_pow_witness) (
      Reads-bind _ (vec-Reads _ _ (pair_array-Reads c h) x.whir_sumcheck_polys) (
        Reads-bind _ (vec-Reads _ _ h.digest x.codeword_commits) (
          rw (eq→== _ _ s.multiple) (
            Reads-bind _ (count-Reads _ _ h.ext _ x.ood_values s.oods) (
              Reads-assert _ (λ powers.
                Reads-bind _ (count-Reads _ _ h.base _ x.folding_pow_witnesses s.foldings) (
                  Reads-bind _
                    (count-Reads _ _ h.base _ x.query_phase_pow_witnesses (sym (==→eq _ _ powers)))
                    (Reads-assert (ltb 0 (length x.initial_round_opened_rows)) (λ commits.
                      Reads-bind _ (usize-Reads (length x.initial_round_opened_rows)) (
                        rw
                          (ne→== (length x.initial_round_opened_rows) 0
                            (omega (arith, ltb→lt 0 (length x.initial_round_opened_rows) commits)))
                          (Reads-bind _ (usize-Reads (first_length x.initial_round_opened_rows)) (
                            rw (lt→ltb (k_whir c x) 64 s.k-lt) (
                              Reads-bind _
                                (initial-Reads c h _ _ depth _ _ s.queries-pos (ltb→lt _ _ commits)
                                  s.rows s.proofs-length s.proofs)
                                (codewords-Reads x codeword_depth _ s.queries-pos s.values-length
                                  s.values s.codeword-depth s.depths _))))))))))))))

-- With fewer levels than rounds, the decoder of the rounds' Merkle proofs never returns a value,
-- whatever it reads.
pub decode_codeword_proofs_underflow :
    (c : Config) (depth : ℕ) (values : List (List (List c.EF))) (bytes : Bytes)
    (r : List (List (List c.Digest)) × Bytes)
    → depth < length values
    → decode_codeword_proofs c depth values bytes ≢ ok r
unfolding decode_codeword_proofs
decode_codeword_proofs_underflow c depth [] bytes r lt = absurd (omega arith)
decode_codeword_proofs_underflow c zero (v ∷ vs) bytes r lt = λ e.
    let (p, e1, e2) = >>=-eq-ok (decode_into_vec (decode_digest_n c 0) (length v) bytes) _ e in
    cc e2
decode_codeword_proofs_underflow c (suc d) (v ∷ vs) bytes r lt = λ e.
    let (p, e1, e2) =
      >>=-eq-ok (decode_into_vec (decode_digest_n c (suc d)) (length v) bytes) _ e in
    let (q, e3, e4) = >>=-eq-ok (decode_codeword_proofs c d vs p.1) _ e2 in
    decode_codeword_proofs_underflow c d vs p.1 q (omega arith) e3
