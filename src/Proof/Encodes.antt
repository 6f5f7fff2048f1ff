-- ===== src/Proof/Encodes.antt =====
-- A proof whose lengths fit encodes, and decodes to itself: crates/stark-backend/src/proof.rs.
use stark_backend.Prelude.{ℕ, ◌%◌, ◌≡◌, List, [], ◌∷◌, length, map, All, ltb, lt→ltb, eq→==}
use stark_backend.Prelude.Outcome.{ok}
use stark_backend.Codec.Bytes.{Bytes, encode_usize}
use stark_backend.Codec.Compound.{encode_iter, encode_slice}
use stark_backend.Codec.Config.{
  Config, IsLawful, encode_base_field_slice, encode_extension_field_iter, encode_digest_iter,
  encode_base_field_iter,
}
use stark_backend.Codec.Writes.{
  Writes, Fits32, Writes-⨾, Writes-u32, Writes-usize, Writes-iter, Writes-slice, Writes-all,
  Writes-vec, Writes-rows,
}
use stark_backend.Proof.Stacking.{encode_pair_array}
use stark_backend.Proof.Whir.{
  WhirProof, num_whir_rounds, first_length, row_width, encode_initial, encode_codewords,
  encode_whir,
}
use stark_backend.Proof.WhirRead.{and_true}
use stark_backend.Proof.Whole.{
  Proof, encode_proof, codec_version, decode_proof, decode_from_bytes, IsShaped,
  decode-encode_proof,
}
use stark_backend.Proof.Writing.{
  IsTotal, FitsWhir, FitsProof, trace-Writes, gkr-Writes, batch-Writes, stacking-Writes,
  pair-Writes,
}

module _ (c : Config) (t : IsTotal c) where
  initial-Writes :
      (x : WhirProof c) (depth codeword_depth : ℕ)
      → FitsWhir c x depth codeword_depth
      → Writes (
          encode_initial c
            (first_length x.initial_round_opened_rows)
            x.initial_round_opened_rows
            x.initial_round_merkle_proofs)
  unfolding encode_initial
  initial-Writes x depth codeword_depth f =
      rw (lt→ltb 0 (first_length x.initial_round_opened_rows) f.queries-pos, f.first)
        (Writes-⨾ _ _ (Writes-usize depth f.depth-fits) (
          Writes-⨾ _ _
            (Writes-iter encode_usize (map row_width x.initial_round_opened_rows)
              (each (map row_width x.initial_round_opened_rows) f.widths))
            (Writes-⨾ _ _
              (Writes-all (encode_iter (encode_iter (encode_base_field_iter c)))
                (Writes-all (encode_iter (encode_base_field_iter c))
                  (Writes-all (encode_base_field_iter c) (Writes-all c.encode_base_field t.base)))
                x.initial_round_opened_rows)
              (Writes-all (encode_iter (encode_digest_iter c))
                (Writes-all (encode_digest_iter c) (Writes-all c.encode_digest t.digest))
                x.initial_round_merkle_proofs))))
    where
      each : (ns : List ℕ) → All Fits32 ns → All (λ n. Writes (encode_usize n)) ns
      each [] a = tt
      each (n ∷ ns) a = (Writes-usize n a.0, each ns a.1)

  codewords-Writes :
      (x : WhirProof c) (depth codeword_depth : ℕ)
      → FitsWhir c x depth codeword_depth
      → Writes (encode_codewords c (first_length x.initial_round_opened_rows) x)
  unfolding encode_codewords
  codewords-Writes x depth codeword_depth f =
      rw
        (
          lt→ltb 0 (first_length x.initial_round_opened_rows) f.queries-pos,
          and_true (ltb 1 (num_whir_rounds c x)),
          f.codeword-first,
        )
        (Writes-⨾ _ _
          (Writes-iter (encode_slice (encode_extension_field_iter c)) x.codeword_opened_values (
            Writes-rows (encode_extension_field_iter c) (Writes-all c.encode_extension_field t.ext)
              x.codeword_opened_values f.values))
          (Writes-⨾ _ _ (Writes-usize codeword_depth f.codeword-fits) (
            Writes-⨾ _ _
              (Writes-all (encode_iter (encode_digest_iter c))
                (Writes-all (encode_digest_iter c) (Writes-all c.encode_digest t.digest))
                x.codeword_merkle_proofs)
              (Writes-vec c.encode_extension_field t.ext x.final_poly f.final))))

  whir-Writes :
      (x : WhirProof c) (depth codeword_depth : ℕ)
      → FitsWhir c x depth codeword_depth
      → Writes (encode_whir c x)
  unfolding encode_whir
  whir-Writes x depth codeword_depth f =
      rw
        (
          eq→== (length x.whir_sumcheck_polys % num_whir_rounds c x) 0 f.multiple,
          eq→== (num_whir_rounds c x) (length x.query_phase_pow_witnesses) f.powers,
          lt→ltb 0 (length x.initial_round_opened_rows) f.rows-pos,
        )
        (Writes-⨾ _ _ (t.base x.mu_pow_witness) (
          Writes-⨾ _ _
            (Writes-vec (encode_pair_array c) (pair-Writes c t) x.whir_sumcheck_polys f.sumchecks)
            (Writes-⨾ _ _ (Writes-vec c.encode_digest t.digest x.codeword_commits f.commits) (
              Writes-⨾ _ _ (Writes-all c.encode_extension_field t.ext x.ood_values) (
                Writes-⨾ _ _ (Writes-all c.encode_base_field t.base x.folding_pow_witnesses) (
                  Writes-⨾ _ _ (Writes-all c.encode_base_field t.base x.query_phase_pow_witnesses) (
                    Writes-⨾ _ _ (Writes-usize (length x.initial_round_opened_rows) f.rows) (
                      Writes-⨾ _ _
                        (Writes-usize (first_length x.initial_round_opened_rows) f.queries)
                        (Writes-⨾ _ _ (initial-Writes x depth codeword_depth f)
                          (codewords-Writes x depth codeword_depth f))))))))))

  proof-Writes : (x : Proof c) → FitsProof c x → Writes (encode_proof c x)
  unfolding encode_proof
  proof-Writes x f = Writes-⨾ _ _ (Writes-u32 codec_version) (
      Writes-⨾ _ _ (t.digest x.common_main_commit) (
        Writes-⨾ _ _ (trace-Writes c t x.trace_vdata f.airs f.vdata) (
          Writes-⨾ _ _
            (Writes-slice (encode_base_field_slice c) x.public_values f.public
              (Writes-rows c.encode_base_field t.base x.public_values f.public_rows))
            (Writes-⨾ _ _ (gkr-Writes c t x.gkr_proof f.layers) (
              Writes-⨾ _ _ (batch-Writes c t x.batch_constraint_proof f.batch) (
                Writes-⨾ _ _ (stacking-Writes c t x.stacking_proof f.stacking)
                  (whir-Writes x.whir_proof f.depth f.codeword_depth f.whir)))))))

-- A proof whose written lengths are below 2^32, with the lengths that its encoding leaves out, encodes to
-- bytes that decode to it, under a configuration whose writers never fail and whose readers undo them.
pub decode_from_bytes-encode_proof :
    (c : Config)
    → IsLawful c
    → IsTotal c
    → (x : Proof c) → IsShaped c x
    → FitsProof c x
    → (bytes : Bytes) × (encode_proof c x ≡ ok bytes)
      × (decode_from_bytes (decode_proof c) bytes ≡ ok x)
decode_from_bytes-encode_proof c h t x s f =
    let (bytes, e) = proof-Writes c t x f in (bytes, e, decode-encode_proof c h x bytes s e)
