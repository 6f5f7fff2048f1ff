-- ===== src/Proof/Whole.antt =====
-- `Proof` of crates/stark-backend/src/proof.rs, with its codec, and `encode_to_vec` and
-- `decode_from_bytes` of crates/stark-backend/src/codec.rs.
use stark_backend.Prelude.{ℕ, ◌≡◌, List, [], ◌∷◌, ◌++◌, Option, ◌==◌, append-nil, arith}
use stark_backend.Prelude.Outcome.{Outcome, ok, err, ensure, ◌>>=◌ as bind}
use stark_backend.Codec.Bytes.{
  Bytes, IoError, other, Writer, Reader, ◌⨾◌, ◌>>=◌, pure, encode_u32, decode_u32,
}
use stark_backend.Codec.Reads.{Reads, Reads-bind, Reads-map}
use stark_backend.Codec.Compound.{encode_slice, decode_vec}
use stark_backend.Codec.RoundTrip.{u32-Reads}
use stark_backend.Codec.Config.{
  Config, IsLawful, vec-Reads, encode_base_field_slice, decode_base_field_vec,
}
use stark_backend.Proof.Trace.{TraceVData, encode_trace_vdata, decode_trace_vdata}
use stark_backend.Proof.Presence.{trace_vdata-Reads}
use stark_backend.Proof.Gkr.{GkrProof, encode_gkr, decode_gkr, IsGkrShaped, gkr-Reads}
use stark_backend.Proof.Batch.{
  BatchConstraintProof, encode_batch, decode_batch, IsBatchShaped, batch-Reads,
}
use stark_backend.Proof.Stacking.{StackingProof, encode_stacking, decode_stacking, stacking-Reads}
use stark_backend.Proof.Whir.{WhirProof, encode_whir, decode_whir, lift}
use stark_backend.Proof.WhirParts.{IsWhirShaped}
use stark_backend.Proof.WhirRead.{whir-Reads}

-- `decode_from_bytes`: what is left after the value is an error.
all_read : {A : Type 0} → A × Bytes → Outcome IoError A
all_read (x, []) = ok x
all_read (x, b ∷ bs) = err other

unfoldable pub decode_from_bytes : {A : Type 0} → Reader A → Bytes → Outcome IoError A
unfolding all_read
decode_from_bytes dec bytes = bind (dec bytes) all_read

abbrev pub codec_version : ℕ
codec_version = 3

module _ (c : Config) where
  pub record Proof : Type 0 where
    pub common_main_commit : c.Digest
    pub trace_vdata : List (Option (TraceVData c))
    pub public_values : List (List c.F)
    pub gkr_proof : GkrProof c
    pub batch_constraint_proof : BatchConstraintProof c
    pub stacking_proof : StackingProof c
    pub whir_proof : WhirProof c

  unfoldable pub encode_proof : Proof → Writer
  encode_proof x =
      encode_u32 codec_version
      ⨾ c.encode_digest x.common_main_commit
      ⨾ encode_trace_vdata c x.trace_vdata
      ⨾ encode_slice (encode_base_field_slice c) x.public_values
      ⨾ encode_gkr c x.gkr_proof
      ⨾ encode_batch c x.batch_constraint_proof
      ⨾ encode_stacking c x.stacking_proof
      ⨾ encode_whir c x.whir_proof

  unfoldable pub decode_proof : Reader Proof
  decode_proof = do
    version ← decode_u32
    _ ← lift (ensure (version == codec_version) other)
    common_main_commit ← c.decode_digest
    trace_vdata ← decode_trace_vdata c
    public_values ← decode_vec (decode_base_field_vec c)
    gkr_proof ← decode_gkr c
    batch_constraint_proof ← decode_batch c
    stacking_proof ← decode_stacking c
    whir_proof ← decode_whir c
    pure (record {
      common_main_commit = common_main_commit;
      trace_vdata = trace_vdata;
      public_values = public_values;
      gkr_proof = gkr_proof;
      batch_constraint_proof = batch_constraint_proof;
      stacking_proof = stacking_proof;
      whir_proof = whir_proof;
    })

  -- A proof with the lengths that its encoding leaves out.
  pub record IsShaped (x : Proof) : Type 0 where
    pub depth : ℕ
    pub codeword_depth : ℕ
    pub gkr : IsGkrShaped c x.gkr_proof
    pub batch : IsBatchShaped c x.batch_constraint_proof
    pub whir : IsWhirShaped c x.whir_proof depth codeword_depth

module _ (c : Config) (h : IsLawful c) where
  proof-Reads : (x : Proof c) → IsShaped c x → Reads (encode_proof c x) (decode_proof c) x
  unfolding encode_proof decode_proof
  proof-Reads x s = Reads-bind _ (u32-Reads codec_version (omega arith)) (
      Reads-bind _ (h.digest x.common_main_commit) (
        Reads-bind _ (trace_vdata-Reads c h x.trace_vdata) (
          Reads-bind _ (vec-Reads _ _ (vec-Reads _ _ h.base) x.public_values) (
            Reads-bind _ (gkr-Reads c h x.gkr_proof s.gkr) (
              Reads-bind _ (batch-Reads c h x.batch_constraint_proof s.batch) (
                Reads-bind _ (stacking-Reads c h x.stacking_proof)
                  (Reads-map _ (whir-Reads c h x.whir_proof s.depth s.codeword_depth s.whir))))))))

  -- A proof with the lengths that its encoding leaves out, if it encodes to `bytes`, decodes to itself
  -- from exactly `bytes`, under a configuration whose readers undo its writers.
  pub decode-encode_proof :
      (x : Proof c) (bytes : Bytes)
      → IsShaped c x
      → encode_proof c x ≡ ok bytes
      → decode_from_bytes (decode_proof c) bytes ≡ ok x
  unfolding decode_from_bytes
  decode-encode_proof x bytes s e =
      let r : decode_proof c (bytes ++ []) ≡ ok (x, []) = (proof-Reads x s).reads bytes [] e in
      rw (rw append-nil at r)

  -- A byte or more behind the encoding of a proof, of the lengths that the encoding leaves out, is an
  -- error, under a configuration whose readers undo its writers.
  pub decode-encode_trailing :
      (x : Proof c) (bytes more : Bytes) (b : ℕ)
      → IsShaped c x
      → encode_proof c x ≡ ok bytes
      → decode_from_bytes (decode_proof c) (bytes ++ b ∷ more) ≡ err other
  unfolding decode_from_bytes
  decode-encode_trailing x bytes more b s e = rw ((proof-Reads x s).reads bytes (b ∷ more) e)
