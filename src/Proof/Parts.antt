-- ===== src/Proof/Parts.antt =====
-- The parts of a proof that have a codec of their own, read back from what is written of them.
use stark_backend.Prelude.{ℕ, ◌≡◌, List, ◌++◌, Option}
use stark_backend.Prelude.Outcome.{ok}
use stark_backend.Codec.Bytes.{Bytes}
use stark_backend.Codec.Config.{Config, IsLawful}
use stark_backend.Proof.Trace.{TraceVData, encode_trace_vdata, decode_trace_vdata}
use stark_backend.Proof.Presence.{trace_vdata-Reads}
use stark_backend.Proof.Gkr.{GkrProof, encode_gkr, decode_gkr, IsGkrShaped, gkr-Reads}
use stark_backend.Proof.Batch.{
  BatchConstraintProof, encode_batch, decode_batch, IsBatchShaped, batch-Reads,
}
use stark_backend.Proof.Stacking.{StackingProof, encode_stacking, decode_stacking, stacking-Reads}
use stark_backend.Proof.Whir.{WhirProof, encode_whir, decode_whir}
use stark_backend.Proof.WhirParts.{IsWhirShaped}
use stark_backend.Proof.WhirRead.{whir-Reads}

module _ (c : Config) (h : IsLawful c) (bytes rest : Bytes) where
  -- The presence bitmap and the data of the AIRs present decode to the list that they were written
  -- from, whatever its length and whichever AIRs are absent, and what follows them is left, under a
  -- configuration whose readers undo its writers.
  pub decode-encode_trace_vdata :
      (xs : List (Option (TraceVData c)))
      → encode_trace_vdata c xs ≡ ok bytes
      → decode_trace_vdata c (bytes ++ rest) ≡ ok (xs, rest)
  decode-encode_trace_vdata xs e = (trace_vdata-Reads c h xs).reads bytes rest e

  -- A GKR proof with one round fewer than layers (none without layers), whose round of index `i` has
  -- `i + 1` polynomials, decodes to itself from what is written of it, and what follows is left, under
  -- a configuration whose readers undo its writers.
  pub decode-encode_gkr :
      (x : GkrProof c)
      → IsGkrShaped c x
      → encode_gkr c x ≡ ok bytes
      → decode_gkr c (bytes ++ rest) ≡ ok (x, rest)
  decode-encode_gkr x s e = (gkr-Reads c h x s).reads bytes rest e

  -- A batch constraint proof with a denominator and openings for each numerator, and round polynomials
  -- that are all as long as the first, decodes to itself from what is written of it, and what follows is
  -- left, under a configuration whose readers undo its writers.
  pub decode-encode_batch :
      (x : BatchConstraintProof c)
      → IsBatchShaped c x
      → encode_batch c x ≡ ok bytes
      → decode_batch c (bytes ++ rest) ≡ ok (x, rest)
  decode-encode_batch x s e = (batch-Reads c h x s).reads bytes rest e

  -- A stacking proof decodes to itself from what is written of it, and what follows is left, under a
  -- configuration whose readers undo its writers.
  pub decode-encode_stacking :
      (x : StackingProof c)
      → encode_stacking c x ≡ ok bytes
      → decode_stacking c (bytes ++ rest) ≡ ok (x, rest)
  decode-encode_stacking x e = (stacking-Reads c h x).reads bytes rest e

  -- A WHIR proof with the lengths that its encoding leaves out, which are those of a proof with
  -- at least one query, with Merkle proofs a level less deep from round to round and never of no
  -- level, decodes to itself from what is written of it, and what follows is left, under a
  -- configuration whose readers undo its writers.
  pub decode-encode_whir :
      (x : WhirProof c) (depth codeword_depth : ℕ)
      → IsWhirShaped c x depth codeword_depth
      → encode_whir c x ≡ ok bytes
      → decode_whir c (bytes ++ rest) ≡ ok (x, rest)
  decode-encode_whir x depth codeword_depth s e =
      (whir-Reads c h x depth codeword_depth s).reads bytes rest e
