-- ===== src/Transcript/RecorderTotal.antt =====
-- The recorder of crates/stark-backend/src/transcript/duplex_sponge.rs never panics.
use stark_backend.Prelude.{ℕ, ◌≤◌, ◌<◌, ◌≡◌, refl, List, [], ◌∷◌, length}
use stark_backend.Prelude.Outcome.{ok}
use stark_backend.Transcript.SpongeInvariant.{
  IsValid, new_sponge-IsValid, absorb-IsValid, squeeze-IsValid,
}
use stark_backend.Transcript.Duplex.{Op, observe, sample}
use stark_backend.Transcript.Log.{
  run_ops, Recorder, new_recorder, recorder_observe, recorder_sample, recorder_transcript, logged,
  push_observe, push_sample,
}

module _ {F : Type 0} (perm : List F → List F) (rate width : ℕ) (rate-pos : 0 < rate)
    (rate-le : rate ≤ width) (length-perm : (xs : List F) → length (perm xs) ≡ length xs) where
  run_recorder_total :
      (ops : List (Op F)) (r : Recorder F)
      → IsValid rate width r.inner
      → (q : Recorder F × List F) × (run_ops (recorder_transcript perm rate) r ops ≡ ok q)
        × IsValid rate width q.0.inner
  unfolding run_ops recorder_observe recorder_sample
  run_recorder_total [] r v = ((r, []), refl, v)
  run_recorder_total (observe x ∷ ops) r v =
      let (s, e, v') = absorb-IsValid perm rate width rate-pos rate-le length-perm r.inner x v in
      let (q, f, v'') =
        run_recorder_total ops
          (record { inner = s; log = logged perm rate s (push_observe r.log x) }) v' in
      (q, rw (e, f), v'')
  run_recorder_total (sample ∷ ops) r v =
      let (s, x, e, v') = squeeze-IsValid perm rate width rate-pos rate-le length-perm r.inner v in
      let (q, f, v'') =
        run_recorder_total ops
          (record { inner = s; log = logged perm rate s (push_sample r.log x) }) v' in
      ((q.0, x ∷ q.1), rw (e, f), v'')

  -- From its start, the recorder runs any sequence of observations and samples to its end, and leaves a
  -- sponge whose state has the full width and whose indices are in their ranges, for a positive rate up to
  -- the width and a permutation that keeps the width.
  pub recorder_total :
      (default : F) (ops : List (Op F))
      → (q : Recorder F × List F) × (run_ops
            (recorder_transcript perm rate)
            (new_recorder perm rate default width)
            ops
          ≡ ok q)
        × IsValid rate width q.0.inner
  unfolding new_recorder
  recorder_total default ops =
      run_recorder_total ops _
        (new_sponge-IsValid perm rate width rate-pos rate-le length-perm default)
