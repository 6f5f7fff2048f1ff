-- ===== src/Transcript/Log.antt =====
-- The trait `FiatShamirTranscript`, `TranscriptLog` and `ReadOnlyTranscript` of
-- crates/stark-backend/src/transcript/traits.rs, and `DuplexSpongeRecorder` and
-- `DuplexSpongeValidator` of crates/stark-backend/src/transcript/duplex_sponge.rs. The debug
-- assertions of the replaying transcripts are part of the model.
use stark_backend.Prelude.{
  ℕ, ◌+◌, Bool, true, false, not, List, [], ◌∷◌, ◌++◌, replicate, if◌then◌else◌,
}
use stark_backend.Prelude.Outcome.{ok, ◌>>=◌, index, assert}
use stark_backend.Transcript.Sponge.{DuplexSponge, Run, new_sponge, absorb, squeeze}
use stark_backend.Transcript.Duplex.{Op, observe, sample}

-- The two methods that every implementation has, over the state of that implementation.
pub record Transcript (F : Type 0) : Type 1 where
  pub State : Type 0
  pub observe_value : State → F → Run State
  pub sample_value : State → Run (State × F)

pub record TranscriptLog (F : Type 0) : Type 0 where
  pub values : List F
  pub is_sample : List Bool
  pub perm_results : List (List F)

module _ {F : Type 0} where
  unfoldable pub push_observe : TranscriptLog F → F → TranscriptLog F
  push_observe log value = record log {
    values = log.values ++ value ∷ [];
    is_sample = log.is_sample ++ false ∷ [];
  }

  unfoldable pub push_sample : TranscriptLog F → F → TranscriptLog F
  push_sample log value = record log {
    values = log.values ++ value ∷ [];
    is_sample = log.is_sample ++ true ∷ [];
  }

  unfoldable pub push_perm_result : TranscriptLog F → List F → TranscriptLog F
  push_perm_result log state = record log { perm_results = log.perm_results ++ state ∷ [] }

  -- A sequence of operations on any transcript, with the values that it samples.
  unfoldable pub run_ops : (t : Transcript F) → t.State → List (Op F) → Run (t.State × List F)
  run_ops t s [] = ok (s, [])
  run_ops t s (observe x ∷ ops) = do s' ← t.observe_value s x; run_ops t s' ops
  run_ops t s (sample ∷ ops) = do p ← t.sample_value s; q ← run_ops t p.0 ops; ok (q.0, p.1 ∷ q.1)

pub record Recorder (F : Type 0) : Type 0 where
  pub inner : DuplexSponge F
  pub log : TranscriptLog F

pub record Validator (F : Type 0) : Type 0 where
  pub recorder : Recorder F
  pub idx : ℕ
  pub expected : TranscriptLog F

pub record ReadOnly (F : Type 0) : Type 0 where
  pub log : TranscriptLog F
  pub position : ℕ

module _ {F : Type 0} (perm : List F → List F) (rate : ℕ) where
  abbrev pub sponge_transcript : Transcript F
  sponge_transcript = record {
    State = DuplexSponge F;
    observe_value = absorb perm rate;
    sample_value = squeeze perm rate;
  }

  -- `From<P>`
  unfoldable pub new_recorder : F → ℕ → Recorder F
  new_recorder default width = record {
    inner = new_sponge default width;
    log =
        push_perm_result (record { values = []; is_sample = []; perm_results = [] })
          (replicate width default);
  }

  -- The result of a permutation, if there was one.
  abbrev pub logged : DuplexSponge F → TranscriptLog F → TranscriptLog F
  logged inner log = if inner.last_op_perm then push_perm_result log inner.state else log

  unfoldable pub recorder_observe : Recorder F → F → Run (Recorder F)
  recorder_observe r x = do
    inner ← absorb perm rate r.inner x
    ok (record { inner = inner; log = logged inner (push_observe r.log x) })

  unfoldable pub recorder_sample : Recorder F → Run (Recorder F × F)
  recorder_sample r = do
    p ← squeeze perm rate r.inner
    ok (record { inner = p.0; log = logged p.0 (push_sample r.log p.1) }, p.1)

  abbrev pub recorder_transcript : Transcript F
  recorder_transcript = record {
    State = Recorder F;
    observe_value = recorder_observe;
    sample_value = recorder_sample;
  }

  module _ (eq : F → F → Bool) where
    unfoldable pub validator_observe : Validator F → F → Run (Validator F)
    validator_observe v x = do
      is_sample ← index v.expected.is_sample v.idx
      _ ← assert (not is_sample)
      exp_x ← index v.expected.values v.idx
      _ ← assert (eq x exp_x)
      recorder ← recorder_observe v.recorder x
      ok (record v { recorder = recorder; idx = v.idx + 1 })

    unfoldable pub validator_sample : Validator F → Run (Validator F × F)
    validator_sample v = do
      is_sample ← index v.expected.is_sample v.idx
      _ ← assert is_sample
      p ← recorder_sample v.recorder
      exp_x ← index v.expected.values v.idx
      _ ← assert (eq p.1 exp_x)
      ok (record v { recorder = p.0; idx = v.idx + 1 }, p.1)

    abbrev pub validator_transcript : Transcript F
    validator_transcript = record {
      State = Validator F;
      observe_value = validator_observe;
      sample_value = validator_sample;
    }

module _ {F : Type 0} (eq : F → F → Bool) where
  unfoldable pub readonly_observe : ReadOnly F → F → Run (ReadOnly F)
  readonly_observe r value = do
    is_sample ← index r.log.is_sample r.position
    _ ← assert (not is_sample)
    logged_value ← index r.log.values r.position
    _ ← assert (eq logged_value value)
    ok (record r { position = r.position + 1 })

  unfoldable pub readonly_sample : ReadOnly F → Run (ReadOnly F × F)
  readonly_sample r = do
    is_sample ← index r.log.is_sample r.position
    _ ← assert is_sample
    value ← index r.log.values r.position
    ok (record r { position = r.position + 1 }, value)

  abbrev pub readonly_transcript : Transcript F
  readonly_transcript = record {
    State = ReadOnly F;
    observe_value = readonly_observe;
    sample_value = readonly_sample;
  }
