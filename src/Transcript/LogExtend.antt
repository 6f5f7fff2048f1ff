-- ===== src/Transcript/LogExtend.antt =====
-- The other operations of `TranscriptLog` in crates/stark-backend/src/transcript/traits.rs. The debug
-- assertions are part of the model.
use stark_backend.Prelude.{
  ◌≡◌, ap, Bool, true, false, List, [], ◌∷◌, ◌++◌, length, replicate, append_assoc, append-nil,
  ◌==◌, eq→==, arith,
}
use stark_backend.Prelude.Outcome.{ok, ◌>>=◌, assert}
use stark_backend.Transcript.Sponge.{Run}
use stark_backend.Transcript.Log.{TranscriptLog, push_observe, push_sample}

module _ {F : Type 0} where
  unfoldable pub default_log : TranscriptLog F
  default_log = record { values = []; is_sample = []; perm_results = [] }

  unfoldable pub new_log : List F → List Bool → Run (TranscriptLog F)
  new_log values is_sample = do
    _ ← assert (length values == length is_sample)
    ok (record { values = values; is_sample = is_sample; perm_results = [] })

  unfoldable pub extend_observe : TranscriptLog F → List F → TranscriptLog F
  extend_observe log values = record log {
    values = log.values ++ values;
    is_sample = log.is_sample ++ replicate (length values) false;
  }

  unfoldable pub extend_sample : TranscriptLog F → List F → TranscriptLog F
  extend_sample log values = record log {
    values = log.values ++ values;
    is_sample = log.is_sample ++ replicate (length values) true;
  }

  unfoldable pub extend_with_flags : TranscriptLog F → List F → List Bool → Run (TranscriptLog F)
  extend_with_flags log values sample_flags = do
    _ ← assert (length values == length sample_flags)
    ok (record log { values = log.values ++ values; is_sample = log.is_sample ++ sample_flags })

  -- One push after another.
  abbrev pub push_all :
      (TranscriptLog F → F → TranscriptLog F) → TranscriptLog F → List F → TranscriptLog F
  push_all push log [] = log
  push_all push log (x ∷ xs) = push_all push (push log x) xs

  -- A push for each value and flag.
  abbrev pub push_flagged : TranscriptLog F → List F → List Bool → TranscriptLog F
  push_flagged log (x ∷ xs) (true ∷ flags) = push_flagged (push_sample log x) xs flags
  push_flagged log (x ∷ xs) (false ∷ flags) = push_flagged (push_observe log x) xs flags
  push_flagged log _ _ = log

  flagged-lem :
      (log : TranscriptLog F) (xs : List F) (flags : List Bool)
      → length xs ≡ length flags
      → record log { values = log.values ++ xs; is_sample = log.is_sample ++ flags }
        ≡ push_flagged log xs flags
  unfolding push_observe push_sample
  flagged-lem log [] [] e = rw (append-nil, append-nil)
  flagged-lem log [] (f ∷ fs) e = absurd (omega arith)
  flagged-lem log (x ∷ xs) [] e = absurd (omega arith)
  flagged-lem log (x ∷ xs) (true ∷ fs) e =
      rw (← flagged-lem (push_sample log x) xs fs (omega arith), append_assoc, append_assoc)
  flagged-lem log (x ∷ xs) (false ∷ fs) e =
      rw (← flagged-lem (push_observe log x) xs fs (omega arith), append_assoc, append_assoc)

  -- Extending a log by values with as many flags returns, and has pushed each value in turn, as a sample
  -- or as an observation by its flag.
  pub extend_with_flags-push_flagged :
      (log : TranscriptLog F) (values : List F) (flags : List Bool)
      → length values ≡ length flags
      → extend_with_flags log values flags ≡ ok (push_flagged log values flags)
  unfolding extend_with_flags
  extend_with_flags-push_flagged log values flags e =
      rw (eq→== (length values) (length flags) e) (ap ok (flagged-lem log values flags e))

  -- Extending a log by observations is pushing them one after another, and so for samples.
  pub extend-push_all :
      (log : TranscriptLog F) (values : List F)
      → (extend_observe log values ≡ push_all push_observe log values)
        × (extend_sample log values ≡ push_all push_sample log values)
  unfolding extend_observe extend_sample push_observe push_sample
  extend-push_all log [] = (rw (append-nil, append-nil), rw (append-nil, append-nil))
  extend-push_all log (x ∷ xs) = (
    rw (← (extend-push_all (push_observe log x) xs).0, append_assoc, append_assoc),
    rw (← (extend-push_all (push_sample log x) xs).1, append_assoc, append_assoc),
  )
