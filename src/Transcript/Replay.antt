-- ===== src/Transcript/Replay.antt =====
-- The replay of a recorder's log by the read-only transcript and by the validator.
use stark_backend.Prelude.{
  ℕ, ◌+◌, ◌≡◌, refl, sym, ◌∙◌, Bool, true, false, List, [], ◌∷◌, ◌++◌, append_assoc, length,
  length-append, arith,
}
use stark_backend.Prelude.Outcome.{ok, index, >>=-eq-ok}
use stark_backend.Transcript.Duplex.{Op, observe, sample}
use stark_backend.Transcript.Log.{
  TranscriptLog, push_perm_result, run_ops, Recorder, Validator, recorder_observe, recorder_sample,
  recorder_transcript, validator_observe, validator_sample, validator_transcript, readonly_observe,
  readonly_sample, readonly_transcript, new_recorder,
}
use stark_backend.Transcript.RecorderLog.{
  trace_values, trace_flags, Fits, index_middle, recorder_log,
}

module _ {F : Type 0} (eq : F → F → Bool) (eq_refl : (x : F) → eq x x ≡ true)
    (log : TranscriptLog F) where
  -- The log holds the entries of `ops` from `pos` on.
  abbrev Holds : ℕ → List (Op F) → List F → Type 0
  Holds pos ops xs =
      (before : List F) × (flags : List Bool) × (log.values ≡ before ++ trace_values ops xs)
      × (log.is_sample ≡ flags ++ trace_flags ops)
      × (pos ≡ length before)
      × (pos ≡ length flags)

  -- The log's entry at `pos`, and what it holds behind it.
  entry_at :
      {pos : ℕ} (x : F) (b : Bool) (vs : List F) (fs : List Bool) (before : List F)
      (flags : List Bool)
      → log.values ≡ before ++ x ∷ vs
      → log.is_sample ≡ flags ++ b ∷ fs
      → pos ≡ length before
      → pos ≡ length flags
      → (index {E = ⊥} log.values pos ≡ ok x) × (index {E = ⊥} log.is_sample pos ≡ ok b)
  entry_at {pos} x b vs fs before flags hv hf lv lf =
      (rw (hv, lv) (index_middle before vs x), rw (hf, lf) (index_middle flags fs b))

  next_entry :
      {pos : ℕ} (x : F) (b : Bool) (vs : List F) (fs : List Bool) (before : List F)
      (flags : List Bool)
      → log.values ≡ before ++ x ∷ vs
      → log.is_sample ≡ flags ++ b ∷ fs
      → pos ≡ length before
      → pos ≡ length flags
      → (log.values ≡ (before ++ x ∷ []) ++ vs)
        × (log.is_sample ≡ (flags ++ b ∷ []) ++ fs)
        × (pos + 1 ≡ length (before ++ x ∷ []))
        × (pos + 1 ≡ length (flags ++ b ∷ []))
  next_entry x b vs fs before flags hv hf lv lf = (
    hv ∙ sym (append_assoc before (x ∷ []) vs),
    hf ∙ sym (append_assoc flags (b ∷ []) fs),
    omega (arith, length-append before (x ∷ [])),
    omega (arith, length-append flags (b ∷ [])),
  )

  readonly_observe_lem :
      (pos : ℕ) (x : F)
      → index {E = ⊥} log.values pos ≡ ok x
      → index {E = ⊥} log.is_sample pos ≡ ok false
      → readonly_observe eq (record { log = log; position = pos }) x
        ≡ ok (record { log = log; position = pos + 1 })
  unfolding readonly_observe
  readonly_observe_lem pos x ev ef = rw (ef, ev, eq_refl x)

  readonly_sample_lem :
      (pos : ℕ) (x : F)
      → index {E = ⊥} log.values pos ≡ ok x
      → index {E = ⊥} log.is_sample pos ≡ ok true
      → readonly_sample eq (record { log = log; position = pos })
        ≡ ok (record { log = log; position = pos + 1 }, x)
  unfolding readonly_sample
  readonly_sample_lem pos x ev ef = rw (ef, ev)

  readonly-replays :
      (ops : List (Op F)) (xs : List F) (pos : ℕ)
      → Fits ops xs
      → Holds pos ops xs
      → run_ops (readonly_transcript eq) (record { log = log; position = pos }) ops
        ≡ ok (record { log = log; position = pos + length ops }, xs)
  unfolding run_ops
  readonly-replays [] [] pos f h = ground arith
  readonly-replays [] (x ∷ xs) pos f h = absurd f
  readonly-replays (observe x ∷ ops) xs pos f (before, flags, hv, hf, lv, lf) =
      let (ev, ef) = entry_at x false _ _ before flags hv hf lv lf in
      let n = next_entry x false _ _ before flags hv hf lv lf in
      rw
        (
          readonly_observe_lem pos x ev ef,
          readonly-replays ops xs (pos + 1) f
              (before ++ x ∷ [], flags ++ false ∷ [], n.0, n.1, n.2, n.3),
        )
        (ground arith)
  readonly-replays (sample ∷ ops) [] pos f h = absurd f
  readonly-replays (sample ∷ ops) (x ∷ xs) pos f (before, flags, hv, hf, lv, lf) =
      let (ev, ef) = entry_at x true _ _ before flags hv hf lv lf in
      let n = next_entry x true _ _ before flags hv hf lv lf in
      rw
        (
          readonly_sample_lem pos x ev ef,
          readonly-replays ops xs (pos + 1) f
              (before ++ x ∷ [], flags ++ true ∷ [], n.0, n.1, n.2, n.3),
        )
        (ground arith)

  module _ (perm : List F → List F) (rate : ℕ) where
    abbrev at : Recorder F → ℕ → Validator F
    at r pos = record { recorder = r; idx = pos; expected = log }

    validator_observe_lem :
        (r r' : Recorder F) (pos : ℕ) (x : F)
        → recorder_observe perm rate r x ≡ ok r'
        → index {E = ⊥} log.values pos ≡ ok x
        → index {E = ⊥} log.is_sample pos ≡ ok false
        → validator_observe perm rate eq (at r pos) x ≡ ok (at r' (pos + 1))
    unfolding validator_observe
    validator_observe_lem r r' pos x e ev ef = rw (ef, ev, eq_refl x, e)

    validator_sample_lem :
        (r r' : Recorder F) (pos : ℕ) (x : F)
        → recorder_sample perm rate r ≡ ok (r', x)
        → index {E = ⊥} log.values pos ≡ ok x
        → index {E = ⊥} log.is_sample pos ≡ ok true
        → validator_sample perm rate eq (at r pos) ≡ ok (at r' (pos + 1), x)
    unfolding validator_sample
    validator_sample_lem r r' pos x e ev ef = rw (ef, e, ev, eq_refl x)

    validator-replays :
        (ops : List (Op F)) (r r' : Recorder F) (xs : List F) (pos : ℕ)
        → run_ops (recorder_transcript perm rate) r ops ≡ ok (r', xs)
        → Holds pos ops xs
        → run_ops (validator_transcript perm rate eq) (at r pos) ops
          ≡ ok (at r' (pos + length ops), xs)
    unfolding run_ops
    validator-replays [] r r' xs pos e h = ground arith
    validator-replays (observe x ∷ ops) r r' xs pos e (before, flags, hv, hf, lv, lf) =
        let (s, e1, e2) = >>=-eq-ok (recorder_observe perm rate r x) _ e in
        let (ev, ef) = entry_at x false _ _ before flags hv hf lv lf in
        let n = next_entry x false _ _ before flags hv hf lv lf in
        rw
          (
            validator_observe_lem r s pos x e1 ev ef,
            validator-replays ops s r' xs (pos + 1) e2
                (before ++ x ∷ [], flags ++ false ∷ [], n.0, n.1, n.2, n.3),
          )
          (ground arith)
    validator-replays (sample ∷ ops) r r' [] pos e h =
        let (p, e1, e2) = >>=-eq-ok (recorder_sample perm rate r) _ e in
        let (q, e3, e4) = >>=-eq-ok (run_ops (recorder_transcript perm rate) p.0 ops) _ e2 in cc e4
    validator-replays (sample ∷ ops) r r' (x ∷ xs) pos e (before, flags, hv, hf, lv, lf) =
        let (p, e1, e2) = >>=-eq-ok (recorder_sample perm rate r) _ e in
        let (q, e3, e4) = >>=-eq-ok (run_ops (recorder_transcript perm rate) p.0 ops) _ e2 in
        let (ev, ef) = entry_at x true _ _ before flags hv hf lv lf in
        let n = next_entry x true _ _ before flags hv hf lv lf in
        let ep : recorder_sample perm rate r ≡ ok (p.0, x) = e1 ∙ cc e4 in
        rw
          (
            validator_sample_lem r p.0 pos x ep ev ef,
            validator-replays ops p.0 r' xs (pos + 1) (e3 ∙ cc e4)
                (before ++ x ∷ [], flags ++ true ∷ [], n.0, n.1, n.2, n.3),
          )
          (ground arith)

module _ {F : Type 0} (perm : List F → List F) (rate width : ℕ) (default : F) (eq : F → F → Bool)
    (eq_refl : (x : F) → eq x x ≡ true) where
  fresh_log :
      (ops : List (Op F)) (r : Recorder F) (xs : List F)
      → run_ops (recorder_transcript perm rate) (new_recorder perm rate default width) ops
        ≡ ok (r, xs)
      → (r.log.values ≡ trace_values ops xs) × (r.log.is_sample ≡ trace_flags ops) × Fits ops xs
  unfolding new_recorder push_perm_result
  fresh_log ops r xs e = recorder_log perm rate ops _ r xs e

  -- If a run of the recorder from its start returns, its log, read from its start, gives each sample of
  -- the run again, accepts each value observed, and is at its end, for a test of equality that accepts
  -- equal values.
  pub readonly-recorder :
      (ops : List (Op F)) (r : Recorder F) (xs : List F)
      → run_ops (recorder_transcript perm rate) (new_recorder perm rate default width) ops
        ≡ ok (r, xs)
      → run_ops (readonly_transcript eq) (record { log = r.log; position = 0 }) ops
        ≡ ok (record { log = r.log; position = length ops }, xs)
  readonly-recorder ops r xs e =
      let (hv, hf, fits) = fresh_log ops r xs e in
      rw (readonly-replays eq eq_refl r.log ops xs 0 fits ([], [], hv, hf, refl, refl))
        (ground arith)

  -- If a run of the recorder from its start returns, the validator accepts its log: it repeats the
  -- run to the same recorder and the same samples, with every entry used, for a test of equality that
  -- accepts equal values.
  pub validator-recorder :
      (ops : List (Op F)) (r : Recorder F) (xs : List F)
      → run_ops (recorder_transcript perm rate) (new_recorder perm rate default width) ops
        ≡ ok (r, xs)
      → run_ops
          (validator_transcript perm rate eq)
          (record { recorder = new_recorder perm rate default width; idx = 0; expected = r.log })
          ops
        ≡ ok (record { recorder = r; idx = length ops; expected = r.log }, xs)
  validator-recorder ops r xs e =
      let (hv, hf, fits) = fresh_log ops r xs e in
      rw (validator-replays eq eq_refl r.log perm rate ops _ r xs 0 e ([], [], hv, hf, refl, refl))
        (ground arith)
