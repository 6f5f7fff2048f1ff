-- ===== src/Transcript/RecorderLog.antt =====
-- What the recorder logs.
use stark_backend.Prelude.{
  ℕ, ◌≡◌, refl, subst, ◌∙◌, Bool, true, false, List, [], ◌∷◌, ◌++◌, append_assoc, append-nil,
  length, arith,
}
use stark_backend.Prelude.Outcome.{ok, index, >>=-eq-ok}
use stark_backend.Transcript.Sponge.{DuplexSponge, absorb, squeeze}
use stark_backend.Transcript.Duplex.{Op, observe, sample}
use stark_backend.Transcript.Log.{
  TranscriptLog, push_observe, push_sample, push_perm_result, run_ops, Recorder, recorder_observe,
  recorder_sample, recorder_transcript, logged,
}

module _ {F : Type 0} where
  -- The log entries of a sequence of operations whose samples are `xs`.
  abbrev pub trace_values : List (Op F) → List F → List F
  trace_values [] xs = []
  trace_values (observe x ∷ ops) xs = x ∷ trace_values ops xs
  trace_values (sample ∷ ops) [] = []
  trace_values (sample ∷ ops) (x ∷ xs) = x ∷ trace_values ops xs

  abbrev pub trace_flags : List (Op F) → List Bool
  trace_flags [] = []
  trace_flags (observe x ∷ ops) = false ∷ trace_flags ops
  trace_flags (sample ∷ ops) = true ∷ trace_flags ops

  -- As many samples as sampling operations.
  abbrev pub Fits : List (Op F) → List F → Type 0
  Fits [] [] = Unit {0}
  Fits [] (x ∷ xs) = ⊥
  Fits (observe x ∷ ops) xs = Fits ops xs
  Fits (sample ∷ ops) [] = ⊥
  Fits (sample ∷ ops) (x ∷ xs) = Fits ops xs

pub index_middle {ℓ} :
    {A : Type ℓ} (xs ys : List A) (y : A) → index {E = ⊥} (xs ++ y ∷ ys) (length xs) ≡ ok y
index_middle [] ys y = refl
index_middle (x ∷ xs) ys y = index_middle xs ys y

module _ {F : Type 0} (perm : List F → List F) (rate : ℕ) where
  logged-values :
      (s : DuplexSponge F) (l : TranscriptLog F) → (logged perm rate s l).values ≡ l.values
  unfolding push_perm_result
  logged-values s l = ground arith

  logged-flags :
      (s : DuplexSponge F) (l : TranscriptLog F) → (logged perm rate s l).is_sample ≡ l.is_sample
  unfolding push_perm_result
  logged-flags s l = ground arith

  observe_entry :
      (r r' : Recorder F) (x : F)
      → recorder_observe perm rate r x ≡ ok r'
      → (r'.log.values ≡ r.log.values ++ x ∷ [])
        × (r'.log.is_sample ≡ r.log.is_sample ++ false ∷ [])
  unfolding recorder_observe push_observe
  observe_entry r r' x e =
      let (s, e1, e2) = >>=-eq-ok (absorb perm rate r.inner x) _ e in
      let l : TranscriptLog F = push_observe r.log x in
      ground (arith, e2, logged-values s l, logged-flags s l)

  sample_entry :
      (r : Recorder F) (p : Recorder F × F)
      → recorder_sample perm rate r ≡ ok p
      → (p.0.log.values ≡ r.log.values ++ p.1 ∷ [])
        × (p.0.log.is_sample ≡ r.log.is_sample ++ true ∷ [])
  unfolding recorder_sample push_sample
  sample_entry r p e =
      let (q, e1, e2) = >>=-eq-ok (squeeze perm rate r.inner) _ e in
      let l : TranscriptLog F = push_sample r.log q.1 in
      ground (arith, e2, logged-values q.0 l, logged-flags q.0 l)

  -- The log of `o.0` is that of `r` with an entry for each operation, in order.
  abbrev pub Logs : Recorder F → List (Op F) → Recorder F × List F → Type 0
  Logs r ops o =
      (o.0.log.values ≡ r.log.values ++ trace_values ops o.1)
      × (o.0.log.is_sample ≡ r.log.is_sample ++ trace_flags ops)
      × Fits ops o.1

  pub recorder_log :
      (ops : List (Op F)) (r r' : Recorder F) (xs : List F)
      → run_ops (recorder_transcript perm rate) r ops ≡ ok (r', xs)
      → Logs r ops (r', xs)
  unfolding run_ops
  recorder_log [] r r' [] e = (rw append-nil (cc), rw append-nil (cc), tt)
  recorder_log [] r r' (x ∷ xs) e = cc
  recorder_log (observe x ∷ ops) r r' xs e =
      let (s, e1, e2) = >>=-eq-ok (recorder_observe perm rate r x) _ e in
      let (hv, hf) = observe_entry r s x e1 in
      let (iv, if_, fits) = recorder_log ops s r' xs e2 in
      (
        iv ∙ rw hv (append_assoc r.log.values (x ∷ []) _),
        if_ ∙ rw hf (append_assoc r.log.is_sample (false ∷ []) _),
        fits,
      )
  recorder_log (sample ∷ ops) r r' xs e =
      let (p, e1, e2) = >>=-eq-ok (recorder_sample perm rate r) _ e in
      let (q, e3, e4) = >>=-eq-ok (run_ops (recorder_transcript perm rate) p.0 ops) _ e2 in
      let (hv, hf) = sample_entry r p e1 in
      let (iv, if_, fits) = recorder_log ops p.0 q.0 q.1 e3 in
      subst (Logs r (sample ∷ ops)) {x = (q.0, p.1 ∷ q.1)} {y = (r', xs)} (cc e4) (
        iv ∙ rw hv (append_assoc r.log.values (p.1 ∷ []) _),
        if_ ∙ rw hf (append_assoc r.log.is_sample (true ∷ []) _),
        fits,
      )
