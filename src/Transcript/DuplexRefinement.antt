-- ===== src/Transcript/DuplexRefinement.antt =====
-- The duplex sponge refines the duplex with two buffers.
use stark_backend.Prelude.{
  ℕ, zero, suc, ◌-◌, ◌≤◌, ◌<◌, ◌≡◌, refl, ap, List, [], ◌∷◌, ◌++◌, length, length-append, replicate,
  set, ◌==◌, arith,
}
use stark_backend.Prelude.Outcome.{ok, index}
use stark_backend.Transcript.Sponge.{DuplexSponge, new_sponge, advance, ready, squeeze}
use stark_backend.Transcript.SpongeInvariant.{
  IsValid, new_sponge-IsValid, absorb_lem, advance-IsValid, ready-IsValid, index-total,
}
use stark_backend.Transcript.Duplex.{
  Duplex, Op, observe, sample, overwrite, take, pop, is_empty, duplex_observe, duplex_ready,
  duplex_sample, run_sponge, run_duplex, Refines,
}

module _ {F : Type 0} where
  set-overwrite :
      (ps cs : List F) (v : F) → set (overwrite ps cs) (length ps) v ≡ overwrite (ps ++ v ∷ []) cs
  unfolding overwrite
  set-overwrite [] [] v = refl
  set-overwrite [] (c ∷ cs) v = refl
  set-overwrite (p ∷ ps) [] v = refl
  set-overwrite (p ∷ ps) (c ∷ cs) v = ap (◌∷◌ p) (set-overwrite ps cs v)

  empty_take : (n : ℕ) (xs : List F) → 0 < length xs → is_empty (take n xs) ≡ (n == 0)
  empty_take zero [] h = absurd (omega arith)
  empty_take zero (x ∷ xs) h = refl
  empty_take (suc n) [] h = absurd (omega arith)
  empty_take (suc n) (x ∷ xs) h = ground arith

  pop-take :
      (n : ℕ) (xs : List F) (x : F)
      → index {E = ⊥} xs n ≡ ok x
      → pop (take (suc n) xs) ≡ ok (take n xs, x)
  unfolding pop
  pop-take zero [] x e = cc
  pop-take (suc n) [] x e = cc
  pop-take zero (y ∷ xs) x e = cc
  pop-take (suc n) (y ∷ []) x e = cc
  pop-take (suc n) (y ∷ z ∷ xs) x e = rw (pop-take n (z ∷ xs) x e)

module _ {F : Type 0} (perm : List F → List F) (rate width : ℕ) (rate-pos : 0 < rate)
    (rate-le : rate ≤ width) (length-perm : (xs : List F) → length (perm xs) ≡ length xs) where
  observe-Refines :
      (s : DuplexSponge F) (d : Duplex F) (x : F)
      → Refines s d
      → Refines (advance perm rate s (set s.state s.absorb_idx x)) (duplex_observe perm rate d x)
  unfolding duplex_observe overwrite
  observe-Refines s d x r =
      let e : set s.state s.absorb_idx x ≡ overwrite (d.inputs ++ x ∷ []) d.core =
        rw (r.same-state, r.same-inputs) (set-overwrite d.inputs d.core x) in
      ground (arith, e, length-append d.inputs (x ∷ []), r.same-inputs)

  ready-Refines :
      (s : DuplexSponge F) (d : Duplex F)
      → IsValid rate width s
      → Refines s d
      → Refines (ready perm rate s) (duplex_ready perm rate d)
  unfolding ready duplex_ready overwrite
  ready-Refines s d v r =
      ground (arith, r.same-state, r.same-inputs, r.same-outputs, empty_take s.sample_idx s.state)

  sample-Refines :
      (s : DuplexSponge F) (d : Duplex F)
      → IsValid rate width s
      → Refines s d
      → (s' : DuplexSponge F) × (d' : Duplex F) × (x : F) × (squeeze perm rate s ≡ ok (s', x))
        × (duplex_sample perm rate d ≡ ok (d', x))
        × IsValid rate width s'
        × Refines s' d'
  unfolding squeeze duplex_sample
  sample-Refines s d v r =
      let q = ready perm rate s in
      let t = duplex_ready perm rate d in
      let (valid, pos, none_pending) =
        ready-IsValid perm rate width rate-pos rate-le length-perm s v in
      let same = ready-Refines s d v r in
      let (x, e) = index-total q.state (q.sample_idx - 1) (omega arith) in
      let n : q.sample_idx ≡ suc (q.sample_idx - 1) = omega arith in
      let outs : t.outputs ≡ take (suc (q.sample_idx - 1)) q.state =
        rw (← n) (same.same-outputs none_pending) in
      let popped = pop-take (q.sample_idx - 1) q.state x e in
      (
        record q { sample_idx = q.sample_idx - 1 },
        record t { outputs = take (q.sample_idx - 1) q.state },
        x,
        ground (arith, e, pos),
        rw (outs, popped),
        ground (arith, valid, pos),
        record {
          same-state = same.same-state;
          same-inputs = same.same-inputs;
          same-outputs = λ _. refl;
        },
      )

  run-Refines :
      (ops : List (Op F)) (s : DuplexSponge F) (d : Duplex F)
      → IsValid rate width s
      → Refines s d
      → (xs : List F) × (run_sponge perm rate s ops ≡ ok xs) × (run_duplex perm rate d ops ≡ ok xs)
  unfolding run_sponge run_duplex
  run-Refines [] s d v r = ([], refl, refl)
  run-Refines (observe x ∷ ops) s d v r =
      rw (absorb_lem perm rate width rate-pos rate-le length-perm s x v) (
        run-Refines ops _ _ (advance-IsValid perm rate width rate-pos rate-le length-perm s x v)
          (observe-Refines s d x r))
  run-Refines (sample ∷ ops) s d v r =
      let (s', d', x, e, f, v', r') = sample-Refines s d v r in
      let (xs, g, h) = run-Refines ops s' d' v' r' in (x ∷ xs, rw (e, g), rw (f, h))

  -- From the initial state, any sequence of observations and samples gives the same samples on the
  -- sponge and on the duplex with two buffers, and neither panics, for a positive rate up to the width
  -- and a permutation that keeps the width.
  pub run_sponge-run_duplex :
      (default : F) (ops : List (Op F))
      → (xs : List F) × (run_sponge perm rate (new_sponge default width) ops ≡ ok xs)
        × (run_duplex perm rate
              (record { core = replicate width default; inputs = []; outputs = [] })
              ops
            ≡ ok xs)
  run_sponge-run_duplex default ops =
      run-Refines ops _ _ (new_sponge-IsValid perm rate width rate-pos rate-le length-perm default)
        (unfold new_sponge overwrite in
          record { same-state = refl; same-inputs = refl; same-outputs = λ _. refl })
