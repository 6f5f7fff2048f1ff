-- ===== src/Transcript/Duplex.antt =====
-- The duplex sponge against a duplex with two buffers, which is how Plonky3's `DuplexChallenger`
-- is described: inputs wait in one buffer, outputs are taken from the end of the other.
use stark_backend.Prelude.{
  ℕ, zero, suc, ◌+◌, ◌≡◌, Bool, true, false, not, ◌||◌, List, [], ◌∷◌, ◌++◌, length, ◌==◌,
  if◌then◌else◌,
}
use stark_backend.Prelude.Outcome.{ok, panic, ◌>>=◌}
use stark_backend.Transcript.Sponge.{DuplexSponge, Run, absorb, squeeze}

-- The state at the last permutation, the inputs since, the outputs not yet taken.
pub record Duplex (F : Type 0) : Type 0 where
  pub core : List F
  pub inputs : List F
  pub outputs : List F

pub data Op (F : Type 0) : Type 0 where
  observe : F → Op F
  sample : Op F

module _ {F : Type 0} where
  -- The front of the state replaced.
  unfoldable pub overwrite : List F → List F → List F
  overwrite [] cs = cs
  overwrite (p ∷ ps) [] = []
  overwrite (p ∷ ps) (c ∷ cs) = p ∷ overwrite ps cs

  abbrev pub take : ℕ → List F → List F
  take zero xs = []
  take (suc n) [] = []
  take (suc n) (x ∷ xs) = x ∷ take n xs

  -- `Vec::pop`
  unfoldable pub pop : List F → Run (List F × F)
  pop [] = panic
  pop (x ∷ []) = ok ([], x)
  pop (x ∷ y ∷ ys) = pop (y ∷ ys) >>= λ p. ok (x ∷ p.0, p.1)

  abbrev pub is_empty : List F → Bool
  is_empty [] = true
  is_empty (x ∷ xs) = false

module _ {F : Type 0} (perm : List F → List F) (rate : ℕ) where
  abbrev pub duplexing : Duplex F → Duplex F
  duplexing d =
      let core = perm (overwrite d.inputs d.core) in
      record { core = core; inputs = []; outputs = take rate core }

  unfoldable pub duplex_observe : Duplex F → F → Duplex F
  duplex_observe d value =
      let waiting = record d { inputs = d.inputs ++ value ∷ []; outputs = [] } in
      if length d.inputs + 1 == rate then duplexing waiting else waiting

  unfoldable pub duplex_ready : Duplex F → Duplex F
  duplex_ready d = if not (is_empty d.inputs) || is_empty d.outputs then duplexing d else d

  unfoldable pub duplex_sample : Duplex F → Run (Duplex F × F)
  duplex_sample d = do
    p ← pop (duplex_ready d).outputs
    ok (record (duplex_ready d) { outputs = p.0 }, p.1)

  -- What a sequence of operations samples, on either side.
  unfoldable pub run_sponge : DuplexSponge F → List (Op F) → Run (List F)
  run_sponge s [] = ok []
  run_sponge s (observe x ∷ ops) = do s' ← absorb perm rate s x; run_sponge s' ops
  run_sponge s (sample ∷ ops) = do
    (s', x) ← squeeze perm rate s
    xs ← run_sponge s' ops
    ok (x ∷ xs)

  unfoldable pub run_duplex : Duplex F → List (Op F) → Run (List F)
  run_duplex d [] = ok []
  run_duplex d (observe x ∷ ops) = run_duplex (duplex_observe d x) ops
  run_duplex d (sample ∷ ops) = do (d', x) ← duplex_sample d; xs ← run_duplex d' ops; ok (x ∷ xs)

-- The two states stand for the same transcript.
pub record Refines {F : Type 0} (s : DuplexSponge F) (d : Duplex F) : Type 0 where
  pub same-state : s.state ≡ overwrite d.inputs d.core
  pub same-inputs : s.absorb_idx ≡ length d.inputs
  pub same-outputs : s.absorb_idx ≡ 0 → d.outputs ≡ take s.sample_idx s.state
