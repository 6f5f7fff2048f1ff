-- ===== src/Transcript/Sponge.antt =====
-- `DuplexSponge` of crates/stark-backend/src/transcript/duplex_sponge.rs: a permutation-based duplex
-- sponge in overwrite mode. The permutation is that of `p3-symmetric`, and enters as a parameter.
use stark_backend.Prelude.{
  ℕ, ◌+◌, Bool, true, false, ◌||◌, not, List, [], ◌∷◌, length, set, replicate, if◌then◌else◌, ltb,
  ◌==◌,
}
use stark_backend.Prelude.Outcome.{Outcome, ok, panic, ◌>>=◌, index, checked_pred}

pub record DuplexSponge (F : Type 0) : Type 0 where
  pub state : List F
  pub absorb_idx : ℕ
  pub sample_idx : ℕ
  pub last_op_perm : Bool

-- Nothing of the transcript returns an `Err`: it returns, or it panics.
abbrev pub Run : Type 0 → Type 0
Run A = Outcome ⊥ A

module _ {F : Type 0} where
  -- `From<P>`: the state of `width` defaults.
  unfoldable pub new_sponge : F → ℕ → DuplexSponge F
  new_sponge default width = record {
    state = replicate width default;
    absorb_idx = 0;
    sample_idx = 0;
    last_op_perm = false;
  }

  -- `state[i] = value`
  abbrev pub write : List F → ℕ → F → Run (List F)
  write xs i value = if ltb i (length xs) then ok (set xs i value) else panic

module _ {F : Type 0} (perm : List F → List F) (rate : ℕ) where
  -- What both operations do when they permute.
  abbrev pub permuted : List F → DuplexSponge F
  permuted state = record {
    state = perm state;
    absorb_idx = 0;
    sample_idx = rate;
    last_op_perm = true;
  }

  -- After `state` has been overwritten at `absorb_idx`.
  abbrev pub advance : DuplexSponge F → List F → DuplexSponge F
  advance s state =
      if s.absorb_idx + 1 == rate
      then permuted state
      else record s { state = state; absorb_idx = s.absorb_idx + 1; last_op_perm = false }

  unfoldable pub absorb : DuplexSponge F → F → Run (DuplexSponge F)
  absorb s value = do state ← write s.state s.absorb_idx value; ok (advance s state)

  -- The state that `squeeze` reads from.
  unfoldable pub ready : DuplexSponge F → DuplexSponge F
  ready s =
      if not (s.absorb_idx == 0) || s.sample_idx == 0
      then permuted s.state
      else record s { last_op_perm = false }

  unfoldable pub squeeze : DuplexSponge F → Run (DuplexSponge F × F)
  squeeze s = do
    let r = ready s
    sample_idx ← checked_pred r.sample_idx
    value ← index r.state sample_idx
    ok (record r { sample_idx = sample_idx }, value)

  -- `observe` of an array: its elements in turn.
  unfoldable pub absorb_all : DuplexSponge F → List F → Run (DuplexSponge F)
  absorb_all s [] = ok s
  absorb_all s (x ∷ xs) = do s' ← absorb s x; absorb_all s' xs
