-- ===== src/Transcript/SpongeInvariant.antt =====
-- The index invariants of the duplex sponge, and that it never panics.
use stark_backend.Prelude.{
  ℕ, zero, suc, ◌-◌, ◌≤◌, ◌<◌, ◌≡◌, refl, List, [], ◌∷◌, length, length-set, length-replicate, set,
  lt→ltb, arith,
}
use stark_backend.Prelude.Outcome.{ok, index}
use stark_backend.Transcript.Sponge.{DuplexSponge, new_sponge, advance, absorb, ready, squeeze}

-- The invariants that the source states for the two indices, and the size of the state.
pub record IsValid {F : Type 0} (rate width : ℕ) (s : DuplexSponge F) : Type 0 where
  pub state-length : length s.state ≡ width
  pub absorb-lt : s.absorb_idx < rate
  pub sample-le : s.sample_idx ≤ rate

pub index-total :
    {F : Type 0} (xs : List F) (i : ℕ) → i < length xs → (x : F) × (index {E = ⊥} xs i ≡ ok x)
index-total [] i h = absurd (omega arith)
index-total (x ∷ xs) zero h = (x, refl)
index-total (x ∷ xs) (suc i) h = index-total xs i (omega arith)

module _ {F : Type 0} (perm : List F → List F) (rate width : ℕ) (rate-pos : 0 < rate)
    (rate-le : rate ≤ width) (length-perm : (xs : List F) → length (perm xs) ≡ length xs) where
  pub new_sponge-IsValid : (default : F) → IsValid rate width (new_sponge default width)
  unfolding new_sponge
  new_sponge-IsValid default = record {
    state-length = length-replicate width default;
    absorb-lt = rate-pos;
    sample-le = omega arith;
  }

  pub absorb_lem :
      (s : DuplexSponge F) (value : F)
      → IsValid rate width s
      → absorb perm rate s value ≡ ok (advance perm rate s (set s.state s.absorb_idx value))
  unfolding absorb
  absorb_lem s value v = rw (lt→ltb s.absorb_idx (length s.state) (omega arith))

  pub advance-IsValid :
      (s : DuplexSponge F) (value : F)
      → IsValid rate width s
      → IsValid rate width (advance perm rate s (set s.state s.absorb_idx value))
  advance-IsValid s value v =
      ground
        (arith, length-set s.state s.absorb_idx value, length-perm (set s.state s.absorb_idx value))

  -- Absorbing into a sponge whose state has the full width and whose indices are in their ranges
  -- returns, and leaves such a sponge, for a positive rate up to the width and a permutation that keeps
  -- the width.
  pub absorb-IsValid :
      (s : DuplexSponge F) (value : F)
      → IsValid rate width s
      → (s' : DuplexSponge F) × (absorb perm rate s value ≡ ok s') × IsValid rate width s'
  absorb-IsValid s value v = (_, absorb_lem s value v, advance-IsValid s value v)

  pub ready-IsValid :
      (s : DuplexSponge F)
      → IsValid rate width s
      → IsValid rate width (ready perm rate s)
        × (0 < (ready perm rate s).sample_idx)
        × ((ready perm rate s).absorb_idx ≡ 0)
  unfolding ready
  ready-IsValid s v = ground (arith, length-perm s.state)

  -- Squeezing a sponge whose state has the full width and whose indices are in their ranges returns a
  -- value and leaves such a sponge, for a positive rate up to the width and a permutation that keeps the
  -- width.
  pub squeeze-IsValid :
      (s : DuplexSponge F)
      → IsValid rate width s
      → (s' : DuplexSponge F) × (x : F) × (squeeze perm rate s ≡ ok (s', x)) × IsValid rate width s'
  unfolding squeeze
  squeeze-IsValid s v =
      let r = ready perm rate s in
      let (valid, pos, none_pending) = ready-IsValid s v in
      let (x, e) = index-total r.state (r.sample_idx - 1) (omega arith) in
      (
        record r { sample_idx = r.sample_idx - 1 },
        x,
        ground (arith, pos, e),
        ground (arith, valid, pos),
      )
