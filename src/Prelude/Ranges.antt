-- ===== src/Prelude/Ranges.antt =====
-- `(0..n).map(f).collect()`.
use Prim.Native.Nat.{ℕ, zero, suc, ◌+◌, ◌<◌}
use mathlib.Core.Path.{◌≡◌, refl, sym, ap, ◌∙◌}
use mathlib.Core.List.{List, [], ◌∷◌}
use native.Mathlib.Omega.{arith}
use stark_backend.Prelude.Lists.{length}
use stark_backend.Prelude.Outcome.{Outcome, ok, ◌>>=◌, index}

module _ {ℓ} {A : Type ℓ} where
  abbrev pub tabulate : ℕ → (ℕ → A) → List A
  tabulate zero f = []
  tabulate (suc n) f = f 0 ∷ tabulate n (λ i. f (i + 1))

  -- The calls of `f` in order, up to one that fails.
  abbrev pub try_tabulate : {E : Type 0} → ℕ → (ℕ → Outcome E A) → Outcome E (List A)
  try_tabulate zero f = ok []
  try_tabulate (suc n) f = do a ← f 0; rest ← try_tabulate n (λ i. f (i + 1)); ok (a ∷ rest)

  pub tabulate-cong :
      (n : ℕ) (f g : ℕ → A) → ((i : ℕ) → i < n → f i ≡ g i) → tabulate n f ≡ tabulate n g
  tabulate-cong zero f g h = refl
  tabulate-cong (suc n) f g h = rw (h 0 (omega arith)) (
      ap (λ (l : List A). g 0 ∷ l)
        (tabulate-cong n (λ i. f (i + 1)) (λ i. g (i + 1)) (λ i lt. h (i + 1) (omega arith))))

  pub length-tabulate : (n : ℕ) (f : ℕ → A) → length (tabulate n f) ≡ n
  length-tabulate zero f = refl
  length-tabulate (suc n) f = ap suc (length-tabulate n (λ i. f (i + 1)))

  pub index-tabulate :
      {E : Type 0} (n : ℕ) (f : ℕ → A) (i : ℕ) → i < n → index {E = E} (tabulate n f) i ≡ ok (f i)
  index-tabulate zero f i h = grind arith
  index-tabulate (suc n) f zero h = refl
  index-tabulate (suc n) f (suc i) h =
      let e : suc i ≡ i + 1 = omega arith in
      index-tabulate n (λ i. f (i + 1)) i (omega arith) ∙ ap (λ (x : ℕ). ok (f x)) (sym e)

  pub try_tabulate-ok :
      {E : Type 0} (n : ℕ) (f : ℕ → Outcome E A) (g : ℕ → A)
      → ((i : ℕ) → i < n → f i ≡ ok (g i))
      → try_tabulate n f ≡ ok (tabulate n g)
  try_tabulate-ok zero f g h = refl
  try_tabulate-ok (suc n) f g h =
      rw
        (
          h 0 (omega arith),
          try_tabulate-ok n (λ i. f (i + 1)) (λ i. g (i + 1)) (λ i lt. h (i + 1) (omega arith)),
        )
        refl
