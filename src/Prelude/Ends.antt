-- ===== src/Prelude/Ends.antt =====
-- Code that does not panic, and whose value has a property when it returns one.
use mathlib.Core.Path.{◌≡◌, refl, subst}
use mathlib.Core.Bool.{Bool, true, false, not}
use mathlib.Core.List.{List, [], ◌∷◌}
use Prim.Native.Nat.{ℕ, zero, suc, ◌<◌}
use native.Mathlib.Omega.{arith}
use stark_backend.Prelude.Outcome.{Outcome, ok, err, panic, ◌>>=◌, no_error, index}
use stark_backend.Prelude.Tests.{if◌then◌else◌}
use stark_backend.Prelude.Lists.{length, All}

unfoldable pub Ends {ℓ} : {E : Type 0} {A : Type ℓ} → (A → Type 0) → Outcome E A → Type 0
Ends P (ok a) = P a
Ends P (err e) = Unit {0}
Ends P panic = ⊥

pub Ends-bind {ℓ κ} :
    {E : Type 0} {A : Type ℓ} {B : Type κ} (P : A → Type 0) (Q : B → Type 0) (m : Outcome E A)
    (f : A → Outcome E B)
    → Ends P m
    → ((a : A) → P a → Ends Q (f a))
    → Ends Q (m >>= f)
unfolding Ends
Ends-bind P Q (ok a) f h k = k a h
Ends-bind P Q (err e) f h k = tt
Ends-bind P Q panic f h k = elim h [ ]

pub Ends-no_error :
    (E : Type 0) {A : Type 0} (P : A → Type 0) (m : Outcome ⊥ A)
    → Ends P m
    → Ends P (no_error {E = E} m)
unfolding Ends
Ends-no_error E P (ok a) h = h
Ends-no_error E P (err e) h = elim e [ ]
Ends-no_error E P panic h = elim h [ ]

-- What holds of a value that is returned.
pub Ends-ok {ℓ} :
    {E : Type 0} {A : Type ℓ} (P : A → Type 0) (m : Outcome E A) (a : A) → Ends P m → m ≡ ok a → P a
unfolding Ends
Ends-ok P m a h e = subst (Ends P) e h

pub Ends-map {ℓ} :
    {E : Type 0} {A : Type ℓ} (P Q : A → Type 0) (m : Outcome E A)
    → ((a : A) → P a → Q a)
    → Ends P m
    → Ends Q m
unfolding Ends
Ends-map P Q (ok a) f h = f a h
Ends-map P Q (err e) f h = tt
Ends-map P Q panic f h = h

pub Ends-if :
    {E : Type 0} {A : Type 0} (P : A → Type 0) (b : Bool) (x y : Outcome E A)
    → (b ≡ true → Ends P x)
    → (b ≡ false → Ends P y)
    → Ends P (if b then x else y)
unfolding Ends
Ends-if P true x y f g = f refl
Ends-if P false x y f g = g refl

-- A check that refuses when its test fails.
pub Ends-check :
    {E : Type 0} {A : Type 0} (P : A → Type 0) (b : Bool) (e : E) (y : Outcome E A)
    → (b ≡ true → Ends P y)
    → Ends P (if not b then err e else y)
unfolding Ends
Ends-check P true e y g = g refl
Ends-check P false e y g = tt

pub Ends-return {ℓ} :
    (E : Type 0) {A : Type ℓ} (P : A → Type 0) (a : A) → P a → Ends {E = E} P (ok a)
unfolding Ends
Ends-return E P a h = h

-- An index in range.
pub Ends-index-All {ℓ} :
    (E : Type 0) {A : Type ℓ} (P : A → Type 0) (xs : List A) (i : ℕ)
    → i < length xs
    → All P xs
    → Ends P (index {E = E} xs i)
unfolding Ends
Ends-index-All E P [] i h all = grind arith
Ends-index-All E P (x ∷ xs) zero h all = all.0
Ends-index-All E P (x ∷ xs) (suc i) h all = Ends-index-All E P xs i (omega arith) all.1

pub Ends-index {ℓ} :
    (E : Type 0) {A : Type ℓ} (xs : List A) (i : ℕ)
    → i < length xs
    → Ends (λ x. Unit {0}) (index {E = E} xs i)
Ends-index E {A = A} xs i h = Ends-index-All E (λ x. Unit {0}) xs i h (every xs)
  where
    every : (ys : List A) → All (λ y. Unit {0}) ys
    every [] = tt
    every (y ∷ ys) = (tt, every ys)
