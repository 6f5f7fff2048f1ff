-- ===== src/Prelude/Outcome.antt =====
-- What a call of fallible Rust code comes to: a value, an `Err`, or a panic (a failed `assert!`,
-- an index out of range, an arithmetic overflow in a build with checks).
use mathlib.Core.Path.{◌≡◌, refl}
use mathlib.Core.Bool.{Bool, true, false}
use mathlib.Core.List.{List, [], ◌∷◌}
use Prim.Native.Nat.{ℕ, zero, suc}

pub data Outcome {ℓ} (E : Type 0) (A : Type ℓ) : Type ℓ where
  ok : A → Outcome E A
  err : E → Outcome E A
  panic : Outcome E A

-- `assert!(b)`
abbrev pub assert : {E : Type 0} → Bool → Outcome E (Unit {0})
assert true = ok tt
assert false = panic

infixl 5 ◌>>=◌
abbrev pub ◌>>=◌ {ℓ κ} :
    {E : Type 0} {A : Type ℓ} {B : Type κ} → Outcome E A → (A → Outcome E B) → Outcome E B
panic >>= next = panic
err e >>= next = err e
ok value >>= next = next value

-- `if !b { return Err(e) }`
abbrev pub ensure : {E : Type 0} → Bool → E → Outcome E (Unit {0})
ensure true e = ok tt
ensure false e = err e

module _ {ℓ κ} {E : Type 0} {A : Type ℓ} {B : Type κ} where
  -- Inversion of a successful bind.
  pub >>=-eq-ok :
      (m : Outcome E A) (f : A → Outcome E B) {b : B}
      → (m >>= f) ≡ ok b
      → (a : A) × (m ≡ ok a) × (f a ≡ ok b)
  >>=-eq-ok panic f h = cc
  >>=-eq-ok (err e) f h = cc
  >>=-eq-ok (ok a) f h = (a, refl, h)

-- Code that returns no error, in code that may.
abbrev pub no_error : {E : Type 0} {A : Type 0} → Outcome ⊥ A → Outcome E A
no_error (ok a) = ok a
no_error (err e) = elim e [ ]
no_error panic = panic

-- `v[i]`
abbrev pub index {ℓ} : {E : Type 0} {A : Type ℓ} → List A → ℕ → Outcome E A
index [] i = panic
index (x ∷ xs) zero = ok x
index (x ∷ xs) (suc i) = index xs i

-- `n - 1` with overflow checks.
abbrev pub checked_pred : {E : Type 0} → ℕ → Outcome E ℕ
checked_pred zero = panic
checked_pred (suc n) = ok n

pub assert-eq-ok {ℓ} :
    {E : Type 0} {B : Type ℓ} (b : Bool) (k : Unit {0} → Outcome E B) {r : B}
    → (assert b >>= k) ≡ ok r
    → (b ≡ true) × (k tt ≡ ok r)
assert-eq-ok true k h = (refl, h)
assert-eq-ok false k h = cc
