-- ===== src/Prelude/Machine.antt =====
-- Arithmetic on `usize` in a build with overflow checks, on a machine of 64 bits.
use Prim.Native.Nat.{ℕ, ◌-◌, ◌^◌, ◌≤◌, ◌<◌}
use mathlib.Core.Path.{◌≡◌, refl}
use stark_backend.Prelude.Outcome.{Outcome, ok, panic}
use stark_backend.Prelude.Tests.{if◌then◌else◌, ltb, leb, lt→ltb, le→leb}

-- The result of a sum or a product.
unfoldable pub to_usize : {E : Type 0} → ℕ → Outcome E ℕ
to_usize n = if ltb n (2 ^ 64) then ok n else panic

-- `a - b`
unfoldable pub minus : {E : Type 0} → ℕ → ℕ → Outcome E ℕ
minus a b = if leb b a then ok (a - b) else panic

-- `1 << n`
unfoldable pub shift_left : {E : Type 0} → ℕ → Outcome E ℕ
shift_left n = if ltb n 64 then ok (2 ^ n) else panic

module _ {E : Type 0} where
  pub to_usize-ok : (n : ℕ) → n < 2 ^ 64 → to_usize {E = E} n ≡ ok n
  unfolding to_usize
  to_usize-ok n h = rw (lt→ltb n (2 ^ 64) h) refl

  pub shift_left-ok : (n : ℕ) → n < 64 → shift_left {E = E} n ≡ ok (2 ^ n)
  unfolding shift_left
  shift_left-ok n h = rw (lt→ltb n 64 h) refl

  pub minus-ok : (a b : ℕ) → b ≤ a → minus {E = E} a b ≡ ok (a - b)
  unfolding minus
  minus-ok a b h = rw (le→leb b a h) refl
