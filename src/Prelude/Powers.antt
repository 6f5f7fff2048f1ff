-- ===== src/Prelude/Powers.antt =====
-- Powers of two, and multiples.
use Prim.Native.Nat.{ℕ, zero, suc, ◌+◌, ◌-◌, ◌*◌, ◌^◌, ◌≤◌, ◌<◌}
use mathlib.Core.Path.{◌≡◌, ap, ◌∙◌}
use native.Mathlib.Nat.{two-pow-succ}
use native.Mathlib.Omega.{arith}

pub pow_pos : (k : ℕ) → 0 < 2 ^ k
pow_pos zero = omega arith
pow_pos (suc k) = omega (arith, pow_pos k, two-pow-succ k)

pub below_pow : (k : ℕ) → k < 2 ^ k
below_pow zero = omega arith
below_pow (suc k) = omega (arith, below_pow k, two-pow-succ k)

pub pow-add : (a b : ℕ) → 2 ^ (a + b) ≡ 2 ^ a * 2 ^ b
pow-add a zero = let e : a + 0 ≡ a = omega arith in rw e (omega arith)
pow-add a (suc b) =
    let e : a + suc b ≡ suc (a + b) = omega arith in
    rw e (
      omega (
        arith,
        pow-add a b,
        two-pow-succ (a + b),
        two-pow-succ b,
        ap (λ (t : ℕ). 2 ^ a * t) (two-pow-succ b),
      ))

-- `n` is a multiple of `d`.
abbrev pub Divides : ℕ → ℕ → Type 0
Divides d n = (q : ℕ) × (n ≡ q * d)

pub Divides-pow : (a b : ℕ) → a ≤ b → Divides (2 ^ a) (2 ^ b)
Divides-pow a b h =
    let e : b ≡ (b - a) + a = omega arith in
    (2 ^ (b - a), ap (λ (t : ℕ). 2 ^ t) e ∙ pow-add (b - a) a)

pub Divides-trans : (a b c : ℕ) → Divides a b → Divides b c → Divides a c
Divides-trans a b c (p, e) (q, f) = (q * p, omega (arith, f, ap (λ (t : ℕ). q * t) e))

pub Divides-add : (d a b : ℕ) → Divides d a → Divides d b → Divides d (a + b)
Divides-add d a b (p, e) (q, f) = (p + q, omega arith)

pub Divides-refl : (d : ℕ) → Divides d d
Divides-refl d = (1, omega arith)

pub Divides-zero : (d : ℕ) → Divides d 0
Divides-zero d = (0, omega arith)

mul_below : (p q d : ℕ) → p * d < q * d → p < q
mul_below p q d h = grind arith

pub mul_step : (p q d : ℕ) → p < q → p * d + d ≤ q * d
mul_step p q d h = grind arith

-- The next multiple is at least one step further on.
pub Divides-step : (d a b : ℕ) → Divides d a → Divides d b → a < b → a + d ≤ b
Divides-step d a b (p, e) (q, f) h = omega (arith, mul_step p q d (mul_below p q d (omega arith)))
