-- ===== src/Transcript/Pow.antt =====
-- The provided methods of `FiatShamirTranscript` in crates/stark-backend/src/transcript/traits.rs:
-- sampling of bits, and the proof of work.
use stark_backend.Prelude.{
  ℕ, zero, suc, ◌%◌, ◌^◌, ◌<◌, ◌≡◌, Bool, true, false, Bool-cases, inl, inr, List, [], ◌∷◌, ◌++◌,
  if◌then◌else◌, ltb, lt→ltb, ◌==◌, arith,
}
use stark_backend.Prelude.Outcome.{ok, panic, ◌>>=◌, assert, >>=-eq-ok, assert-eq-ok}
use stark_backend.Transcript.Sponge.{Run}
use stark_backend.Transcript.Log.{Transcript}
use native.Mathlib.Nat.{mod-lt, two-pow-succ}

-- What is used of `p3_field::PrimeField64`.
pub record PrimeField64 (F : Type 0) : Type 0 where
  pub order_u64 : ℕ
  pub as_canonical_u64 : F → ℕ
  pub from_u64 : ℕ → F

number_of :
    {A : Type 0} {s s' : A} {m n : ℕ} → ◌≡◌ {A = Run (A × ℕ)} (ok (s, m)) (ok (s', n)) → m ≡ n
number_of e = cc e

pow_pos : (k : ℕ) → 0 < 2 ^ k
pow_pos zero = omega arith
pow_pos (suc k) = omega (arith, pow_pos k, two-pow-succ k)

module _ {F : Type 0} (field : PrimeField64 F) (t : Transcript F) where
  unfoldable pub observe_ext : t.State → List F → Run t.State
  observe_ext s [] = ok s
  observe_ext s (x ∷ xs) = do s' ← t.observe_value s x; observe_ext s' xs

  -- The samples of `sample_ext`, one for each coefficient.
  unfoldable pub sample_values : t.State → ℕ → Run (t.State × List F)
  sample_values s zero = ok (s, [])
  sample_values s (suc n) = do p ← t.sample_value s; q ← sample_values p.0 n; ok (q.0, p.1 ∷ q.1)

  unfoldable pub sample_ext : {EF : Type 0} → ℕ → (List F → EF) → t.State → Run (t.State × EF)
  sample_ext dimension from_basis_coefficients s = do
    p ← sample_values s dimension
    ok (p.0, from_basis_coefficients p.1)

  -- `x & ((1 << bits) - 1)` is `x % 2 ^ bits`.
  unfoldable pub sample_bits : t.State → ℕ → Run (t.State × ℕ)
  sample_bits s bits = do
    _ ← assert (ltb bits 32)
    _ ← assert (ltb (2 ^ bits) field.order_u64)
    p ← t.sample_value s
    ok (p.0, field.as_canonical_u64 p.1 % 2 ^ bits)

  unfoldable pub check_witness : t.State → ℕ → F → Run (t.State × Bool)
  check_witness s bits witness =
      if bits == 0
      then ok (s, true)
      else t.observe_value s witness >>= λ s'. sample_bits s' bits >>= λ q. ok (q.0, q.1 == 0)

  -- `find_any`: the values are tried in the order in which the parallel iterator comes to them. Each
  -- try is on a clone of the transcript.
  unfoldable pub find_any : t.State → ℕ → List ℕ → Run F
  find_any s bits [] = panic
  find_any s bits (n ∷ tries) = do
    q ← check_witness s bits (field.from_u64 n)
    elim q.1 [ true ↦ ok (field.from_u64 n) | false ↦ find_any s bits tries ]

  -- The witness found is checked on the transcript itself.
  unfoldable pub search_witness : t.State → ℕ → List ℕ → Run (t.State × F)
  search_witness s bits tries = do
    witness ← find_any s bits tries
    q ← check_witness s bits witness
    _ ← assert q.1
    ok (q.0, witness)

  unfoldable pub grind_witness : t.State → ℕ → List ℕ → F → Run (t.State × F)
  grind_witness s bits tries zero_elem = do
    _ ← assert (ltb bits 32)
    _ ← assert (ltb (2 ^ bits) field.order_u64)
    if bits == 0 then ok (s, zero_elem) else search_witness s bits tries

  -- If sampling `bits` bits returns, the sample is below `2 ^ bits`.
  pub sample_bits-lt :
      (s s' : t.State) (bits n : ℕ) → sample_bits s bits ≡ ok (s', n) → n < 2 ^ bits
  unfolding sample_bits
  sample_bits-lt s s' bits n e =
      let (_, e1) = assert-eq-ok (ltb bits 32) _ e in
      let (_, e2) = assert-eq-ok (ltb (2 ^ bits) field.order_u64) _ e1 in
      let (p, e3, e4) = >>=-eq-ok (t.sample_value s) _ e2 in
      rw (← number_of e4) (mod-lt (field.as_canonical_u64 p.1) (pow_pos bits))

  search_witness_sound :
      (s s' : t.State) (bits : ℕ) (tries : List ℕ) (w : F)
      → search_witness s bits tries ≡ ok (s', w)
      → check_witness s bits w ≡ ok (s', true)
  unfolding search_witness
  search_witness_sound s s' bits tries w e =
      let (v, e1, e2) = >>=-eq-ok (find_any s bits tries) _ e in
      let (q, e3, e4) = >>=-eq-ok (check_witness s bits v) _ e2 in
      let (accepted, e5) = assert-eq-ok q.1 _ e4 in ground (arith, e3, accepted, e5)

  -- If `grind` returns, what it returns is a witness that `check_witness` accepts from the same state, and the
  -- state that it leaves is the one that `check_witness` leaves.
  pub check_witness-grind_witness :
      (s s' : t.State) (bits : ℕ) (tries : List ℕ) (zero_elem w : F)
      → grind_witness s bits tries zero_elem ≡ ok (s', w)
      → check_witness s bits w ≡ ok (s', true)
  unfolding grind_witness check_witness
  check_witness-grind_witness s s' bits tries zero_elem w e =
      let (_, e1) = assert-eq-ok (ltb bits 32) _ e in
      let (_, e2) = assert-eq-ok (ltb (2 ^ bits) field.order_u64) _ e1 in
      elim (Bool-cases (bits == 0)) [
        | inl none_asked ↦ rw none_asked (cc (rw none_asked at e2))
        | inr asked ↦ search_witness_sound s s' bits tries w (rw asked at e2)
      ]

  -- Where every check returns and a witness is among the values tried, one is found.
  find_any_total :
      (s : t.State) (bits : ℕ) (front back : List ℕ) (n : ℕ) (s' : t.State)
      → ((w : F) → (q : t.State × Bool) × (check_witness s bits w ≡ ok q))
      → check_witness s bits (field.from_u64 n) ≡ ok (s', true)
      → (w : F) × (q : t.State) × (find_any s bits (front ++ n ∷ back) ≡ ok w)
        × (check_witness s bits w ≡ ok (q, true))
  unfolding find_any
  find_any_total s bits [] back n s' total h = (field.from_u64 n, s', rw h, h)
  find_any_total s bits (m ∷ front) back n s' total h =
      let (q, e) = total (field.from_u64 m) in
      elim (Bool-cases q.1) [
        | inl hit ↦ (field.from_u64 m, q.0, rw (e, hit), ground (arith, e, hit))
        | inr miss ↦
            let (w, q', f, g) = find_any_total s bits front back n s' total h in
            (w, q', rw (e, miss) f, g)
      ]

  -- For fewer than 32 bits, with 2^bits below the order of the field, if checking any witness returns,
  -- and one among the values tried stands for a witness that is accepted, `grind` returns.
  pub grind_witness_total :
      (s : t.State) (bits : ℕ) (front back : List ℕ) (n : ℕ) (zero_elem : F) (s' : t.State)
      → bits < 32
      → 2 ^ bits < field.order_u64
      → ((w : F) → (q : t.State × Bool) × (check_witness s bits w ≡ ok q))
      → check_witness s bits (field.from_u64 n) ≡ ok (s', true)
      → (q : t.State × F) × (grind_witness s bits (front ++ n ∷ back) zero_elem ≡ ok q)
  unfolding grind_witness search_witness
  grind_witness_total s bits front back n zero_elem s' few low total h =
      let small : ltb bits 32 ≡ true = lt→ltb bits 32 few in
      let below : ltb (2 ^ bits) field.order_u64 ≡ true = lt→ltb (2 ^ bits) field.order_u64 low in
      elim (Bool-cases (bits == 0)) [
        | inl none_asked ↦ ((s, zero_elem), rw (small, below, none_asked))
        | inr asked ↦
            let (w, q, f, g) = find_any_total s bits front back n s' total h in
            ((q, w), rw (small, below, asked, f, g))
      ]
