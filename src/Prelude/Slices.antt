-- ===== src/Prelude/Slices.antt =====
-- Reads, sub-slices and writes of lists, as Rust's slices do them: out of range is a panic.
use Prim.Native.Nat.{ℕ, zero, suc, ◌+◌, ◌-◌, ◌≤◌}
use mathlib.Core.Path.{◌≡◌, refl, ap}
use mathlib.Core.Option.{some}
use mathlib.Core.List.{List, [], ◌∷◌, ◌++◌, map}
use native.Mathlib.Omega.{arith}
use stark_backend.Prelude.Lists.{length, get_elem?, length-append, replicate}
use stark_backend.Prelude.Outcome.{index, Outcome, ok, panic, ◌>>=◌}
use stark_backend.Prelude.Tests.{leb, if◌then◌else◌, le→leb}

pub zero_plus : (n : ℕ) → 0 + n ≡ n
zero_plus n = omega arith

module _ {ℓ} {A : Type ℓ} where
  abbrev pub take : ℕ → List A → List A
  take n [] = []
  take zero (x ∷ xs) = []
  take (suc n) (x ∷ xs) = x ∷ take n xs

  abbrev pub drop : ℕ → List A → List A
  drop n [] = []
  drop zero (x ∷ xs) = x ∷ xs
  drop (suc n) (x ∷ xs) = drop n xs

  pub take-append : (xs ys : List A) → take (length xs) (xs ++ ys) ≡ xs
  take-append [] [] = refl
  take-append [] (y ∷ ys) = refl
  take-append (x ∷ xs) ys = ap (λ (l : List A). x ∷ l) (take-append xs ys)

  pub drop-append : (xs ys : List A) → drop (length xs) (xs ++ ys) ≡ ys
  drop-append [] [] = refl
  drop-append [] (y ∷ ys) = refl
  drop-append (x ∷ xs) ys = drop-append xs ys

  pub take-drop : (n : ℕ) (xs : List A) → take n xs ++ drop n xs ≡ xs
  take-drop n [] = refl
  take-drop zero (x ∷ xs) = refl
  take-drop (suc n) (x ∷ xs) = ap (λ (l : List A). x ∷ l) (take-drop n xs)

  pub drop-zero : (xs : List A) → drop 0 xs ≡ xs
  drop-zero [] = refl
  drop-zero (x ∷ xs) = refl

  pub drop-drop : (m n : ℕ) (xs : List A) → drop n (drop m xs) ≡ drop (m + n) xs
  drop-drop m n [] = refl
  drop-drop zero n (x ∷ xs) = rw (zero_plus n) refl
  drop-drop (suc m) n (x ∷ xs) =
      let e : suc m + n ≡ suc (m + n) = omega arith in rw e (drop-drop m n xs)

  pub drop-all : (n : ℕ) (xs : List A) → length xs ≤ n → drop n xs ≡ []
  drop-all n [] h = refl
  drop-all zero (x ∷ xs) h = grind arith
  drop-all (suc n) (x ∷ xs) h = drop-all n xs (omega arith)

  pub length-drop : (n : ℕ) (xs : List A) → length (drop n xs) ≡ length xs - n
  length-drop n [] = omega arith
  length-drop zero (x ∷ xs) = omega arith
  length-drop (suc n) (x ∷ xs) = omega (arith, length-drop n xs)

  pub length-take : (n : ℕ) (xs : List A) → n ≤ length xs → length (take n xs) ≡ n
  length-take n [] h = omega arith
  length-take zero (x ∷ xs) h = refl
  length-take (suc n) (x ∷ xs) h = ap suc (length-take n xs (omega arith))

  -- `xs[start..start + count]`
  abbrev pub sub_slice : {E : Type 0} → List A → ℕ → ℕ → Outcome E (List A)
  sub_slice xs start count =
      if leb (start + count) (length xs) then ok (take count (drop start xs)) else panic

  -- `xs[i] = a`
  abbrev pub write_at : {E : Type 0} → List A → ℕ → A → Outcome E (List A)
  write_at [] i a = panic
  write_at (x ∷ xs) zero a = ok (a ∷ xs)
  write_at (x ∷ xs) (suc i) a = write_at xs i a >>= λ ys. ok (x ∷ ys)

  pub sub_slice-middle :
      {E : Type 0} (xs ys zs : List A)
      → sub_slice {E = E} (xs ++ (ys ++ zs)) (length xs) (length ys) ≡ ok ys
  sub_slice-middle xs ys zs =
      let fits : length xs + length ys ≤ length (xs ++ (ys ++ zs)) =
        omega (arith, length-append xs (ys ++ zs), length-append ys zs) in
      rw (le→leb _ _ fits, drop-append xs (ys ++ zs), take-append ys zs) refl

  pub write_at-middle :
      {E : Type 0} (xs : List A) (y a : A) (zs : List A)
      → write_at {E = E} (xs ++ y ∷ zs) (length xs) a ≡ ok (xs ++ a ∷ zs)
  write_at-middle [] y a zs = refl
  write_at-middle {E = E} (x ∷ xs) y a zs =
      ap (λ (o : Outcome E (List A)). o >>= λ ys. ok (x ∷ ys)) (write_at-middle xs y a zs)

  pub replicate-add : (m n : ℕ) (a : A) → replicate (m + n) a ≡ replicate m a ++ replicate n a
  replicate-add zero n a = rw (zero_plus n) refl
  replicate-add (suc m) n a =
      let e : suc m + n ≡ suc (m + n) = omega arith in
      rw e (ap (λ (l : List A). a ∷ l) (replicate-add m n a))

module _ {ℓ} {A : Type ℓ} where
  pub get-append_left :
      (xs ys : List A) (i : ℕ) (a : A) → get_elem? xs i ≡ some a → get_elem? (xs ++ ys) i ≡ some a
  get-append_left [] ys i a h = cc
  get-append_left (x ∷ xs) ys zero a h = h
  get-append_left (x ∷ xs) ys (suc i) a h = get-append_left xs ys i a h

  pub get-append_right :
      (xs ys : List A) (i : ℕ) → get_elem? (xs ++ ys) (length xs + i) ≡ get_elem? ys i
  get-append_right [] ys i = rw (zero_plus i) refl
  get-append_right (x ∷ xs) ys i =
      let e : suc (length xs) + i ≡ suc (length xs + i) = omega arith in
      rw e (get-append_right xs ys i)

pub get-map {ℓ κ} :
    {A : Type ℓ} {B : Type κ} (f : A → B) (xs : List A) (i : ℕ) (b : B)
    → get_elem? (map f xs) i ≡ some b
    → (a : A) × (get_elem? xs i ≡ some a) × (f a ≡ b)
get-map f [] i b h = cc
get-map f (x ∷ xs) zero b h = (x, refl, cc)
get-map f (x ∷ xs) (suc i) b h = get-map f xs i b h

pub index-append {ℓ} :
    {A : Type ℓ} {E : Type 0} (xs : List A) (y : A) (ys : List A)
    → index {E = E} (xs ++ y ∷ ys) (length xs) ≡ ok y
index-append [] y ys = refl
index-append (x ∷ xs) y ys = index-append xs y ys
