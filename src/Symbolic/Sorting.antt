-- ===== src/Symbolic/Sorting.antt =====
-- `sort` and `dedup` of Rust's slices and vectors, as dag.rs uses them on node indices, and what
-- they keep.
use stark_backend.Prelude.{
  ℕ, ◌≤◌, ◌<◌, List, [], ◌∷◌, All, leb, if◌then◌else◌, ◌==◌, ==→eq, Bool-cases, inl, inr, leb→le,
  leb-false, arith,
}

abbrev pub insert : ℕ → List ℕ → List ℕ
insert x [] = x ∷ []
insert x (y ∷ ys) = let rest = insert x ys in if leb x y then x ∷ y ∷ ys else y ∷ rest

unfoldable pub sort : List ℕ → List ℕ
sort [] = []
sort (x ∷ xs) = insert x (sort xs)

abbrev pub keep_first : ℕ → List ℕ → List ℕ
keep_first x [] = x ∷ []
keep_first x (y ∷ ys) = if x == y then y ∷ ys else x ∷ y ∷ ys

unfoldable pub dedup : List ℕ → List ℕ
dedup [] = []
dedup (x ∷ xs) = keep_first x (dedup xs)

-- Each element is below the next one.
abbrev pub IsIncreasing : List ℕ → Type 0
IsIncreasing [] = Unit {0}
IsIncreasing (x ∷ xs) = All (λ y. x < y) xs × IsIncreasing xs

abbrev pub IsSorted : List ℕ → Type 0
IsSorted [] = Unit {0}
IsSorted (x ∷ xs) = All (λ y. x ≤ y) xs × IsSorted xs

All-map {κ μ} :
    {P : ℕ → Type κ} {Q : ℕ → Type μ} (xs : List ℕ) → ((x : ℕ) → P x → Q x) → All P xs → All Q xs
All-map [] f a = tt
All-map (x ∷ xs) f a = (f x a.0, All-map xs f a.1)

module _ {κ} (P : ℕ → Type κ) where
  pub All-insert : (x : ℕ) (ys : List ℕ) → P x → All P ys → All P (insert x ys)
  All-insert x [] p a = (p, tt)
  All-insert x (y ∷ ys) p a = elim (Bool-cases (leb x y)) [
    | inl h ↦ rw h (p, a)
    | inr h ↦ rw h (a.0, All-insert x ys p a.1)
  ]

  insert-All : (x : ℕ) (ys : List ℕ) → All P (insert x ys) → P x × All P ys
  insert-All x [] a = (a.0, tt)
  insert-All x (y ∷ ys) a = elim (Bool-cases (leb x y)) [
    | inl h ↦ let b : All P (x ∷ y ∷ ys) = rw h at a in b
    | inr h ↦
        let b : All P (y ∷ insert x ys) = rw h at a in
        let (p, c) = insert-All x ys b.1 in (p, (b.0, c))
  ]

  keep_first-All : (x : ℕ) (ys : List ℕ) → All P (keep_first x ys) → P x × All P ys
  keep_first-All x [] a = a
  keep_first-All x (y ∷ ys) a = elim (Bool-cases (x == y)) [
    | inl h ↦ let b : All P (y ∷ ys) = rw h at a in (rw (==→eq x y h) b.0, b)
    | inr h ↦ let b : All P (x ∷ y ∷ ys) = rw h at a in b
  ]

  All-keep_first : (x : ℕ) (ys : List ℕ) → P x → All P ys → All P (keep_first x ys)
  All-keep_first x [] p a = (p, tt)
  All-keep_first x (y ∷ ys) p a = elim (Bool-cases (x == y)) [
    | inl h ↦ rw h a
    | inr h ↦ rw h (p, a)
  ]

  -- Sorting and removing doubles keep what holds of all elements, and lose none.
  pub All-dedup-sort : (xs : List ℕ) → All P xs → All P (dedup (sort xs))
  unfolding sort dedup
  All-dedup-sort xs a = deduped (sort xs) (sorted xs a)
    where
      sorted : (ys : List ℕ) → All P ys → All P (sort ys)
      sorted [] b = tt
      sorted (y ∷ ys) b = All-insert y (sort ys) b.0 (sorted ys b.1)

      deduped : (ys : List ℕ) → All P ys → All P (dedup ys)
      deduped [] b = tt
      deduped (y ∷ ys) b = All-keep_first y (dedup ys) b.0 (deduped ys b.1)

  pub dedup-sort-All : (xs : List ℕ) → All P (dedup (sort xs)) → All P xs
  unfolding sort dedup
  dedup-sort-All xs a = sorted xs (deduped (sort xs) a)
    where
      sorted : (ys : List ℕ) → All P (sort ys) → All P ys
      sorted [] b = tt
      sorted (y ∷ ys) b = let (p, c) = insert-All y (sort ys) b in (p, sorted ys c)

      deduped : (ys : List ℕ) → All P (dedup ys) → All P ys
      deduped [] b = tt
      deduped (y ∷ ys) b = let (p, c) = keep_first-All y (dedup ys) b in (p, deduped ys c)

insert-IsSorted : (x : ℕ) (ys : List ℕ) → IsSorted ys → IsSorted (insert x ys)
insert-IsSorted x [] s = (tt, tt)
insert-IsSorted x (y ∷ ys) s = elim (Bool-cases (leb x y)) [
  | inl h ↦ let le : x ≤ y = leb→le x y h in rw h ((le, All-map ys (λ z h'. omega arith) s.0), s)
  | inr h ↦
      let gt : y < x = leb-false x y h in
      rw h (All-insert (λ z. y ≤ z) x ys (omega arith) s.0, insert-IsSorted x ys s.1)
]

sort-IsSorted : (xs : List ℕ) → IsSorted (sort xs)
unfolding sort
sort-IsSorted [] = tt
sort-IsSorted (x ∷ xs) = insert-IsSorted x (sort xs) (sort-IsSorted xs)

keep_first-IsIncreasing :
    (x : ℕ) (ys : List ℕ) → All (λ y. x ≤ y) ys → IsIncreasing ys → IsIncreasing (keep_first x ys)
keep_first-IsIncreasing x [] a s = (tt, tt)
keep_first-IsIncreasing x (y ∷ ys) a s = elim (Bool-cases (x == y)) [
  | inl h ↦ rw h s
  | inr h ↦
      let lt : x < y = ground (arith, a.0, h) in
      rw h ((lt, All-map ys (λ z h'. omega arith) s.0), s)
]

-- What is left of a sorted list is increasing: no index occurs twice.
pub dedup-sort-IsIncreasing : (xs : List ℕ) → IsIncreasing (dedup (sort xs))
unfolding dedup
dedup-sort-IsIncreasing xs = go (sort xs) (sort-IsSorted xs)
  where
    go : (ys : List ℕ) → IsSorted ys → IsIncreasing (dedup ys)
    go [] s = tt
    go (y ∷ ys) s = keep_first-IsIncreasing y (dedup ys) (deduped ys s.0) (go ys s.1)
      where
        deduped : (zs : List ℕ) → All (λ z. y ≤ z) zs → All (λ z. y ≤ z) (dedup zs)
        deduped [] b = tt
        deduped (z ∷ zs) b = All-keep_first (λ w. y ≤ w) z (dedup zs) b.0 (deduped zs b.1)
