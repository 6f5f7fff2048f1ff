-- ===== src/Stacked/Spread.antt =====
-- Columns spread out over the stacked matrix: the writes of `stacked_matrix` in
-- crates/stark-backend/src/prover/stacked_pcs.rs.
use stark_backend.Prelude.{
  ℕ, zero, suc, ◌+◌, ◌-◌, ◌*◌, ◌≤◌, ◌<◌, ◌≡◌, refl, sym, ap, ◌∙◌, List, [], ◌∷◌, ◌++◌, append_assoc,
  length, take-append, drop-append, replicate, replicate-add, length-append, length-replicate,
  write_at-middle, le→leb, arith,
}
use stark_backend.Prelude.Outcome.{ok}
use stark_backend.Stacked.Stacking.{copy_at, write_strided}

module _ {F : Type 0} (zero_f : F) where
  -- Each value, with zeros up to the next.
  abbrev pub spread : ℕ → List F → List F
  spread step [] = []
  spread step (v ∷ vals) = v ∷ (replicate (step - 1) zero_f ++ spread step vals)

  pub spread-append :
      (step : ℕ) (xs ys : List F) → spread step (xs ++ ys) ≡ spread step xs ++ spread step ys
  spread-append step [] ys = refl
  spread-append step (x ∷ xs) ys =
      ap (λ (l : List F). x ∷ l)
        (ap (λ (l : List F). replicate (step - 1) zero_f ++ l) (spread-append step xs ys)
          ∙ sym (append_assoc (replicate (step - 1) zero_f) (spread step xs) (spread step ys)))

  pub length-spread :
      (step : ℕ) (xs : List F) → 0 < step → length (spread step xs) ≡ length xs * step
  length-spread step [] h = omega arith
  length-spread step (x ∷ xs) h = omega (
    arith,
    length-append (replicate (step - 1) zero_f) (spread step xs),
    length-replicate (step - 1) zero_f,
    length-spread step xs h,
  )

  pub spread-one : (xs : List F) → spread 1 xs ≡ xs
  spread-one [] = refl
  spread-one (x ∷ xs) = ap (λ (l : List F). x ∷ l) (spread-one xs)

  replicate-suc : (n : ℕ) → 0 < n → replicate n zero_f ≡ zero_f ∷ replicate (n - 1) zero_f
  replicate-suc zero h = grind arith
  replicate-suc (suc n) h = let e : suc n - 1 ≡ n = omega arith in rw e refl

  -- The strided writes over zeros.
  pub write_strided-zeros :
      (start step i : ℕ) (vals done rest : List F)
      → 0 < step
      → length done ≡ start + i * step
      → write_strided start step i vals (done ++ (replicate (length vals * step) zero_f ++ rest))
        ≡ ok (done ++ (spread step vals ++ rest))
  unfolding write_strided
  write_strided-zeros start step i [] done rest h e =
      let z : 0 * step ≡ 0 = omega arith in rw z refl
  write_strided-zeros start step i (v ∷ vals) done rest h e =
      let gap : List F = replicate (step - 1) zero_f in
      let tail : List F = replicate (length vals * step) zero_f ++ rest in
      let n : suc (length vals) * step ≡ step + length vals * step = omega arith in
      let zeros : replicate (suc (length vals) * step) zero_f ++ rest ≡ zero_f ∷ (gap ++ tail) =
        rw (n, replicate-add step (length vals * step) zero_f, replicate-suc step h)
          (append_assoc (zero_f ∷ gap) (replicate (length vals * step) zero_f) rest) in
      let at : length (done ++ v ∷ gap) ≡ start + (i + 1) * step =
        omega (arith, length-append done (v ∷ gap), length-replicate (step - 1) zero_f) in
      rw (zeros, sym e, write_at-middle {E = ⊥} done zero_f v (gap ++ tail))
        (sym (ap (write_strided start step (i + 1) vals) (append_assoc done (v ∷ gap) tail))
          ∙ write_strided-zeros start step (i + 1) vals (done ++ v ∷ gap) rest h at
          ∙ ap ok (
              append_assoc done (v ∷ gap) (spread step vals ++ rest)
              ∙ ap (λ (l : List F). done ++ v ∷ l)
                  (sym (append_assoc gap (spread step vals) rest))))

  -- The copy over zeros.
  pub copy_at-zeros :
      (vals done rest : List F)
      → copy_at (length done) vals (done ++ (replicate (length vals) zero_f ++ rest))
        ≡ ok (done ++ (vals ++ rest))
  unfolding copy_at
  copy_at-zeros vals done rest =
      let zeros : List F = replicate (length vals) zero_f in
      let n : length done + length vals ≡ length (done ++ zeros) =
        omega (arith, length-append done zeros, length-replicate (length vals) zero_f) in
      let fits : length (done ++ zeros) ≤ length (done ++ (zeros ++ rest)) = omega (
        arith,
        length-append done zeros,
        length-append done (zeros ++ rest),
        length-append zeros rest,
      ) in
      rw
        (
          n,
          le→leb _ _ fits,
          take-append done (zeros ++ rest),
          sym (append_assoc done zeros rest),
          drop-append (done ++ zeros) rest,
        )
        refl
