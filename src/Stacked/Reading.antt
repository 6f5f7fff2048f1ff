-- ===== src/Stacked/Reading.antt =====
-- What the columns of the traces hold: `sorted_meta` and `column` in `stacked_matrix`,
-- crates/stark-backend/src/prover/stacked_pcs.rs.
use stark_backend.Prelude.{
  index-append, ℕ, zero, suc, ◌+◌, ◌-◌, ◌*◌, ◌^◌, ◌≤◌, ◌≡◌, refl, sym, ap, subst, ◌∙◌, List, [],
  ◌∷◌, ◌++◌, append_assoc, length, take, drop, take-drop, drop-zero, drop-drop, drop-all,
  length-drop, length-take, length-append, le→leb, pow_pos, arith, All, max, leb, Bool-cases, inl,
  inr, leb→le, leb-false,
}
use native.Mathlib.Nat.{pow-le-pow_right}
use stark_backend.Prelude.Outcome.{ok, index}
use stark_backend.Stacked.Fitting.{lifted, lifted_len-pow}
use stark_backend.Stacked.Placing.{row, columns, cells}
use stark_backend.Stacked.Matrix.{ColMajorMatrix, column}
use stark_backend.Stacked.Stacking.{sorted_meta, total_cells}
use stark_backend.Stacked.Spread.{spread, spread-append, length-spread}
use stark_backend.Stacked.Filling.{step_of, lifted_len-steps, Reads, Reads-append}

-- A matrix that has as many values as its width and height say, and a power of two for height.
abbrev pub IsTrace : {F : Type 0} → ColMajorMatrix F → Type 0
IsTrace t = (k : ℕ) × (t.height ≡ 2 ^ k) × (length t.values ≡ t.width * t.height)

-- The logarithm of a power of two.
abbrev pub IsLog2 : (ℕ → ℕ) → Type 0
IsLog2 log2_strict = (k : ℕ) → log2_strict (2 ^ k) ≡ k

max-pow : (a b : ℕ) → max (2 ^ a) (2 ^ b) ≡ 2 ^ max a b
max-pow a b = elim (Bool-cases (leb a b)) [
  | inl h ↦
      let le : a ≤ b = leb→le a b h in
      let e : max a b ≡ b = omega arith in
      rw e (omega (arith, pow-le-pow_right {n = 2} (omega arith) le))
  | inr h ↦
      let le : b ≤ a = omega (arith, leb-false a b h) in
      let e : max a b ≡ a = omega arith in
      rw e (omega (arith, pow-le-pow_right {n = 2} (omega arith) le))
]

module _ {F : Type 0} (zero_f : F) (l_skip : ℕ) where
  row-Reads :
      (traces : List (ColMajorMatrix F)) (m k : ℕ) (t : ColMajorMatrix F)
      → index {E = ⊥} traces m ≡ ok t
      → t.height ≡ 2 ^ k
      → length t.values ≡ t.width * 2 ^ k
      → (j count : ℕ) → j + count ≡ t.width
      → Reads zero_f l_skip traces
          (row m k j count)
          (spread zero_f (step_of l_skip k) (drop (j * 2 ^ k) t.values))
  unfolding column
  row-Reads traces m k t e h n j zero w =
      ap (spread zero_f (step_of l_skip k))
        (drop-all (j * 2 ^ k) t.values (let s : j ≡ t.width = omega arith in rw s (omega arith)))
  row-Reads traces m k t e h n j (suc count) w =
      let vals : List F = take (2 ^ k) (drop (j * 2 ^ k) t.values) in
      let others : List F = drop ((j + 1) * 2 ^ k) t.values in
      let room : (j + suc count) * 2 ^ k ≡ t.width * 2 ^ k = ap (λ (x : ℕ). x * 2 ^ k) w in
      let next : j * 2 ^ k + 2 ^ k ≡ (j + 1) * 2 ^ k = omega arith in
      let fits : j * 2 ^ k + 2 ^ k ≤ length t.values = grind arith in
      let split : drop (j * 2 ^ k) t.values ≡ vals ++ others =
        sym (take-drop (2 ^ k) (drop (j * 2 ^ k) t.values))
        ∙ ap (λ (l : List F). vals ++ l)
            (drop-drop (j * 2 ^ k) (2 ^ k) t.values ∙ ap (λ (x : ℕ). drop x t.values) next) in
      (
        t,
        vals,
        spread zero_f (step_of l_skip k) others,
        e,
        rw (h, le→leb _ _ fits) refl,
        length-take (2 ^ k) (drop (j * 2 ^ k) t.values)
            (omega (arith, length-drop (j * 2 ^ k) t.values)),
        ap (spread zero_f (step_of l_skip k)) split
            ∙ spread-append zero_f (step_of l_skip k) vals others,
        row-Reads traces m k t e h n (j + 1) count (omega arith),
      )

  module _ (log2_strict : ℕ → ℕ) where
    -- The stacked values: trace by trace, each value followed by the zeros of its stride.
    abbrev pub stacked_values : List (ColMajorMatrix F) → List F
    stacked_values [] = []
    stacked_values (t ∷ ts) =
        spread zero_f (step_of l_skip (log2_strict t.height)) t.values ++ stacked_values ts

    pub height-log2 :
        (t : ColMajorMatrix F)
        → IsLog2 log2_strict
        → IsTrace t
        → t.height ≡ 2 ^ log2_strict t.height
    height-log2 t law (k, e, n) =
        let same : log2_strict t.height ≡ k = ap log2_strict e ∙ law k in
        e ∙ ap (λ (x : ℕ). 2 ^ x) (sym same)

    pub columns-Reads :
        (done ts : List (ColMajorMatrix F))
        → IsLog2 log2_strict
        → All IsTrace ts
        → Reads zero_f l_skip
            (done ++ ts)
            (columns (length done) (sorted_meta log2_strict ts))
            (stacked_values ts)
    columns-Reads done [] law h = refl
    columns-Reads done (t ∷ ts) law h =
        let k : ℕ = log2_strict t.height in
        let e : t.height ≡ 2 ^ k = height-log2 t law h.0 in
        let z : 0 * 2 ^ k ≡ 0 = omega arith in
        let own : Reads zero_f l_skip (done ++ t ∷ ts) (row (length done) k 0 t.width)
            (spread zero_f (step_of l_skip k) t.values) =
          subst
            (λ (l : List F).
              Reads zero_f l_skip (done ++ t ∷ ts) (row (length done) k 0 t.width)
                (spread zero_f (step_of l_skip k) l))
            (ap (λ (x : ℕ). drop x t.values) z ∙ drop-zero t.values)
            (row-Reads (done ++ t ∷ ts) (length done) k t (index-append done t ts) e
              (h.0.2 ∙ ap (λ (x : ℕ). t.width * x) e) 0 t.width (omega arith)) in
        let at : length (done ++ t ∷ []) ≡ length done + 1 = length-append done (t ∷ []) in
        let same : (done ++ t ∷ []) ++ ts ≡ done ++ t ∷ ts = append_assoc done (t ∷ []) ts in
        let others =
          subst
            (λ (x : ℕ).
              Reads zero_f l_skip (done ++ t ∷ ts) (columns x (sorted_meta log2_strict ts))
                (stacked_values ts))
            at
            (subst
              (λ (x : List (ColMajorMatrix F)).
                Reads zero_f l_skip x
                  (columns (length (done ++ t ∷ [])) (sorted_meta log2_strict ts))
                  (stacked_values ts))
              same (columns-Reads (done ++ t ∷ []) ts law h.1)) in
        Reads-append zero_f l_skip (done ++ t ∷ ts) (row (length done) k 0 t.width) _ _ _ own others

    -- `total_cells` counts the cells of the layout.
    pub total_cells-eq :
        (log_height : ℕ) (ts : List (ColMajorMatrix F))
        → IsLog2 log2_strict
        → All IsTrace ts
        → total_cells l_skip ts ≡ cells l_skip log_height (sorted_meta log2_strict ts)
    total_cells-eq log_height [] law h = refl
    total_cells-eq log_height (t ∷ ts) law h =
        let e : t.height ≡ 2 ^ log2_strict t.height = height-log2 t law h.0 in
        let tall : max t.height (2 ^ l_skip) ≡ 2 ^ lifted (log2_strict t.height) l_skip =
          ap (λ (x : ℕ). max x (2 ^ l_skip)) e ∙ max-pow (log2_strict t.height) l_skip in
        omega (arith, total_cells-eq log_height ts law h.1, ap (λ (x : ℕ). x * t.width) tall)

    pub length-stacked_values :
        (ts : List (ColMajorMatrix F))
        → IsLog2 log2_strict
        → All IsTrace ts
        → length (stacked_values ts) ≡ total_cells l_skip ts
    length-stacked_values [] law h = refl
    length-stacked_values (t ∷ ts) law h =
        let k : ℕ = log2_strict t.height in
        let step : ℕ = step_of l_skip k in
        let e : t.height ≡ 2 ^ k = height-log2 t law h.0 in
        let lifted_height : max t.height (2 ^ l_skip) ≡ t.height * step =
          ap (λ (x : ℕ). max x (2 ^ l_skip)) e
          ∙ max-pow k l_skip
          ∙ sym (lifted_len-pow k l_skip)
          ∙ lifted_len-steps l_skip k
          ∙ ap (λ (x : ℕ). x * step) (sym e) in
        omega (
          arith,
          length-append (spread zero_f step t.values) (stacked_values ts),
          length-spread zero_f step t.values (pow_pos (l_skip - k)),
          ap (λ (x : ℕ). x * step) h.0.2,
          ap (λ (x : ℕ). x * t.width) lifted_height,
          length-stacked_values ts law h.1,
        )
