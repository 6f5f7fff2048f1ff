-- ===== src/Proof/Batch.antt =====
-- `BatchConstraintProof` of crates/stark-backend/src/proof.rs, with its codec.
use stark_backend.Prelude.{ℕ, zero, suc, ◌≡◌, refl, List, [], ◌∷◌, length, All}
use stark_backend.Codec.Bytes.{Writer, Reader, ◌⨾◌, ◌>>=◌, pure, encode_usize, decode_usize}
use stark_backend.Codec.Reads.{Reads, Reads-bind, Reads-map, Reads-end}
use stark_backend.Codec.Compound.{encode_iter, encode_slice, decode_into_vec, decode_vec}
use stark_backend.Codec.RoundTrip.{usize-Reads, iter-Reads}
use stark_backend.Codec.Config.{
  Config, IsLawful, count-Reads, vec-Reads, encode_extension_field_slice,
  encode_extension_field_iter, decode_extension_field_n, decode_extension_field_vec,
}

module _ (c : Config) where
  pub record BatchConstraintProof : Type 0 where
    pub numerator_term_per_air : List c.EF
    pub denominator_term_per_air : List c.EF
    pub univariate_round_coeffs : List c.EF
    pub sumcheck_round_polys : List (List c.EF)
    pub column_openings : List (List (List c.EF))

  -- The rounds, with the length of the first standing for all.
  unfoldable pub encode_round_polys : List (List c.EF) → Writer
  encode_round_polys [] = encode_usize 0
  encode_round_polys (p ∷ ps) =
      encode_usize (length (p ∷ ps))
      ⨾ encode_usize (length p)
      ⨾ encode_iter (encode_extension_field_iter c) (p ∷ ps)

  -- After `n_max` has been read.
  unfoldable pub decode_rounds : ℕ → Reader (List (List c.EF))
  decode_rounds zero = pure []
  decode_rounds (suc n) = do
    max_degree_plus_one ← decode_usize
    decode_into_vec (decode_extension_field_n c max_degree_plus_one) (suc n)

  unfoldable pub decode_round_polys : Reader (List (List c.EF))
  decode_round_polys = do n_max ← decode_usize; decode_rounds n_max

  unfoldable pub encode_batch : BatchConstraintProof → Writer
  encode_batch x =
      encode_extension_field_slice c x.numerator_term_per_air
      ⨾ encode_extension_field_iter c x.denominator_term_per_air
      ⨾ encode_extension_field_slice c x.univariate_round_coeffs
      ⨾ encode_round_polys x.sumcheck_round_polys
      ⨾ encode_iter (encode_slice (encode_extension_field_slice c)) x.column_openings

  unfoldable pub decode_batch : Reader BatchConstraintProof
  decode_batch = do
    numerator_term_per_air ← decode_extension_field_vec c
    denominator_term_per_air ← decode_extension_field_n c (length numerator_term_per_air)
    univariate_round_coeffs ← decode_extension_field_vec c
    sumcheck_round_polys ← decode_round_polys
    column_openings ←
        decode_into_vec (decode_vec (decode_extension_field_vec c)) (length numerator_term_per_air)
    pure (record {
      numerator_term_per_air = numerator_term_per_air;
      denominator_term_per_air = denominator_term_per_air;
      univariate_round_coeffs = univariate_round_coeffs;
      sumcheck_round_polys = sumcheck_round_polys;
      column_openings = column_openings;
    })

  -- All rounds are as long as the first.
  abbrev pub HasOneLength : List (List c.EF) → Type 0
  HasOneLength [] = Unit {0}
  HasOneLength (p ∷ ps) = All (λ q. length q ≡ length p) ps

  pub record IsBatchShaped (x : BatchConstraintProof) : Type 0 where
    pub denominators : length x.denominator_term_per_air ≡ length x.numerator_term_per_air
    pub degrees : HasOneLength x.sumcheck_round_polys
    pub openings : length x.column_openings ≡ length x.numerator_term_per_air

module _ (c : Config) (h : IsLawful c) where
  rows-Reads :
      (d : ℕ) (xs : List (List c.EF))
      → All (λ q. length q ≡ d) xs
      → Reads
          (encode_iter (encode_extension_field_iter c) xs)
          (decode_into_vec (decode_extension_field_n c d) (length xs))
          xs
  rows-Reads d xs s = iter-Reads _ _ xs (all xs s)
    where
      all :
          (ys : List (List c.EF))
          → All (λ q. length q ≡ d) ys
          → All (λ q. Reads (encode_extension_field_iter c q) (decode_extension_field_n c d) q) ys
      all [] t = tt
      all (y ∷ ys) t = (count-Reads _ _ h.ext d y t.0, all ys t.1)

  round_polys-Reads :
      (xs : List (List c.EF))
      → HasOneLength c xs
      → Reads (encode_round_polys c xs) (decode_round_polys c) xs
  unfolding encode_round_polys decode_round_polys decode_rounds
  round_polys-Reads [] s = Reads-end _ (usize-Reads 0) (λ rest. refl)
  round_polys-Reads (p ∷ ps) s =
      Reads-bind _ (usize-Reads (suc (length ps)))
        (Reads-bind _ (usize-Reads (length p)) (rows-Reads (length p) (p ∷ ps) (refl, s)))

  pub batch-Reads :
      (x : BatchConstraintProof c) → IsBatchShaped c x → Reads (encode_batch c x) (decode_batch c) x
  unfolding encode_batch decode_batch
  batch-Reads x s = Reads-bind _ (vec-Reads _ _ h.ext x.numerator_term_per_air) (
      Reads-bind _ (count-Reads _ _ h.ext _ x.denominator_term_per_air s.denominators) (
        Reads-bind _ (vec-Reads _ _ h.ext x.univariate_round_coeffs) (
          Reads-bind _ (round_polys-Reads x.sumcheck_round_polys s.degrees) (
            Reads-map _ (
              count-Reads _ _ (vec-Reads _ _ (vec-Reads _ _ h.ext)) _ x.column_openings
                s.openings)))))
