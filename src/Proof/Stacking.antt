-- ===== src/Proof/Stacking.antt =====
-- `StackingProof` of crates/stark-backend/src/proof.rs, with its codec.
use stark_backend.Prelude.{List, [], ◌∷◌}
use stark_backend.Codec.Bytes.{Writer, Reader, ◌⨾◌, ◌>>=◌, pure}
use stark_backend.Codec.Reads.{Reads, Reads-pure, Reads-bind, Reads-map}
use stark_backend.Codec.Compound.{encode_iter, encode_slice, decode_vec}
use stark_backend.Codec.Config.{
  Config, IsLawful, vec-Reads, encode_extension_field_slice, decode_extension_field_vec,
}

module _ (c : Config) where
  -- `[EF; 2]`
  abbrev pub Pair : Type 0
  Pair = c.EF × c.EF

  pub record StackingProof : Type 0 where
    pub univariate_round_coeffs : List c.EF
    pub sumcheck_round_polys : List Pair
    pub stacking_openings : List (List c.EF)

  unfoldable pub encode_pair_array : Pair → Writer
  encode_pair_array (x, y) = encode_iter c.encode_extension_field (x ∷ y ∷ [])

  unfoldable pub decode_pair_array : Reader Pair
  decode_pair_array = do x ← c.decode_extension_field; y ← c.decode_extension_field; pure (x, y)

  unfoldable pub encode_stacking : StackingProof → Writer
  encode_stacking x =
      encode_extension_field_slice c x.univariate_round_coeffs
      ⨾ encode_slice encode_pair_array x.sumcheck_round_polys
      ⨾ encode_slice (encode_extension_field_slice c) x.stacking_openings

  unfoldable pub decode_stacking : Reader StackingProof
  decode_stacking = do
    univariate_round_coeffs ← decode_extension_field_vec c
    sumcheck_round_polys ← decode_vec decode_pair_array
    stacking_openings ← decode_vec (decode_extension_field_vec c)
    pure (record {
      univariate_round_coeffs = univariate_round_coeffs;
      sumcheck_round_polys = sumcheck_round_polys;
      stacking_openings = stacking_openings;
    })

module _ (c : Config) (h : IsLawful c) where
  pub pair_array-Reads : (x : Pair c) → Reads (encode_pair_array c x) (decode_pair_array c) x
  unfolding encode_pair_array decode_pair_array encode_iter
  pair_array-Reads (x, y) = Reads-bind _ (h.ext x) (Reads-bind _ (h.ext y) (Reads-pure (x, y)))

  pub stacking-Reads : (x : StackingProof c) → Reads (encode_stacking c x) (decode_stacking c) x
  unfolding encode_stacking decode_stacking
  stacking-Reads x = Reads-bind _ (vec-Reads _ _ h.ext x.univariate_round_coeffs) (
      Reads-bind _ (vec-Reads _ _ pair_array-Reads x.sumcheck_round_polys)
        (Reads-map _ (vec-Reads _ _ (vec-Reads _ _ h.ext) x.stacking_openings)))
