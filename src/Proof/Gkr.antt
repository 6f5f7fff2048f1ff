-- ===== src/Proof/Gkr.antt =====
-- `GkrLayerClaims` and `GkrProof` of crates/stark-backend/src/proof.rs, with their codecs.
use stark_backend.Prelude.{ℕ, zero, suc, ◌+◌, ◌-◌, ◌≡◌, List, [], ◌∷◌, length, arith}
use stark_backend.Codec.Bytes.{Writer, Reader, ◌⨾◌, ◌>>=◌, pure}
use stark_backend.Codec.Reads.{Reads, Reads-pure, Reads-bind, Reads-map}
use stark_backend.Codec.Compound.{encode_iter, encode_slice, decode_into_vec, decode_vec}
use stark_backend.Codec.Config.{Config, IsLawful, count-Reads, vec-Reads}

module _ (c : Config) where
  pub record GkrLayerClaims : Type 0 where
    pub p_xi_0 : c.EF
    pub p_xi_1 : c.EF
    pub q_xi_0 : c.EF
    pub q_xi_1 : c.EF

  -- `[EF; 3]`
  abbrev pub Triple : Type 0
  Triple = c.EF × c.EF × c.EF

  pub record GkrProof : Type 0 where
    pub logup_pow_witness : c.F
    pub q0_claim : c.EF
    pub claims_per_layer : List GkrLayerClaims
    pub sumcheck_polys : List (List Triple)

  unfoldable pub encode_claims : GkrLayerClaims → Writer
  encode_claims x =
      c.encode_extension_field x.p_xi_0
      ⨾ c.encode_extension_field x.p_xi_1
      ⨾ c.encode_extension_field x.q_xi_0
      ⨾ c.encode_extension_field x.q_xi_1

  unfoldable pub decode_claims : Reader GkrLayerClaims
  decode_claims = do
    p_xi_0 ← c.decode_extension_field
    p_xi_1 ← c.decode_extension_field
    q_xi_0 ← c.decode_extension_field
    q_xi_1 ← c.decode_extension_field
    pure (record { p_xi_0 = p_xi_0; p_xi_1 = p_xi_1; q_xi_0 = q_xi_0; q_xi_1 = q_xi_1 })

  unfoldable pub encode_triple : Triple → Writer
  encode_triple (x, y, z) = encode_iter c.encode_extension_field (x ∷ y ∷ z ∷ [])

  unfoldable pub decode_triple : Reader Triple
  decode_triple = do
    x ← c.decode_extension_field
    y ← c.decode_extension_field
    z ← c.decode_extension_field
    pure (x, y, z)

  unfoldable pub encode_gkr : GkrProof → Writer
  encode_gkr x =
      c.encode_base_field x.logup_pow_witness
      ⨾ c.encode_extension_field x.q0_claim
      ⨾ encode_slice encode_claims x.claims_per_layer
      ⨾ encode_iter (encode_iter encode_triple) x.sumcheck_polys

  -- `count` rounds from index `i` on; the round of index `i` has `i + 1` polynomials.
  unfoldable pub decode_rounds : ℕ → ℕ → Reader (List (List Triple))
  decode_rounds i zero = pure []
  decode_rounds i (suc count) = do
    round ← decode_into_vec decode_triple (i + 1)
    rounds ← decode_rounds (i + 1) count
    pure (round ∷ rounds)

  unfoldable pub decode_gkr : Reader GkrProof
  decode_gkr = do
    logup_pow_witness ← c.decode_base_field
    q0_claim ← c.decode_extension_field
    claims_per_layer ← decode_vec decode_claims
    sumcheck_polys ← decode_rounds 0 (length claims_per_layer - 1)
    pure (record {
      logup_pow_witness = logup_pow_witness;
      q0_claim = q0_claim;
      claims_per_layer = claims_per_layer;
      sumcheck_polys = sumcheck_polys;
    })

  -- The lengths that the encoding leaves out.
  abbrev pub HasRounds : ℕ → List (List Triple) → Type 0
  HasRounds i [] = Unit {0}
  HasRounds i (round ∷ rounds) = (length round ≡ i + 1) × HasRounds (i + 1) rounds

  pub record IsGkrShaped (x : GkrProof) : Type 0 where
    pub rounds : length x.sumcheck_polys ≡ length x.claims_per_layer - 1
    pub subrounds : HasRounds 0 x.sumcheck_polys

module _ (c : Config) (h : IsLawful c) where
  claims-Reads : (x : GkrLayerClaims c) → Reads (encode_claims c x) (decode_claims c) x
  unfolding encode_claims decode_claims
  claims-Reads x =
      Reads-bind _ (h.ext x.p_xi_0) (
        Reads-bind _ (h.ext x.p_xi_1)
          (Reads-bind _ (h.ext x.q_xi_0) (Reads-map _ (h.ext x.q_xi_1))))

  triple-Reads : (x : Triple c) → Reads (encode_triple c x) (decode_triple c) x
  unfolding encode_triple decode_triple encode_iter
  triple-Reads (x, y, z) =
      Reads-bind _ (h.ext x)
        (Reads-bind _ (h.ext y) (Reads-bind _ (h.ext z) (Reads-pure (x, y, z))))

  rounds-Reads :
      (i n : ℕ) (xs : List (List (Triple c)))
      → length xs ≡ n
      → HasRounds c i xs
      → Reads (encode_iter (encode_iter (encode_triple c)) xs) (decode_rounds c i n) xs
  unfolding encode_iter decode_rounds
  rounds-Reads i zero [] e s = Reads-pure []
  rounds-Reads i (suc n) [] e s = absurd (omega arith)
  rounds-Reads i zero (x ∷ xs) e s = absurd (omega arith)
  rounds-Reads i (suc n) (x ∷ xs) e s =
      Reads-bind _ (count-Reads (encode_triple c) (decode_triple c) triple-Reads (i + 1) x s.0)
        (Reads-map (◌∷◌ x) (rounds-Reads (i + 1) n xs (omega arith) s.1))

  pub gkr-Reads : (x : GkrProof c) → IsGkrShaped c x → Reads (encode_gkr c x) (decode_gkr c) x
  unfolding encode_gkr decode_gkr
  gkr-Reads x s = Reads-bind _ (h.base x.logup_pow_witness) (
      Reads-bind _ (h.ext x.q0_claim) (
        Reads-bind _ (vec-Reads (encode_claims c) (decode_claims c) claims-Reads x.claims_per_layer)
          (Reads-map _ (rounds-Reads 0 _ x.sumcheck_polys s.rounds s.subrounds))))
