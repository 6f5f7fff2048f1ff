-- ===== src/Proof/WhirParts.antt =====
-- The lengths that the encoding of a WHIR proof leaves out, and the parts of it read back.
use stark_backend.Prelude.{
  ℕ, zero, suc, ◌-◌, ◌/◌, ◌%◌, ◌^◌, ◌<◌, ◌≡◌, refl, ap, subst, Bool, true, false, List, [], ◌∷◌,
  length, map, length-map, if◌then◌else◌, ltb, lt→ltb, All, arith,
}
use stark_backend.Prelude.Outcome.{Outcome, ok, ensure, assert}
use stark_backend.Codec.Bytes.{IoError, Writer, Reader, ◌>>=◌}
use stark_backend.Codec.Reads.{Reads, Reads-pure, Reads-bind, Reads-map, Reads-err, Reads-panic}
use stark_backend.Codec.Compound.{encode_iter, decode_into_vec}
use stark_backend.Codec.RoundTrip.{usize-Reads, iter-Reads}
use stark_backend.Codec.Config.{
  Config, IsLawful, count-Reads, encode_base_field_iter, encode_digest_iter, decode_base_field_n,
  decode_digest_n,
}
use stark_backend.Proof.Whir.{
  WhirProof, num_whir_rounds, first_depth, row_width, first_length, encode_initial,
  decode_opened_rows, decode_initial, decode_codeword_proofs, lift, then_write,
}

module _ (c : Config) where
  -- `queries` queries of `k_exp` rows, all as long as the first row of all.
  abbrev pub HasRows : ℕ → ℕ → List (List (List c.F)) → Type 0
  HasRows queries k_exp commit =
      (length commit ≡ queries)
      × All (λ rows. (length rows ≡ k_exp) × All (λ row. length row ≡ row_width commit) rows) commit

  -- A proof for each query of each round, a level less deep from round to round.
  abbrev pub HasDepths : ℕ → List (List (List c.EF)) → List (List (List c.Digest)) → Type 0
  HasDepths depth [] [] = Unit {0}
  HasDepths depth (values ∷ rounds) (proofs ∷ more) =
      (length proofs ≡ length values)
      × All (λ proof. length proof ≡ depth) proofs
      × (0 < depth)
      × HasDepths (depth - 1) rounds more
  HasDepths depth _ _ = ⊥

  abbrev pub k_whir : WhirProof c → ℕ
  k_whir x = length x.whir_sumcheck_polys / num_whir_rounds c x

  -- The lengths that the encoding leaves out. `depth` and `codeword_depth` are those of the Merkle
  -- proofs of the initial round and of the round after it.
  pub record IsWhirShaped (x : WhirProof c) (depth codeword_depth : ℕ) : Type 0 where
    pub multiple : length x.whir_sumcheck_polys % num_whir_rounds c x ≡ 0
    pub k-lt : k_whir x < 64
    pub oods : length x.ood_values ≡ length x.codeword_commits
    pub foldings : length x.folding_pow_witnesses ≡ length x.whir_sumcheck_polys
    pub queries-pos : 0 < first_length x.initial_round_opened_rows
    pub rows :
        All
          (HasRows (first_length x.initial_round_opened_rows) (2 ^ k_whir x))
          x.initial_round_opened_rows
    pub proofs-length : length x.initial_round_merkle_proofs ≡ length x.initial_round_opened_rows
    pub proofs :
        All
          (λ ps.
            (length ps ≡ first_length x.initial_round_opened_rows)
            × All (λ (p : List c.Digest). length p ≡ depth) ps)
          x.initial_round_merkle_proofs
    pub values-length : length x.codeword_opened_values ≡ length x.codeword_commits
    pub values : All (All (λ (vs : List c.EF). length vs ≡ 2 ^ k_whir x)) x.codeword_opened_values
    pub codeword-depth :
        (if ltb 1 (num_whir_rounds c x) then first_depth x.codeword_merkle_proofs else ok 0)
        ≡ ok codeword_depth
    pub depths : HasDepths codeword_depth x.codeword_opened_values x.codeword_merkle_proofs

-- Tests on the two sides.
module _ {A : Type 0} where
  pub Reads-ensure :
      {w : Writer} {r : Reader A} {a : A} (b : Bool) (e : IoError)
      → (b ≡ true → Reads w r a)
      → Reads (then_write (ensure b e) w) r a
  Reads-ensure true e k = k refl
  Reads-ensure false e k = Reads-err e

  pub Reads-assert :
      {w : Writer} {r : Reader A} {a : A} (b : Bool)
      → (b ≡ true → Reads w r a)
      → Reads (then_write (assert b) w) r a
  Reads-assert true k = k refl
  Reads-assert false k = Reads-panic

  pub Reads-lift :
      {B : Type 0} {w : Writer} (k : B → Reader A) {a : A} {m : Outcome IoError B} (b : B)
      → m ≡ ok b
      → Reads w (k b) a
      → Reads w (lift m >>= k) a
  Reads-lift k b e p = rw e p

-- The depth that is written is that of every proof.
first_depth-All :
    {D : Type 0} (queries depth : ℕ) (xs : List (List (List D)))
    → All (λ ps. (length ps ≡ queries) × All (λ (p : List D). length p ≡ depth) ps) xs
    → 0 < queries
    → 0 < length xs
    → first_depth xs ≡ ok depth
first_depth-All queries depth [] h q n = absurd (omega arith)
first_depth-All queries depth ([] ∷ xs) h q n = absurd (omega arith)
first_depth-All queries depth ((p ∷ ps) ∷ xs) h q n = ap ok h.0.1.0

module _ {T : Type 0} (enc : T → Writer) (dec : ℕ → Reader (List T))
    (h : (n : ℕ) (xs : List T) → length xs ≡ n → Reads (encode_iter enc xs) (dec n) xs) where
  -- A table of `n` rows of length `w`.
  pub table-Reads :
      (n w : ℕ) (xs : List (List T))
      → length xs ≡ n
      → All (λ x. length x ≡ w) xs
      → Reads (encode_iter (encode_iter enc) xs) (decode_into_vec (dec w) n) xs
  table-Reads n w xs e s = rw (← e) (iter-Reads _ _ xs (rows xs s))
    where
      rows :
          (ys : List (List T))
          → All (λ x. length x ≡ w) ys
          → All (λ y. Reads (encode_iter enc y) (dec w) y) ys
      rows [] t = tt
      rows (y ∷ ys) t = (h w y t.0, rows ys t.1)

  -- `m` tables.
  pub tables-Reads :
      (m n w : ℕ) (xs : List (List (List T)))
      → length xs ≡ m
      → All (λ ys. (length ys ≡ n) × All (λ y. length y ≡ w) ys) xs
      → Reads
          (encode_iter (encode_iter (encode_iter enc)) xs)
          (decode_into_vec (decode_into_vec (dec w) n) m)
          xs
  tables-Reads m n w xs e s = rw (← e) (iter-Reads _ _ xs (go xs s))
    where
      go :
          (zs : List (List (List T)))
          → All (λ ys. (length ys ≡ n) × All (λ y. length y ≡ w) ys) zs
          → All (λ z. Reads (encode_iter (encode_iter enc) z) (decode_into_vec (dec w) n) z) zs
      go [] t = tt
      go (z ∷ zs) t = (table-Reads n w z t.0.0 t.0.1, go zs t.1)

module _ (c : Config) (h : IsLawful c) where
  pub opened_rows-Reads :
      (queries k_exp : ℕ) (xs : List (List (List (List c.F))))
      → All (HasRows c queries k_exp) xs
      → Reads
          (encode_iter (encode_iter (encode_iter (encode_base_field_iter c))) xs)
          (decode_opened_rows c queries k_exp (map row_width xs))
          xs
  unfolding encode_iter decode_opened_rows
  opened_rows-Reads queries k_exp [] s = Reads-pure []
  opened_rows-Reads queries k_exp (x ∷ xs) s =
      Reads-bind _
        (tables-Reads c.encode_base_field (decode_base_field_n c) (count-Reads _ _ h.base) queries
          k_exp (row_width x) x s.0.0 s.0.1)
        (Reads-map (◌∷◌ x) (opened_rows-Reads queries k_exp xs s.1))

  pub initial-Reads :
      (queries k_exp depth : ℕ) (rows : List (List (List (List c.F))))
      (proofs : List (List (List c.Digest)))
      → 0 < queries
      → 0 < length rows
      → All (HasRows c queries k_exp) rows
      → length proofs ≡ length rows
      → All (λ ps. (length ps ≡ queries) × All (λ (p : List c.Digest). length p ≡ depth) ps) proofs
      → Reads
          (encode_initial c queries rows proofs)
          (decode_initial c (length rows) queries k_exp)
          (rows, proofs)
  unfolding encode_initial decode_initial
  initial-Reads queries k_exp depth rows proofs q n s l t =
      rw (lt→ltb 0 queries q, first_depth-All queries depth proofs t q (omega arith))
        (Reads-bind _ (usize-Reads depth) (
          Reads-bind _
            (count-Reads _ _ usize-Reads (length rows) (map row_width rows)
              (length-map row_width rows))
            (Reads-bind _ (opened_rows-Reads queries k_exp rows s) (
              Reads-map (λ ps. (rows, ps))
                (tables-Reads c.encode_digest (decode_digest_n c) (count-Reads _ _ h.digest) _
                  queries depth proofs l t)))))

  pub codeword_proofs-Reads :
      (depth : ℕ) (values : List (List (List c.EF))) (proofs : List (List (List c.Digest)))
      → HasDepths c depth values proofs
      → Reads
          (encode_iter (encode_iter (encode_digest_iter c)) proofs)
          (decode_codeword_proofs c depth values)
          proofs
  unfolding encode_iter decode_codeword_proofs
  codeword_proofs-Reads depth [] [] s = Reads-pure []
  codeword_proofs-Reads depth [] (p ∷ ps) s = absurd s
  codeword_proofs-Reads depth (v ∷ vs) [] s = absurd s
  codeword_proofs-Reads zero (v ∷ vs) (p ∷ ps) s = absurd (omega arith)
  codeword_proofs-Reads (suc depth) (v ∷ vs) (p ∷ ps) s =
      Reads-bind _
        (table-Reads c.encode_digest (decode_digest_n c) (count-Reads _ _ h.digest) (length v)
          (suc depth) p s.0 s.1)
        (Reads-map (◌∷◌ p)
          (codeword_proofs-Reads depth vs ps (subst (λ d. HasDepths c d vs ps) (omega arith) s.3)))
