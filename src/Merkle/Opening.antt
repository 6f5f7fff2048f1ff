-- ===== src/Merkle/Opening.antt =====
-- Queries of a Merkle tree of crates/stark-backend/src/prover/stacked_pcs.rs against
-- `merkle_verify` of crates/stark-backend/src/verifier/whir.rs.
use stark_backend.Prelude.{
  ℕ, zero, suc, ◌+◌, ◌-◌, ◌*◌, ◌/◌, ◌%◌, ◌^◌, ◌≤◌, ◌<◌, ◌≡◌, refl, sym, ap, ◌∙◌, true, false, List,
  [], ◌∷◌, length, map, take, tabulate, tabulate-cong, length-tabulate, index-tabulate,
  if◌then◌else◌, leb, ltb, ◌==◌, Bool-cases, inl, inr, ==→eq, ne→==, lt→leb_false, le→leb,
  le→ltb_false, pow_pos, below_pow, pow-add, arith,
}
use stark_backend.Prelude.Outcome.{Outcome, ok, err, index}
use stark_backend.Stacked.Matrix.{ColMajorMatrix}
use stark_backend.Stacked.Reading.{IsLog2}
use stark_backend.Stacked.StackedMatrix.{is_power_of_two-pow}
use stark_backend.Merkle.Tree.{
  MerkleError, query_out_of_bounds, opened_rows_out_of_bounds, merkle_verify_failed,
  VerifyWhirError, MerkleTree, power_from, next_power_of_two, sibling_of, row_iter, row_hash,
  coefficients, query_digest, new_tree, query_stride, proof_depth, last_layer, root, siblings,
  query_merkle_proof, get_opened_rows, climb, merkle_verify,
}
use stark_backend.Merkle.Nodes.{
  node, layer_of, layers_of, grow-layers, folded, fold_layers-folded, tree_compress-node,
}
use native.Mathlib.Nat.{
  two-pow-succ, mul-div_cancel, mod-lt, mod-eq_of_lt, div-eq_of_lt, mod-add-div, pow-le-pow_right,
  div-lt_iff_lt-mul,
}

-- The next power of two of a power of two.
power_from-pow : (d j fuel : ℕ) → d ≤ fuel → power_from fuel (2 ^ j) (2 ^ (j + d)) ≡ 2 ^ (j + d)
power_from-pow d j zero h = let e : j + d ≡ j = omega arith in rw e refl
power_from-pow zero j (suc fuel) h =
    let e : j + 0 ≡ j = omega arith in rw (e, le→leb (2 ^ j) (2 ^ j) (omega arith)) refl
power_from-pow (suc d) j (suc fuel) h =
    let e : j + suc d ≡ suc j + d = omega arith in
    let f : 2 * 2 ^ j ≡ 2 ^ suc j = omega (arith, two-pow-succ j) in
    let above : 2 ^ suc j ≤ 2 ^ (suc j + d) =
      pow-le-pow_right {n = 2} (omega arith) (omega arith) in
    let less : 2 ^ j < 2 ^ (suc j + d) = omega (arith, pow_pos j) in
    rw (e, lt→leb_false (2 ^ (suc j + d)) (2 ^ j) less, f)
      (power_from-pow d (suc j) fuel (omega arith))

next_power_of_two-pow : (h : ℕ) → next_power_of_two (2 ^ h) ≡ 2 ^ h
next_power_of_two-pow h =
    let e : 0 + h ≡ h = omega arith in
    ap (λ (x : ℕ). power_from (2 ^ h) 1 (2 ^ x)) (sym e)
    ∙ power_from-pow h 0 (2 ^ h) (omega (arith, below_pow h))
    ∙ ap (λ (x : ℕ). 2 ^ x) e

module _ {D : Type 0} (compress : D → D → D) where
  length-layers_of : (k j : ℕ) (leaf : ℕ → D) → length (layers_of compress k j leaf) ≡ suc k
  length-layers_of zero j leaf = refl
  length-layers_of (suc k) j leaf = ap suc (length-layers_of k (suc j) leaf)

  last_layer-layers :
      (k j : ℕ) (leaf : ℕ → D)
      → last_layer (layers_of compress k j leaf) ≡ ok (layer_of compress 0 (j + k) leaf)
  last_layer-layers zero j leaf = let e : j + 0 ≡ j = omega arith in rw e refl
  last_layer-layers (suc zero) j leaf = let e : j + 1 ≡ suc j = omega arith in rw e refl
  last_layer-layers (suc (suc k)) j leaf =
      let e : j + suc (suc k) ≡ suc j + suc k = omega arith in
      rw e (last_layer-layers (suc k) (suc j) leaf)

  index-layers_of :
      {E : Type 0} (k j : ℕ) (leaf : ℕ → D)
      → index {E = E} (layers_of compress k j leaf) 0 ≡ ok (layer_of compress k j leaf)
  index-layers_of zero j leaf = refl
  index-layers_of (suc k) j leaf = refl

  accepted :
      (a b : D) (d : Dec (a ≡ b))
      → a ≡ b
      → elim d as (λ x. Outcome VerifyWhirError (Unit {0})) [
        | yes same ↦ ok tt
        | no differ ↦ err merkle_verify_failed
      ]
        ≡ ok tt
  accepted a b (yes same) e = refl
  accepted a b (no differ) e = elim (differ e) [ ]

  merkle_verify-climb :
      (eq : (a b : D) → Dec (a ≡ b)) (top : D) (i : ℕ) (d : D) (proof : List D)
      → climb compress i d proof ≡ top
      → merkle_verify compress eq top i d proof ≡ ok tt
  unfolding merkle_verify
  merkle_verify-climb eq top i d proof e =
      accepted top (climb compress i d proof) (eq top (climb compress i d proof)) (sym e)

  -- A digest and its sibling compress to the digest above.
  climb-step :
      (j : ℕ) (leaf : ℕ → D) (i : ℕ)
      → (if i % 2 == 0
          then compress (node compress j leaf i) (node compress j leaf (sibling_of i))
          else compress (node compress j leaf (sibling_of i)) (node compress j leaf i))
        ≡ node compress (suc j) leaf (i / 2)
  climb-step j leaf i = elim (Bool-cases (i % 2 == 0)) [
    | inl even ↦
        let left : 2 * (i / 2) ≡ i = omega (arith, mod-add-div i 2, ==→eq (i % 2) 0 even) in
        let right : 2 * (i / 2) + 1 ≡ i + 1 = omega arith in rw (even, left) refl
    | inr odd ↦
        let small : i % 2 < 2 = mod-lt i (omega arith) in
        let left : 2 * (i / 2) ≡ i - 1 = ground (arith, mod-add-div i 2, odd, small) in
        let right : 2 * (i / 2) + 1 ≡ i = ground (arith, mod-add-div i 2, odd, small) in
        rw (odd, right, left) refl
  ]

  sibling_of-below : (k i : ℕ) → i < 2 ^ suc k → sibling_of i < 2 ^ suc k
  sibling_of-below k i h = elim (Bool-cases (i % 2 == 0)) [
    | inl even ↦ rw even (omega (arith, mod-add-div i 2, ==→eq (i % 2) 0 even, two-pow-succ k))
    | inr odd ↦ rw odd (omega arith)
  ]

  -- The siblings that a query collects lead from its digest to the top.
  siblings-climb :
      (k j : ℕ) (leaf : ℕ → D) (i : ℕ)
      → i < 2 ^ k
      → (proof : List D) × (siblings i (take k (layers_of compress k j leaf)) ≡ ok proof)
        × (length proof ≡ k)
        × (climb compress i (node compress j leaf i) proof ≡ node compress (j + k) leaf 0)
  unfolding siblings climb
  siblings-climb zero j leaf i h =
      let e : j + 0 ≡ j = omega arith in
      let z : i ≡ 0 = omega arith in ([], refl, refl, rw (e, z) refl)
  siblings-climb (suc k) j leaf i h =
      let (proof, ran, n, up) =
        siblings-climb k (suc j) leaf (i / 2)
          ((div-lt_iff_lt-mul (omega arith)).1 (omega (arith, two-pow-succ k))) in
      let e : j + suc k ≡ suc j + k = omega arith in
      (
        node compress j leaf (sibling_of i) ∷ proof,
        rw
            (
              index-tabulate {E = MerkleError} (2 ^ suc k) (node compress j leaf) (sibling_of i)
                  (sibling_of-below k i h),
              ran,
            )
            refl,
        ap suc n,
        rw (climb-step j leaf i, e) up,
      )

map-tabulate {ℓ κ} :
    {A : Type ℓ} {B : Type κ} (f : A → B) (n : ℕ) (g : ℕ → A)
    → map f (tabulate n g) ≡ tabulate n (λ i. f (g i))
map-tabulate f zero g = refl
map-tabulate f (suc n) g = ap (λ l. f (g 0) ∷ l) (map-tabulate f n (λ i. g (i + 1)))

module _ {D F B : Type 0} (compress : D → D → D) (hash_slice : List B → D) (basis : F → List B)
    (zero_f : F) (log2_strict : ℕ → ℕ) where
  -- The digests of the queries: those of the leaves a stride apart.
  abbrev pub query_leaf : ℕ → ℕ → ColMajorMatrix F → ℕ → D
  query_leaf stride r m =
      folded compress stride r (row_hash compress hash_slice basis zero_f log2_strict m)

  -- The tree of a matrix of height `2 ^ (k + r)` with `2 ^ r` rows for a query.
  abbrev pub tree_of : ℕ → ℕ → ColMajorMatrix F → MerkleTree F D
  tree_of k r m = record {
    backing_matrix = m;
    digest_layers = layers_of compress k 0 (query_leaf (2 ^ k) r m);
    rows_per_query = 2 ^ r;
  }

  pub new_tree_lem :
      (k r : ℕ) (m : ColMajorMatrix F)
      → IsLog2 log2_strict
      → m.height ≡ 2 ^ (k + r)
      → new_tree compress hash_slice basis zero_f log2_strict m (2 ^ r) ≡ ok (tree_of k r m)
  unfolding new_tree
  new_tree_lem k r m law tall =
      let leaf : ℕ → D = row_hash compress hash_slice basis zero_f log2_strict m in
      let all : next_power_of_two m.height ≡ 2 ^ (k + r) =
        ap next_power_of_two tall ∙ next_power_of_two-pow (k + r) in
      let split : 2 ^ (k + r) ≡ 2 ^ k * 2 ^ r = pow-add k r in
      let stride : next_power_of_two m.height / 2 ^ r ≡ 2 ^ k =
        ap (λ (x : ℕ). x / 2 ^ r) (all ∙ split) ∙ mul-div_cancel (2 ^ k) (pow_pos r) in
      let low : 2 ^ r ≤ 2 ^ (k + r) = pow-le-pow_right {n = 2} (omega arith) (omega arith) in
      let some_row : (m.height == 0) ≡ false = ne→== m.height 0 (omega (arith, pow_pos (k + r))) in
      let enough : ltb (next_power_of_two m.height) (2 ^ r) ≡ false =
        le→ltb_false (next_power_of_two m.height) (2 ^ r) (omega (arith, all, low)) in
      let leaves : tabulate (next_power_of_two m.height) leaf
          ≡ tabulate (2 ^ r * 2 ^ k) (folded compress (2 ^ k) 0 leaf) =
        ap (λ (x : ℕ). tabulate x leaf) (all ∙ split ∙ omega arith)
        ∙ tabulate-cong (2 ^ r * 2 ^ k) leaf (folded compress (2 ^ k) 0 leaf)
            (λ i lt. ap leaf (omega (arith, mod-add-div i (2 ^ k)))) in
      let top : tabulate (1 * 2 ^ k) (folded compress (2 ^ k) (0 + r) leaf)
          ≡ layer_of compress k 0 (query_leaf (2 ^ k) r m) =
        let e : 1 * 2 ^ k ≡ 2 ^ k = omega arith in
        let f : 0 + r ≡ r = omega arith in rw (e, f) refl in
      rw
        (
          some_row,
          is_power_of_two-pow r,
          enough,
          leaves,
          law r,
          stride,
          fold_layers-folded compress (2 ^ k) 0 r leaf (pow_pos k),
          top,
          length-tabulate (2 ^ k) (query_leaf (2 ^ k) r m),
          grow-layers compress k 0 (suc (2 ^ k)) (query_leaf (2 ^ k) r m)
              (omega (arith, below_pow k)),
        )
        refl

  query_stride-tree_of :
      (k r : ℕ) (m : ColMajorMatrix F) → query_stride (tree_of k r m) ≡ ok (2 ^ k)
  unfolding query_stride
  query_stride-tree_of k r m =
      rw (index-layers_of compress k 0 (query_leaf (2 ^ k) r m))
        (ap ok (length-tabulate (2 ^ k) (query_leaf (2 ^ k) r m)))

  proof_depth-tree_of : (k r : ℕ) (m : ColMajorMatrix F) → proof_depth (tree_of k r m) ≡ ok k
  unfolding proof_depth
  proof_depth-tree_of k r m = rw (length-layers_of compress k 0 (query_leaf (2 ^ k) r m)) refl

  root-tree_of :
      (k r : ℕ) (m : ColMajorMatrix F)
      → root (tree_of k r m) ≡ ok (node compress k (query_leaf (2 ^ k) r m) 0)
  unfolding root
  root-tree_of k r m =
      let e : 0 + k ≡ k = omega arith in
      rw (last_layer-layers compress k 0 (query_leaf (2 ^ k) r m), e) refl

  -- The rows of query `i`.
  abbrev pub rows_of : ℕ → ℕ → ColMajorMatrix F → ℕ → List (List F)
  rows_of k r m i = tabulate (2 ^ r) (λ t. row_iter zero_f m (t * 2 ^ k + i))

  query_digest-rows_of :
      (k r : ℕ) (m : ColMajorMatrix F) (i : ℕ)
      → i < 2 ^ k
      → query_digest compress hash_slice basis zero_f log2_strict (rows_of k r m i)
        ≡ ok (query_leaf (2 ^ k) r m i)
  query_digest-rows_of k r m i h =
      let own : ℕ → D =
        λ t. row_hash compress hash_slice basis zero_f log2_strict m (t * 2 ^ k + i) in
      rw
        (
          map-tabulate
              (λ row. hash_slice (coefficients compress hash_slice basis zero_f log2_strict row))
              (2 ^ r) (λ t. row_iter zero_f m (t * 2 ^ k + i)),
          tree_compress-node compress r own,
          mod-eq_of_lt h,
          div-eq_of_lt h,
        )
        refl

  module _ (eq : (a b : D) → Dec (a ≡ b)) where
    -- For a matrix of height `2 ^ (k + r)`, opened by `2 ^ r` rows, `MerkleTree::new` returns a tree
    -- and `root` its root, and each query below the stride `2 ^ k` returns its rows and a proof of `k`
    -- digests, which `merkle_verify` accepts against the root for the digest of these rows.
    pub opening_verifies :
        (k r : ℕ) (m : ColMajorMatrix F) (i : ℕ)
        → IsLog2 log2_strict
        → m.height ≡ 2 ^ (k + r)
        → i < 2 ^ k
        → (tree : MerkleTree F D) × (top : D) × (rows : List (List F)) × (digest : D)
          × (proof : List D) × (new_tree compress hash_slice basis zero_f log2_strict m (2 ^ r)
              ≡ ok tree)
          × (root tree ≡ ok top)
          × (get_opened_rows zero_f tree i ≡ ok rows)
          × (query_digest compress hash_slice basis zero_f log2_strict rows ≡ ok digest)
          × (query_merkle_proof tree i ≡ ok proof)
          × (length proof ≡ k)
          × (merkle_verify compress eq top i digest proof ≡ ok tt)
    unfolding get_opened_rows query_merkle_proof
    opening_verifies k r m i law tall h =
        let leaf : ℕ → D = query_leaf (2 ^ k) r m in
        let (proof, ran, n, up) = siblings-climb compress k 0 leaf i h in
        let e : 0 + k ≡ k = omega arith in
        let inside : leb (2 ^ k) i ≡ false = lt→leb_false (2 ^ k) i h in
        (
          tree_of k r m,
          node compress k leaf 0,
          rows_of k r m i,
          leaf i,
          proof,
          new_tree_lem k r m law tall,
          root-tree_of k r m,
          rw (query_stride-tree_of k r m, inside) refl,
          query_digest-rows_of k r m i h,
          rw (query_stride-tree_of k r m, inside, proof_depth-tree_of k r m) ran,
          n,
          merkle_verify-climb compress eq (node compress k leaf 0) i (leaf i) proof
              (up ∙ ap (λ (x : ℕ). node compress x leaf 0) e),
        )

    -- The queries from the stride on are refused, both for a proof and for rows.
    pub queries_out_of_bounds :
        (k r : ℕ) (m : ColMajorMatrix F) (i : ℕ)
        → IsLog2 log2_strict
        → m.height ≡ 2 ^ (k + r)
        → 2 ^ k ≤ i
        → (tree : MerkleTree F D) × (new_tree compress hash_slice basis zero_f log2_strict m (2 ^ r)
            ≡ ok tree)
          × (query_merkle_proof tree i ≡ err (query_out_of_bounds i (2 ^ k)))
          × (get_opened_rows zero_f tree i ≡ err (opened_rows_out_of_bounds i (2 ^ k)))
    unfolding get_opened_rows query_merkle_proof
    queries_out_of_bounds k r m i law tall h =
        let outside : leb (2 ^ k) i ≡ true = le→leb (2 ^ k) i h in
        (
          tree_of k r m,
          new_tree_lem k r m law tall,
          rw (query_stride-tree_of k r m, outside) refl,
          rw (query_stride-tree_of k r m, outside) refl,
        )
