-- ===== src/Merkle/Nodes.antt =====
-- The digests of a Merkle tree as a function of its leaves, and how the layers of
-- crates/stark-backend/src/prover/stacked_pcs.rs and `tree_compress` of
-- crates/stark-backend/src/hasher.rs compute them.
use stark_backend.Prelude.{
  ℕ, zero, suc, ◌+◌, ◌*◌, ◌/◌, ◌%◌, ◌^◌, ◌<◌, ◌≡◌, refl, sym, ap, ◌∙◌, List, [], ◌∷◌, length,
  tabulate, tabulate-cong, length-tabulate, index-tabulate, try_tabulate-ok, lt→ltb, pow_pos,
  below_pow, mul_step, arith,
}
use stark_backend.Prelude.Outcome.{ok, index}
use stark_backend.Merkle.Tree.{
  MerkleError, pairs, compress_rounds, tree_compress, fold_layer, fold_layers, grow,
}
use native.Mathlib.Nat.{
  two-pow-succ, mul-div_right, mul-add-div_right, div-lt_iff_lt-mul, mul-add-mod_self_right, mod-lt,
  mod-eq_of_lt, div-eq_of_lt,
}

module _ {D : Type 0} (compress : D → D → D) where
  -- The digest `i` of the layer `k` above these leaves.
  abbrev pub node : ℕ → (ℕ → D) → ℕ → D
  node zero leaf i = leaf i
  node (suc k) leaf i = compress (node k leaf (2 * i)) (node k leaf (2 * i + 1))

  pairs-tabulate :
      (n : ℕ) (f : ℕ → D)
      → pairs compress (tabulate (2 * n) f) ≡ tabulate n (λ i. compress (f (2 * i)) (f (2 * i + 1)))
  pairs-tabulate zero f = refl
  pairs-tabulate (suc n) f =
      let e : 2 * suc n ≡ suc (suc (2 * n)) = omega arith in
      rw e (
        ap (λ (l : List D). compress (f 0) (f 1) ∷ l)
          (pairs-tabulate n (λ i. f (i + 1 + 1))
            ∙ tabulate-cong n _ _
                (λ i lt. let g : 2 * i + 1 + 1 ≡ 2 * (i + 1) = omega arith in rw g refl)))

  -- A layer of a tree of depth `k`.
  abbrev pub layer_of : ℕ → ℕ → (ℕ → D) → List D
  layer_of k j leaf = tabulate (2 ^ k) (node j leaf)

  pairs-layer :
      (k j : ℕ) (leaf : ℕ → D) → pairs compress (layer_of (suc k) j leaf) ≡ layer_of k (suc j) leaf
  pairs-layer k j leaf =
      let e : 2 ^ suc k ≡ 2 * 2 ^ k = omega (arith, two-pow-succ k) in
      ap (λ (n : ℕ). pairs compress (tabulate n (node j leaf))) e
      ∙ pairs-tabulate (2 ^ k) (node j leaf)

  compress_rounds-more :
      (fuel : ℕ) (hashes : List D)
      → 1 < length hashes
      → compress_rounds compress (suc fuel) hashes
        ≡ compress_rounds compress fuel (pairs compress hashes)
  unfolding compress_rounds
  compress_rounds-more fuel [] h = grind arith
  compress_rounds-more fuel (a ∷ []) h = grind arith
  compress_rounds-more fuel (a ∷ b ∷ hashes) h = refl

  many : (k j : ℕ) (leaf : ℕ → D) → 1 < length (layer_of (suc k) j leaf)
  many k j leaf =
      omega (arith, length-tabulate (2 ^ suc k) (node j leaf), two-pow-succ k, pow_pos k)

  -- `tree_compress` of a layer is the digest above it.
  compress_rounds-layer :
      (k j fuel : ℕ) (leaf : ℕ → D)
      → k < fuel
      → compress_rounds compress fuel (layer_of k j leaf) ≡ ok (node (j + k) leaf 0)
  unfolding compress_rounds
  compress_rounds-layer k j zero leaf h = grind arith
  compress_rounds-layer zero j (suc fuel) leaf h = let e : j + 0 ≡ j = omega arith in rw e refl
  compress_rounds-layer (suc k) j (suc fuel) leaf h =
      let e : j + suc k ≡ suc j + k = omega arith in
      compress_rounds-more fuel (layer_of (suc k) j leaf) (many k j leaf)
      ∙ ap (compress_rounds compress fuel) (pairs-layer k j leaf)
      ∙ compress_rounds-layer k (suc j) fuel leaf (omega arith)
      ∙ ap (λ (x : ℕ). ok (node x leaf 0)) (sym e)

  -- The layers of a tree of depth `k` above these leaves.
  abbrev pub layers_of : ℕ → ℕ → (ℕ → D) → List (List D)
  layers_of zero j leaf = layer_of 0 j leaf ∷ []
  layers_of (suc k) j leaf = layer_of (suc k) j leaf ∷ layers_of k (suc j) leaf

  pub grow-layers :
      (k j fuel : ℕ) (leaf : ℕ → D)
      → k < fuel
      → grow compress fuel (layer_of k j leaf) ≡ ok (layers_of k j leaf)
  unfolding grow
  grow-layers k j zero leaf h = grind arith
  grow-layers zero j (suc fuel) leaf h = refl
  grow-layers (suc k) j (suc fuel) leaf h =
      rw
        (
          lt→ltb 1 (length (layer_of (suc k) j leaf)) (many k j leaf),
          pairs-layer k j leaf,
          grow-layers k (suc j) fuel leaf (omega arith),
        )
        refl

  -- `tree_compress` of `2 ^ k` digests is the digest at the top of their tree.
  pub tree_compress-node :
      (k : ℕ) (leaf : ℕ → D) → tree_compress compress (tabulate (2 ^ k) leaf) ≡ ok (node k leaf 0)
  tree_compress-node k leaf =
      let e : 0 + k ≡ k = omega arith in
      rw (length-tabulate (2 ^ k) leaf) (
        compress_rounds-layer k 0 (2 ^ k) leaf (below_pow k) ∙ ap (λ (x : ℕ). ok (node x leaf 0)) e)

  -- The layer after `k` folds: the digests of the leaves that are `stride` apart.
  abbrev pub folded : ℕ → ℕ → (ℕ → D) → ℕ → D
  folded stride k leaf i = node k (λ t. leaf (t * stride + i % stride)) (i / stride)

  apart :
      (x y stride : ℕ)
      → y < stride
      → ((x * stride + y) / stride ≡ x) × ((x * stride + y) % stride ≡ y)
  apart x y stride h = (
    mul-add-div_right (omega arith) x y ∙ ap (λ (t : ℕ). x + t) (div-eq_of_lt h) ∙ omega arith,
    mul-add-mod_self_right x stride y ∙ mod-eq_of_lt h,
  )

  folded-at :
      (stride k : ℕ) (leaf : ℕ → D) (x y : ℕ)
      → y < stride
      → folded stride k leaf (x * stride + y) ≡ node k (λ t. leaf (t * stride + y)) x
  folded-at stride k leaf x y h =
      let (d, m) = apart x y stride h in
      ap (λ (r : ℕ). node k (λ t. leaf (t * stride + r)) ((x * stride + y) / stride)) m
      ∙ ap (λ (q : ℕ). node k (λ t. leaf (t * stride + y)) q) d

  -- The read of an entry of the layer before.
  read_entry :
      (stride n k : ℕ) (leaf : ℕ → D) (x y : ℕ)
      → y < stride
      → x < n
      → index {E = MerkleError} (tabulate (n * stride) (folded stride k leaf)) (x * stride + y)
        ≡ ok (node k (λ t. leaf (t * stride + y)) x)
  read_entry stride n k leaf x y h lt =
      index-tabulate (n * stride) (folded stride k leaf) (x * stride + y)
        (omega (arith, mul_step x n stride lt))
      ∙ ap ok (folded-at stride k leaf x y h)

  fold_layer-folded :
      (stride n k : ℕ) (leaf : ℕ → D)
      → 0 < stride
      → fold_layer compress stride (tabulate (2 * n * stride) (folded stride k leaf))
        ≡ ok (tabulate (n * stride) (folded stride (suc k) leaf))
  unfolding fold_layer
  fold_layer-folded stride n k leaf h =
      let all : length (tabulate (2 * n * stride) (folded stride k leaf)) / 2 ≡ n * stride =
        ap (λ (x : ℕ). x / 2)
          (length-tabulate (2 * n * stride) (folded stride k leaf) ∙ omega arith)
        ∙ mul-div_right (n * stride) (omega arith) in
      rw all (
        try_tabulate-ok (n * stride) _ (folded stride (suc k) leaf) (λ i lt.
          let y : i % stride < stride = mod-lt i h in
          let x : i / stride < n = (div-lt_iff_lt-mul h).1 lt in
          rw
            (
              read_entry stride (2 * n) k leaf (2 * (i / stride)) (i % stride) y (omega arith),
              read_entry stride (2 * n) k leaf (2 * (i / stride) + 1) (i % stride) y (omega arith),
            )
            refl))

  -- The loop of `MerkleTree::new` below the queries.
  pub fold_layers-folded :
      (stride k count : ℕ) (leaf : ℕ → D)
      → 0 < stride
      → fold_layers compress stride count (tabulate (2 ^ count * stride) (folded stride k leaf))
        ≡ ok (tabulate (1 * stride) (folded stride (k + count) leaf))
  unfolding fold_layers
  fold_layers-folded stride k zero leaf h = let e : k + 0 ≡ k = omega arith in rw e refl
  fold_layers-folded stride k (suc count) leaf h =
      let e : 2 ^ suc count * stride ≡ 2 * 2 ^ count * stride =
        ap (λ (x : ℕ). x * stride) (omega (arith, two-pow-succ count)) in
      let f : k + suc count ≡ suc k + count = omega arith in
      rw (e, f, fold_layer-folded stride (2 ^ count) k leaf h)
        (fold_layers-folded stride (suc k) count leaf h)
