-- ===== src/Merkle/Tree.antt =====
-- `MerkleTree` of crates/stark-backend/src/prover/stacked_pcs.rs, `tree_compress` of
-- crates/stark-backend/src/hasher.rs and `merkle_verify` of
-- crates/stark-backend/src/verifier/whir.rs. The two operations of the trait `MerkleHasher`, the
-- basis coefficients of an extension field and `log2_strict_usize` are parameters.
use stark_backend.Prelude.{
  ℕ, zero, suc, ◌+◌, ◌-◌, ◌*◌, ◌/◌, ◌%◌, List, [], ◌∷◌, ◌++◌, length, map, take, tabulate,
  try_tabulate, get_or, if◌then◌else◌, ◌≡◌, ltb, leb, ◌==◌, ◌||◌, not,
}
use stark_backend.Prelude.Outcome.{Outcome, ok, err, panic, ◌>>=◌, index, checked_pred}
use stark_backend.Stacked.Matrix.{ColMajorMatrix, is_power_of_two, col_maj_idx}

-- The errors of the tree in `StackedPcsError`.
pub data MerkleError : Type 0 where
  empty_matrix : MerkleError
  rows_per_query_not_pow2 : ℕ → MerkleError
  rows_per_query_exceeded : ℕ → ℕ → MerkleError
  no_root : MerkleError
  query_out_of_bounds : ℕ → ℕ → MerkleError
  opened_rows_out_of_bounds : ℕ → ℕ → MerkleError

pub record MerkleTree (F D : Type 0) : Type 0 where
  pub backing_matrix : ColMajorMatrix F
  pub digest_layers : List (List D)
  pub rows_per_query : ℕ

-- `next_power_of_two`, from the power `p` on; `fuel` bounds the doublings.
abbrev pub power_from : ℕ → ℕ → ℕ → ℕ
power_from zero p n = p
power_from (suc fuel) p n = let next = power_from fuel (2 * p) n in if leb n p then p else next

abbrev pub next_power_of_two : ℕ → ℕ
next_power_of_two n = power_from n 1 n

-- `idx ^ 1`
abbrev pub sibling_of : ℕ → ℕ
sibling_of idx = if idx % 2 == 0 then idx + 1 else idx - 1

module _ {F : Type 0} (zero_f : F) where
  unfoldable pub row_iter : ColMajorMatrix F → ℕ → List F
  row_iter m r = tabulate m.width (λ c.
      if leb m.width c || leb m.height r
      then zero_f
      else get_or m.values (col_maj_idx r c m.height) zero_f)

module _ {D : Type 0} (compress : D → D → D) where
  -- `chunks_exact(2)`, each pair compressed.
  abbrev pub pairs : List D → List D
  pairs [] = []
  pairs (a ∷ []) = []
  pairs (a ∷ b ∷ hashes) = compress a b ∷ pairs hashes

  -- `tree_compress`; `fuel` bounds the rounds.
  unfoldable pub compress_rounds : ℕ → List D → Outcome ⊥ D
  compress_rounds zero hashes = panic
  compress_rounds (suc fuel) [] = panic
  compress_rounds (suc fuel) (d ∷ []) = ok d
  compress_rounds (suc fuel) (a ∷ b ∷ hashes) = compress_rounds fuel (pairs (a ∷ b ∷ hashes))

  abbrev pub tree_compress : List D → Outcome ⊥ D
  tree_compress hashes = compress_rounds (length hashes) hashes

  -- A layer below the queries: digests `query_stride` apart are compressed.
  unfoldable pub fold_layer : ℕ → List D → Outcome MerkleError (List D)
  fold_layer query_stride prev_layer = try_tabulate (length prev_layer / 2) (λ i. do
    left ← index prev_layer (2 * (i / query_stride) * query_stride + i % query_stride)
    right ← index prev_layer ((2 * (i / query_stride) + 1) * query_stride + i % query_stride)
    ok (compress left right))

  unfoldable pub fold_layers : ℕ → ℕ → List D → Outcome MerkleError (List D)
  fold_layers query_stride zero layer = ok layer
  fold_layers query_stride (suc count) layer = do
    next ← fold_layer query_stride layer
    fold_layers query_stride count next

  -- The layers from this one on; `fuel` bounds them.
  unfoldable pub grow : ℕ → List D → Outcome MerkleError (List (List D))
  grow zero layer = panic
  grow (suc fuel) layer =
      let above = grow fuel (pairs layer) in
      if ltb 1 (length layer) then (above >>= λ layers. ok (layer ∷ layers)) else ok (layer ∷ [])

  module _ {F B : Type 0} (hash_slice : List B → D) (basis : F → List B) (zero_f : F)
      (log2_strict : ℕ → ℕ) where
    abbrev pub coefficients : List F → List B
    coefficients [] = []
    coefficients (x ∷ xs) = basis x ++ coefficients xs

    abbrev pub row_hash : ColMajorMatrix F → ℕ → D
    row_hash m r = hash_slice (coefficients (row_iter zero_f m r))

    -- The digest that the verifier computes from the opened rows.
    abbrev pub query_digest : List (List F) → Outcome ⊥ D
    query_digest opened_rows =
        tree_compress (map (λ row. hash_slice (coefficients row)) opened_rows)

    -- `MerkleTree::new`
    unfoldable pub new_tree : ColMajorMatrix F → ℕ → Outcome MerkleError (MerkleTree F D)
    new_tree m rows_per_query =
        let num_leaves = next_power_of_two m.height in
        let query_stride = num_leaves / rows_per_query in
        if m.height == 0
        then err empty_matrix
        else if not (is_power_of_two rows_per_query)
        then err (rows_per_query_not_pow2 rows_per_query)
        else if ltb num_leaves rows_per_query
        then err (rows_per_query_exceeded rows_per_query num_leaves)
        else (do
          layer ←
              fold_layers query_stride (log2_strict rows_per_query)
                (tabulate num_leaves (row_hash m))
          layers ← grow (suc (length layer)) layer
          ok (record {
            backing_matrix = m;
            digest_layers = layers;
            rows_per_query = rows_per_query;
          }))

module _ {D : Type 0} where
  -- `last()`
  abbrev pub last_layer : List (List D) → Outcome MerkleError (List D)
  last_layer [] = err no_root
  last_layer (layer ∷ []) = ok layer
  last_layer (layer ∷ next ∷ layers) = last_layer (next ∷ layers)

  -- The siblings, layer by layer.
  unfoldable pub siblings : ℕ → List (List D) → Outcome MerkleError (List D)
  siblings idx [] = ok []
  siblings idx (layer ∷ layers) = do
    sibling ← index layer (sibling_of idx)
    proof ← siblings (idx / 2) layers
    ok (sibling ∷ proof)

module _ {F D : Type 0} where
  unfoldable pub query_stride : MerkleTree F D → Outcome MerkleError ℕ
  query_stride tree = do layer ← index tree.digest_layers 0; ok (length layer)

  unfoldable pub proof_depth : MerkleTree F D → Outcome MerkleError ℕ
  proof_depth tree = checked_pred (length tree.digest_layers)

  unfoldable pub root : MerkleTree F D → Outcome MerkleError D
  root tree = do layer ← last_layer tree.digest_layers; index layer 0

  unfoldable pub query_merkle_proof : MerkleTree F D → ℕ → Outcome MerkleError (List D)
  query_merkle_proof tree query_idx = do
    stride ← query_stride tree
    if leb stride query_idx
        then err (query_out_of_bounds query_idx stride)
        else (proof_depth tree >>= λ depth. siblings query_idx (take depth tree.digest_layers))

  unfoldable pub get_opened_rows : F → MerkleTree F D → ℕ → Outcome MerkleError (List (List F))
  get_opened_rows zero_f tree idx = do
    stride ← query_stride tree
    if leb stride idx
        then err (opened_rows_out_of_bounds idx stride)
        else ok (
            tabulate tree.rows_per_query
              (λ row_offset. row_iter zero_f tree.backing_matrix (row_offset * stride + idx)))

pub data VerifyWhirError : Type 0 where
  final_poly_degree : VerifyWhirError
  mu_pow_invalid : VerifyWhirError
  folding_pow_invalid : VerifyWhirError
  query_phase_pow_invalid : VerifyWhirError
  final_poly_query_mismatch : VerifyWhirError
  final_poly_constraint : VerifyWhirError
  merkle_verify_failed : VerifyWhirError

module _ {D : Type 0} (compress : D → D → D) where
  -- The digest at the top of a path. The index is a `u32` in the code: a number below 2^32.
  unfoldable pub climb : ℕ → D → List D → D
  climb idx cur [] = cur
  climb idx cur (sibling ∷ merkle_proof) =
      climb (idx / 2) (if idx % 2 == 0 then compress cur sibling else compress sibling cur)
        merkle_proof

  unfoldable pub merkle_verify :
      ((a b : D) → Dec (a ≡ b)) → D → ℕ → D → List D → Outcome VerifyWhirError (Unit {0})
  merkle_verify eq root_digest idx leaf_hash merkle_proof =
      elim (eq root_digest (climb idx leaf_hash merkle_proof)) [
        | yes same ↦ ok tt
        | no differ ↦ err merkle_verify_failed
      ]
