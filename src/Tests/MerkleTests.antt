-- ===== src/Tests/MerkleTests.antt =====
-- Runs of the theorems on Merkle trees.
use stark_backend.Prelude.{ℕ, ◌≡◌, ◌⊎◌, ◌+◌, refl, List, [], ◌∷◌, length, arith}
use stark_backend.Prelude.Outcome.{ok, err}
use stark_backend.Stacked.Matrix.{ColMajorMatrix}
use stark_backend.Merkle.Tree.{
  MerkleTree, query_out_of_bounds, opened_rows_out_of_bounds, query_digest, new_tree, root,
  query_merkle_proof, get_opened_rows, climb, merkle_verify,
}
use stark_backend.Merkle.Opening.{opening_verifies, queries_out_of_bounds}
use stark_backend.Merkle.Binding.{Collision, merkle_verify-binds}
use native.Mathlib.Decide.{ℕ_discrete}
use stark_backend.Tests.StackedTests.{search_log2, search_log2-IsLog2}

-- The sum of the values, and a compression that tells left from right.
abbrev sum : List ℕ → ℕ
sum [] = 0
sum (x ∷ xs) = x + sum xs

abbrev mix : ℕ → ℕ → ℕ
mix a b = a + (b + b)

abbrev eight : ColMajorMatrix ℕ
eight = record { values = 1 ∷ 2 ∷ 3 ∷ 4 ∷ 5 ∷ 6 ∷ 7 ∷ 8 ∷ []; width = 1; height = 8 }

opening_verifies_example :
    (tree : MerkleTree ℕ ℕ) × (top : ℕ) × (rows : List (List ℕ)) × (digest : ℕ) × (proof : List ℕ)
    × (new_tree mix sum (λ x. x ∷ []) 0 search_log2 eight 2 ≡ ok tree)
    × (root tree ≡ ok top)
    × (get_opened_rows 0 tree 3 ≡ ok rows)
    × (query_digest mix sum (λ x. x ∷ []) 0 search_log2 rows ≡ ok digest)
    × (query_merkle_proof tree 3 ≡ ok proof)
    × (length proof ≡ 2)
    × (merkle_verify mix ℕ_discrete top 3 digest proof ≡ ok tt)
opening_verifies_example =
    opening_verifies mix sum (λ x. x ∷ []) 0 search_log2 ℕ_discrete 2 1 eight 3 search_log2-IsLog2
      refl (omega arith)

queries_out_of_bounds_example :
    (tree : MerkleTree ℕ ℕ) × (new_tree mix sum (λ x. x ∷ []) 0 search_log2 eight 2 ≡ ok tree)
    × (query_merkle_proof tree 4 ≡ err (query_out_of_bounds 4 4))
    × (get_opened_rows 0 tree 4 ≡ err (opened_rows_out_of_bounds 4 4))
queries_out_of_bounds_example =
    queries_out_of_bounds mix sum (λ x. x ∷ []) 0 search_log2 ℕ_discrete 2 1 eight 4
      search_log2-IsLog2 refl (omega arith)

merkle_verify-binds_example :
    ((◌≡◌ {A = ℕ} 3 1) × (◌≡◌ {A = List ℕ} (2 ∷ []) (3 ∷ []))) ⊎ Collision mix ℕ_discrete
unfolding merkle_verify climb ℕ_discrete
merkle_verify-binds_example =
    merkle_verify-binds mix ℕ_discrete 7 0 3 1 (2 ∷ []) (3 ∷ []) refl refl refl
