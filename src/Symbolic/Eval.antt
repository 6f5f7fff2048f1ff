-- ===== src/Symbolic/Eval.antt =====
-- The evaluation of a DAG node by node: what later nodes do not change, and the value at an index.
use stark_backend.Prelude.{
  ℕ, zero, suc, ◌+◌, ◌≡◌, refl, ap, ◌∙◌, some, List, [], ◌∷◌, ◌++◌, append_assoc, append-nil,
  length, length-append, get_elem?, arith,
}
use stark_backend.Prelude.Outcome.{ok, index, >>=-eq-ok}
use stark_backend.Ring.{Ring}
use stark_backend.Symbolic.Expr.{Evaluator}
use stark_backend.Symbolic.Dag.{
  Node, variable, is_first_row, is_last_row, is_transition, constant, add, sub, neg, mul, eval_node,
  eval_from, eval_nodes,
}

module _ {A : Type 0} where
  pub index-append :
      (xs ys : List A) (i : ℕ) (x : A)
      → index {E = ⊥} xs i ≡ ok x
      → index {E = ⊥} (xs ++ ys) i ≡ ok x
  index-append [] ys i x e = cc
  index-append (y ∷ xs) ys zero x e = e
  index-append (y ∷ xs) ys (suc i) x e = index-append xs ys i x e

  pub index-length : (xs : List A) (x : A) → index {E = ⊥} (xs ++ x ∷ []) (length xs) ≡ ok x
  index-length [] x = refl
  index-length (y ∷ xs) x = index-length xs x

  pub get_elem?-length : (xs : List A) (x : A) → get_elem? (xs ++ x ∷ []) (length xs) ≡ some x
  get_elem?-length [] x = refl
  get_elem?-length (y ∷ xs) x = get_elem?-length xs x

  pub get_elem?-append :
      (xs ys : List A) (i : ℕ) (x : A) → get_elem? xs i ≡ some x → get_elem? (xs ++ ys) i ≡ some x
  get_elem?-append [] ys i x e = cc
  get_elem?-append (y ∷ xs) ys zero x e = e
  get_elem?-append (y ∷ xs) ys (suc i) x e = get_elem?-append xs ys i x e

module _ {F E : Type 0} (r : Ring E) (ev : Evaluator F E) where
  pub eval_node-append :
      (xs ys : List E) (n : Node F) (v : E)
      → eval_node r ev xs n ≡ ok v
      → eval_node r ev (xs ++ ys) n ≡ ok v
  unfolding eval_node
  eval_node-append xs ys (variable x) v e = e
  eval_node-append xs ys is_first_row v e = e
  eval_node-append xs ys is_last_row v e = e
  eval_node-append xs ys is_transition v e = e
  eval_node-append xs ys (constant c) v e = e
  eval_node-append xs ys (add left right k) v e =
      let (x, e1, e2) = >>=-eq-ok (index xs left) _ e in
      let (y, e3, e4) = >>=-eq-ok (index xs right) _ e2 in
      rw (index-append xs ys left x e1, index-append xs ys right y e3) e4
  eval_node-append xs ys (sub left right k) v e =
      let (x, e1, e2) = >>=-eq-ok (index xs left) _ e in
      let (y, e3, e4) = >>=-eq-ok (index xs right) _ e2 in
      rw (index-append xs ys left x e1, index-append xs ys right y e3) e4
  eval_node-append xs ys (neg i k) v e =
      let (x, e1, e2) = >>=-eq-ok (index xs i) _ e in rw (index-append xs ys i x e1) e2
  eval_node-append xs ys (mul left right k) v e =
      let (x, e1, e2) = >>=-eq-ok (index xs left) _ e in
      let (y, e3, e4) = >>=-eq-ok (index xs right) _ e2 in
      rw (index-append xs ys left x e1, index-append xs ys right y e3) e4

  eval_from-extends :
      (acc : List E) (ns : List (Node F)) (vals : List E)
      → eval_from r ev acc ns ≡ ok vals
      → (more : List E) × (vals ≡ acc ++ more) × (length more ≡ length ns)
  unfolding eval_from
  eval_from-extends acc [] vals e = ([], rw append-nil (cc), refl)
  eval_from-extends acc (n ∷ ns) vals e =
      let (x, e1, e2) = >>=-eq-ok (eval_node r ev acc n) _ e in
      let (more, f, g) = eval_from-extends (acc ++ x ∷ []) ns vals e2 in
      (x ∷ more, f ∙ append_assoc acc (x ∷ []) more, ap suc g)

  pub length-eval_nodes :
      (ns : List (Node F)) (vals : List E) → eval_nodes r ev ns ≡ ok vals → length vals ≡ length ns
  unfolding eval_nodes
  length-eval_nodes ns vals e = let (more, f, g) = eval_from-extends [] ns vals e in ap length f ∙ g

  eval_from-at :
      (acc : List E) (ns : List (Node F)) (vals : List E) (i : ℕ) (n : Node F)
      → eval_from r ev acc ns ≡ ok vals
      → get_elem? ns i ≡ some n
      → (w : E) × (eval_node r ev vals n ≡ ok w) × (index {E = ⊥} vals (length acc + i) ≡ ok w)
  unfolding eval_from
  eval_from-at acc [] vals i n e h = cc
  eval_from-at acc (m ∷ ns) vals zero n e h =
      let (x, e1, e2) = >>=-eq-ok (eval_node r ev acc m) _ e in
      let (more, f, g) = eval_from-extends (acc ++ x ∷ []) ns vals e2 in
      let whole : vals ≡ acc ++ (x ∷ more) = f ∙ append_assoc acc (x ∷ []) more in
      let same : n ≡ m = cc in
      let here : length acc + 0 ≡ length acc = omega arith in
      (
        x,
        rw (whole, same) (eval_node-append acc (x ∷ more) m x e1),
        rw (f, here) (index-append (acc ++ x ∷ []) more (length acc) x (index-length acc x)),
      )
  eval_from-at acc (m ∷ ns) vals (suc i) n e h =
      let (x, e1, e2) = >>=-eq-ok (eval_node r ev acc m) _ e in
      let (w, f, g) = eval_from-at (acc ++ x ∷ []) ns vals i n e2 h in
      let there : length acc + suc i ≡ length (acc ++ x ∷ []) + i =
        omega (arith, length-append acc (x ∷ [])) in
      (w, f, rw there g)

  -- The value at an index is what the node there evaluates to.
  pub eval_nodes-at :
      (ns : List (Node F)) (vals : List E) (i : ℕ) (n : Node F)
      → eval_nodes r ev ns ≡ ok vals
      → get_elem? ns i ≡ some n
      → (w : E) × (eval_node r ev vals n ≡ ok w) × (index {E = ⊥} vals i ≡ ok w)
  unfolding eval_nodes
  eval_nodes-at ns vals i n e h =
      let (w, f, g) = eval_from-at [] ns vals i n e h in
      let here : 0 + i ≡ i = omega arith in (w, f, rw here at g)

  eval_from-snoc :
      (acc : List E) (ns : List (Node F)) (vals : List E) (n : Node F) (w : E)
      → eval_from r ev acc ns ≡ ok vals
      → eval_node r ev vals n ≡ ok w
      → eval_from r ev acc (ns ++ n ∷ []) ≡ ok (vals ++ w ∷ [])
  unfolding eval_from
  eval_from-snoc acc [] vals n w e h = let same : acc ≡ vals = cc e in rw (same, h)
  eval_from-snoc acc (m ∷ ns) vals n w e h =
      let (x, e1, e2) = >>=-eq-ok (eval_node r ev acc m) _ e in
      rw e1 (eval_from-snoc (acc ++ x ∷ []) ns vals n w e2 h)

  -- One more node.
  pub eval_nodes-snoc :
      (ns : List (Node F)) (vals : List E) (n : Node F) (w : E)
      → eval_nodes r ev ns ≡ ok vals
      → eval_node r ev vals n ≡ ok w
      → eval_nodes r ev (ns ++ n ∷ []) ≡ ok (vals ++ w ∷ [])
  unfolding eval_nodes
  eval_nodes-snoc ns vals n w e h = eval_from-snoc [] ns vals n w e h
