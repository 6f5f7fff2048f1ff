-- ===== src/Symbolic/Expand.antt =====
-- The way back from a DAG to expression trees: `to_symbolic_expressions` of crates/stark-backend/src/
-- air_builders/symbolic/dag.rs. The new expression for the node of index `i` is stored at `fresh i`.
use stark_backend.Prelude.{ℕ, zero, suc, ◌≡◌, refl, sym, ap, List, [], ◌∷◌, ◌++◌, length, map}
use stark_backend.Prelude.Outcome.{Outcome, ok, err, panic, ◌>>=◌, index}
use stark_backend.Ring.{Ring}
use stark_backend.Symbolic.Expr.{Expr, Evaluator, eval_expr}
use stark_backend.Symbolic.Dag.{
  Node, variable, is_first_row, is_last_row, is_transition, constant, add, sub, neg, mul, eval_node,
  eval_from, eval_nodes,
}

module _ {F : Type 0} where
  unfoldable pub expand_node : List (Expr F) → ℕ → Node F → Outcome ⊥ (Expr F)
  expand_node exprs p (variable v) = ok (Expr.variable p v)
  expand_node exprs p is_first_row = ok (Expr.is_first_row p)
  expand_node exprs p is_last_row = ok (Expr.is_last_row p)
  expand_node exprs p is_transition = ok (Expr.is_transition p)
  expand_node exprs p (constant c) = ok (Expr.constant p c)
  expand_node exprs p (add left right k) = do
    x ← index exprs left
    y ← index exprs right
    ok (Expr.add p x y k)
  expand_node exprs p (sub left right k) = do
    x ← index exprs left
    y ← index exprs right
    ok (Expr.sub p x y k)
  expand_node exprs p (neg i k) = do x ← index exprs i; ok (Expr.neg p x k)
  expand_node exprs p (mul left right k) = do
    x ← index exprs left
    y ← index exprs right
    ok (Expr.mul p x y k)

module _ {F : Type 0} (fresh : ℕ → ℕ) where
  unfoldable pub expand_from : List (Expr F) → List (Node F) → Outcome ⊥ (List (Expr F))
  expand_from exprs [] = ok exprs
  expand_from exprs (node ∷ nodes) = do
    expr ← expand_node exprs (fresh (length exprs)) node
    expand_from (exprs ++ expr ∷ []) nodes

  unfoldable pub to_symbolic_expressions : List (Node F) → Outcome ⊥ (List (Expr F))
  to_symbolic_expressions nodes = expand_from [] nodes

-- A function on the value of an outcome.
abbrev pub map_ok : {A B : Type 0} → (A → B) → Outcome ⊥ A → Outcome ⊥ B
map_ok f (ok a) = ok (f a)
map_ok f (err e) = err e
map_ok f panic = panic

pub index-map :
    {A B : Type 0} (f : A → B) (xs : List A) (i : ℕ)
    → index {E = ⊥} (map f xs) i ≡ map_ok f (index xs i)
index-map f [] i = refl
index-map f (x ∷ xs) zero = refl
index-map f (x ∷ xs) (suc i) = index-map f xs i

map-snoc :
    {A B : Type 0} (f : A → B) (xs : List A) (x : A) → map f (xs ++ x ∷ []) ≡ map f xs ++ f x ∷ []
map-snoc f [] x = refl
map-snoc f (y ∷ xs) x = ap (◌∷◌ (f y)) (map-snoc f xs x)

module _ {F E : Type 0} (r : Ring E) (ev : Evaluator F E) (fresh : ℕ → ℕ) where
  unary :
      (x : Outcome ⊥ (Expr F)) (f : E → E) (g : Expr F → Expr F)
      → ((a : Expr F) → eval_expr r ev (g a) ≡ f (eval_expr r ev a))
      → (map_ok (eval_expr r ev) x >>= λ a. ok (f a))
        ≡ map_ok (eval_expr r ev) (x >>= λ a. ok (g a))
  unary (ok a) f g h = ap ok (sym (h a))
  unary (err e) f g h = refl
  unary panic f g h = refl

  binary :
      (x y : Outcome ⊥ (Expr F)) (f : E → E → E) (g : Expr F → Expr F → Expr F)
      → ((a b : Expr F) → eval_expr r ev (g a b) ≡ f (eval_expr r ev a) (eval_expr r ev b))
      → (map_ok (eval_expr r ev) x >>= λ a. map_ok (eval_expr r ev) y >>= λ b. ok (f a b))
        ≡ map_ok (eval_expr r ev) (x >>= λ a. y >>= λ b. ok (g a b))
  binary (ok a) y f g h = unary y (f (eval_expr r ev a)) (g a) (h a)
  binary (err e) y f g h = refl
  binary panic y f g h = refl

  eval_node-expand_node :
      (exprs : List (Expr F)) (p : ℕ) (n : Node F)
      → eval_node r ev (map (eval_expr r ev) exprs) n
        ≡ map_ok (eval_expr r ev) (expand_node exprs p n)
  unfolding eval_node expand_node eval_expr
  eval_node-expand_node exprs p (variable v) = refl
  eval_node-expand_node exprs p is_first_row = refl
  eval_node-expand_node exprs p is_last_row = refl
  eval_node-expand_node exprs p is_transition = refl
  eval_node-expand_node exprs p (constant c) = refl
  eval_node-expand_node exprs p (add left right k) =
      rw (index-map (eval_expr r ev) exprs left, index-map (eval_expr r ev) exprs right)
        (binary (index exprs left) (index exprs right) r.add (λ x y. Expr.add p x y k)
          (λ a b. refl))
  eval_node-expand_node exprs p (sub left right k) =
      rw (index-map (eval_expr r ev) exprs left, index-map (eval_expr r ev) exprs right)
        (binary (index exprs left) (index exprs right) r.sub (λ x y. Expr.sub p x y k)
          (λ a b. refl))
  eval_node-expand_node exprs p (neg i k) =
      rw (index-map (eval_expr r ev) exprs i)
        (unary (index exprs i) r.neg (λ x. Expr.neg p x k) (λ a. refl))
  eval_node-expand_node exprs p (mul left right k) =
      rw (index-map (eval_expr r ev) exprs left, index-map (eval_expr r ev) exprs right)
        (binary (index exprs left) (index exprs right) r.mul (λ x y. Expr.mul p x y k)
          (λ a b. refl))

  eval_from-expand_from :
      (exprs : List (Expr F)) (nodes : List (Node F))
      → eval_from r ev (map (eval_expr r ev) exprs) nodes
        ≡ map_ok (map (eval_expr r ev)) (expand_from fresh exprs nodes)
  unfolding eval_from expand_from
  eval_from-expand_from exprs [] = refl
  eval_from-expand_from exprs (n ∷ nodes) =
      rw (eval_node-expand_node exprs (fresh (length exprs)) n) (
        next (λ e. eval_from-expand_from (exprs ++ e ∷ []) nodes)
          (expand_node exprs (fresh (length exprs)) n))
    where
      next :
          ((e : Expr F)
            → eval_from r ev (map (eval_expr r ev) (exprs ++ e ∷ [])) nodes
              ≡ map_ok (map (eval_expr r ev)) (expand_from fresh (exprs ++ e ∷ []) nodes))
          → (o : Outcome ⊥ (Expr F))
          → (map_ok (eval_expr r ev) o >>= λ x.
              eval_from r ev (map (eval_expr r ev) exprs ++ x ∷ []) nodes)
            ≡ map_ok (map (eval_expr r ev)) (o >>= λ e. expand_from fresh (exprs ++ e ∷ []) nodes)
      next rest (ok e) = rw (← map-snoc (eval_expr r ev) exprs e) (rest e)
      next rest (err e) = refl
      next rest panic = refl

  -- Evaluating the nodes of a DAG one after another is the same as turning them into expressions and
  -- evaluating each of those: it panics for the same nodes, and otherwise gives the same values.
  pub eval_nodes-to_symbolic_expressions :
      (nodes : List (Node F))
      → eval_nodes r ev nodes ≡ map_ok (map (eval_expr r ev)) (to_symbolic_expressions fresh nodes)
  unfolding eval_nodes to_symbolic_expressions
  eval_nodes-to_symbolic_expressions nodes = eval_from-expand_from [] nodes
