-- ===== src/Symbolic/Expr.antt =====
-- `SymbolicVariable`, `SymbolicExpression` and `SymbolicEvaluator` of
-- crates/stark-backend/src/air_builders/symbolic/, symbolic_variable.rs and symbolic_expression.rs.
-- An expression carries the address at which it is stored: the DAG builder looks expressions up by
-- their `Arc` pointers.
use stark_backend.Prelude.{ℕ, ◌+◌, Option, none, some}
use stark_backend.Ring.{Ring}

pub data Entry : Type 0 where
  preprocessed : ℕ → Entry
  main : ℕ → ℕ → Entry
  public_value : Entry
  challenge : Entry

abbrev pub offset : Entry → Option ℕ
offset (preprocessed o) = some o
offset (main part o) = some o
offset public_value = none
offset challenge = none

-- `rotate`
unfoldable pub rotate_entry : ℕ → Entry → Entry
rotate_entry by (preprocessed o) = preprocessed (o + by)
rotate_entry by (main part o) = main part (o + by)
rotate_entry by public_value = public_value
rotate_entry by challenge = challenge

pub record SymbolicVariable : Type 0 where
  pub entry : Entry
  pub column : ℕ

-- Each constructor begins with the address of the expression; the last number of an operation is its
-- degree multiple.
pub data Expr (F : Type 0) : Type 0 where
  variable : ℕ → SymbolicVariable → Expr F
  is_first_row : ℕ → Expr F
  is_last_row : ℕ → Expr F
  is_transition : ℕ → Expr F
  constant : ℕ → F → Expr F
  add : ℕ → Expr F → Expr F → ℕ → Expr F
  sub : ℕ → Expr F → Expr F → ℕ → Expr F
  neg : ℕ → Expr F → ℕ → Expr F
  mul : ℕ → Expr F → Expr F → ℕ → Expr F

-- The trait's methods that an implementation gives.
pub record Evaluator (F E : Type 0) : Type 0 where
  pub eval_const : F → E
  pub eval_var : SymbolicVariable → E
  pub eval_is_first_row : E
  pub eval_is_last_row : E
  pub eval_is_transition : E

module _ {F : Type 0} where
  abbrev pub address : Expr F → ℕ
  address (variable p v) = p
  address (is_first_row p) = p
  address (is_last_row p) = p
  address (is_transition p) = p
  address (constant p c) = p
  address (add p x y d) = p
  address (sub p x y d) = p
  address (neg p x d) = p
  address (mul p x y d) = p

module _ {F E : Type 0} (r : Ring E) (ev : Evaluator F E) where
  unfoldable pub eval_expr : Expr F → E
  eval_expr (variable p v) = ev.eval_var v
  eval_expr (constant p c) = ev.eval_const c
  eval_expr (add p x y d) = r.add (eval_expr x) (eval_expr y)
  eval_expr (sub p x y d) = r.sub (eval_expr x) (eval_expr y)
  eval_expr (neg p x d) = r.neg (eval_expr x)
  eval_expr (mul p x y d) = r.mul (eval_expr x) (eval_expr y)
  eval_expr (is_first_row p) = ev.eval_is_first_row
  eval_expr (is_last_row p) = ev.eval_is_last_row
  eval_expr (is_transition p) = ev.eval_is_transition
