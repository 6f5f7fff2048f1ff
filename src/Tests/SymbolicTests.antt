-- ===== src/Tests/SymbolicTests.antt =====
-- The DAG of small expressions over the field of two elements.
use stark_backend.Prelude.{
  ℕ, ◌≡◌, ◌↔◌, refl, Bool, true, false, ◌&&◌, not, List, [], ◌∷◌, All, map, Option, get_elem?, ◌==◌,
  arith,
}
use stark_backend.Prelude.Outcome.{ok, index}
use stark_backend.Ring.{Ring, IsRing, IsRingMap}
use stark_backend.Symbolic.Expr.{Expr, Evaluator, eval_expr, main, preprocessed}
use stark_backend.Symbolic.Dag.{variable, constant, add, neg, new_builder, add_expr, eval_nodes}
use stark_backend.Symbolic.Compile.{eval_nodes-add_expr}
use stark_backend.Symbolic.Constraints.{
  Interaction, max_rotation, rotation_from, build_symbolic_constraints_dag,
}
use stark_backend.Symbolic.Conversion.{
  SymbolicConstraints, from_dag, to_dag, SameInteractions, from_dag-to_dag,
}
use stark_backend.Symbolic.Expand.{
  map_ok, to_symbolic_expressions, eval_nodes-to_symbolic_expressions,
}
use stark_backend.Symbolic.Meaning.{
  HasValue, AgreesInteractions, eval_nodes-build_symbolic_constraints_dag,
  constraint_idx-IsIncreasing,
}
use stark_backend.Symbolic.Rotation.{IsWithin, max_rotation-bound}
use stark_backend.Symbolic.Sorting.{IsIncreasing}

abbrev pub xor : Bool → Bool → Bool
xor true b = not b
xor false b = b

abbrev pub two : Ring Bool
two = record { zero = false; one = true; add = xor; sub = xor; neg = λ a. a; mul = ◌&&◌ }

pub two-discrete : Discrete Bool
two-discrete = hlevel

pub two-IsRing : IsRing two
two-IsRing = record {
  add_assoc = λ a b c. ground arith;
  add_comm = λ a b. ground arith;
  zero-add = λ a. ground arith;
  add-neg = λ a. ground arith;
  sub-eq-add = λ a b. ground arith;
  mul_assoc = λ a b c. ground arith;
  mul_comm = λ a b. ground arith;
  one-mul = λ a. ground arith;
  mul-add = λ a b c. ground arith;
}

identity-IsRingMap : IsRingMap two two (λ a. a)
identity-IsRingMap = record {
  map-zero = refl;
  map-one = refl;
  map-add = λ a b. refl;
  map-sub = λ a b. refl;
  map-neg = λ a. refl;
  map-mul = λ a b. refl;
}

-- The first row, in which column 0 is 1 and the other columns are 0.
abbrev first_row : Evaluator Bool Bool
first_row = record {
  eval_const = λ a. a;
  eval_var = λ v. v.column == 0;
  eval_is_first_row = true;
  eval_is_last_row = false;
  eval_is_transition = true;
}

-- `x * (x - 1)` and `-(x - 1) * (1 * x)`, with `x - 1` shared.
abbrev x : Expr Bool
x = Expr.variable 0 (record { entry = main 0 0; column = 0 })

abbrev one : Expr Bool
one = Expr.constant 1 true

abbrev x_less_one : Expr Bool
x_less_one = Expr.sub 2 x one 1

abbrev is_bit : Expr Bool
is_bit = Expr.mul 3 x x_less_one 2

abbrev again : Expr Bool
again = Expr.mul 6 (Expr.neg 4 x_less_one 1) (Expr.mul 5 one x 1) 2

abbrev stored : ℕ → Option (Expr Bool)
stored p =
    get_elem?
      (x ∷ one ∷ x_less_one ∷ is_bit ∷ Expr.neg 4 x_less_one 1 ∷ Expr.mul 5 one x 1 ∷ again ∷ []) p

abbrev sends : Interaction (Expr Bool)
sends = record { message = x ∷ is_bit ∷ []; count = one; bus_index = 7; count_weight = 1 }

eval_nodes-add_expr_example :
    (vals : List Bool) × (eval_nodes two first_row
        (add_expr two two-discrete new_builder again).0.nodes
      ≡ ok vals)
    × (index {E = ⊥} vals (add_expr two two-discrete new_builder again).1
        ≡ ok (eval_expr two first_row again))
eval_nodes-add_expr_example =
    eval_nodes-add_expr two two-discrete two two-IsRing first_row identity-IsRingMap stored again
      (refl, (refl, (refl, refl, refl)), (refl, refl, refl))

eval_nodes-build_symbolic_constraints_dag_example :
    (vals : List Bool) × (eval_nodes two first_row
        (build_symbolic_constraints_dag two two-discrete
          (is_bit ∷ again ∷ is_bit ∷ [])
          (sends ∷ [])).constraints.nodes
      ≡ ok vals)
    × All
        (HasValue vals)
        (build_symbolic_constraints_dag two two-discrete
          (is_bit ∷ again ∷ is_bit ∷ [])
          (sends ∷ [])).constraints.constraint_idx
    × (All (λ e. eval_expr two first_row e ≡ false) (is_bit ∷ again ∷ is_bit ∷ [])
        ↔ All
            (λ i. index {E = ⊥} vals i ≡ ok false)
            (build_symbolic_constraints_dag two two-discrete
              (is_bit ∷ again ∷ is_bit ∷ [])
              (sends ∷ [])).constraints.constraint_idx)
    × AgreesInteractions two first_row vals
        (build_symbolic_constraints_dag two two-discrete
          (is_bit ∷ again ∷ is_bit ∷ [])
          (sends ∷ [])).interactions
        (sends ∷ [])
eval_nodes-build_symbolic_constraints_dag_example =
    eval_nodes-build_symbolic_constraints_dag two two-discrete two two-IsRing first_row
      identity-IsRingMap stored (is_bit ∷ again ∷ is_bit ∷ []) (sends ∷ [])
      (
        (refl, refl, (refl, refl, refl)),
        (
          (refl, (refl, (refl, refl, refl)), (refl, refl, refl)),
          ((refl, refl, (refl, refl, refl)), tt),
        ),
      )
      (((refl, ((refl, refl, (refl, refl, refl)), tt)), refl), tt)

constraint_idx-IsIncreasing_example :
    IsIncreasing
      (build_symbolic_constraints_dag two two-discrete
        (again ∷ is_bit ∷ is_bit ∷ [])
        (sends ∷ [])).constraints.constraint_idx
constraint_idx-IsIncreasing_example =
    constraint_idx-IsIncreasing two two-discrete (again ∷ is_bit ∷ is_bit ∷ []) (sends ∷ [])

max_rotation-bound_example : All (IsWithin {F = Bool} 3) (
    variable (record { entry = main 0 3; column = 1 })
    ∷ neg 0 1
    ∷ variable (record { entry = preprocessed 2; column = 0 })
    ∷ [])
unfolding max_rotation rotation_from
max_rotation-bound_example = max_rotation-bound {F = Bool} (record {
  nodes =
      variable (record { entry = main 0 3; column = 1 })
      ∷ neg 0 1
      ∷ variable (record { entry = preprocessed 2; column = 0 })
      ∷ [];
  constraint_idx = 1 ∷ [];
})

abbrev air : SymbolicConstraints Bool
air = record { constraints = is_bit ∷ again ∷ []; interactions = sends ∷ [] }

from_dag-to_dag_example :
    (back : SymbolicConstraints Bool) × (from_dag (λ i. i) (to_dag two two-discrete air) ≡ ok back)
    × (All (λ e. eval_expr two first_row e ≡ false) (is_bit ∷ again ∷ [])
        ↔ All (λ e. eval_expr two first_row e ≡ false) back.constraints)
    × SameInteractions two first_row back.interactions (sends ∷ [])
from_dag-to_dag_example =
    from_dag-to_dag two two-discrete two two-IsRing first_row identity-IsRingMap stored (λ i. i) air
      (
        (refl, refl, (refl, refl, refl)),
        ((refl, (refl, (refl, refl, refl)), (refl, refl, refl)), tt),
      )
      (((refl, ((refl, refl, (refl, refl, refl)), tt)), refl), tt)

eval_nodes-to_symbolic_expressions_example :
    eval_nodes two first_row (constant true ∷ neg 0 1 ∷ add 0 1 1 ∷ [])
    ≡ map_ok
        (map (eval_expr two first_row))
        (to_symbolic_expressions (λ i. i) (constant true ∷ neg 0 1 ∷ add 0 1 1 ∷ []))
eval_nodes-to_symbolic_expressions_example =
    eval_nodes-to_symbolic_expressions two first_row (λ i. i)
      (constant true ∷ neg 0 1 ∷ add 0 1 1 ∷ [])
