-- ===== src/Calculator/Tests.antt =====
-- core/tools.py: the calculator on natural numbers, and the theorems at concrete expressions.
use langgraph_agent_stack.Prelude.{
  ltb, if◌then◌else◌, ◌==◌, Bool-cases, Text, text, strip, decimal, Result, ok, err, ℕ, zero, suc,
  ◌+◌, ◌*◌, ◌/◌, ◌≡◌, refl, inl, inr, true, not, ◌&&◌, Option, none, some, List, [], ◌∷◌, text_eq,
  nat_eq,
}
use langgraph_agent_stack.Calculator.Bounds.{
  in_bounds, AgreesInBounds, is_allowed_tree, calculator-in_bounds, safe_eval-allowed,
}
use langgraph_agent_stack.Calculator.{
  Operator, add, mult, floor_div, pow, l_shift, u_add, Failure, zero_division, failure,
  unsupported_operator, exponent_too_large, base_too_large, function_not_allowed,
  variable_reference, Expr, expression, constant, bin_op, unary_op, call_node, name_node,
  other_node, Args, no_args, arg, Numbers, is_pow, check_pow, safe_eval, empty_expression,
  division_by_zero, invalid_syntax, failed, reply_for, calculator,
}
use langgraph_agent_stack.Prelude.Dict
use langgraph_agent_stack.Prelude.Dict.{Dict}

-- `a ** n`
abbrev power : ℕ → ℕ → ℕ
power a zero = 1
power a (suc k) = a * power a k

abbrev arithmetic : Operator → ℕ → ℕ → Result Failure ℕ
arithmetic add a b = ok (a + b)
arithmetic mult a b = ok (a * b)
arithmetic pow a b = ok (power a b)
arithmetic floor_div a b = if b == 0 then err zero_division else ok (a / b)
arithmetic _ a b = err (failure (text "no natural number"))

abbrev largest : Text → List ℕ → Result Failure ℕ
largest name [] = err (failure (text "no argument"))
largest name (a ∷ []) = ok a
largest name (a ∷ b ∷ rest) = ok (if ltb a b then b else a)

abbrev literal_of : ℕ → Expr ℕ
literal_of n = constant (some n)

abbrev sum_of_power : Expr ℕ
sum_of_power = expression (
    bin_op (bin_op (literal_of 10) pow (literal_of 3)) add (
      call_node (name_node (text "max"))
        (arg (literal_of 4) (arg (unary_op u_add (literal_of 7)) no_args))
        (arg (other_node (text "Attribute")) no_args)))

abbrev trees : Dict Text (Expr ℕ)
trees =
    (text "10**3+max(4,+7)", sum_of_power)
    ∷ (text "2**1001", expression (bin_op (literal_of 2) pow (literal_of 1001)))
    ∷ (text "1001**2", expression (bin_op (literal_of 1001) pow (literal_of 2)))
    ∷ (text "1//0", expression (bin_op (literal_of 1) floor_div (literal_of 0)))
    ∷ (text "1<<9", expression (bin_op (literal_of 1) l_shift (literal_of 9)))
    ∷ (
      text "exec(1)",
      expression (call_node (name_node (text "exec")) (arg (literal_of 1) no_args) no_args),
    )
    ∷ (text "x", expression (name_node (text "x")))
    ∷ []

abbrev parsed : Option (Expr ℕ) → Result (Option Failure) (Expr ℕ)
parsed none = err none
parsed (some tree) = ok tree

abbrev numbers : Numbers
numbers = record {
  Number = ℕ;
  is_real = λ n. true;
  exceeds = ltb;
  binary = arithmetic;
  unary = λ op n. ok n;
  builtin = largest;
  parse = λ s. parsed (Dict.get s trees);
  whole = λ n. none;
  show = λ n. ok (decimal n);
}

-- The same, but a power that is out of bounds never comes to an end in time.
abbrev impatient : Operator → ℕ → ℕ → Result Failure ℕ
impatient op a b =
    if is_pow op && not (in_bounds numbers a b)
    then err (failure (text "timeout"))
    else arithmetic op a b

impatient-AgreesInBounds : AgreesInBounds numbers impatient
impatient-AgreesInBounds op a b small = elim (Bool-cases (is_pow op)) [
  | inr simple ↦ rw simple refl
  | inl is ↦ rw (is, small is) refl
]

program : Unit {0}
unfolding calculator reply_for safe_eval check_pow strip decimal Dict.get
program = tt

evaluated : calculator numbers (text " 10**3+max(4,+7) ") ≡ ok (text "1007")
unfolding program
evaluated = refl

too_large :
    (calculator numbers (text "2**1001") ≡ err (failed exponent_too_large))
    × (calculator numbers (text "1001**2") ≡ err (failed base_too_large))
unfolding program
too_large = (refl, refl)

refused :
    (calculator numbers (text "1//0") ≡ err division_by_zero)
    × (calculator numbers (text "1<<9") ≡ err (failed unsupported_operator))
    × (calculator numbers (text "exec(1)") ≡ err (failed (function_not_allowed (text "exec"))))
    × (calculator numbers (text "x") ≡ err (failed (variable_reference (text "x"))))
    × (calculator numbers (text "(") ≡ err invalid_syntax)
    × (calculator numbers (text "  ") ≡ err empty_expression)
unfolding program
refused = (refl, refl, refl, refl, refl, refl)

calculator-in_bounds_example :
    calculator numbers (text "2**1001")
    ≡ calculator (record numbers { binary = impatient }) (text "2**1001")
calculator-in_bounds_example =
    calculator-in_bounds numbers impatient (text "2**1001") impatient-AgreesInBounds

safe_eval-allowed_example :
    (is_allowed_tree sum_of_power ≡ true)
    × ((func : Expr ℕ) (args keywords other_keywords : Args ℕ)
        → safe_eval numbers (call_node func args keywords)
          ≡ safe_eval numbers (call_node func args other_keywords))
unfolding program
safe_eval-allowed_example = safe_eval-allowed numbers sum_of_power 1007 refl
