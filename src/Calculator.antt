-- ===== src/Calculator.antt =====
-- core/tools.py: the calculator tool with its evaluator `_safe_eval`. Python's parser and its
-- arithmetic on integers, floats and complex numbers are parameters.
mod Bounds
mod Tests
use langgraph_agent_stack.Prelude.{
  if◌then◌else◌, or_else, mem, Text, text, strip, nonempty, Result, ◌>>=◌, ◌>>◌, guard, ok, err, ℕ,
  Bool, true, false, ◌&&◌, Option, none, some, List, [], ◌∷◌, text_eq, nat_eq,
}

pub data Operator : Type 0 where
  add sub mult div floor_div modulo pow : Operator
  mat_mult l_shift r_shift bit_or bit_xor bit_and : Operator

pub data UnaryOperator : Type 0 where
  u_sub u_add invert not_op : UnaryOperator

-- What arithmetic may raise: a division by zero, or an error with a message.
pub data Failure : Type 0 where
  zero_division : Failure
  failure : Text → Failure

pub data EvalError : Type 0 where
  unsupported_literal unsupported_operator unsupported_unary : EvalError
  exponent_too_large base_too_large not_simple_call : EvalError
  function_not_allowed variable_reference unsupported_node : Text → EvalError
  raised : Failure → EvalError

-- The nodes of `ast`; a literal that is no number is `none`. A node that `_safe_eval` has no case
-- for is `other_node` with its type's name. A call has its arguments and the values of its keyword
-- arguments, which `_safe_eval` never looks at.
mutual
  pub data Expr (N : Type 0) : Type 0 where
    expression : Expr N → Expr N
    constant : Option N → Expr N
    bin_op : Expr N → Operator → Expr N → Expr N
    unary_op : UnaryOperator → Expr N → Expr N
    call_node : Expr N → Args N → Args N → Expr N
    name_node other_node : Text → Expr N

  pub data Args (N : Type 0) : Type 0 where
    no_args : Args N
    arg : Expr N → Args N → Args N

-- `is_real` is `isinstance(n, (int, float))`; `exceeds k n` is `abs(n) > k`; `parse` fails with a
-- syntax error or another one; `whole` is the integer that a finite float equals.
pub record Numbers : Type 1 where
  pub Number : Type 0
  pub is_real : Number → Bool
  pub exceeds : ℕ → Number → Bool
  pub binary : Operator → Number → Number → Result Failure Number
  pub unary : UnaryOperator → Number → Result Failure Number
  pub builtin : Text → List Number → Result Failure Number
  pub parse : Text → Result (Option Failure) (Expr Number)
  pub whole : Number → Option Number
  pub show : Number → Result Failure Text

-- the binary operators of `_SAFE_OPERATORS`
abbrev pub is_safe_operator : Operator → Bool
is_safe_operator mat_mult = false
is_safe_operator l_shift = false
is_safe_operator r_shift = false
is_safe_operator bit_or = false
is_safe_operator bit_xor = false
is_safe_operator bit_and = false
is_safe_operator _ = true

abbrev pub is_safe_unary : UnaryOperator → Bool
is_safe_unary u_sub = true
is_safe_unary u_add = true
is_safe_unary invert = false
is_safe_unary not_op = false

-- `_SAFE_NAMES`
abbrev pub safe_names : List Text
safe_names = text "abs" ∷ text "round" ∷ text "int" ∷ text "float" ∷ text "min" ∷ text "max" ∷ []

abbrev pub is_pow : Operator → Bool
is_pow pow = true
is_pow _ = false

abbrev pub lifted {ℓ} : {A : Type ℓ} → Result Failure A → Result EvalError A
lifted (ok a) = ok a
lifted (err e) = err (raised e)

-- A call of anything but a name is refused.
abbrev pub callee : {N : Type 0} → Expr N → Result EvalError Text
callee (name_node id) = ok id
callee _ = err not_simple_call

module _ (n : Numbers) where
  abbrev pub literal : Option n.Number → Result EvalError n.Number
  literal none = err unsupported_literal
  literal (some value) = if n.is_real value then ok value else err unsupported_literal

  unfoldable pub check_pow : n.Number → n.Number → Result EvalError (Unit {0})
  check_pow left right =
      if n.is_real right && n.exceeds 1000 right
      then err exponent_too_large
      else if n.is_real left && n.exceeds 1000 left && n.is_real right && n.exceeds 1 right
      then err base_too_large
      else ok tt

  abbrev pub apply : Operator → n.Number → n.Number → Result EvalError n.Number
  apply op left right =
      (if is_pow op then check_pow left right else ok tt) >> lifted (n.binary op left right)

  unfoldable mutual
    pub safe_eval : Expr n.Number → Result EvalError n.Number
    safe_eval (expression body) = safe_eval body
    safe_eval (constant value) = literal value
    safe_eval (bin_op left op right) =
        let l = safe_eval left in
        let r = safe_eval right in
        guard (is_safe_operator op) unsupported_operator
        >> (l >>= λ left_value. r >>= λ right_value. apply op left_value right_value)
    safe_eval (unary_op op operand) =
        let o = safe_eval operand in
        guard (is_safe_unary op) unsupported_unary >> (o >>= λ value. lifted (n.unary op value))
    safe_eval (call_node func args keywords) =
        let values = eval_args args in
        callee func >>= λ name.
        guard (mem name safe_names) (function_not_allowed name)
        >> (values >>= λ vs. lifted (n.builtin name vs))
    safe_eval (name_node id) = err (variable_reference id)
    safe_eval (other_node kind) = err (unsupported_node kind)

    pub eval_args : Args n.Number → Result EvalError (List n.Number)
    eval_args no_args = ok []
    eval_args (arg node rest) =
        let value = safe_eval node in
        let values = eval_args rest in value >>= λ v. values >>= λ vs. ok (v ∷ vs)

  abbrev pub printed : n.Number → Result EvalError Text
  printed result = lifted (n.show (or_else (n.whole result) result))

pub data CalculatorError : Type 0 where
  empty_expression division_by_zero invalid_syntax : CalculatorError
  failed : EvalError → CalculatorError

abbrev pub reply_of : Result EvalError Text → Result CalculatorError Text
reply_of (ok s) = ok s
reply_of (err (raised zero_division)) = err division_by_zero
reply_of (err e) = err (failed e)

-- The reply for what the parser gives.
unfoldable pub reply_for :
    (n : Numbers) → Result (Option Failure) (Expr n.Number) → Result CalculatorError Text
unfolding safe_eval check_pow
reply_for n (err none) = err invalid_syntax
reply_for n (err (some e)) = err (failed (raised e))
reply_for n (ok tree) = reply_of (safe_eval n tree >>= printed n)

-- `calculator`: each error is the text of a reply.
unfoldable pub calculator : Numbers → Text → Result CalculatorError Text
unfolding strip reply_for
calculator n expression_text =
    let expr = strip expression_text in
    if nonempty expr then reply_for n (n.parse expr) else err empty_expression
