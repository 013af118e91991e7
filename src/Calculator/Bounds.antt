-- ===== src/Calculator/Bounds.antt =====
-- core/tools.py: what `_safe_eval` may compute.
use langgraph_agent_stack.Prelude.{
  Bool-cases, mem, Text, strip, nonempty, Result, ◌>>=◌, ◌>>◌, guard, Result-cases, bind_ok, ok,
  err, ◌≡◌, refl, ap, inl, inr, Bool, true, false, not, ◌&&◌, ◌||◌, none, some, List, arith,
  text_eq, nat_eq,
}
use langgraph_agent_stack.Calculator.{
  Operator, Failure, unsupported_operator, Expr, expression, constant, bin_op, unary_op, call_node,
  name_node, other_node, Args, no_args, arg, Numbers, is_safe_operator, is_safe_unary, safe_names,
  is_pow, check_pow, apply, safe_eval, eval_args, reply_for, calculator,
}

-- Powers whose operands are small: an exponent of at most 1000, and one of at most 1 where the base
-- is larger than 1000; a complex number passes.
abbrev pub in_bounds : (n : Numbers) → n.Number → n.Number → Bool
in_bounds n left right =
    (not (n.is_real right) || not (n.exceeds 1000 right))
    && (not (n.is_real left && n.is_real right)
        || (not (n.exceeds 1000 left) || not (n.exceeds 1 right)))

-- `binary` is the arithmetic of the numbers, but for powers that are out of bounds.
abbrev pub AgreesInBounds :
    (n : Numbers) → (Operator → n.Number → n.Number → Result Failure n.Number) → Type 0
AgreesInBounds n binary =
    (op : Operator) (left right : n.Number)
    → (is_pow op ≡ true → in_bounds n left right ≡ true)
    → n.binary op left right ≡ binary op left right

-- Every node is one of those that the tool allows, the values of keyword arguments left out.
abbrev mutual
  pub is_allowed_tree : {N : Type 0} → Expr N → Bool
  is_allowed_tree (expression body) = is_allowed_tree body
  is_allowed_tree (constant none) = false
  is_allowed_tree (constant (some value)) = true
  is_allowed_tree (bin_op left op right) =
      is_safe_operator op && (is_allowed_tree left && is_allowed_tree right)
  is_allowed_tree (unary_op op operand) = is_safe_unary op && is_allowed_tree operand
  is_allowed_tree (call_node (name_node id) args keywords) = mem id safe_names && are_allowed args
  is_allowed_tree (call_node _ args keywords) = false
  is_allowed_tree (name_node id) = false
  is_allowed_tree (other_node kind) = false

  pub are_allowed : {N : Type 0} → Args N → Bool
  are_allowed no_args = true
  are_allowed (arg node rest) = is_allowed_tree node && are_allowed rest

both_same :
    {E A B : Type 0} (x y : Result E A) (f g : A → A → Result E B)
    → ((a b : A) → f a b ≡ g a b)
    → (x >>= λ a. y >>= λ b. f a b) ≡ (x >>= λ a. y >>= λ b. g a b)
both_same (err e) y f g h = refl
both_same (ok a) (err e) f g h = refl
both_same (ok a) (ok b) f g h = h a b

module _ (n : Numbers) (binary : Operator → n.Number → n.Number → Result Failure n.Number)
    (agrees : AgreesInBounds n binary) where
  abbrev other : Numbers
  other = record n { binary = binary }

  apply_same :
      (op : Operator) (left right : n.Number) → apply n op left right ≡ apply other op left right
  unfolding check_pow
  apply_same op left right = elim (Bool-cases (is_pow op)) [
    | inr simple ↦ rw (simple, agrees op left right (λ power. absurd (cc (simple, power)))) refl
    | inl power ↦ elim (Bool-cases (in_bounds n left right)) [
      | inl small ↦ rw (power, agrees op left right (λ p. small)) refl
      | inr large ↦ rw power (ground (arith, large))
    ]
  ]

  mutual
    unfolding safe_eval

    eval_same : (e : Expr n.Number) → safe_eval n e ≡ safe_eval other e
    eval_same (expression body) = eval_same body
    eval_same (constant none) = refl
    eval_same (constant (some value)) = refl
    eval_same (bin_op left op right) =
        rw (eval_same left, eval_same right)
          (ap (λ r. guard (is_safe_operator op) unsupported_operator >> r)
            (both_same (safe_eval other left) (safe_eval other right) (apply n op) (apply other op)
              (apply_same op)))
    eval_same (unary_op op operand) = rw (eval_same operand) refl
    eval_same (call_node func args keywords) = rw (args_same args) refl
    eval_same (name_node id) = refl
    eval_same (other_node kind) = refl

    args_same : (args : Args n.Number) → eval_args n args ≡ eval_args other args
    args_same no_args = refl
    args_same (arg node rest) = rw (eval_same node, args_same rest) refl

-- The tool never computes a power of real numbers whose exponent is above 1000 in size, or whose
-- base is above 1000 and its exponent above 1: with an arithmetic that differs in such powers
-- alone, whatever it gives for them, every expression gets the same reply.
pub calculator-in_bounds :
    (n : Numbers) (binary : Operator → n.Number → n.Number → Result Failure n.Number)
    (expression_text : Text)
    → AgreesInBounds n binary
    → calculator n expression_text ≡ calculator (record n { binary = binary }) expression_text
unfolding calculator reply_for
calculator-in_bounds n binary expression_text agrees =
    elim (Bool-cases (nonempty (strip expression_text))) [
      | inr empty ↦ rw empty refl
      | inl full ↦ elim (Result-cases (n.parse (strip expression_text))) [
        | inl (tree, parsed) ↦ rw (full, parsed, eval_same n binary agrees tree) refl
        | inr (none, e) ↦ rw (full, e) refl
        | inr (some failed_by, e) ↦ rw (full, e) refl
      ]
    ]

module _ (n : Numbers) where
  mutual
    unfolding safe_eval

    eval-allowed :
        (e : Expr n.Number) (v : n.Number) → safe_eval n e ≡ ok v → is_allowed_tree e ≡ true
    eval-allowed (expression body) v h = eval-allowed body v h
    eval-allowed (constant none) v h = absurd (cc)
    eval-allowed (constant (some value)) v h = refl
    eval-allowed (bin_op left op right) v h = elim (Bool-cases (is_safe_operator op)) [
      | inr unsafe ↦ absurd (cc (rw unsafe at h))
      | inl safe ↦
          let (l, left_is, h1) = bind_ok (safe_eval n left) _ v (rw safe at h) in
          let (r, right_is, h2) = bind_ok (safe_eval n right) _ v h1 in
          rw (safe, eval-allowed left l left_is, eval-allowed right r right_is) refl
    ]
    eval-allowed (unary_op op operand) v h = elim (Bool-cases (is_safe_unary op)) [
      | inr unsafe ↦ absurd (cc (rw unsafe at h))
      | inl safe ↦
          let (o, operand_is, h1) = bind_ok (safe_eval n operand) _ v (rw safe at h) in
          rw (safe, eval-allowed operand o operand_is) refl
    ]
    eval-allowed (call_node (name_node id) args keywords) v h =
        elim (Bool-cases (mem id safe_names)) [
          | inr unknown ↦ absurd (cc (rw unknown at h))
          | inl known ↦
              let (vs, args_are, h1) = bind_ok (eval_args n args) _ v (rw known at h) in
              rw (known, args-allowed args vs args_are) refl
        ]
    eval-allowed (call_node (expression e) args keywords) v h = absurd (cc)
    eval-allowed (call_node (constant c) args keywords) v h = absurd (cc)
    eval-allowed (call_node (bin_op l op r) args keywords) v h = absurd (cc)
    eval-allowed (call_node (unary_op op e) args keywords) v h = absurd (cc)
    eval-allowed (call_node (call_node f inner ks) args keywords) v h = absurd (cc)
    eval-allowed (call_node (other_node kind) args keywords) v h = absurd (cc)
    eval-allowed (name_node id) v h = absurd (cc)
    eval-allowed (other_node kind) v h = absurd (cc)

    args-allowed :
        (args : Args n.Number) (vs : List n.Number)
        → eval_args n args ≡ ok vs
        → are_allowed args ≡ true
    args-allowed no_args vs h = refl
    args-allowed (arg node rest) vs h =
        let (a, node_is, h1) = bind_ok (safe_eval n node) _ vs h in
        let (others, rest_are, h2) = bind_ok (eval_args n rest) _ vs h1 in
        rw (eval-allowed node a node_is, args-allowed rest others rest_are) refl

-- An expression has a value only if each of its nodes, apart from those within keyword arguments,
-- is one of the allowed ones: a literal, one of the nine operators, or a call of one of the six
-- functions by its name. The keyword arguments of a call change nothing, whatever stands in them.
pub safe_eval-allowed :
    (n : Numbers) (e : Expr n.Number) (v : n.Number)
    → safe_eval n e ≡ ok v
    → (is_allowed_tree e ≡ true)
      × ((func : Expr n.Number) (args keywords other_keywords : Args n.Number)
          → safe_eval n (call_node func args keywords)
            ≡ safe_eval n (call_node func args other_keywords))
unfolding safe_eval
safe_eval-allowed n e v h = (eval-allowed n e v h, λ func args keywords other_keywords. refl)
