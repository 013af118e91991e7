-- ===== src/Cost.antt =====
-- core/cost.py: which price a model has, what a call costs, and the budget of a run. Rates are whole
-- numbers of a fixed unit per 1000 tokens and the multiplier of a batch is in thousandths; a cost
-- stands in units of 1/20 000 000 of the rates' unit, in which it is exact. The pricing table, with
-- the entries of the override file, is an argument.
pub mod Aliases
pub mod Tracker
pub mod Estimates
pub mod Budget
mod Tests
use langgraph_agent_stack.Prelude.{
  leb, if◌then◌else◌, ◌==◌, any, Text, strip, nonempty, starts_with, lower, Result, ok, err, ℕ,
  zero, suc, ◌+◌, ◌-◌, ◌*◌, Bool, not, ◌&&◌, Option, none, some, List, [], ◌∷◌, ◌++◌, map, reverse,
  text_eq, nat_eq,
}
use mathlib.Core.Option
use langgraph_agent_stack.Prelude.Dict
use langgraph_agent_stack.Prelude.Dict.{Dict}
use langgraph_agent_stack.Cost.Aliases.{model_id_prefix_aliases}

pub record ModelPricing : Type 0 where
  pub input_per_1k : ℕ
  pub output_per_1k : ℕ
  pub cache_read_per_1k : Option ℕ
  pub cache_write_per_1k : Option ℕ
  pub batch_multiplier : ℕ

-- 20 times the rate: 10 % of the input rate where none is given.
unfoldable pub cache_read_rate : ModelPricing → ℕ
cache_read_rate p = elim p.cache_read_per_1k [ none ↦ 2 * p.input_per_1k | some rate ↦ 20 * rate ]

-- 20 times the rate: 125 % of the input rate where none is given.
unfoldable pub cache_write_rate : ModelPricing → ℕ
cache_write_rate p = elim p.cache_write_per_1k [
  | none ↦ 25 * p.input_per_1k
  | some rate ↦ 20 * rate
]

abbrev pub CostTable : Type 0
CostTable = Dict Text ModelPricing

unfoldable pub normalize_model_id : Text → Text
normalize_model_id model_id = strip (lower model_id)

abbrev pub is_digit : ℕ → Bool
is_digit c = leb 48 c && leb c 57

-- `-\d{8}$`, read from the end: `n` digits, then the dash.
unfoldable pub undated_from : ℕ → Text → Option Text
undated_from n [] = none
undated_from zero (c ∷ s) = if c == 45 then some s else none
undated_from (suc n) (c ∷ s) = let rest = undated_from n s in if is_digit c then rest else none

-- The id without its date, if it ends in one.
unfoldable pub undated : Text → Option Text
unfolding undated_from
undated model_id = Option.map reverse (undated_from 8 (reverse model_id))

-- What follows a run of digits.
unfoldable pub skip_digits : Text → Text
skip_digits [] = []
skip_digits (c ∷ s) = let rest = skip_digits s in if is_digit c then rest else c ∷ s

-- `\d+`
unfoldable pub after_digits : Text → Option Text
unfolding skip_digits
after_digits [] = none
after_digits (c ∷ s) = if is_digit c then some (skip_digits s) else none

-- The next character, if it is this one.
unfoldable pub after_char : ℕ → Text → Option Text
after_char k [] = none
after_char k (c ∷ s) = if c == k then some s else none

-- `-v\d+:\d+$`, read from the end.
unfoldable pub unversioned_from : Text → Option Text
unfolding after_digits after_char
unversioned_from s =
    Option.bind
      (Option.bind (Option.bind (Option.bind (after_digits s) (after_char 58)) after_digits)
        (after_char 118))
      (after_char 45)

-- `_BEDROCK_VERSION_RE.sub("", fragment)`
unfoldable pub unversioned : Text → Text
unfolding unversioned_from
unversioned fragment = elim (unversioned_from (reverse fragment)) [
  | none ↦ fragment
  | some s ↦ reverse s
]

-- What follows the first dot.
unfoldable pub after_dot : Text → Option Text
after_dot [] = none
after_dot (c ∷ s) = let rest = after_dot s in if c == 46 then some s else rest

unfoldable pub bedrock_model_fragment : Text → Option Text
unfolding after_dot unversioned
bedrock_model_fragment model_id = Option.map unversioned (after_dot model_id)

-- An id, and the id without its date.
unfoldable pub with_undated : Text → List Text
unfolding undated
with_undated model_id = model_id ∷ elim (undated model_id) [ none ↦ [] | some s ↦ s ∷ [] ]

-- `if bedrock:`
unfoldable pub bedrock_candidates : Option Text → List Text
unfolding with_undated
bedrock_candidates none = []
bedrock_candidates (some fragment) = if nonempty fragment then with_undated fragment else []

unfoldable pub candidates : Text → List Text
unfolding with_undated bedrock_candidates bedrock_model_fragment
candidates normalised =
    with_undated normalised ++ bedrock_candidates (bedrock_model_fragment normalised)

-- The first loop of `resolve_model_pricing`: an exact entry.
unfoldable pub find_exact : CostTable → List Text → Option ModelPricing
find_exact table [] = none
find_exact table (candidate ∷ rest) =
    let later = find_exact table rest in
    elim (Dict.get candidate table) [ none ↦ later | some p ↦ some p ]

-- The second loop: the first alias whose prefix starts a candidate and whose model is in the table.
unfoldable pub find_alias : CostTable → List Text → List (Text × Text) → Option ModelPricing
find_alias table ids [] = none
find_alias table ids ((prefix, canonical) ∷ aliases) =
    let later = find_alias table ids aliases in
    if any (starts_with prefix) ids
    then elim (Dict.get canonical table) [ none ↦ later | some p ↦ some p ]
    else later

unfoldable pub resolve_model_pricing : CostTable → Text → Option ModelPricing
unfolding normalize_model_id candidates find_exact find_alias
resolve_model_pricing table model_id =
    let normalised = normalize_model_id model_id in
    if not (nonempty normalised) then none else elim (find_exact table (candidates normalised)) [
      | some p ↦ some p
      | none ↦ find_alias table (candidates normalised) model_id_prefix_aliases
    ]

pub record TokenUsage : Type 0 where
  pub model_id : Text
  pub input_tokens : ℕ
  pub output_tokens : ℕ
  pub cache_read_tokens : ℕ
  pub cache_write_tokens : ℕ
  pub batch : Bool

pub data CostError : Type 0 where
  unknown_model_pricing : CostError
  budget_exceeded : ℕ → CostError

-- The price of a call under a pricing: `max(0, …)` is the subtraction of ℕ.
unfoldable pub priced : ModelPricing → TokenUsage → ℕ
unfolding cache_read_rate cache_write_rate
priced p u =
    let billed_input = u.input_tokens - u.cache_read_tokens - u.cache_write_tokens in
    let cost =
      billed_input * (20 * p.input_per_1k)
      + u.cache_read_tokens * cache_read_rate p
      + u.cache_write_tokens * cache_write_rate p
      + u.output_tokens * (20 * p.output_per_1k) in
    cost * (if u.batch then p.batch_multiplier else 1000)

unfoldable pub compute_call_cost : CostTable → Bool → TokenUsage → Result CostError ℕ
unfolding priced
compute_call_cost table strict u = elim (resolve_model_pricing table u.model_id) [
  | none ↦ if strict && nonempty u.model_id then err unknown_model_pricing else ok 0
  | some p ↦ ok (priced p u)
]

unfoldable pub worst_case : ModelPricing → ℕ → ℕ → ℕ
worst_case p input_tokens max_output_tokens =
    (input_tokens * (20 * p.input_per_1k) + max_output_tokens * (20 * p.output_per_1k)) * 1000

unfoldable pub estimate_worst_case_call_cost : CostTable → Bool → Text → ℕ → ℕ → Result CostError ℕ
unfolding worst_case
estimate_worst_case_call_cost table strict model_id input_tokens max_output_tokens =
    elim (resolve_model_pricing table model_id) [
      | none ↦ if strict && nonempty model_id then err unknown_model_pricing else ok 0
      | some p ↦ ok (worst_case p input_tokens max_output_tokens)
    ]
