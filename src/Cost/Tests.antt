-- ===== src/Cost/Tests.antt =====
-- core/cost.py: prices of model ids, and the theorems at concrete calls.
use langgraph_agent_stack.Prelude.{
  text, strip, lower, ◌+◌, ◌*◌, ◌≤◌, ◌≡◌, refl, true, false, Option, none, some, List, [], ◌∷◌,
  arith, text_eq, nat_eq,
}
use langgraph_agent_stack.Cost.Tracker.{CostTracker, estimate_input_tokens, on_start}
use langgraph_agent_stack.Cost.{
  ModelPricing, cache_read_rate, cache_write_rate, CostTable, normalize_model_id, undated_from,
  undated, skip_digits, after_digits, after_char, unversioned_from, unversioned, after_dot,
  bedrock_model_fragment, with_undated, bedrock_candidates, candidates, find_exact, find_alias,
  resolve_model_pricing, TokenUsage, compute_call_cost, worst_case, estimate_worst_case_call_cost,
}
use langgraph_agent_stack.Cost.Budget.{
  LlmCall, Event, starts, ends, Flight, advance, run_events, IsHonest, estimate_of, IsNarrow,
  run_events-within,
}
use mathlib.Core.Path.{subst}
use mathlib.Core.Option
use langgraph_agent_stack.Prelude.Dict
use langgraph_agent_stack.Prelude.Dict.{Dict}
use langgraph_agent_stack.Cost.Aliases.{model_id_prefix_aliases}
use langgraph_agent_stack.Cost.Estimates.{IsWithin}

abbrev sonnet : ModelPricing
sonnet = record {
  input_per_1k = 3;
  output_per_1k = 15;
  cache_read_per_1k = none;
  cache_write_per_1k = none;
  batch_multiplier = 500;
}

abbrev table : CostTable
table = (text "claude-sonnet-4-20250514", sonnet) ∷ (text "gpt-4o", sonnet) ∷ []

-- All that the runs below compute with.
program : Unit {0}
unfolding Option.bind strip lower Dict.get resolve_model_pricing normalize_model_id candidates
    find_exact find_alias undated undated_from with_undated bedrock_candidates
    bedrock_model_fragment after_dot unversioned unversioned_from after_digits after_char
    skip_digits model_id_prefix_aliases
program = tt

dated : resolve_model_pricing table (text "GPT-4o-20240806") ≡ some sonnet
unfolding program
dated = refl

bedrock :
    resolve_model_pricing table (text "us.anthropic.claude-sonnet-4-20250514-v1:0") ≡ some sonnet
unfolding program
bedrock = refl

unknown : resolve_model_pricing table (text "o3") ≡ none
unfolding program
unknown = refl

abbrev usage : TokenUsage
usage = record {
  model_id = text "gpt-4o";
  input_tokens = 100;
  output_tokens = 50;
  cache_read_tokens = 20;
  cache_write_tokens = 0;
  batch = false;
}

usage-IsWithin : IsWithin sonnet 100 60 usage
unfolding cache_read_rate cache_write_rate
usage-IsWithin = record {
  input = omega arith;
  output = omega arith;
  cached = omega arith;
  reads = omega arith;
  writes = omega arith;
  batches = omega arith;
}

abbrev call : LlmCall
call = record { model_id = text "gpt-4o"; total_chars = 400; max_output_tokens = 60; usage = usage }

some_inj : (a b : ModelPricing) → (let o : Option ModelPricing = some a in o ≡ some b) → a ≡ b
some_inj a b e = cc

call-IsHonest : IsHonest table call
unfolding program estimate_input_tokens
call-IsHonest = record {
  named = refl;
  same_model = refl;
  within = λ p e. subst (λ q. IsWithin q 100 60 usage) (some_inj sonnet p e) usage-IsWithin;
}

abbrev tracker : CostTracker
tracker = record {
  budget_usd = some 40000000;
  total_cost_usd = 0;
  input_tokens = 0;
  output_tokens = 0;
}

abbrev at_rest : Flight
at_rest = record { tracker = tracker; under_way = [] }

-- two calls at once, of which the first ends first
abbrev two_at_once : List Event
two_at_once = starts call ∷ starts call ∷ ends 1 ∷ ends 0 ∷ []

estimated : estimate_of table call ≤ 39600000
unfolding program estimate_input_tokens estimate_worst_case_call_cost worst_case
estimated = omega arith

narrow : IsNarrow table true 1 two_at_once at_rest
unfolding program estimate_input_tokens estimate_worst_case_call_cost compute_call_cost advance
    on_start
narrow = (omega arith, (omega arith, tt))

run_events-within_example :
    (run_events table true two_at_once at_rest).tracker.total_cost_usd ≤ 40000000 + 1 * 39600000
run_events-within_example =
    run_events-within table true two_at_once 40000000 1 39600000 tracker
      ((call-IsHonest, estimated), ((call-IsHonest, estimated), (tt, (tt, tt)))) narrow refl
      (omega arith)

-- both guards pass before either call is paid for
both_pass :
    (run_events table true two_at_once (record at_rest {
      tracker = record tracker { budget_usd = some 30000000 };
    })).tracker.total_cost_usd
    ≡ 39840000
unfolding program estimate_input_tokens run_events estimate_worst_case_call_cost compute_call_cost
both_pass = refl
