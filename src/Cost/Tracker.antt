-- ===== src/Cost/Tracker.antt =====
-- core/cost.py: `CostTracker`, the budget of a run.
use langgraph_agent_stack.Prelude.{
  ltb, if◌then◌else◌, Text, nonempty, Result, ok, err, ℕ, ◌+◌, ◌/◌, max, Bool, false, Option, none,
  some, ◌>>=◌,
}
use langgraph_agent_stack.Cost.{
  budget_exceeded, compute_call_cost, estimate_worst_case_call_cost, TokenUsage, CostError,
  CostTable,
}

-- `CostTracker`; the lock makes each update one step.
pub record CostTracker : Type 0 where
  pub budget_usd : Option ℕ
  pub total_cost_usd : ℕ
  pub input_tokens : ℕ
  pub output_tokens : ℕ

abbrev pub init : Option ℕ → CostTracker
init budget_usd = record {
  budget_usd = budget_usd;
  total_cost_usd = 0;
  input_tokens = 0;
  output_tokens = 0;
}

-- `_estimate_input_tokens`, of the number of characters.
unfoldable pub estimate_input_tokens : ℕ → ℕ
estimate_input_tokens total_chars = max 1 (total_chars / 4)

unfoldable pub enforce_pre_call_budget :
    CostTable → Bool → Text → ℕ → ℕ → CostTracker → Result CostError (Unit {0})
enforce_pre_call_budget table strict model_id input_tokens max_output_tokens s = elim s.budget_usd [
  | none ↦ ok tt
  | some budget ↦ do
    estimate ← estimate_worst_case_call_cost table strict model_id input_tokens max_output_tokens
    if ltb budget (s.total_cost_usd + estimate)
        then err (budget_exceeded (s.total_cost_usd + estimate))
        else ok tt
]

-- `on_chat_model_start` and `on_llm_start`: the model id, the characters of the prompt and the
-- limit on the output are read from the call.
unfoldable pub on_start :
    CostTable → Bool → Text → ℕ → ℕ → CostTracker → Result CostError (Unit {0})
unfolding enforce_pre_call_budget
on_start table strict model_id total_chars max_output_tokens s =
    if nonempty model_id
    then enforce_pre_call_budget table strict model_id (estimate_input_tokens total_chars)
        max_output_tokens s
    else ok tt

unfoldable pub exceeds_budget : Option ℕ → ℕ → Bool
exceeds_budget none total = false
exceeds_budget (some budget) total = ltb budget total

unfoldable pub on_llm_end :
    CostTable → Bool → TokenUsage → CostTracker → Result CostError (Unit {0}) × CostTracker
unfolding exceeds_budget
on_llm_end table strict u s = elim (compute_call_cost table strict u) [
  | err e ↦ (err e, s)
  | ok call_cost ↦
      let total = s.total_cost_usd + call_cost in
      (
        if exceeds_budget s.budget_usd total then err (budget_exceeded total) else ok tt,
        record s {
          total_cost_usd = total;
          input_tokens = s.input_tokens + u.input_tokens;
          output_tokens = s.output_tokens + u.output_tokens;
        },
      )
]
