-- ===== src/Agents/Graph.antt =====
-- agents/researcher.py: the graph research → validate → (research | summarize) → END, and
-- `_execute`. LangGraph runs the nodes along the edges and gives up after `recursion_limit` of them.
use langgraph_agent_stack.Prelude.{
  ltb, if◌then◌else◌, or_else, length, take, Text, text, nonempty, is_blank, Result, ◌>>=◌, ok, err,
  ℕ, zero, suc, ◌+◌, min, Bool, true, false, not, ◌&&◌, Option, none, some, [], ◌++◌, map,
}
use langgraph_agent_stack.Retry.Steps.{AgentState, increment_step}
use langgraph_agent_stack.Retry.Outcome.{AgentError}
use langgraph_agent_stack.Agents.Research.{
  Prompt, expansion, assessment, summary, Services, ResearchResult, ResearchState, RunError,
  timed_out, model_failed, tool_failed, invalid_result, recursion_limit, sub_queries_of, Found,
  search_all, ids_of, collect, fetch_connector_records, unique,
}
use langgraph_agent_stack.Prelude.Json.{
  Json, null, boolean, number, string, array, object, field_of, truthy,
}
use langgraph_agent_stack.Validation
use langgraph_agent_stack.Validation.{ValidationError, InputValidator}
use langgraph_agent_stack.Prelude.Int.{ℤ, pos, negsuc}

abbrev pub stepped : ResearchState → AgentState → ResearchState
stepped s agent = record s { agent = agent }

abbrev pub with_step :
    ℕ
    → ResearchState
    → (ResearchState → Result RunError ResearchState)
    → Result RunError ResearchState
with_step max_steps s body = elim (increment_step max_steps s.agent) [
  | err e ↦ err (timed_out e)
  | ok agent ↦ body (stepped s agent)
]

abbrev pub asked : Services → ResearchState → Prompt → Result RunError Text
asked services s prompt = elim (services.ask (or_else s.agent.step_count 0) prompt) [
  | err e ↦ err (model_failed e)
  | ok answer ↦ ok answer
]

abbrev pub add_found : ResearchState → Found → Found → ResearchState
add_found s searched fetched = record s {
  findings = s.findings ++ (searched.findings ++ fetched.findings);
  sources = unique [] (s.sources ++ (searched.sources ++ fetched.sources));
  source_refs = s.source_refs ++ fetched.refs;
  iterations = s.iterations + 1;
}

abbrev pub found_state : Services → ResearchState → Found → Result RunError ResearchState
found_state services s searched = ok (
    add_found s searched (
      collect (ids_of s.source_refs) (length s.source_refs)
        (fetch_connector_records services.fetch s.query)))

abbrev pub research_answered : Services → ResearchState → Text → Result RunError ResearchState
research_answered services s answer =
    let sub_queries = sub_queries_of services.py_str s.query (services.json_loads answer) in
    search_all services.web_search (take 3 sub_queries) >>= found_state services s

abbrev pub research_step : Services → ResearchState → Result RunError ResearchState
research_step services s = asked services s (expansion s.query) >>= research_answered services s

-- `_node_research`
unfoldable pub node_research : Services → ℕ → ResearchState → Result RunError ResearchState
unfolding search_all collect unique fetch_connector_records increment_step
node_research services max_steps s = with_step max_steps s (research_step services)

abbrev pub parse_failed : Text
parse_failed = text "Validation parsing failed — defaulting to insufficient for safety."

abbrev pub sufficient_of : Option Json → Bool
sufficient_of none = true
sufficient_of (some v) = truthy v

-- `bool(result.get("sufficient", True))` and `result.get("reason", "")`, where the answer is an object
unfoldable pub verdict_of : Option Json → Bool × Json
verdict_of (some (object entries)) = (
  sufficient_of (field_of (text "sufficient") entries),
  or_else (field_of (text "reason") entries) (string []),
)
verdict_of none = (false, string parse_failed)
verdict_of (some null) = (false, string parse_failed)
verdict_of (some (boolean b)) = (false, string parse_failed)
verdict_of (some (number z)) = (false, string parse_failed)
verdict_of (some (string s)) = (false, string parse_failed)
verdict_of (some (array values)) = (false, string parse_failed)

-- the reason goes into the log as `reason[:120]`
abbrev pub can_slice : Json → Bool
can_slice null = false
can_slice (boolean b) = false
can_slice (number z) = false
can_slice (object entries) = false
can_slice (string s) = true
can_slice (array values) = true

abbrev pub judged : ResearchState → Bool × Json → Result RunError ResearchState
judged s (sufficient, reason) =
    if can_slice reason
    then ok (record s { validation_ok = sufficient; validation_reason = reason })
    else err invalid_result

abbrev pub assessed : Services → ResearchState → Text → Result RunError ResearchState
assessed services s answer = judged s (verdict_of (services.json_loads answer))

abbrev pub assessment_of : ResearchState → Prompt
assessment_of s = assessment s.query (length s.findings) (map (take 200) (take 3 s.findings))

abbrev pub assess : Services → ResearchState → Result RunError ResearchState
assess services s =
    if nonempty s.findings
    then (asked services s (assessment_of s) >>= assessed services s)
    else judged s (false, string (text "No findings retrieved."))

-- `_node_validate`
unfoldable pub node_validate : Services → ℕ → ResearchState → Result RunError ResearchState
unfolding increment_step verdict_of
node_validate services max_steps s = with_step max_steps s (assess services)

-- `min(1.0, max(0.0, confidence))`
abbrev pub clamp : ℕ → ℤ → ℕ
clamp one (pos n) = min one n
clamp one (negsuc n) = 0

-- `float(parsed.get("confidence", 0.7))`
abbrev pub confidence_of : Services → Option Json → Option ℤ
confidence_of services none = some services.default_confidence
confidence_of services (some v) = services.to_float v

-- The summary must be a text in the result; where the confidence is no number, both fall back.
abbrev pub summary_or_raw : Services → Text → Option Json → Option ℤ → Result RunError (Text × ℤ)
summary_or_raw services raw v none = ok (raw, services.half)
summary_or_raw services raw none (some confidence) = ok (raw, confidence)
summary_or_raw services raw (some (string s)) (some confidence) = ok (s, confidence)
summary_or_raw services raw (some null) (some confidence) = err invalid_result
summary_or_raw services raw (some (boolean b)) (some confidence) = err invalid_result
summary_or_raw services raw (some (number z)) (some confidence) = err invalid_result
summary_or_raw services raw (some (array values)) (some confidence) = err invalid_result
summary_or_raw services raw (some (object entries)) (some confidence) = err invalid_result

unfoldable pub summary_of : Services → Text → Option Json → Result RunError (Text × ℤ)
summary_of services raw (some (object entries)) =
    summary_or_raw services raw (field_of (text "summary") entries)
      (confidence_of services (field_of (text "confidence") entries))
summary_of services raw none = ok (raw, services.half)
summary_of services raw (some null) = ok (raw, services.half)
summary_of services raw (some (boolean b)) = ok (raw, services.half)
summary_of services raw (some (number z)) = ok (raw, services.half)
summary_of services raw (some (string s)) = ok (raw, services.half)
summary_of services raw (some (array values)) = ok (raw, services.half)

abbrev pub summarised : Services → ResearchState → Text × ℤ → ResearchState
summarised services s (written, confidence) = record s {
  research_result = some (record {
    query = s.query;
    findings = s.findings;
    summary = written;
    sources = s.sources;
    confidence = clamp services.one confidence;
    source_refs = s.source_refs;
  });
}

abbrev pub write_summary : Services → ResearchState → Text → Result RunError ResearchState
write_summary services s answer =
    summary_of services answer (services.json_loads answer) >>= λ written.
    ok (summarised services s written)

abbrev pub summary_step : Services → ResearchState → Result RunError ResearchState
summary_step services s =
    asked services s (summary s.query (length s.findings) (take 10 s.findings))
    >>= write_summary services s

-- `_node_summarize`
unfoldable pub node_summarize : Services → ℕ → ResearchState → Result RunError ResearchState
unfolding increment_step summary_of
node_summarize services max_steps s = with_step max_steps s (summary_step services)

pub data Node : Type 0 where
  research validate summarize : Node

-- `_route_after_validate`
unfoldable pub route_after_validate : ℕ → ResearchState → Node
route_after_validate max_iter s =
    if not s.validation_ok && ltb s.iterations max_iter then research else summarize

unfoldable pub run_node : Services → ℕ → Node → ResearchState → Result RunError ResearchState
unfolding node_research node_validate node_summarize
run_node services max_steps research s = node_research services max_steps s
run_node services max_steps validate s = node_validate services max_steps s
run_node services max_steps summarize s = node_summarize services max_steps s

-- The edges of `build_graph`; none leads out of the last node.
unfoldable pub next_node : ℕ → Node → ResearchState → Option Node
unfolding route_after_validate
next_node max_iter research s = some validate
next_node max_iter validate s = some (route_after_validate max_iter s)
next_node max_iter summarize s = none

unfoldable pub run_graph :
    Services → ℕ → ℕ → ℕ → Node → ResearchState → Result RunError ResearchState
unfolding run_node next_node
run_graph services max_iter max_steps zero node s = err recursion_limit
run_graph services max_iter max_steps (suc limit) node s =
    run_node services max_steps node s >>= λ s'. elim (next_node max_iter node s') [
      | none ↦ ok s'
      | some after ↦ run_graph services max_iter max_steps limit after s'
    ]

abbrev pub initial_state : Text → ResearchState
initial_state query = record {
  agent = record { step_count = some 0; status = text "running" };
  query = query;
  findings = [];
  sources = [];
  source_refs = [];
  iterations = 0;
  validation_ok = true;
  validation_reason = string [];
  research_result = none;
}

pub data ExecuteError : Type 0 where
  empty_query no_result pipeline_failed : ExecuteError
  query_rejected : ValidationError → ExecuteError
  agent_error : AgentError → ExecuteError

-- Errors of the model go on as they are; all others become an `AgentExecutionError`.
abbrev pub as_execute_error : RunError → ExecuteError
as_execute_error (model_failed e) = agent_error e
as_execute_error (timed_out e) = pipeline_failed
as_execute_error tool_failed = pipeline_failed
as_execute_error invalid_result = pipeline_failed
as_execute_error recursion_limit = pipeline_failed

abbrev pub final_or_error : Result RunError ResearchState → Result ExecuteError ResearchState
final_or_error (ok s) = ok s
final_or_error (err e) = err (as_execute_error e)

-- The settings that bound a run, and LangGraph's limit.
pub record Limits : Type 0 where
  pub max_research_iterations : ℕ
  pub max_step_count : ℕ
  pub recursion_limit : ℕ

abbrev pub run_query :
    Services → Limits → Result ValidationError Text → Result ExecuteError ResearchState
run_query services limits (err e) = err (query_rejected e)
run_query services limits (ok query) = final_or_error (
    run_graph services limits.max_research_iterations limits.max_step_count limits.recursion_limit
      research (initial_state query))

-- `_execute`
unfoldable pub execute :
    Services → Limits → InputValidator → Text → Result ExecuteError ResearchState
unfolding run_graph
execute services limits validator query =
    if is_blank query
    then err empty_query
    else run_query services limits (Validation.validate validator query)

abbrev pub result_or_error : Option ResearchResult → Result ExecuteError ResearchResult
result_or_error none = err no_result
result_or_error (some result) = ok result

unfoldable pub run_structured :
    Services → Limits → InputValidator → Text → Result ExecuteError ResearchResult
unfolding execute
run_structured services limits validator query =
    execute services limits validator query >>= λ s. result_or_error s.research_result
