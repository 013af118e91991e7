-- ===== src/Agents/Tests.antt =====
-- agents/researcher.py: a model that is content after the second round, and the theorems at its runs.
use langgraph_agent_stack.Prelude.{
  ltb, if◌then◌else◌, ◌==◌, Text, text, strip, is_blank, decimal, Result, ok, ℕ, ◌≡◌, refl, Bool,
  true, false, Option, none, some, [], ◌∷◌, text_eq, nat_eq,
}
use langgraph_agent_stack.Prelude.Dict
use langgraph_agent_stack.Prelude.Int.{pos}
use langgraph_agent_stack.Validation
use langgraph_agent_stack.Validation.{InputValidator}
use langgraph_agent_stack.Retry.Steps.{increment_step}
use langgraph_agent_stack.Retry.Outcome.{AgentError}
use langgraph_agent_stack.Agents.Cited.{run_structured-IsCited}
use langgraph_agent_stack.Agents.Sources.{IsCited}
use langgraph_agent_stack.Agents.Graph.{
  node_research, verdict_of, node_validate, summary_of, node_summarize, route_after_validate,
  run_node, next_node, run_graph, Limits, execute, run_structured,
}
use langgraph_agent_stack.Agents.Research.{
  Prompt, expansion, assessment, summary, Services, ResearchResult, lines_of, sources_in,
  search_all, snippet_of, collect, fetch_connector_records, unique,
}
use langgraph_agent_stack.Agents.{Record, first_str, record_to_source_ref, citation}
use langgraph_agent_stack.Prelude.Json.{Json, boolean, number, string, object, no_fields, field}

abbrev verdict : Bool → Json
verdict b =
    object
      (field (text "sufficient") (boolean b) (field (text "reason") (string (text "r")) no_fields))

abbrev loads : Text → Option Json
loads [] = none
loads (c ∷ s) =
    if c == 116
    then some (verdict true)
    else if c == 102
    then some (verdict false)
    else some (
        object (
          field (text "summary") (string (text "done"))
            (field (text "confidence") (number (pos 12)) no_fields)))

abbrev answer : ℕ → Prompt → Result AgentError Text
answer step (expansion query) = ok []
answer step (assessment query n snippets) = ok (if ltb step 3 then text "f" else text "t")
answer step (summary query n snippets) = ok (text "s")

abbrev entry : Record
entry =
    (text "doc_id", some (text " d1 "))
    ∷ (text "url", some (text "u"))
    ∷ (text "text", some (text "x"))
    ∷ []

abbrev services : Services
services = record {
  ask = answer;
  web_search = some (λ query. some (text "a\nSource: http://x\nSource: http://x"));
  fetch = some (λ query. some (entry ∷ entry ∷ []));
  json_loads = loads;
  py_str = λ v. [];
  to_float = λ v. some (pos 12);
  one = 10;
  default_confidence = pos 7;
  half = pos 5;
}

abbrev limits : Limits
limits = record { max_research_iterations = 3; max_step_count = 20; recursion_limit = 25 }

abbrev validator : InputValidator
validator = record { max_length = 100 }

abbrev found : ResearchResult
found = record {
  query = text "q";
  findings =
      text "a\nSource: http://x\nSource: http://x"
      ∷ text "x"
      ∷ text "a\nSource: http://x\nSource: http://x"
      ∷ [];
  summary = text "done";
  sources = text "http://x" ∷ text "[d1] u" ∷ [];
  confidence = 10;
  source_refs =
      record {
        id = text "d1";
        title = none;
        url = some (text "u");
        snippet = text "x";
        metadata = [];
      }
      ∷ [];
}

returned : run_structured services limits validator (text "q") ≡ ok found
unfolding run_structured execute run_graph run_node next_node node_research node_validate
    node_summarize route_after_validate verdict_of summary_of increment_step search_all sources_in
    lines_of collect record_to_source_ref first_str decimal citation snippet_of unique
    fetch_connector_records Validation.validate is_blank strip Dict.get Validation.has_null
    Validation.collapse_newlines
returned = refl

run_structured-IsCited_example : IsCited services found
run_structured-IsCited_example =
    run_structured-IsCited services limits validator (text "q") found returned
