-- ===== src/Agents/Research.antt =====
-- agents/researcher.py: the nodes of `ResearchAgent`. The language model, the search tool, the
-- connector and Python's json are parameters; a prompt is what its text is built from. Confidences are
-- multiples of a unit of which `one` make 1.0.
use langgraph_agent_stack.Prelude.{
  leb, if◌then◌else◌, ◌==◌, or_else, drop, mem, Text, text, strip, nonempty, starts_with,
  cons_first, Result, ok, err, ℕ, ◌+◌, Bool, ◌&&◌, ◌||◌, Option, none, some, List, [], ◌∷◌, ◌++◌,
  map, text_eq, nat_eq,
}
use langgraph_agent_stack.Retry.Steps.{AgentState, AgentTimeoutError}
use langgraph_agent_stack.Retry.Outcome.{AgentError}
use langgraph_agent_stack.Agents.{Record, SourceRef, record_to_source_ref, citation}
use langgraph_agent_stack.Prelude.Json.{
  Json, null, boolean, number, string, array, object, JsonItems, no_items, item,
}
use langgraph_agent_stack.Prelude.Dict
use langgraph_agent_stack.Prelude.Int.{ℤ}

pub data Prompt : Type 0 where
  expansion : Text → Prompt
  assessment : Text → ℕ → List Text → Prompt
  summary : Text → ℕ → List Text → Prompt

pub record Services : Type 0 where
  -- the model's answer to the prompt of a step
  pub ask : ℕ → Prompt → Result AgentError Text
  pub web_search : Option (Text → Option Text)
  pub fetch : Option (Text → Option (List Record))
  pub json_loads : Text → Option Json
  pub py_str : Json → Text
  pub to_float : Json → Option ℤ
  pub one : ℕ
  pub default_confidence : ℤ
  pub half : ℤ

pub record ResearchResult : Type 0 where
  pub query : Text
  pub findings : List Text
  pub summary : Text
  pub sources : List Text
  pub confidence : ℕ
  pub source_refs : List SourceRef

-- `query` is the text of the first message; a context key that is not there yet has its default.
pub record ResearchState : Type 0 where
  pub agent : AgentState
  pub query : Text
  pub findings : List Text
  pub sources : List Text
  pub source_refs : List SourceRef
  pub iterations : ℕ
  pub validation_ok : Bool
  pub validation_reason : Json
  pub research_result : Option ResearchResult

pub data RunError : Type 0 where
  timed_out : AgentTimeoutError → RunError
  model_failed : AgentError → RunError
  tool_failed invalid_result recursion_limit : RunError

abbrev pub items_of : JsonItems → List Json
items_of no_items = []
items_of (item v rest) = v ∷ items_of rest

-- The sub-queries of the model's answer; the query alone where the answer is not a JSON list.
abbrev pub sub_queries_of : (Json → Text) → Text → Option Json → List Text
sub_queries_of py_str query none = query ∷ []
sub_queries_of py_str query (some null) = query ∷ []
sub_queries_of py_str query (some (boolean b)) = query ∷ []
sub_queries_of py_str query (some (number z)) = query ∷ []
sub_queries_of py_str query (some (string s)) = query ∷ []
sub_queries_of py_str query (some (object entries)) = query ∷ []
sub_queries_of py_str query (some (array values)) = map py_str (items_of values)

-- where `str.splitlines` breaks a line
abbrev pub is_line_break : ℕ → Bool
is_line_break c =
    (leb 10 c && leb c 13) || (leb 28 c && leb c 30) || c == 0x85 || c == 0x2028 || c == 0x2029

unfoldable pub lines_of : Text → List Text
lines_of [] = [] ∷ []
lines_of (c ∷ s) = let rest = lines_of s in if is_line_break c then [] ∷ rest else cons_first c rest

-- The addresses in the lines that start with `Source:`.
unfoldable pub sources_in : List Text → List Text
unfolding strip
sources_in [] = []
sources_in (line ∷ rest) =
    let later = sources_in rest in
    let stripped = strip line in
    let address = strip (drop 7 stripped) in
    if starts_with (text "Source:") stripped && nonempty address then address ∷ later else later

-- What a round adds: snippets, citations and references.
pub record Found : Type 0 where
  pub findings : List Text
  pub sources : List Text
  pub refs : List SourceRef

abbrev pub searched_one : Option Text → Result RunError Found → Result RunError Found
searched_one none rest = err tool_failed
searched_one (some answer) (err e) = err e
searched_one (some answer) (ok found) = ok (record {
  findings = answer ∷ found.findings;
  sources = sources_in (lines_of answer) ++ found.sources;
  refs = found.refs;
})

unfoldable pub search_all : Option (Text → Option Text) → List Text → Result RunError Found
unfolding sources_in lines_of
search_all none queries = ok (record { findings = []; sources = []; refs = [] })
search_all (some web_search) [] = ok (record { findings = []; sources = []; refs = [] })
search_all (some web_search) (query ∷ queries) =
    searched_one (web_search query) (search_all (some web_search) queries)

abbrev pub ids_of : List SourceRef → List Text
ids_of [] = []
ids_of (ref ∷ refs) = ref.id ∷ ids_of refs

-- `record.get("snippet") or record.get("text") or record.get("content") or ref.snippet`
abbrev pub raw_value : Text → Record → Text
raw_value key rec = or_else (or_else (Dict.get key rec) none) []

abbrev pub or_text : Text → Text → Text
or_text a b = if nonempty a then a else b

unfoldable pub snippet_of : Record → SourceRef → Text
snippet_of rec ref =
    or_text (raw_value (text "snippet") rec)
      (or_text (raw_value (text "text") rec) (or_text (raw_value (text "content") rec) ref.snippet))

-- `taken` are the ids that are in use, `count` the number of references.
unfoldable pub collect : List Text → ℕ → List Record → Found
unfolding record_to_source_ref citation snippet_of
collect taken count [] = record { findings = []; sources = []; refs = [] }
collect taken count (rec ∷ rest) =
    let ref = record_to_source_ref rec (count + 1) in
    let skipped = collect taken count rest in
    let later = collect (ref.id ∷ taken) (count + 1) rest in
    let snippet = snippet_of rec ref in
    if mem ref.id taken then skipped else record {
      findings = if nonempty snippet then snippet ∷ later.findings else later.findings;
      sources = citation ref ∷ later.sources;
      refs = ref ∷ later.refs;
    }

-- `_fetch_connector_records`: no records where there is no connector or its call fails.
abbrev pub records_or_none : Option (List Record) → List Record
records_or_none none = []
records_or_none (some records) = records

unfoldable pub fetch_connector_records : Option (Text → Option (List Record)) → Text → List Record
fetch_connector_records none query = []
fetch_connector_records (some fetch) query = records_or_none (fetch query)

-- `list(dict.fromkeys(values))`, given the values seen before
unfoldable pub unique : List Text → List Text → List Text
unique seen [] = []
unique seen (a ∷ rest) =
    let skipped = unique seen rest in
    let kept = unique (a ∷ seen) rest in if mem a seen then skipped else a ∷ kept
