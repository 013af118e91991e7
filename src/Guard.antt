-- ===== src/Guard.antt =====
-- domain_packs/common/output_guard.py: the scan of a model's output for signs of injected
-- instructions. The search for a regular expression is a parameter: it gives the first match.
pub mod Scan
pub mod Pack
pub mod Checked
mod Tests
use langgraph_agent_stack.Prelude.{
  nat_beq, if◌then◌else◌, or_else, length, take, drop, filter, Text, text, strip, nonempty, decimal,
  Result, ok, err, ℕ, ◌+◌, ◌-◌, min, Bool, true, false, not, Option, none, some, List, [], ◌∷◌,
  ◌++◌, map,
}
use langgraph_agent_stack.Policies.{PackPolicy, PolicyRegistry, get, string, is_regulated}
use langgraph_agent_stack.Prelude.Json.{
  Json, null, boolean, number, string, array, object, JsonItems, no_items, item, JsonFields,
  no_fields, field,
}
use langgraph_agent_stack.Policies
use mathlib.Core.Option

-- (pattern_id, fail_closed_when_matched)
abbrev pub output_integrity_patterns : List (Text × Bool)
output_integrity_patterns =
    (text "instruction_override", true)
    ∷ (text "instruction_override_short", true)
    ∷ (text "instruction_override_prior", true)
    ∷ (text "disregard_directive", true)
    ∷ (text "neglect_directive", true)
    ∷ (text "role_confusion_tag", true)
    ∷ (text "system_prefix", true)
    ∷ (text "persona_shift", true)
    ∷ (text "delimiter_echo", false)
    ∷ []

-- `pattern.search(text)`: where the match of the pattern with this id starts and ends.
abbrev pub Search : Type 0
Search = Text → Text → Option (ℕ × ℕ)

pub record OutputIntegrityFinding : Type 0 where
  pub field_path : Text
  pub pattern_id : Text
  pub excerpt : Text
  pub fail_closed : Bool

abbrev pub spaced : Text → Text
spaced [] = []
spaced (c ∷ s) = (if nat_beq c 10 then 32 else c) ∷ spaced s

unfoldable pub excerpt_of : Text → ℕ × ℕ → Text
excerpt_of s (first, last) =
    let start = first - 40 in spaced (take (min (length s) (last + 40) - start) (drop start s))

abbrev pub finding_of : Text → Text → Text × Bool → Option (ℕ × ℕ) → List OutputIntegrityFinding
finding_of s path (pattern_id, fail_closed) none = []
finding_of s path (pattern_id, fail_closed) (some span) =
    record {
      field_path = path;
      pattern_id = pattern_id;
      excerpt = excerpt_of s span;
      fail_closed = fail_closed;
    }
    ∷ []

unfoldable pub scan_patterns :
    Search → Text → Text → List (Text × Bool) → List OutputIntegrityFinding
unfolding excerpt_of
scan_patterns search s path [] = []
scan_patterns search s path (pattern ∷ patterns) =
    finding_of s path pattern (search pattern.0 s) ++ scan_patterns search s path patterns

-- `scan_text_for_integrity_signals`
unfoldable pub scan_text : Search → Text → Text → List OutputIntegrityFinding
unfolding scan_patterns
scan_text search s path =
    if nonempty s then scan_patterns search s path output_integrity_patterns else []

unfoldable mutual
  unfolding scan_text decimal

  pub scan_structured_output : Search → Json → Text → List OutputIntegrityFinding
  scan_structured_output search null prefix = []
  scan_structured_output search (boolean b) prefix = []
  scan_structured_output search (number z) prefix = []
  scan_structured_output search (string s) prefix = scan_text search s prefix
  scan_structured_output search (array values) prefix = scan_items search values prefix 0
  scan_structured_output search (object entries) prefix = scan_fields search entries prefix

  pub scan_items : Search → JsonItems → Text → ℕ → List OutputIntegrityFinding
  scan_items search no_items prefix index = []
  scan_items search (item v rest) prefix index =
      scan_structured_output search v (prefix ++ (text "[" ++ (decimal index ++ text "]")))
      ++ scan_items search rest prefix (index + 1)

  pub scan_fields : Search → JsonFields → Text → List OutputIntegrityFinding
  scan_fields search no_fields prefix = []
  scan_fields search (field key v rest) prefix =
      scan_structured_output search v (prefix ++ (text "." ++ key))
      ++ scan_fields search rest prefix

-- What stands before the first brace; `seen` says whether anything does.
abbrev pub before_brace : Text → Option Text
before_brace [] = none
before_brace (c ∷ s) =
    let rest = before_brace s in if nat_beq c 123 then some [] else Option.map (◌∷◌ c) rest

-- `_non_json_prefix`
unfoldable pub non_json_prefix : Text → Text
unfolding strip
non_json_prefix raw = or_else (before_brace (strip raw)) []

pub data GuardError : Type 0 where
  integrity_check_failed : Text → Text → GuardError

-- The increments of `output_guard_findings_total`.
pub data GuardEvent : Type 0 where
  audit fail_closed : GuardEvent

abbrev pub policy_fail_closed : Option PackPolicy → Bool
policy_fail_closed none = false
policy_fail_closed (some policy) = policy.output_integrity_fail_closed

abbrev pub critical_of : List OutputIntegrityFinding → List OutputIntegrityFinding
critical_of findings = filter (λ (f : OutputIntegrityFinding). f.fail_closed) findings

abbrev pub audited : List OutputIntegrityFinding → List GuardEvent
audited findings = if nonempty findings then audit ∷ [] else []

abbrev pub decide :
    {A : Type 0}
    → A
    → List OutputIntegrityFinding
    → List GuardEvent
    → Result GuardError A × List GuardEvent
decide data' [] events = (ok data', events)
decide data' (first ∷ rest) events =
    (err (integrity_check_failed first.pattern_id first.field_path), events ++ fail_closed ∷ [])

abbrev pub findings_of : Search → Text → JsonFields → List OutputIntegrityFinding
findings_of search raw entries =
    scan_text search (non_json_prefix raw) (text "raw.prefix")
    ++ scan_structured_output search (object entries) (text "$")

unfoldable pub guard_llm_output :
    Search
    → Text
    → Text
    → JsonFields
    → PolicyRegistry
    → Result GuardError JsonFields × List GuardEvent
unfolding non_json_prefix scan_text scan_structured_output is_regulated Policies.get
guard_llm_output search pack_id raw entries policies =
    let findings = findings_of search raw entries in
    if not (is_regulated pack_id)
    then (ok entries, [])
    else if policy_fail_closed (Policies.get pack_id policies)
    then decide entries (critical_of findings) (audited findings)
    else (ok entries, audited findings)
