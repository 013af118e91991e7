-- ===== src/Guard/Pack.antt =====
-- domain_packs/common/structured_llm.py: from the model's answer to the output of a pack, and the
-- second look of domain_packs/common/output_guard.py. JSON parsing, the output schema of a pack and
-- the second model are parameters.
use langgraph_agent_stack.Prelude.{
  ltb, leb, if◌then◌else◌, take, Text, text, strip, Result, ◌>>=◌, ok, err, ℕ, ◌+◌, ◌*◌, Bool, true,
  false, ◌&&◌, Option, none, some, List, [], ◌∷◌, text_eq, nat_eq,
}
use langgraph_agent_stack.Policies
use langgraph_agent_stack.Prelude.Dict
use langgraph_agent_stack.Guard.{Search, GuardError, guard_llm_output}
use langgraph_agent_stack.Policies.{
  PackPolicy, PolicyRegistry, get, string, is_regulated, OutputValue, flag, words, value, Output,
  apply_compliance_output,
}
use langgraph_agent_stack.Prelude.Json.{
  Json, null, boolean, number, string, array, object, JsonItems, no_items, item, JsonFields,
  no_fields, field,
}

-- `len(s.encode("utf-8"))`
unfoldable pub utf8_length : Text → ℕ
utf8_length [] = 0
utf8_length (c ∷ s) =
    (if leb c 0x7f then 1 else if leb c 0x7ff then 2 else if leb c 0xffff then 3 else 4)
    + utf8_length s

abbrev pub max_json_response_bytes : ℕ
max_json_response_bytes = 512 * 1024

pub data PackError : Type 0 where
  response_too_large not_json no_object_in_array not_an_object : PackError
  integrity : GuardError → PackError
  invalid_output cross_check_invalid : PackError
  cross_check_failed : Text → PackError

abbrev pub first_object : JsonItems → Result PackError JsonFields
first_object no_items = err no_object_in_array
first_object (item (object entries) rest) = ok entries
first_object (item null rest) = first_object rest
first_object (item (boolean b) rest) = first_object rest
first_object (item (number z) rest) = first_object rest
first_object (item (string s) rest) = first_object rest
first_object (item (array values) rest) = first_object rest

abbrev pub as_object : Option Json → Result PackError JsonFields
as_object none = err not_json
as_object (some (object entries)) = ok entries
as_object (some (array values)) = first_object values
as_object (some null) = err not_an_object
as_object (some (boolean b)) = err not_an_object
as_object (some (number z)) = err not_an_object
as_object (some (string s)) = err not_an_object

unfoldable pub extract_json_object : (Text → Option Json) → Text → Result PackError JsonFields
unfolding utf8_length strip
extract_json_object parse raw =
    if ltb max_json_response_bytes (utf8_length raw)
    then err response_too_large
    else as_object (parse (strip raw))

abbrev pub output_value : Json → OutputValue
output_value (boolean b) = flag b
output_value (string s) = words s
output_value null = value null
output_value (number z) = value (number z)
output_value (array values) = value (array values)
output_value (object entries) = value (object entries)

-- The dictionary of a JSON object: the last of two equal keys counts.
abbrev pub output_of : JsonFields → Output → Output
output_of no_fields output = output
output_of (field key v rest) output = output_of rest (Dict.put key (output_value v) output)

-- The parts of a pack and of its second model. `verdict_of` parses an answer and checks it against
-- the strict schema of a verdict.
pub record PackParts : Type 0 where
  pub search : Search
  pub parse : Text → Option Json
  pub model_validate : Bool → Output → Option Output
  pub second_model : Option (Text → Output → Text)
  pub verdict_of : Text → Option (Bool × List Text)

abbrev pub reasons_or : List Text → Text
reasons_or [] = text "cross-check failed"
reasons_or (reason ∷ reasons) = reason

abbrev pub judge : Option (Bool × List Text) → Result PackError (Unit {0})
judge none = err cross_check_invalid
judge (some (true, reasons)) = ok tt
judge (some (false, reasons)) = err (cross_check_failed (reasons_or reasons))

abbrev pub policy_cross_check : Option PackPolicy → Bool
policy_cross_check none = false
policy_cross_check (some policy) = policy.output_cross_check

abbrev pub ask_second :
    PackParts → Text → Output → Option (Text → Output → Text) → Result PackError (Unit {0})
ask_second parts task_summary output none = ok tt
ask_second parts task_summary output (some ask) =
    judge (parts.verdict_of (ask (take 2000 task_summary) output))

-- `cross_check_output_if_enabled`
unfoldable pub cross_check :
    PackParts → Text → Text → Output → PolicyRegistry → Result PackError (Unit {0})
unfolding is_regulated Policies.get
cross_check parts pack_id task_summary output policies =
    if is_regulated pack_id && policy_cross_check (Policies.get pack_id policies)
    then ask_second parts task_summary output parts.second_model
    else ok tt

abbrev pub integrity_or : Result GuardError JsonFields → Result PackError JsonFields
integrity_or (ok entries) = ok entries
integrity_or (err e) = err (integrity e)

abbrev pub or_invalid_output : Option Output → Result PackError Output
or_invalid_output none = err invalid_output
or_invalid_output (some output) = ok output

abbrev pub checked_output :
    PackParts → Text → Text → PolicyRegistry → Output → Result PackError Output
checked_output parts pack_id task_summary policies output =
    cross_check parts pack_id task_summary output policies >>= λ u. ok output

abbrev pub validated :
    PackParts → Text → Text → PolicyRegistry → JsonFields → Result PackError Output
validated parts pack_id task_summary policies entries =
    or_invalid_output (
      parts.model_validate (is_regulated pack_id)
        (apply_compliance_output pack_id policies (output_of entries [])))
    >>= checked_output parts pack_id task_summary policies

abbrev pub guarded :
    PackParts → Text → Text → Text → PolicyRegistry → JsonFields → Result PackError Output
guarded parts pack_id raw task_summary policies entries =
    integrity_or (guard_llm_output parts.search pack_id raw entries policies).0
    >>= validated parts pack_id task_summary policies

-- `parse_llm_output`
unfoldable pub parse_llm_output :
    PackParts → Text → Text → Text → PolicyRegistry → Result PackError Output
unfolding extract_json_object cross_check guard_llm_output apply_compliance_output is_regulated
parse_llm_output parts pack_id raw task_summary policies =
    extract_json_object parts.parse raw >>= guarded parts pack_id raw task_summary policies
