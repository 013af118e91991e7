-- ===== src/Policies.antt =====
-- control_plane: pack policies, their registry, and the limits that the API applies from them;
-- domain_packs/common/compliance.py: the compliance fields of regulated packs. Budgets and time
-- limits are whole numbers of a fixed unit.
pub mod Disclaimers
pub mod Limits
pub mod Compliance
mod Tests
use langgraph_agent_stack.Prelude.{
  ltb, if◌then◌else◌, is_some, or_else, length, Text, text, nonempty, Result, guard, ok, ℕ, min,
  Bool, true, false, not, ◌&&◌, Option, none, some, List, [], ◌∷◌, text_eq, nat_eq, ◌>>=◌, ◌>>◌,
}
use langgraph_agent_stack.Prelude.Json.{Json}
use langgraph_agent_stack.Prelude.Dict
use langgraph_agent_stack.Prelude.Dict.{Dict}
use langgraph_agent_stack.Policies.Disclaimers.{default_disclaimer_for_pack, last_resort_disclaimer}
use langgraph_agent_stack.Validation.{
  ValidationError, InputValidator, too_long, check_content_safety, validate,
}

pub record ExecutionConstraints : Type 0 where
  pub max_query_chars : Option ℕ
  pub stream_timeout_seconds : Option ℕ
  pub budget_usd_ceiling : Option ℕ

-- `extensions` are the flags that the program reads of it.
pub record PackPolicy : Type 0 where
  pub pack_id : Text
  pub constraints : ExecutionConstraints
  pub human_review_required : Bool
  pub compliance_disclaimer : Option Text
  pub output_integrity_fail_closed : Bool
  pub output_cross_check : Bool

pub data PolicyError : Type 0 where
  empty_pack_id : PolicyError

abbrev pub PolicyRegistry : Type 0
PolicyRegistry = Dict Text PackPolicy

unfoldable pub register : PackPolicy → PolicyRegistry → Result PolicyError PolicyRegistry
register policy policies = do
  guard (nonempty policy.pack_id) empty_pack_id
  ok (Dict.put policy.pack_id policy policies)

unfoldable pub get : Text → PolicyRegistry → Option PackPolicy
get pack_id policies = Dict.get pack_id policies

-- The settings that the limits read.
pub record Settings : Type 0 where
  pub pack_default_budget_usd : Option ℕ
  pub stream_timeout_seconds : ℕ
  pub regulated_packs_enabled : Bool

unfoldable pub effective_budget_usd : Text → Settings → PolicyRegistry → Option ℕ
unfolding get
effective_budget_usd pack_id settings policies = elim settings.pack_default_budget_usd [
  | some budget ↦ some budget
  | none ↦ elim (get pack_id policies) [
    | none ↦ none
    | some policy ↦ policy.constraints.budget_usd_ceiling
  ]
]

unfoldable pub effective_stream_timeout_seconds : Text → Settings → PolicyRegistry → ℕ
unfolding get
effective_stream_timeout_seconds pack_id settings policies = elim (get pack_id policies) [
  | none ↦ settings.stream_timeout_seconds
  | some policy ↦ elim policy.constraints.stream_timeout_seconds [
    | none ↦ settings.stream_timeout_seconds
    | some cap ↦ min settings.stream_timeout_seconds cap
  ]
]

-- `policy.constraints.max_query_chars if policy … else None`
unfoldable pub max_query_chars : Option PackPolicy → Option ℕ
max_query_chars none = none
max_query_chars (some policy) = policy.constraints.max_query_chars

unfoldable pub exceeds : Text → Option ℕ → Bool
exceeds s none = false
exceeds s (some cap) = ltb cap (length s)

unfoldable pub validate_query_for_pack :
    Text → Text → InputValidator → PolicyRegistry → Result ValidationError Text
unfolding max_query_chars exceeds get
validate_query_for_pack query pack_id validator policies = do
  guard (not (exceeds query (max_query_chars (get pack_id policies)))) too_long
  validate validator query

-- The value of a field of a typed body: a text, a list, or anything else; an item of a list is a
-- text or anything else.
pub data FieldValue : Type 0 where
  string : Text → FieldValue
  items : List (Option Text) → FieldValue
  other : FieldValue

-- A field with its `maxLength` in the schema.
pub record Field : Type 0 where
  pub name : Text
  pub max_length : Option ℕ
  pub value : FieldValue

-- `if isinstance(item, str) and item:`
unfoldable pub check_items : ℕ → List (Option Text) → Result ValidationError (Unit {0})
check_items cap [] = ok tt
check_items cap (none ∷ rest) = check_items cap rest
check_items cap (some s ∷ rest) =
    let later = check_items cap rest in
    if nonempty s then (do checked ← check_content_safety cap s; later) else later

unfoldable pub check_field : ℕ → Field → Result ValidationError (Unit {0})
unfolding check_items
check_field fallback_max f = elim f.value [
  | string s ↦
      if nonempty s
      then (do checked ← check_content_safety (or_else f.max_length fallback_max) s; ok tt)
      else ok tt
  | items rest ↦ check_items fallback_max rest
  | other ↦ ok tt
]

unfoldable pub check_fields : ℕ → List Field → Result ValidationError (Unit {0})
unfolding check_field
check_fields fallback_max [] = ok tt
check_fields fallback_max (f ∷ fields) =
    let later = check_fields fallback_max fields in do checked ← check_field fallback_max f; later

unfoldable pub validate_pack_body :
    List Field → Text → InputValidator → PolicyRegistry → Result ValidationError (Unit {0})
unfolding check_fields max_query_chars get
validate_pack_body fields pack_id validator policies =
    check_fields (or_else (max_query_chars (get pack_id policies)) validator.max_length) fields

-- `REGULATED_PACK_IDS`: the keys of `_DEFAULT_DISCLAIMERS`.
unfoldable pub is_regulated : Text → Bool
is_regulated pack_id = is_some (default_disclaimer_for_pack pack_id)

-- `assert_regulated_pack_runtime_enabled`: false where it raises.
unfoldable pub regulated_pack_allowed : Text → Bool → Bool
unfolding is_regulated
regulated_pack_allowed pack_id enabled = not (is_regulated pack_id && not enabled)

-- A field of a pack's output: a flag, a text, or any other value.
pub data OutputValue : Type 0 where
  flag : Bool → OutputValue
  words : Text → OutputValue
  value : Json → OutputValue

abbrev pub Output : Type 0
Output = Dict Text OutputValue

-- `policy.compliance_disclaimer or default_disclaimer_for_pack(pack_id)`, and the last resort.
unfoldable pub disclaimer_for : Text → PackPolicy → Text
disclaimer_for pack_id policy =
    let default = or_else (default_disclaimer_for_pack pack_id) [] in
    let chosen =
      if nonempty (or_else policy.compliance_disclaimer [])
      then or_else policy.compliance_disclaimer []
      else default in
    if nonempty chosen then chosen else last_resort_disclaimer

unfoldable pub apply_compliance_output : Text → PolicyRegistry → Output → Output
unfolding disclaimer_for get
apply_compliance_output pack_id policies output = elim (get pack_id policies) [
  | none ↦ output
  | some policy ↦
      if policy.human_review_required
      then Dict.put (text "disclaimer") (words (disclaimer_for pack_id policy))
          (Dict.put (text "human_review_required") (flag true) output)
      else output
]
