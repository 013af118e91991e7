-- ===== src/Policies/Tests.antt =====
-- control_plane and domain_packs/common/compliance.py: a policy, and the theorems at it.
use langgraph_agent_stack.Prelude.{
  text, strip, ok, err, ◌≡◌, refl, true, false, none, some, List, [], ◌∷◌, text_eq, nat_eq,
}
use langgraph_agent_stack.Prelude.Dict
use langgraph_agent_stack.Validation.{
  InputValidator, too_long, collapse_newlines, has_null, check_content_safety, validate,
}
use langgraph_agent_stack.Policies.Disclaimers.{default_disclaimer_for_pack}
use langgraph_agent_stack.Policies.{
  PackPolicy, PolicyRegistry, get, register, max_query_chars, exceeds, validate_query_for_pack,
  string, items, other, Field, check_items, check_field, check_fields, validate_pack_body,
  empty_pack_id, is_regulated, regulated_pack_allowed, Output, flag, words, disclaimer_for,
  apply_compliance_output,
}

-- All that the runs below compute with.
program : Unit {0}
unfolding strip Dict.get Dict.put collapse_newlines has_null check_content_safety validate get
    register max_query_chars exceeds validate_query_for_pack check_items check_field check_fields
    validate_pack_body is_regulated regulated_pack_allowed default_disclaimer_for_pack
    disclaimer_for apply_compliance_output
program = tt

abbrev hr_policy : PackPolicy
hr_policy = record {
  pack_id = text "hr_policy_qa";
  constraints = record {
    max_query_chars = some 6;
    stream_timeout_seconds = none;
    budget_usd_ceiling = some 2;
  };
  human_review_required = true;
  compliance_disclaimer = none;
  output_integrity_fail_closed = false;
  output_cross_check = false;
}

abbrev policies : PolicyRegistry
policies = (text "hr_policy_qa", hr_policy) ∷ []

abbrev ten : InputValidator
ten = record { max_length = 10 }

no_name :
    register
      (record {
        pack_id = [];
        constraints = hr_policy.constraints;
        human_review_required = true;
        compliance_disclaimer = none;
        output_integrity_fail_closed = false;
        output_cross_check = false;
      })
      []
    ≡ err empty_pack_id
unfolding program
no_name = refl

over_the_policy :
    validate_query_for_pack (text "too long") (text "hr_policy_qa") ten policies ≡ err too_long
unfolding program
over_the_policy = refl

regulated_off : regulated_pack_allowed (text "hr_policy_qa") false ≡ false
unfolding program
regulated_off = refl

accepted :
    validate_query_for_pack (text " ok? ") (text "hr_policy_qa") ten policies ≡ ok (text "ok?")
unfolding program
accepted = refl

abbrev body : List Field
body =
    record { name = text "question"; max_length = some 20; value = string (text "how long?") }
    ∷ record {
      name = text "documents";
      max_length = none;
      value = items (some (text "doc") ∷ none ∷ []);
    }
    ∷ record { name = text "top_k"; max_length = none; value = other }
    ∷ []

body_accepted : validate_pack_body body (text "hr_policy_qa") ten policies ≡ ok tt
unfolding program
body_accepted = refl

abbrev answer : Output
answer = (text "human_review_required", flag false) ∷ (text "answer", words (text "yes")) ∷ []

has_policy : get (text "hr_policy_qa") policies ≡ some hr_policy
unfolding program
has_policy = refl

forced :
    Dict.get
      (text "human_review_required")
      (apply_compliance_output (text "hr_policy_qa") policies answer)
    ≡ some (flag true)
unfolding program
forced = refl
