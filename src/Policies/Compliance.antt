-- ===== src/Policies/Compliance.antt =====
-- domain_packs/common/compliance.py: the fields that a model's output cannot omit or weaken.
use langgraph_agent_stack.Prelude.{
  if◌then◌else◌, ◌==◌, or_else, Text, text, nonempty, ◌≡◌, refl, true, some, [], ◌∷◌, text_eq,
  nat_eq,
}
use langgraph_agent_stack.Prelude.Dict
use langgraph_agent_stack.Prelude.Dict.{Dict}
use langgraph_agent_stack.Policies.Disclaimers.{default_disclaimer_for_pack, last_resort_disclaimer}
use langgraph_agent_stack.Policies.{
  PackPolicy, PolicyRegistry, get, Output, flag, words, disclaimer_for, apply_compliance_output,
}

disclaimer_for-nonempty :
    (pack_id : Text) (policy : PackPolicy) → nonempty (disclaimer_for pack_id policy) ≡ true
unfolding disclaimer_for last_resort_disclaimer
disclaimer_for-nonempty pack_id policy = pick (
    if nonempty (or_else policy.compliance_disclaimer [])
    then or_else policy.compliance_disclaimer []
    else or_else (default_disclaimer_for_pack pack_id) [])
  where
    pick :
        (chosen : Text)
        → nonempty (if nonempty chosen then chosen else last_resort_disclaimer) ≡ true
    pick [] = refl
    pick (c ∷ s) = refl

-- Under a policy that requires a human review, whatever the model's output holds, the result says
-- that a review is required and has a disclaimer that is not empty; every other field is as the
-- model gave it.
pub apply_compliance_output-forces :
    (pack_id k : Text) (policies : PolicyRegistry) (output : Output) (policy : PackPolicy)
    → get pack_id policies ≡ some policy
    → policy.human_review_required ≡ true
    → (Dict.get k (apply_compliance_output pack_id policies output) ≡ (
        if text "disclaimer" == k
        then some (words (disclaimer_for pack_id policy))
        else if text "human_review_required" == k
        then some (flag true)
        else Dict.get k output))
      × (nonempty (disclaimer_for pack_id policy) ≡ true)
unfolding apply_compliance_output
apply_compliance_output-forces pack_id k policies output policy e r = (
  rw (e, apply_compliance_output, r, Dict.get-put, Dict.get-put),
  disclaimer_for-nonempty pack_id policy,
)
