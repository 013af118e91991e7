-- ===== src/Guard/Checked.antt =====
-- domain_packs/common/structured_llm.py: what the output of a regulated pack has been through.
use langgraph_agent_stack.Prelude.{
  take, Text, text, nonempty, Result, is_ok, ok_injective, bind_ok, ok, err, ◌≡◌, refl, sym, ap,
  ◌∙◌, Bool, true, false, not, Option, none, some, List, [], text_eq, nat_eq,
}
use langgraph_agent_stack.Guard.{GuardError, guard_llm_output}
use langgraph_agent_stack.Guard.Scan.{must_refuse, guard_llm_output-must_refuse}
use langgraph_agent_stack.Guard.Pack.{
  extract_json_object, output_of, PackParts, judge, cross_check, integrity_or, or_invalid_output,
  checked_output, validated, guarded, parse_llm_output,
}
use mathlib.Core.Path.{subst}
use langgraph_agent_stack.Policies.Compliance.{apply_compliance_output-forces}
use langgraph_agent_stack.Policies.{
  PackPolicy, PolicyRegistry, get, is_regulated, flag, words, Output, disclaimer_for,
  apply_compliance_output,
}
use langgraph_agent_stack.Prelude.Json.{JsonFields}
use langgraph_agent_stack.Policies
use langgraph_agent_stack.Prelude.Dict

-- A schema that keeps the two compliance fields of what it validates.
abbrev pub KeepsCompliance : PackParts → Type 0
KeepsCompliance parts =
    (strict : Bool) (given output : Output)
    → parts.model_validate strict given ≡ some output
    → (Dict.get (text "human_review_required") output
        ≡ Dict.get (text "human_review_required") given)
      × (Dict.get (text "disclaimer") output ≡ Dict.get (text "disclaimer") given)

-- Nothing suspicious was found where the policy fails closed; and where the pack is regulated, its
-- policy asks for a second look and there is a second model, that model was asked about this output
-- and its verdict is that it passes.
abbrev pub HasPassed :
    PackParts → Text → Text → Text → PolicyRegistry → PackPolicy → JsonFields → Output → Type 0
HasPassed parts pack_id raw task_summary policies policy entries output =
    (must_refuse parts.search pack_id raw entries policies ≡ false)
    × (is_regulated pack_id ≡ true
        → policy.output_cross_check ≡ true
        → (ask : Text → Output → Text) → parts.second_model ≡ some ask
        → (reasons : List Text) × (parts.verdict_of (ask (take 2000 task_summary) output)
            ≡ some (true, reasons)))

judge-passed :
    (verdict : Option (Bool × List Text))
    → judge verdict ≡ ok tt
    → (reasons : List Text) × (verdict ≡ some (true, reasons))
judge-passed none h = absurd (cc)
judge-passed (some (true, reasons)) h = (reasons, refl)
judge-passed (some (false, reasons)) h = absurd (cc)

crossed-asked :
    (parts : PackParts) (pack_id task_summary : Text) (output : Output) (policies : PolicyRegistry)
    (policy : PackPolicy) (ask : Text → Output → Text)
    → cross_check parts pack_id task_summary output policies ≡ ok tt
    → Policies.get pack_id policies ≡ some policy
    → is_regulated pack_id ≡ true
    → policy.output_cross_check ≡ true
    → parts.second_model ≡ some ask
    → (reasons : List Text) × (parts.verdict_of (ask (take 2000 task_summary) output)
        ≡ some (true, reasons))
unfolding cross_check
crossed-asked parts pack_id task_summary output policies policy ask h known regulated asks second =
    judge-passed _ (rw (cross_check, regulated, known, asks, second) at h)

valid_some :
    (found : Option Output) (output : Output)
    → or_invalid_output found ≡ ok output
    → found ≡ some output
valid_some none output h = absurd (cc)
valid_some (some o) output h = ap some (ok_injective o output h)

passed_guard :
    (r : Result GuardError JsonFields) (entries : JsonFields)
    → integrity_or r ≡ ok entries
    → is_ok r ≡ true
passed_guard (ok e) entries h = refl
passed_guard (err e) entries h = absurd (cc)

not_refused :
    (parts : PackParts) (pack_id raw : Text) (policies : PolicyRegistry)
    (entries entries' : JsonFields)
    → integrity_or (guard_llm_output parts.search pack_id raw entries policies).0 ≡ ok entries'
    → must_refuse parts.search pack_id raw entries policies ≡ false
not_refused parts pack_id raw policies entries entries' h =
    off (must_refuse parts.search pack_id raw entries policies) (
      sym (guard_llm_output-must_refuse parts.search pack_id raw entries policies).0
      ∙ passed_guard (guard_llm_output parts.search pack_id raw entries policies).0 entries' h)
  where
    off : (b : Bool) → not b ≡ true → b ≡ false
    off true e = absurd (cc)
    off false e = refl

-- When a pack under a policy that requires a human review returns an output, and its schema keeps
-- the two compliance fields, the output says that a review is required and carries a disclaimer
-- that is not empty, whatever the model wrote; the answer was a JSON object, or an array with one,
-- in which nothing must be refused; and where the pack is regulated, its policy asks for a second look
-- and there is a second model, that model's verdict on this output is that it passes.
pub parse_llm_output-HasPassed :
    (parts : PackParts) (pack_id raw task_summary : Text) (policies : PolicyRegistry)
    (policy : PackPolicy) (output : Output)
    → parse_llm_output parts pack_id raw task_summary policies ≡ ok output
    → Policies.get pack_id policies ≡ some policy
    → policy.human_review_required ≡ true
    → KeepsCompliance parts
    → (Dict.get (text "human_review_required") output ≡ some (flag true))
      × (Dict.get (text "disclaimer") output ≡ some (words (disclaimer_for pack_id policy)))
      × (nonempty (disclaimer_for pack_id policy) ≡ true)
      × ((entries : JsonFields) × (extract_json_object parts.parse raw ≡ ok entries)
          × HasPassed parts pack_id raw task_summary policies policy entries output)
unfolding parse_llm_output
parse_llm_output-HasPassed parts pack_id raw task_summary policies policy output h known required
      keeps =
    let (entries, extracted, rest) =
      bind_ok (extract_json_object parts.parse raw)
        (guarded parts pack_id raw task_summary policies) output h in
    let (entries', let_through, rest') =
      bind_ok (integrity_or (guard_llm_output parts.search pack_id raw entries policies).0)
        (validated parts pack_id task_summary policies) output rest in
    let (output', valid, rest'') =
      bind_ok
        (or_invalid_output (
          parts.model_validate (is_regulated pack_id)
            (apply_compliance_output pack_id policies (output_of entries' []))))
        (checked_output parts pack_id task_summary policies) output rest' in
    let (u, crossed, last) =
      bind_ok (cross_check parts pack_id task_summary output' policies) (λ u. ok output') output
        rest'' in
    let same : output' ≡ output = ok_injective output' output last in
    let given = apply_compliance_output pack_id policies (output_of entries' []) in
    let kept =
      keeps (is_regulated pack_id) given output (valid_some _ output' valid ∙ ap some same) in
    let flagged =
      apply_compliance_output-forces pack_id (text "human_review_required") policies
        (output_of entries' []) policy known required in
    let warned =
      apply_compliance_output-forces pack_id (text "disclaimer") policies (output_of entries' [])
        policy known required in
    (
      kept.0 ∙ flagged.0,
      kept.1 ∙ warned.0,
      warned.1,
      (
        entries,
        extracted,
        (
          not_refused parts pack_id raw policies entries entries' let_through,
          λ regulated asks ask second.
              crossed-asked parts pack_id task_summary output policies policy ask
                (subst (λ o. cross_check parts pack_id task_summary o policies ≡ ok tt) same
                  crossed)
                known regulated asks second,
        ),
      ),
    )
