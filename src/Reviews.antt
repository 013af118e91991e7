-- ===== src/Reviews.antt =====
-- core/review_store.py: the review record, the exceptions, and the checks that both backends share.
pub mod Memory
pub mod Sqlite
pub mod Api
mod Tests
use langgraph_agent_stack.Prelude.{
  if◌then◌else◌, ◌==◌, take, Text, text, strip, is_blank, Result, guard, ok, err, ℕ, Bool, true,
  false, not, Option, none, some, List, text_eq, nat_eq, ◌>>◌,
}
use langgraph_agent_stack.Prelude.Int.{ℤ, at_least}

-- `ReviewStatus`
pub data ReviewStatus : Type 0 where
  pending approved rejected : ReviewStatus

abbrev pub is_pending : ReviewStatus → Bool
is_pending pending = true
is_pending _ = false

abbrev pub same_status : ReviewStatus → ReviewStatus → Bool
same_status pending pending = true
same_status approved approved = true
same_status rejected rejected = true
same_status _ _ = false

-- Timestamps are the ISO texts that the clock hands out.
pub record ReviewRecord : Type 0 where
  pub run_id : Text
  pub pack_id : Text
  pub session_id : Option Text
  pub status : ReviewStatus
  pub output_summary : Text
  pub created_at : Text
  pub decided_at : Option Text
  pub reviewer : Option Text
  pub notes : Option Text

pub data ReviewError : Type 0 where
  empty_run_id empty_pack_id exists bad_status empty_reviewer bad_limit bad_offset : ReviewError
  not_found int_too_large : ReviewError
  already_decided : ReviewStatus → ReviewError

abbrev pub output_summary_max_chars : ℕ
output_summary_max_chars = 500

-- The keyword arguments of `create`.
pub record CreateArgs : Type 0 where
  pub run_id : Text
  pub pack_id : Text
  pub session_id : Option Text
  pub output_summary : Text

-- The keyword arguments of `decide`; `status` is a text that is checked at run time.
pub record DecideArgs : Type 0 where
  pub status : Text
  pub reviewer : Text
  pub notes : Option Text

-- `status in _VALID_DECISIONS`, with the decision that the text names.
unfoldable pub valid_decision : Text → Option ReviewStatus
valid_decision s =
    if s == text "approved"
    then some approved
    else if s == text "rejected"
    then some rejected
    else none

unfoldable pub validate_create_args : CreateArgs → Result ReviewError (Unit {0})
validate_create_args a = do
  guard (not (is_blank a.run_id)) empty_run_id
  guard (not (is_blank a.pack_id)) empty_pack_id

-- `_validate_decision_args`; the decision is handed on.
unfoldable pub validate_decision_args : DecideArgs → Result ReviewError ReviewStatus
validate_decision_args a = elim (valid_decision a.status) [
  | none ↦ err bad_status
  | some d ↦ if is_blank a.reviewer then err empty_reviewer else ok d
]

-- `_validate_list_args`
unfoldable pub validate_list_args : ℤ → ℤ → Result ReviewError (Unit {0})
validate_list_args limit offset = do
  guard (at_least 1 limit) bad_limit
  guard (at_least 0 offset) bad_offset

-- The pending record that `create` builds at the time `now`.
unfoldable pub new_record : CreateArgs → Text → ReviewRecord
new_record a now = record {
  run_id = a.run_id;
  pack_id = a.pack_id;
  session_id = a.session_id;
  status = pending;
  output_summary = take output_summary_max_chars a.output_summary;
  created_at = now;
  decided_at = none;
  reviewer = none;
  notes = none;
}

-- The columns that a decision writes.
unfoldable pub decided_record : DecideArgs → ReviewStatus → Text → ReviewRecord → ReviewRecord
decided_record a d now r = record r {
  status = d;
  decided_at = some now;
  reviewer = some (strip a.reviewer);
  notes = a.notes;
}

-- `status is None or r.status == status`
unfoldable pub matches_status : Option ReviewStatus → ReviewRecord → Bool
matches_status none r = true
matches_status (some wanted) r = same_status r.status wanted

-- A call of the store, with the time at which it is made, and what it returns.
pub data Call : Type 0 where
  create : CreateArgs → Text → Call
  get_review : Text → Call
  list_reviews : Option ReviewStatus → ℤ → ℤ → Call
  decide : Text → DecideArgs → Text → Call

pub data Answer : Type 0 where
  stored : ReviewRecord → Answer
  found : Option ReviewRecord → Answer
  page : List ReviewRecord → Answer

abbrev pub Reply : Type 0
Reply = Result ReviewError Answer
