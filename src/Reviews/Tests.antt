-- ===== src/Reviews/Tests.antt =====
-- core/review_store.py: runs of both backends, and the theorems at concrete calls.
use langgraph_agent_stack.Prelude.{
  text, is_blank, is_ok, ok, err, ◌≡◌, refl, inr, true, none, some, List, [], ◌∷◌, arith, text_eq,
  nat_eq,
}
use langgraph_agent_stack.Reviews.{
  int_too_large, CreateArgs, DecideArgs, ReviewRecord, Call, approved, already_decided, not_found,
  empty_run_id, bad_limit, bad_status, stored, valid_decision, validate_create_args,
  validate_decision_args, validate_list_args, new_record, decided_record, matches_status,
}
use langgraph_agent_stack.Reviews.Api
use langgraph_agent_stack.Reviews.Api.Codes
use langgraph_agent_stack.Prelude.Dict
use langgraph_agent_stack.Prelude.Int.{pos}
use langgraph_agent_stack.Reviews.Memory
use langgraph_agent_stack.Reviews.Memory.History
use langgraph_agent_stack.Reviews.Sqlite
use langgraph_agent_stack.Reviews.Sqlite.Agreement

-- All that the runs below compute with.
program : Unit {0}
unfolding Dict.get Dict.put is_blank Memory.create Memory.insert_new Memory.get Memory.list_reviews
    Memory.decide Memory.decide_found Memory.step Memory.run valid_decision validate_create_args
    validate_decision_args validate_list_args new_record decided_record matches_status
program = tt

abbrev new_run : CreateArgs
new_run = record {
  run_id = text "r1";
  pack_id = text "talent_screening";
  session_id = none;
  output_summary = text "{}";
}

abbrev approve : DecideArgs
approve = record { status = text "approved"; reviewer = text " ana "; notes = none }

abbrev reject : DecideArgs
reject = record { status = text "rejected"; reviewer = text "bo"; notes = some (text "no") }

abbrev calls : List Call
calls =
    Call.create new_run (text "t0")
    ∷ Call.decide (text "r1") approve (text "t1")
    ∷ Call.decide (text "r1") reject (text "t2")
    ∷ []

abbrev one_pending : Memory.InMemoryReviewStore
one_pending = (Memory.run (Call.create new_run (text "t0") ∷ []) Memory.init).1

abbrev approved_record : ReviewRecord
approved_record = record {
  run_id = text "r1";
  pack_id = text "talent_screening";
  session_id = none;
  status = approved;
  output_summary = text "{}";
  created_at = text "t0";
  decided_at = some (text "t1");
  reviewer = some (text "ana");
  notes = none;
}

abbrev one_approved : Memory.InMemoryReviewStore
one_approved = record { records = (text "r1", approved_record) ∷ [] }

calls_ran :
    (Memory.run calls Memory.init).0
    ≡ ok (stored (new_record new_run (text "t0")))
      ∷ ok (stored approved_record)
      ∷ err (already_decided approved)
      ∷ []
unfolding program
calls_ran = refl

refused :
    (Memory.run
      (Call.create (record new_run { run_id = text " " }) (text "t0")
        ∷ Call.decide (text "r1") approve (text "t1")
        ∷ Call.decide (text "r1") (record approve { status = text "pending" }) (text "t1")
        ∷ Call.list_reviews none (pos 0) (pos 0)
        ∷ [])
      Memory.init).0
    ≡ err empty_run_id ∷ err not_found ∷ err bad_status ∷ err bad_limit ∷ []
unfolding program
refused = refl

run-settled_example :
    Memory.get (text "r1") (Memory.run calls one_approved).1 ≡ some approved_record
unfolding program
run-settled_example = History.run-settled calls one_approved (text "r1") approved_record refl refl

memory_sqlite_agree_example :
    ((Memory.run calls Memory.init).0 ≡ (Sqlite.run calls Sqlite.init).0)
    × (is_ok (Memory.list_reviews none (pos 50) (pos 0x8000000000000000) Memory.init) ≡ true)
    × (Sqlite.list_reviews none (pos 50) (pos 0x8000000000000000) Sqlite.init ≡ err int_too_large)
memory_sqlite_agree_example =
    Agreement.memory_sqlite_agree calls none (pos 50) (pos 0x8000000000000000) Memory.init
      Sqlite.init (refl, (refl, (refl, tt))) refl refl (inr (omega arith))

decide_review-code_example :
    Api.status_of (Api.decide_review (text "r1") reject (text "t2") (some one_approved)).0 ≡ 409
unfolding program Api.valid_run_id Api.valid_decision_request
decide_review-code_example =
    Codes.decide_review-code (text "r1") reject (text "t2") one_approved refl refl

blank_reviewer_500 :
    Api.status_of
      (Api.decide_review
        (text "r1")
        (record approve { reviewer = text " " })
        (text "t2")
        (some one_pending)).0
    ≡ 500
unfolding program Api.valid_run_id Api.valid_decision_request Api.decide_review
    Api.decision_response
blank_reviewer_500 = refl
