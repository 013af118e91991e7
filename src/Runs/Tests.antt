-- ===== src/Runs/Tests.antt =====
-- api/router_factory.py: a service with one pack, and the theorems at it.
use langgraph_agent_stack.Prelude.{
  ltb, if◌then◌else◌, ◌==◌, Text, text, is_blank, is_ok, ok, err, ◌≡◌, refl, ap, true, false, none,
  some, [], ◌∷◌, text_eq, nat_eq,
}
use langgraph_agent_stack.Runs.{
  requested_version, try_session, Service, RunRequest, session_in_flight, Ticket, check_request,
  start_run, start_stream,
}
use langgraph_agent_stack.Runs.Finish.{
  pack_requires_human_review, returned, budget_exceeded, Backends, finish_run,
}
use langgraph_agent_stack.Prelude.Dict
use langgraph_agent_stack.Packs
use langgraph_agent_stack.Packs.{PackClass, Pick}
use langgraph_agent_stack.Policies
use langgraph_agent_stack.Policies.Disclaimers.{default_disclaimer_for_pack}
use langgraph_agent_stack.Validation.{validate, check_content_safety, has_null, collapse_newlines}
use langgraph_agent_stack.Policies.{PackPolicy, string, is_regulated, regulated_pack_allowed}
use langgraph_agent_stack.History
use langgraph_agent_stack.Runs.Admission.{
  IsAdmitted, start_run-ok, start_run-conflict, regulated_only_run,
}
use langgraph_agent_stack.Runs.After.{finish_run-queues, finish_run-binds, review_of}
use langgraph_agent_stack.Runs.InFlight.{all_holders, Reaches-IsExact}
use langgraph_agent_stack.Runs.Server.{Server, Step, Reaches, IsIdle}
use langgraph_agent_stack.Reviews.Memory
use langgraph_agent_stack.Sessions.{is_held, try_acquire}

abbrev hr : Text
hr = text "hr_policy_qa"

abbrev cls : PackClass
cls = record {
  class_id = 1;
  pack_id = some hr;
  name = some (text "HR");
  description = some (text "answers");
  version = some (text "1.0");
}

abbrev hr_policy : PackPolicy
hr_policy = record {
  pack_id = hr;
  constraints = record {
    max_query_chars = some 20;
    stream_timeout_seconds = none;
    budget_usd_ceiling = none;
  };
  human_review_required = true;
  compliance_disclaimer = none;
  output_integrity_fail_closed = false;
  output_cross_check = false;
}

abbrev service : Service
service = record {
  shutting_down = false;
  registry = (hr, record { version = text "1.0"; pack_cls = cls; weight = 1000 } ∷ []) ∷ [];
  policies = (hr, hr_policy) ∷ [];
  validator = record { max_length = 100 };
  regulated_packs_enabled = true;
  sessions = record { sessions = [] };
  shared_memory = some (record { rows = [] });
  review_store = some (record { records = [] });
}

abbrev request : RunRequest
request = record {
  run_id = text "r1";
  pack_version = none;
  session_id = some (text "s1");
  fields = record { name = text "question"; max_length = none; value = string (text "how?") } ∷ [];
  primary_text = text "how?";
  pick = Pick.random 0;
}

abbrev ticket : Ticket
ticket = record {
  run_id = text "r1";
  pack_id = hr;
  pack_version = text "1.0";
  session_id = some (text "s1");
  query = text "how?";
}

abbrev backends : Backends
backends = record { saves = true; saved_at = 5; queues = true; queued_at = text "t0" }

abbrev idle : Server
idle = record {
  service = service;
  in_flight = [];
  streams = [];
  legacy = [];
  legacy_streams = [];
  unread = [];
}

abbrev busy : Server
busy = record {
  service = record service { sessions = record { sessions = text "s1" ∷ [] } };
  in_flight = ticket ∷ [];
  streams = [];
  legacy = [];
  legacy_streams = [];
  unread = [];
}

-- All that the runs below compute with.
program : Unit {0}
unfolding is_blank start_run check_request Packs.get Dict.get History.get_pack_version_for_session
    Packs.get_versions Policies.validate_pack_body check_content_safety has_null
    Policies.validate_query_for_pack validate collapse_newlines regulated_pack_allowed
    default_disclaimer_for_pack try_acquire pack_requires_human_review
program = tt

starts : start_run hr request service ≡ (ok ticket, busy.service)
unfolding program start_run
starts = refl

ends : (finish_run ticket budget_exceeded backends busy.service).0 ≡ 402
unfolding program finish_run
ends = refl

one_run : Reaches idle busy
one_run =
    Reaches.then (Reaches.here idle) (Step.started_run idle hr request ticket busy.service starts)

idle-IsIdle : IsIdle idle
idle-IsIdle = record {
  none_in_flight = refl;
  no_streams = refl;
  no_legacy = refl;
  no_legacy_streams = refl;
  none_unread = refl;
  none_held = refl;
}

-- A stream that is started and never read, in a server without runs.
abbrev lost : Server
lost = record busy { in_flight = []; unread = some (text "s1") ∷ [] }

abbrev streaming : Server
streaming = record busy { in_flight = []; streams = ticket ∷ [] }

stream_starts : start_stream hr request service ≡ (ok ticket, streaming.service)
unfolding program start_stream
stream_starts = refl

lost_stream : Reaches idle lost
lost_stream =
    Reaches.then
      (Reaches.then (Reaches.here idle)
        (Step.started_stream idle hr request ticket streaming.service stream_starts))
      (Step.unread_stream streaming [] [] ticket refl)

-- The session of the lost stream stays taken.
lost_session : (start_run hr request lost.service).0 ≡ err session_in_flight
unfolding program
lost_session = refl

Reaches-IsExact_example :
    all_holders (text "s1") busy
    ≡ (if is_held (text "s1") busy.service.sessions.sessions then 1 else 0)
Reaches-IsExact_example = Reaches-IsExact one_run idle-IsIdle (text "s1")

start_run-ok_example :
    IsAdmitted hr request service ticket
    × (regulated_pack_allowed hr true ≡ true)
    × ((try_session (some (text "s1")) service.sessions).0 ≡ true)
start_run-ok_example = start_run-ok hr request service ticket (ap (λ p. p.0) starts)

second_passes : check_request hr request busy.service ≡ ok ticket
unfolding program
second_passes = refl

start_run-conflict_example :
    (start_run hr request busy.service).0
    ≡ (if ltb 0 (all_holders (text "s1") busy) then err session_in_flight else ok ticket)
unfolding program
start_run-conflict_example =
    start_run-conflict idle busy hr (text "s1") request ticket one_run idle-IsIdle second_passes
      refl refl

finish_run-queues_example :
    ((finish_run ticket (returned (text "{}")) backends busy.service).0 ≡ 200)
    × (after : Memory.InMemoryReviewStore) × ((finish_run ticket
          (returned (text "{}"))
          backends
          busy.service).1.review_store
        ≡ some after)
    × (Memory.get (text "r1") after ≡ (
        if text "r1" == text "r1"
        then some (review_of ticket (text "{}") (text "t0"))
        else Memory.get (text "r1") (record { records = [] })))
unfolding program Memory.get Policies.get
finish_run-queues_example =
    finish_run-queues ticket (text "{}") (text "r1") backends busy.service (record { records = [] })
      refl refl refl refl refl refl

disabled_stream_starts :
    is_ok (start_stream hr request (record service { regulated_packs_enabled = false })).0 ≡ true
unfolding program start_stream
disabled_stream_starts = refl

regulated_only_run_example :
    (is_ok (start_run hr request (record service { regulated_packs_enabled = false })).0 ≡ false)
    × ((start_stream hr request (record service { regulated_packs_enabled = false })).0
        ≡ (start_stream hr request service).0)
unfolding program is_regulated
regulated_only_run_example = regulated_only_run hr request service refl false

finish_run-binds_example :
    requested_version hr request (finish_run ticket (returned (text "{}")) backends busy.service).1
    ≡ some (text "1.0")
unfolding program
finish_run-binds_example =
    finish_run-binds ticket (text "{}") (text "s1") backends busy.service (record { rows = [] })
      request refl refl refl refl refl tt refl refl
