-- ===== src/Runs.antt =====
-- api/router_factory.py: `run_pack` and `stream_pack`, the handlers of one pack's routes, in two
-- halves: the guards up to the acquired session, and what follows when the pack has ended; between
-- the two, other requests are handled. The framework iterates every stream that `stream_pack`
-- returns. agents/llm_retry.py: `find_auth_cause`.
pub mod Server
pub mod InFlight
pub mod Finish
pub mod Admission
pub mod After
mod Tests
use langgraph_agent_stack.Prelude.{
  if◌then◌else◌, ◌==◌, Text, text, Result, guard, ok, err, ℕ, Bool, true, not, Option, none, some,
  List, [], ◌∷◌, text_eq, nat_eq, ◌>>=◌, ◌>>◌,
}
use langgraph_agent_stack.Packs
use langgraph_agent_stack.Packs.{Registry, PackClass, PackVersion, Pick, get_versions}
use langgraph_agent_stack.Policies
use langgraph_agent_stack.Policies.{
  PolicyRegistry, Field, validate_query_for_pack, validate_pack_body, regulated_pack_allowed,
}
use langgraph_agent_stack.Reviews.Memory
use langgraph_agent_stack.History.{ConversationMemory, get_pack_version_for_session}
use langgraph_agent_stack.Sessions.{InMemorySessionRegistry, try_acquire}
use langgraph_agent_stack.Validation.{InputValidator}

-- What the handlers read and write of the process (api/state.py, the settings, the registries).
pub record Service : Type 0 where
  pub shutting_down : Bool
  pub registry : Registry
  pub policies : PolicyRegistry
  pub validator : InputValidator
  pub regulated_packs_enabled : Bool
  pub sessions : InMemorySessionRegistry
  pub shared_memory : Option ConversationMemory
  pub review_store : Option Memory.InMemoryReviewStore

-- A request: the new run id, the header `X-Pack-Version`, the body's fields and its primary text
-- (`pack_primary_text`), and the choice that its affinity key leads to.
pub record RunRequest : Type 0 where
  pub run_id : Text
  pub pack_version : Option Text
  pub session_id : Option Text
  pub fields : List Field
  pub primary_text : Text
  pub pick : Pick

pub data Refusal : Type 0 where
  server_shutting_down unknown_version invalid_input regulated_disabled session_in_flight : Refusal

abbrev pub refusal_code : Refusal → ℕ
refusal_code server_shutting_down = 503
refusal_code unknown_version = 404
refusal_code invalid_input = 422
refusal_code regulated_disabled = 403
refusal_code session_in_flight = 409

-- A run that was let through.
pub record Ticket : Type 0 where
  pub run_id : Text
  pub pack_id : Text
  pub pack_version : Text
  pub session_id : Option Text
  pub query : Text

-- `value or None`
abbrev pub or_none : Option Text → Option Text
or_none none = none
or_none (some []) = none
or_none (some (c ∷ s)) = some (c ∷ s)

unfoldable pub remembered_version : Text → Option Text → Option ConversationMemory → Option Text
remembered_version pack_id none memory = none
remembered_version pack_id (some session_id) none = none
remembered_version pack_id (some session_id) (some memory) =
    get_pack_version_for_session session_id pack_id memory

unfoldable pub requested_version : Text → RunRequest → Service → Option Text
unfolding remembered_version
requested_version pack_id q s = elim (or_none q.pack_version) [
  | some version ↦ some version
  | none ↦ remembered_version pack_id (or_none q.session_id) s.shared_memory
]

-- `next((pv.version for pv in … if pv.pack_cls is pack_cls_to_use), "unknown")`
unfoldable pub used_version : PackClass → List PackVersion → Text
used_version cls [] = text "unknown"
used_version cls (pv ∷ versions) =
    let rest = used_version cls versions in
    if pv.pack_cls.class_id == cls.class_id then pv.version else rest

abbrev pub refuse {ℓ} : {E A : Type ℓ} → Refusal → Result E A → Result Refusal A
refuse e (ok a) = ok a
refuse e (err _) = err e

-- The guards that both handlers start with.
unfoldable pub check_request : Text → RunRequest → Service → Result Refusal Ticket
unfolding requested_version used_version
check_request pack_id q s = do
  guard (not s.shutting_down) server_shutting_down
  pv ← refuse unknown_version (Packs.get pack_id (requested_version pack_id q s) q.pick s.registry)
  versions ← refuse unknown_version (get_versions pack_id s.registry)
  checked ← refuse invalid_input (validate_pack_body q.fields pack_id s.validator s.policies)
  query ←
      refuse invalid_input (validate_query_for_pack q.primary_text pack_id s.validator s.policies)
  ok (record {
    run_id = q.run_id;
    pack_id = pack_id;
    pack_version = used_version pv.pack_cls versions;
    session_id = or_none q.session_id;
    query = query;
  })

-- `session_id and not state.try_acquire_session(session_id)`: whether the run may go on.
unfoldable pub try_session : Option Text → InMemorySessionRegistry → Bool × InMemorySessionRegistry
try_session none sessions = (true, sessions)
try_session (some session_id) sessions = try_acquire session_id sessions

unfoldable pub acquire_session : Ticket → Service → Result Refusal Ticket × Service
unfolding try_session
acquire_session t s =
    let (free, sessions) = try_session t.session_id s.sessions in
    if free then (ok t, record s { sessions = sessions }) else (err session_in_flight, s)

-- `run_pack`, until the pack runs.
unfoldable pub start_run : Text → RunRequest → Service → Result Refusal Ticket × Service
unfolding check_request acquire_session
start_run pack_id q s = elim (check_request pack_id q s) [
  | err e ↦ (err e, s)
  | ok t ↦
      if regulated_pack_allowed pack_id s.regulated_packs_enabled
      then acquire_session t s
      else (err regulated_disabled, s)
]

-- `stream_pack`, until the stream starts.
unfoldable pub start_stream : Text → RunRequest → Service → Result Refusal Ticket × Service
unfolding check_request acquire_session
start_stream pack_id q s = elim (check_request pack_id q s) [
  | err e ↦ (err e, s)
  | ok t ↦ acquire_session t s
]
