-- ===== src/Runs/Finish.antt =====
-- api/router_factory.py: `run_pack` and `stream_pack` once the pack has ended.
use langgraph_agent_stack.Prelude.{
  if◌then◌else◌, Text, ℕ, zero, suc, Bool, false, ◌&&◌, ◌||◌, Option, none, some, List, [], ◌∷◌,
}
use langgraph_agent_stack.Policies
use langgraph_agent_stack.Policies.{PolicyRegistry}
use langgraph_agent_stack.Reviews.Memory
use langgraph_agent_stack.History.{ConversationMemory, save_run}
use langgraph_agent_stack.Sessions.{InMemorySessionRegistry, release}
use langgraph_agent_stack.Runs.{Service, Ticket}

-- How a pack ends: with a result, of which the summary matters here, or with an exception. Of an
-- `AgentExecutionError` or `AgentValidationError`, the list says of it and of each exception that
-- its chain of causes leads to whether it is a failed authentication.
pub data Outcome : Type 0 where
  returned : Text → Outcome
  budget_exceeded timed_out authentication_failed other_error : Outcome
  failed : List Bool → Outcome

unfoldable pub find_auth_cause : ℕ → List Bool → Bool
find_auth_cause zero chain = false
find_auth_cause (suc depth) [] = false
find_auth_cause (suc depth) (is_auth ∷ causes) = is_auth || find_auth_cause depth causes

abbrev pub max_depth : ℕ
max_depth = 10

unfoldable pub run_code : Outcome → ℕ
unfolding find_auth_cause
run_code (returned summary) = 200
run_code budget_exceeded = 402
run_code timed_out = 504
run_code authentication_failed = 502
run_code (failed chain) = if find_auth_cause max_depth chain then 502 else 500
run_code other_error = 500

-- What the two backends do with the calls after a run: whether each is carried out, and when. A
-- call that fails or is cut off leaves its backend as it is.
pub record Backends : Type 0 where
  pub saves : Bool
  pub saved_at : ℕ
  pub queues : Bool
  pub queued_at : Text

unfoldable pub save_run_best_effort :
    Backends → Ticket → Text → Option ConversationMemory → Option ConversationMemory
save_run_best_effort b t result none = none
save_run_best_effort b t result (some memory) =
    if b.saves
    then some
        (save_run
          (record {
            run_id = t.run_id;
            query = t.query;
            result = result;
            session_id = t.session_id;
            pack_id = some t.pack_id;
            pack_version = some t.pack_version;
            created_at = b.saved_at;
          })
          memory).1
    else some memory

unfoldable pub pack_requires_human_review : Text → PolicyRegistry → Bool
pack_requires_human_review pack_id policies = elim (Policies.get pack_id policies) [
  | none ↦ false
  | some policy ↦ policy.human_review_required
]

unfoldable pub create_review_best_effort :
    Backends
    → Ticket
    → Text
    → PolicyRegistry
    → Option Memory.InMemoryReviewStore
    → Option Memory.InMemoryReviewStore
unfolding pack_requires_human_review
create_review_best_effort b t summary policies none = none
create_review_best_effort b t summary policies (some store) =
    if pack_requires_human_review t.pack_id policies && b.queues
    then some
        (Memory.create
          (record {
            run_id = t.run_id;
            pack_id = t.pack_id;
            session_id = t.session_id;
            output_summary = summary;
          })
          b.queued_at store).1
    else some store

-- The `finally` clauses: `if session_id: state.release_session(session_id)`.
unfoldable pub release_given : Option Text → InMemorySessionRegistry → InMemorySessionRegistry
release_given none sessions = sessions
release_given (some session_id) sessions = release session_id sessions

unfoldable pub release_session : Ticket → Service → Service
unfolding release_given
release_session t s = record s { sessions = release_given t.session_id s.sessions }

-- `run_pack`, from the end of the pack to its answer.
unfoldable pub finish_run : Ticket → Outcome → Backends → Service → ℕ × Service
unfolding run_code save_run_best_effort create_review_best_effort release_session
finish_run t (returned summary) b s = (
  run_code (returned summary),
  release_session t (record s {
    shared_memory = save_run_best_effort b t summary s.shared_memory;
    review_store = create_review_best_effort b t summary s.policies s.review_store;
  }),
)
finish_run t o b s = (run_code o, release_session t s)

-- The message of a stream's last event where it fails.
pub data StreamError : Type 0 where
  pipeline_timed_out authentication pipeline_error internal_error stream_timed_out : StreamError

-- A stream ends as its pack does, at its time limit, when the client leaves, or at once where the
-- pack cannot be built, which breaks the connection off.
pub data StreamEnd : Type 0 where
  ended : Outcome → StreamEnd
  out_of_time disconnected not_built : StreamEnd

unfoldable pub stream_error : StreamEnd → Option StreamError
unfolding find_auth_cause
stream_error (ended (returned summary)) = none
stream_error (ended budget_exceeded) = some internal_error
stream_error (ended timed_out) = some pipeline_timed_out
stream_error (ended authentication_failed) = some authentication
stream_error (ended (failed chain)) =
    some (if find_auth_cause max_depth chain then authentication else pipeline_error)
stream_error (ended other_error) = some internal_error
stream_error out_of_time = some stream_timed_out
stream_error disconnected = none
stream_error not_built = none

-- `stream_pack`, from the end of the events on: a stream saves no history.
unfoldable pub finish_stream :
    Ticket → StreamEnd → Backends → Service → Option StreamError × Service
unfolding stream_error create_review_best_effort release_session
finish_stream t (ended (returned summary)) b s = (
  stream_error (ended (returned summary)),
  release_session t
      (record s { review_store = create_review_best_effort b t summary s.policies s.review_store }),
)
finish_stream t e b s = (stream_error e, release_session t s)
