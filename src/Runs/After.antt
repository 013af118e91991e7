-- ===== src/Runs/After.antt =====
-- api/router_factory.py: what a run leaves behind.
use langgraph_agent_stack.Prelude.{
  if◌then◌else◌, ◌==◌, take, any, Text, is_blank, ℕ, zero, suc, ◌≡◌, refl, ap, Bool, true, false,
  none, some, List, [], ◌∷◌, arith, text_eq, nat_eq,
}
use langgraph_agent_stack.Reviews.{
  pending, ReviewRecord, CreateArgs, validate_create_args, new_record,
}
use langgraph_agent_stack.Runs.Finish.{
  returned, failed, find_auth_cause, run_code, Backends, save_run_best_effort,
  pack_requires_human_review, create_review_best_effort, release_session, finish_run,
  authentication, pipeline_error, ended, stream_error,
}
use langgraph_agent_stack.Runs.{
  Service, RunRequest, Ticket, or_none, remembered_version, requested_version,
}
use langgraph_agent_stack.History.Versions.{get_pack_version-save_run, Before}
use langgraph_agent_stack.Prelude.Dict
use langgraph_agent_stack.Policies
use langgraph_agent_stack.History.{ConversationMemory}
use langgraph_agent_stack.Reviews.Memory

find_auth_cause_lem :
    (depth : ℕ) (chain : List Bool) → find_auth_cause depth chain ≡ any (λ b. b) (take depth chain)
unfolding find_auth_cause
find_auth_cause_lem zero chain = refl
find_auth_cause_lem (suc depth) [] = refl
find_auth_cause_lem (suc depth) (a ∷ chain) = ground (arith, find_auth_cause_lem depth chain)

-- A review that no one has decided yet, of the run that the ticket stands for.
abbrev pub review_of : Ticket → Text → Text → ReviewRecord
review_of t summary now = record {
  run_id = t.run_id;
  pack_id = t.pack_id;
  session_id = t.session_id;
  status = pending;
  output_summary = take 500 summary;
  created_at = now;
  decided_at = none;
  reviewer = none;
  notes = none;
}

created_new :
    (a : CreateArgs) (now : Text) (store : Memory.InMemoryReviewStore)
    → is_blank a.run_id ≡ false
    → is_blank a.pack_id ≡ false
    → Memory.get a.run_id store ≡ none
    → (Memory.create a now store).1
      ≡ record { records = Dict.put a.run_id (new_record a now) store.records }
unfolding Memory.create Memory.insert_new Memory.get validate_create_args new_record
created_new a now store r p fresh =
    rw (Memory.create, validate_create_args, r, p, Memory.insert_new, fresh) refl

queued_review :
    (b : Backends) (t : Ticket) (summary : Text) (policies : Policies.PolicyRegistry)
    (store : Memory.InMemoryReviewStore)
    → pack_requires_human_review t.pack_id policies ≡ true
    → b.queues ≡ true
    → is_blank t.run_id ≡ false
    → is_blank t.pack_id ≡ false
    → Memory.get t.run_id store ≡ none
    → create_review_best_effort b t summary policies (some store)
      ≡ some
          (record { records = Dict.put t.run_id (review_of t summary b.queued_at) store.records })
unfolding create_review_best_effort new_record
queued_review b t summary policies store requires queues r p fresh =
    rw (requires, queues) (ap some (created_new _ b.queued_at store r p fresh))

-- After a run of a pack whose policy requires a human review, with a review store that carries out
-- the call, the answer is 200, the run has a pending review with its pack and session, the first 500
-- characters of its summary and no decision, and every other review stays as it was, whatever
-- becomes of the run history. The run id and the pack id are
-- not blank, and the run had no review before.
pub finish_run-queues :
    (t : Ticket) (summary k : Text) (b : Backends) (s : Service)
    (store : Memory.InMemoryReviewStore)
    → s.review_store ≡ some store
    → pack_requires_human_review t.pack_id s.policies ≡ true
    → b.queues ≡ true
    → is_blank t.run_id ≡ false
    → is_blank t.pack_id ≡ false
    → Memory.get t.run_id store ≡ none
    → ((finish_run t (returned summary) b s).0 ≡ 200)
      × (after : Memory.InMemoryReviewStore) × ((finish_run t (returned summary) b s).1.review_store
          ≡ some after)
      × (Memory.get k after
          ≡ (if t.run_id == k then some (review_of t summary b.queued_at) else Memory.get k store))
unfolding finish_run run_code Memory.get
finish_run-queues t summary k b s store has requires queues r p fresh = (
  refl,
  record { records = Dict.put t.run_id (review_of t summary b.queued_at) store.records },
  rw has (queued_review b t summary s.policies store requires queues r p fresh),
  Dict.get-put t.run_id k _ store.records,
)

-- A run of a session that ends well, and is saved later than every run before it, with a run id and
-- a query that are not blank, binds the session to its version: the next request of the session for
-- this pack that names no version asks for the version that this run used.
pub finish_run-binds :
    (t : Ticket) (summary session_id : Text) (b : Backends) (s : Service)
    (memory : ConversationMemory) (q : RunRequest)
    → s.shared_memory ≡ some memory
    → b.saves ≡ true
    → is_blank t.run_id ≡ false
    → is_blank t.query ≡ false
    → t.session_id ≡ some session_id
    → Before b.saved_at memory.rows
    → or_none q.pack_version ≡ none
    → or_none q.session_id ≡ some session_id
    → requested_version t.pack_id q (finish_run t (returned summary) b s).1 ≡ some t.pack_version
unfolding finish_run save_run_best_effort release_session requested_version remembered_version
finish_run-binds t summary session_id b s memory q has saves r n given before header session =
    rw (requested_version, header, session, has, saves)
      (get_pack_version-save_run
        (record {
          run_id = t.run_id;
          query = t.query;
          result = summary;
          session_id = t.session_id;
          pack_id = some t.pack_id;
          pack_version = some t.pack_version;
          created_at = b.saved_at;
        })
        session_id t.pack_id memory r n given refl before)

-- A run that ends in an agent's error gives 502 exactly when one of the first ten exceptions of its
-- chain of causes is a failed authentication, and 500 otherwise; a stream's last event says the same.
pub run_code-failed :
    (chain : List Bool)
    → (run_code (failed chain) ≡ (if any (λ b. b) (take 10 chain) then 502 else 500))
      × (stream_error (ended (failed chain))
          ≡ some (if any (λ b. b) (take 10 chain) then authentication else pipeline_error))
unfolding run_code stream_error
run_code-failed chain = rw (find_auth_cause_lem 10 chain) (refl, refl)
