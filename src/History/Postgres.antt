-- ===== src/History/Postgres.antt =====
-- core/memory.py: `PostgresRunHistory`, and the choice of a store in `create_run_history`. The time
-- of creation is in the run; the table has one row per run id.
use langgraph_agent_stack.Prelude.{
  if◌then◌else◌, ◌==◌, Bool-cases, or_else, take, Text, strip, nonempty, is_blank, Result, ok, err,
  ◌≡◌, refl, inl, inr, Bool, true, false, not, ◌&&◌, ◌||◌, Option, none, some, List, [], text_eq,
  nat_eq,
}
use langgraph_agent_stack.Prelude.Dict
use langgraph_agent_stack.Prelude.Dict.{Dict}
use langgraph_agent_stack.Prelude.Int.{ℤ, at_least, to_ℕ}
use langgraph_agent_stack.History.Redis.Agreement.{hash_after}
use langgraph_agent_stack.History.Redis.{RunServer, redis_save_run, redis_get_run}
use langgraph_agent_stack.History.Queries.{select, is_session}
use langgraph_agent_stack.History.{
  Run, ConversationMemory, HistoryError, empty_run_id, empty_query, empty_session_id, bad_limit,
  save_run, get_run, is_run_of, latest,
}

pub record PostgresRunHistory : Type 0 where
  pub run_history : Dict Text Run

unfoldable pub postgres_save_run :
    Run → PostgresRunHistory → Result HistoryError (Unit {0}) × PostgresRunHistory
postgres_save_run r s =
    let row = record r { query = strip r.query } in
    if is_blank r.run_id
    then (err empty_run_id, s)
    else if is_blank r.query
    then (err empty_query, s)
    else (ok tt, record { run_history = Dict.put r.run_id row s.run_history })

unfoldable pub postgres_get_run : Text → PostgresRunHistory → Option Run
postgres_get_run run_id s = Dict.get run_id s.run_history

unfoldable pub postgres_list_runs : ℤ → PostgresRunHistory → Result HistoryError (List Run)
unfolding select
postgres_list_runs limit s =
    if at_least 1 limit
    then ok (take (to_ℕ limit) (select (λ r. true) s.run_history))
    else err bad_limit

unfoldable pub postgres_list_runs_by_session :
    Text → ℤ → PostgresRunHistory → Result HistoryError (List Run)
unfolding select is_session
postgres_list_runs_by_session session_id limit s =
    if is_blank session_id
    then err empty_session_id
    else if at_least 1 limit
    then ok (take (to_ℕ limit) (select (is_session session_id) s.run_history))
    else err bad_limit

abbrev pub row_version : Option Run → Option Text
row_version none = none
row_version (some r) = r.pack_version

unfoldable pub postgres_get_pack_version : Text → Text → PostgresRunHistory → Option Text
unfolding latest is_run_of
postgres_get_pack_version session_id pack_id s =
    if is_blank session_id || not (nonempty pack_id)
    then none
    else row_version (latest (is_run_of session_id pack_id) s.run_history)

pub data MemoryBackend : Type 0 where
  sqlite redis postgres : MemoryBackend

pub data Backend : Type 0 where
  conversation_memory redis_run_history postgres_run_history : Backend

-- Whether a store can be constructed: its package is installed and its server answers.
pub record Reachable : Type 0 where
  pub redis_store : Bool
  pub postgres_store : Bool

abbrev is_redis : MemoryBackend → Bool
is_redis redis = true
is_redis sqlite = false
is_redis postgres = false

abbrev is_postgres : MemoryBackend → Bool
is_postgres postgres = true
is_postgres sqlite = false
is_postgres redis = false

unfoldable pub create_run_history : MemoryBackend → Option Text → Option Text → Reachable → Backend
create_run_history backend redis_url postgres_url reachable =
    if is_redis backend && nonempty (or_else redis_url []) && reachable.redis_store
    then redis_run_history
    else if is_postgres backend && nonempty (or_else postgres_url []) && reachable.postgres_store
    then postgres_run_history
    else conversation_memory

-- What is saved is read back, with the white space around the query taken off, and no other run is
-- touched: in the SQLite, the Postgres and the Redis store, for a run whose id and query are not
-- blank. A refused run leaves the stores as they were.
pub get_run-save_run :
    (server : RunServer) (r : Run) (k : Text) (m : ConversationMemory) (p : PostgresRunHistory)
    (s : server.State)
    → (let stored = λ (before : Option Run).
          if is_blank r.run_id || is_blank r.query
          then before
          else if r.run_id == k
          then some (record r { query = strip r.query })
          else before in
        (get_run k (save_run r m).1 ≡ stored (get_run k m))
        × (postgres_get_run k (postgres_save_run r p).1 ≡ stored (postgres_get_run k p))
        × (redis_get_run server k (redis_save_run server r s).1
            ≡ stored (redis_get_run server k s)))
unfolding get_run save_run postgres_get_run postgres_save_run redis_get_run redis_save_run
get_run-save_run server r k m p s = elim (Bool-cases (is_blank r.run_id)) [
  | inl unnamed ↦ rw unnamed (refl, refl, refl)
  | inr named ↦ elim (Bool-cases (is_blank r.query)) [
    | inl unasked ↦ rw (named, unasked) (refl, refl, refl)
    | inr asked ↦
        rw (named, asked)
          (
            Dict.get-put r.run_id k (record r { query = strip r.query }) m.rows,
            Dict.get-put r.run_id k (record r { query = strip r.query }) p.run_history,
            hash_after server k r s,
          )
  ]
]
