-- ===== src/History/Redis.antt =====
-- core/memory.py: `RedisRunHistory`, over a Redis server that is a parameter. A hash is the run whose
-- fields it holds; scores are the times of creation; `zrevrange key n` gives the first `n` members
-- with the highest score first.
pub mod Keys
pub mod Indexes
pub mod Agreement
pub mod Replies
pub mod Server
mod Tests
use langgraph_agent_stack.Prelude.{
  if◌then◌else◌, ◌==◌, is_some, or_else, All, Text, text, strip, nonempty, is_blank, Result, ok,
  err, ℕ, ◌<◌, ◌≡◌, true, false, not, ◌&&◌, ◌||◌, Option, none, some, List, [], ◌∷◌, ◌++◌, map,
  text_eq, nat_eq,
}
use mathlib.Core.Option
use langgraph_agent_stack.Prelude.Int.{ℤ, pos, at_least, to_ℕ}
use langgraph_agent_stack.History.{
  Run, HistoryError, empty_run_id, empty_query, empty_session_id, bad_limit, is_value, JsonCodec,
  run_key, Entry, decoded,
}

pub record RunServer : Type 1 where
  pub State : Type 0
  pub empty : State
  pub hgetall : Text → State → Option Run
  pub hset : Text → Run → State → State
  pub zscore : Text → Text → State → Option ℕ
  pub zadd : Text → Text → ℕ → State → State
  pub zrevrange : Text → ℕ → State → List Text
  pub hgetall_empty : (k : Text) → hgetall k empty ≡ none
  pub zscore_empty : (key n : Text) → zscore key n empty ≡ none
  pub hgetall_hset :
      (j k : Text) (r : Run) (s : State)
      → hgetall j (hset k r s) ≡ (if k == j then some r else hgetall j s)
  pub hgetall_zadd : (j key n : Text) (t : ℕ) (s : State) → hgetall j (zadd key n t s) ≡ hgetall j s
  pub zscore_hset :
      (key n k : Text) (r : Run) (s : State) → zscore key n (hset k r s) ≡ zscore key n s
  pub zscore_zadd :
      (key n key' n' : Text) (t : ℕ) (s : State)
      → zscore key n (zadd key' n' t s)
        ≡ (if key' == key && n' == n then some t else zscore key n s)
  pub zrevrange_members :
      (key : Text) (k : ℕ) (s : State)
      → All (λ (n : Text). is_some (zscore key n s) ≡ true) (zrevrange key k s)
  pub zrevrange_top :
      (key n : Text) (t : ℕ) (s : State)
      → zscore key n s ≡ some t
      → ((n' : Text) (u : ℕ) → zscore key n' s ≡ some u → (n' == n) ≡ false → u < t)
      → zrevrange key 1 s ≡ n ∷ []

abbrev pub hash_key : Text → Text
hash_key run_id = text "runhistory:run:" ++ run_id

abbrev pub timeline_key : Text
timeline_key = text "runhistory:timeline"

abbrev pub session_key : Text → Text
session_key session_id = text "runhistory:session:" ++ session_id

abbrev pub session_pack_key : Text → Text → Text
session_pack_key session_id pack_id =
    text "runhistory:session:" ++ (session_id ++ (text ":pack:" ++ pack_id))

-- `metadata.get(key)`, where a missing value and an empty one count alike
abbrev pub value_or_empty : Option Text → Text
value_or_empty v = or_else v []

module _ (server : RunServer) where
  unfoldable pub index_session : Run → server.State → server.State
  index_session r s =
      let session_id = value_or_empty r.session_id in
      let pack_id = value_or_empty r.pack_id in
      let by_session = server.zadd (session_key session_id) r.run_id r.created_at s in
      let by_pack =
        server.zadd (session_pack_key session_id pack_id) r.run_id r.created_at by_session in
      if nonempty session_id then if nonempty pack_id then by_pack else by_session else s

  unfoldable pub redis_save_run : Run → server.State → Result HistoryError (Unit {0}) × server.State
  unfolding index_session
  redis_save_run r s =
      let saved = record r { query = strip r.query } in
      if is_blank r.run_id
      then (err empty_run_id, s)
      else if is_blank r.query
      then (err empty_query, s)
      else (
        ok tt,
        index_session r (
            server.zadd timeline_key r.run_id r.created_at
              (server.hset (hash_key r.run_id) saved s)),
      )

  unfoldable pub redis_get_run : Text → server.State → Option Run
  redis_get_run run_id s = server.hgetall (hash_key run_id) s

  -- `get_run` with `_decode`
  unfoldable pub redis_get_entry :
      (codec : JsonCodec) → Text → server.State → Option (Entry codec.Value)
  unfolding redis_get_run
  redis_get_entry codec run_id s =
      Option.map (λ r. decoded codec (run_key r.run_id) r) (redis_get_run run_id s)

  abbrev pub cons_found : Option Run → List Run → List Run
  cons_found none rest = rest
  cons_found (some r) rest = r ∷ rest

  -- `[r for rid in run_ids if (r := self.get_run(rid)) is not None]`
  unfoldable pub found_runs : List Text → server.State → List Run
  unfolding redis_get_run
  found_runs [] s = []
  found_runs (run_id ∷ rest) s = cons_found (redis_get_run run_id s) (found_runs rest s)

  unfoldable pub redis_list_runs : ℤ → server.State → Result HistoryError (List Run)
  unfolding found_runs
  redis_list_runs limit s =
      if at_least 1 limit
      then ok (found_runs (server.zrevrange timeline_key (to_ℕ limit) s) s)
      else err bad_limit

  unfoldable pub redis_list_runs_by_session :
      Text → ℤ → server.State → Result HistoryError (List Run)
  unfolding found_runs
  redis_list_runs_by_session session_id limit s =
      if is_blank session_id
      then err empty_session_id
      else if at_least 1 limit
      then ok (found_runs (server.zrevrange (session_key session_id) (to_ℕ limit) s) s)
      else err bad_limit

  abbrev pub version_of_run : Option Run → Option Text
  version_of_run none = none
  version_of_run (some r) = r.pack_version

  unfoldable pub version_of_pack : Text → List Run → Option Text
  unfolding is_value
  version_of_pack pack_id [] = none
  version_of_pack pack_id (r ∷ rest) =
      let later = version_of_pack pack_id rest in
      if is_value pack_id r.pack_id then r.pack_version else later

  abbrev pub or_nothing : Result HistoryError (List Run) → List Run
  or_nothing (ok runs) = runs
  or_nothing (err e) = []

  abbrev pub version_from : List Text → Text → Text → server.State → Option Text
  version_from (run_id ∷ rest) session_id pack_id s = version_of_run (redis_get_run run_id s)
  version_from [] session_id pack_id s =
      version_of_pack pack_id (or_nothing (redis_list_runs_by_session session_id (pos 50) s))

  unfoldable pub redis_get_pack_version : Text → Text → server.State → Option Text
  unfolding redis_list_runs_by_session version_of_pack redis_get_run
  redis_get_pack_version session_id pack_id s =
      if is_blank session_id || not (nonempty pack_id)
      then none
      else version_from (server.zrevrange (session_pack_key session_id pack_id) 1 s) session_id
          pack_id s
