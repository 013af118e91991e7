-- ===== src/History.antt =====
-- core/memory.py: `ConversationMemory`, the run history, as far as the pack router uses it. `run_id`
-- is unique in the table; a row that is written again gets the new columns. The times of creation
-- are numbers; of rows with the same time, `ORDER BY created_at DESC LIMIT 1` takes the first.
-- `Run` is the row of a run: `result` is the JSON text that `json.dumps` gave, and of the metadata
-- it holds the keys that the program reads. `Entry` is what `get_run` makes of a row.
use langgraph_agent_stack.Prelude.{
  ltb, if◌then◌else◌, ◌==◌, or_else, Text, strip, is_blank, Result, ok, err, ℕ, Bool, false, ◌&&◌,
  Option, none, some, [], ◌∷◌, map, text_eq, nat_eq,
}
use langgraph_agent_stack.Prelude.Dict
use mathlib.Core.Option
use langgraph_agent_stack.Prelude.Dict.{Dict}
pub mod Versions
pub mod Queries
pub mod Listed
pub mod Redis
pub mod Postgres
mod Tests

pub record Run : Type 0 where
  pub run_id : Text
  pub query : Text
  pub result : Text
  pub session_id : Option Text
  pub pack_id : Option Text
  pub pack_version : Option Text
  pub created_at : ℕ

pub record ConversationMemory : Type 0 where
  pub rows : Dict Text Run

abbrev pub init : ConversationMemory
init = record { rows = [] }

pub data HistoryError : Type 0 where
  empty_run_id empty_query empty_session_id bad_limit : HistoryError

-- `INSERT … ON CONFLICT(run_id) DO UPDATE`, after the checks.
unfoldable pub save_run :
    Run → ConversationMemory → Result HistoryError (Unit {0}) × ConversationMemory
save_run r s =
    if is_blank r.run_id
    then (err empty_run_id, s)
    else if is_blank r.query
    then (err empty_query, s)
    else (ok tt, record { rows = Dict.put r.run_id (record r { query = strip r.query }) s.rows })

unfoldable pub get_run : Text → ConversationMemory → Option Run
get_run run_id s = Dict.get run_id s.rows

-- `json.loads`, which may fail, and the value `{}`.
pub record JsonCodec : Type 1 where
  pub Value : Type 0
  pub loads : Text → Option Value
  pub empty_dict : Value

-- The key `id`: the number of the row in SQLite, the run's own id in Redis.
pub data EntryId : Type 0 where
  row_id : ℕ → EntryId
  run_key : Text → EntryId

pub record Entry (Value : Type 0) : Type 0 where
  pub id : EntryId
  pub run_id : Text
  pub query : Text
  pub result : Value
  pub session_id : Option Text
  pub pack_id : Option Text
  pub pack_version : Option Text
  pub created_at : ℕ

-- The decoding of a row; a result that is no JSON is read as `{}`.
abbrev pub decoded : (codec : JsonCodec) → EntryId → Run → Entry codec.Value
decoded codec id r = record {
  id = id;
  run_id = r.run_id;
  query = r.query;
  result = or_else (codec.loads r.result) codec.empty_dict;
  session_id = r.session_id;
  pack_id = r.pack_id;
  pack_version = r.pack_version;
  created_at = r.created_at;
}

-- `get_run` with `_row_to_dict`; `row_ids` are the numbers that SQLite gave to the rows.
unfoldable pub get_entry :
    (codec : JsonCodec) → (Text → ℕ) → Text → ConversationMemory → Option (Entry codec.Value)
unfolding get_run
get_entry codec row_ids run_id s =
    Option.map (λ r. decoded codec (row_id (row_ids run_id)) r) (get_run run_id s)

-- A column that is there and has this value.
unfoldable pub is_value : Text → Option Text → Bool
is_value k none = false
is_value k (some v) = v == k

-- The `WHERE` clause of `get_pack_version_for_session`.
unfoldable pub is_run_of : Text → Text → Run → Bool
unfolding is_value
is_run_of session_id pack_id r = is_value session_id r.session_id && is_value pack_id r.pack_id

unfoldable pub newer : Run → Option Run → Run
newer r none = r
newer r (some later) = if ltb r.created_at later.created_at then later else r

-- The newest of the rows that pass the test.
unfoldable pub latest : (Run → Bool) → Dict Text Run → Option Run
unfolding newer
latest test [] = none
latest test ((k, r) ∷ rows) =
    let found = latest test rows in if test r then some (newer r found) else found

unfoldable pub get_pack_version_for_session : Text → Text → ConversationMemory → Option Text
unfolding latest is_run_of
get_pack_version_for_session session_id pack_id s =
    elim (latest (is_run_of session_id pack_id) s.rows) [ none ↦ none | some r ↦ r.pack_version ]
