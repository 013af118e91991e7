-- ===== src/Reviews/Memory.antt =====
-- core/review_store.py: `InMemoryReviewStore`. Each method runs under the lock, so a method is one
-- step from a state to a state; what it raises stands beside the state that it leaves.
pub mod Steps
pub mod History
pub mod Pages
use langgraph_agent_stack.Prelude.{
  if◌then◌else◌, is_some, take, drop, filter, Text, Result, ok, err, Option, none, some, List, [],
  ◌∷◌, reverse, text_eq, nat_eq, ◌>>◌,
}
use langgraph_agent_stack.Prelude.Dict
use langgraph_agent_stack.Prelude.Dict.{Dict}
use langgraph_agent_stack.Prelude.Int.{ℤ, to_ℕ}
use langgraph_agent_stack.Reviews.{
  ReviewStatus, ReviewRecord, ReviewError, CreateArgs, DecideArgs, exists, not_found,
  already_decided, is_pending, validate_create_args, validate_decision_args, validate_list_args,
  new_record, decided_record, matches_status, Call, Answer, Reply, stored, found, page,
}

pub record InMemoryReviewStore : Type 0 where
  pub records : Dict Text ReviewRecord

abbrev pub init : InMemoryReviewStore
init = record { records = [] }

-- The locked block of `create`.
unfoldable pub insert_new :
    ReviewRecord → InMemoryReviewStore → Result ReviewError ReviewRecord × InMemoryReviewStore
insert_new r s =
    if is_some (Dict.get r.run_id s.records)
    then (err exists, s)
    else (ok r, record { records = Dict.put r.run_id r s.records })

unfoldable pub create :
    CreateArgs → Text → InMemoryReviewStore → Result ReviewError ReviewRecord × InMemoryReviewStore
unfolding insert_new
create a now s = elim (validate_create_args a) [
  | err e ↦ (err e, s)
  | ok _ ↦ insert_new (new_record a now) s
]

unfoldable pub get : Text → InMemoryReviewStore → Option ReviewRecord
get run_id s = Dict.get run_id s.records

-- Newest first: the values in insertion order, reversed.
unfoldable pub list_reviews :
    Option ReviewStatus → ℤ → ℤ → InMemoryReviewStore → Result ReviewError (List ReviewRecord)
list_reviews status limit offset s = do
  validate_list_args limit offset
  let records = filter (matches_status status) (reverse (Dict.values s.records))
  ok (take (to_ℕ limit) (drop (to_ℕ offset) records))

-- The locked block of `decide`.
unfoldable pub decide_found :
    Text
    → DecideArgs
    → ReviewStatus
    → Text
    → Option ReviewRecord
    → InMemoryReviewStore
    → Result ReviewError ReviewRecord × InMemoryReviewStore
decide_found run_id a d now none s = (err not_found, s)
decide_found run_id a d now (some r) s =
    if is_pending r.status
    then (
      ok (decided_record a d now r),
      record { records = Dict.put run_id (decided_record a d now r) s.records },
    )
    else (err (already_decided r.status), s)

unfoldable pub decide :
    Text
    → DecideArgs
    → Text
    → InMemoryReviewStore
    → Result ReviewError ReviewRecord × InMemoryReviewStore
unfolding decide_found
decide run_id a now s = elim (validate_decision_args a) [
  | err e ↦ (err e, s)
  | ok d ↦ decide_found run_id a d now (Dict.get run_id s.records) s
]

abbrev reply_with {ℓ} : {A : Type ℓ} → (A → Answer) → Result ReviewError A → Reply
reply_with f (ok a) = ok (f a)
reply_with f (err e) = err e

-- One call, of any method.
unfoldable pub step : Call → InMemoryReviewStore → Reply × InMemoryReviewStore
step (Call.create a now) s = let (r, s') = create a now s in (reply_with stored r, s')
step (Call.get_review run_id) s = (ok (found (get run_id s)), s)
step (Call.list_reviews status limit offset) s =
    (reply_with page (list_reviews status limit offset s), s)
step (Call.decide run_id a now) s = let (r, s') = decide run_id a now s in (reply_with stored r, s')

-- The calls in the order in which they take the lock.
unfoldable pub run : List Call → InMemoryReviewStore → List Reply × InMemoryReviewStore
run [] s = ([], s)
run (c ∷ calls) s =
    let (reply, s') = step c s in let (replies, s'') = run calls s' in (reply ∷ replies, s'')
