-- ===== src/Reviews/Sqlite.antt =====
-- core/review_store.py: `SqliteReviewStore`. The table is the list of its rows, each with its `id`;
-- a statement is what SQLite documents for it: the UNIQUE constraint of `run_id`, AUTOINCREMENT,
-- an UPDATE of every row that the WHERE clause takes, ORDER BY, LIMIT and OFFSET.
mod Rows
pub mod Agreement
use langgraph_agent_stack.Prelude.{
  ltb, leb, if◌then◌else◌, ◌==◌, take, drop, filter, any, Text, Result, guard, ok, err, ℕ, zero,
  suc, ◌+◌, Bool, ◌&&◌, Option, none, some, List, [], ◌∷◌, ◌++◌, text_eq, nat_eq, ◌>>◌,
}
use langgraph_agent_stack.Reviews.{
  ReviewStatus, is_pending, ReviewRecord, ReviewError, exists, not_found, int_too_large,
  already_decided, CreateArgs, DecideArgs, validate_create_args, validate_decision_args,
  validate_list_args, new_record, decided_record, matches_status, Call, Answer, stored, found, page,
  Reply,
}
use langgraph_agent_stack.Prelude.Int.{ℤ, to_ℕ}
use langgraph_agent_stack.Prelude.Count.{count_if}

pub record Row : Type 0 where
  pub id : ℕ
  pub review : ReviewRecord

-- `next_id` is the AUTOINCREMENT counter.
pub record SqliteReviewStore : Type 0 where
  pub rows : List Row
  pub next_id : ℕ

abbrev pub init : SqliteReviewStore
init = record { rows = []; next_id = 1 }

-- `WHERE run_id = ?`
abbrev pub has_run_id : Text → Row → Bool
has_run_id run_id row = row.review.run_id == run_id

-- `fetchone()` of a SELECT by run_id
unfoldable pub select_one : Text → List Row → Option ReviewRecord
select_one run_id [] = none
select_one run_id (row ∷ rows) =
    if has_run_id run_id row then some row.review else select_one run_id rows

-- INSERT, where the UNIQUE constraint of `run_id` holds.
unfoldable pub insert_row : ReviewRecord → SqliteReviewStore → SqliteReviewStore
insert_row r s = record {
  rows = s.rows ++ record { id = s.next_id; review = r } ∷ [];
  next_id = s.next_id + 1;
}

-- `WHERE run_id = ? AND status = 'pending'`
abbrev pub to_decide : Text → Row → Bool
to_decide run_id row = has_run_id run_id row && is_pending row.review.status

-- UPDATE of each row that the clause takes
unfoldable pub update_rows : Text → DecideArgs → ReviewStatus → Text → List Row → List Row
update_rows run_id a d now [] = []
update_rows run_id a d now (row ∷ rows) =
    (if to_decide run_id row
      then record row { review = decided_record a d now row.review }
      else row)
    ∷ update_rows run_id a d now rows

-- ORDER BY id DESC
unfoldable pub insert_desc : Row → List Row → List Row
insert_desc row [] = row ∷ []
insert_desc row (r ∷ rows) = if ltb row.id r.id then r ∷ insert_desc row rows else row ∷ r ∷ rows

unfoldable pub order_by_id_desc : List Row → List Row
unfolding insert_desc
order_by_id_desc [] = []
order_by_id_desc (row ∷ rows) = insert_desc row (order_by_id_desc rows)

abbrev pub reviews_of : List Row → List ReviewRecord
reviews_of [] = []
reviews_of (row ∷ rows) = row.review ∷ reviews_of rows

unfoldable pub create :
    CreateArgs → Text → SqliteReviewStore → Result ReviewError ReviewRecord × SqliteReviewStore
create a now s = elim (validate_create_args a) [
  | err e ↦ (err e, s)
  | ok _ ↦
      let r = new_record a now in
      if any (has_run_id r.run_id) s.rows then (err exists, s) else (ok r, insert_row r s)
]

unfoldable pub get : Text → SqliteReviewStore → Option ReviewRecord
get run_id s = select_one run_id s.rows

-- The driver's limit on integer parameters, those of LIMIT and OFFSET among them.
abbrev pub max_sqlite_integer : ℕ
max_sqlite_integer = 0x7fffffffffffffff

abbrev pub fits_sqlite : ℤ → Bool
fits_sqlite n = leb (to_ℕ n) max_sqlite_integer

-- `WHERE status = ?` before the order; then LIMIT and OFFSET. A number beyond the driver's limit
-- raises an OverflowError.
unfoldable pub list_reviews :
    Option ReviewStatus → ℤ → ℤ → SqliteReviewStore → Result ReviewError (List ReviewRecord)
list_reviews status limit offset s = do
  validate_list_args limit offset
  guard (fits_sqlite limit && fits_sqlite offset) int_too_large
  let taken = filter (λ (row : Row). matches_status status row.review) s.rows
  ok (reviews_of (take (to_ℕ limit) (drop (to_ℕ offset) (order_by_id_desc taken))))

-- The reply after the UPDATE: `rowcount` is the number of rows that it took.
unfoldable pub decide_reply :
    ℕ → Option ReviewRecord → Option ReviewRecord → Result ReviewError ReviewRecord
decide_reply zero none now_there = err not_found
decide_reply zero (some r) now_there = err (already_decided r.status)
decide_reply (suc n) before none = err not_found
decide_reply (suc n) before (some r) = ok r

unfoldable pub decide :
    Text
    → DecideArgs
    → Text
    → SqliteReviewStore
    → Result ReviewError ReviewRecord × SqliteReviewStore
unfolding decide_reply
decide run_id a now s = elim (validate_decision_args a) [
  | err e ↦ (err e, s)
  | ok d ↦
      let rowcount = count_if (to_decide run_id) s.rows in
      let rows = update_rows run_id a d now s.rows in
      let found_row = select_one run_id rows in
      (decide_reply rowcount found_row found_row, record s { rows = rows })
]

abbrev reply_with {ℓ} : {A : Type ℓ} → (A → Answer) → Result ReviewError A → Reply
reply_with f (ok a) = ok (f a)
reply_with f (err e) = err e

-- One call, of any method.
unfoldable pub step : Call → SqliteReviewStore → Reply × SqliteReviewStore
step (Call.create a now) s = let (r, s') = create a now s in (reply_with stored r, s')
step (Call.get_review run_id) s = (ok (found (get run_id s)), s)
step (Call.list_reviews status limit offset) s =
    (reply_with page (list_reviews status limit offset s), s)
step (Call.decide run_id a now) s = let (r, s') = decide run_id a now s in (reply_with stored r, s')

-- The calls in the order in which they take the lock.
unfoldable pub run : List Call → SqliteReviewStore → List Reply × SqliteReviewStore
run [] s = ([], s)
run (c ∷ calls) s =
    let (reply, s') = step c s in let (replies, s'') = run calls s' in (reply ∷ replies, s'')
