-- ===== src/Reviews/Api.antt =====
-- api/endpoints/reviews.py: the three review endpoints over `InMemoryReviewStore`, with the request
-- models of api/models.py. An exception that a handler does not catch is a 500.
pub mod Codes
use langgraph_agent_stack.Prelude.{
  leb, if◌then◌else◌, ◌==◌, is_some, length, all, Text, Result, ok, err, ℕ, Bool, true, false, ◌&&◌,
  ◌||◌, Option, none, some, List, [], ◌∷◌, text_eq, nat_eq,
}
use langgraph_agent_stack.Prelude.Int.{ℤ, pos, negsuc, at_least}
use langgraph_agent_stack.Reviews.{
  ReviewStatus, ReviewRecord, ReviewError, DecideArgs, not_found, already_decided, valid_decision,
}
use langgraph_agent_stack.Reviews.Memory.{InMemoryReviewStore}
use langgraph_agent_stack.Reviews.Memory

-- A response: 200 with the entries, or an error status.
pub data Response : Type 0 where
  entries : List ReviewRecord → Response
  http : ℕ → Response

abbrev pub status_of : Response → ℕ
status_of (entries rs) = 200
status_of (http code) = code

abbrev pub is_id_char : ℕ → Bool
is_id_char c =
    (leb b'a' c && leb c b'z')
    || (leb b'A' c && leb c b'Z')
    || (leb b'0' c && leb c b'9')
    || (c == b'_')
    || (c == b'-')

-- `_RUN_ID_PATH`: 1 to 64 characters of the pattern.
unfoldable pub valid_run_id : Text → Bool
valid_run_id run_id = leb 1 (length run_id) && leb (length run_id) 64 && all is_id_char run_id

abbrev pub notes_fit : Option Text → Bool
notes_fit none = true
notes_fit (some notes) = leb (length notes) 4000

-- `ReviewDecisionRequest`: the status literal and the length limits.
unfoldable pub valid_decision_request : DecideArgs → Bool
valid_decision_request body =
    is_some (valid_decision body.status)
    && leb 1 (length body.reviewer)
    && leb (length body.reviewer) 200
    && notes_fit body.notes

-- The query parameters `limit` (1 to 200) and `offset` (0 or more).
unfoldable pub valid_page : ℤ → ℤ → Bool
valid_page (pos limit) offset = leb 1 limit && leb limit 200 && at_least 0 offset
valid_page (negsuc n) offset = false

-- `state.review_store`: none where start-up made no store.
abbrev pub Stores : Type 0
Stores = Option InMemoryReviewStore

found_or_404 : Option ReviewRecord → Response
found_or_404 none = http 404
found_or_404 (some r) = entries (r ∷ [])

unfoldable pub get_review : Text → Stores → Response
unfolding found_or_404
get_review run_id none = if valid_run_id run_id then http 503 else http 422
get_review run_id (some store) =
    if valid_run_id run_id then found_or_404 (Memory.get run_id store) else http 422

page_or_500 : Result ReviewError (List ReviewRecord) → Response
page_or_500 (ok rs) = entries rs
page_or_500 (err e) = http 500

unfoldable pub list_reviews : Option ReviewStatus → ℤ → ℤ → Stores → Response
unfolding page_or_500
list_reviews status limit offset none = if valid_page limit offset then http 503 else http 422
list_reviews status limit offset (some store) =
    if valid_page limit offset
    then page_or_500 (Memory.list_reviews status limit offset store)
    else http 422

-- The `except` clauses: a `ValueError` of `decide` is caught by none of them.
unfoldable pub decision_response : Result ReviewError ReviewRecord → Response
decision_response (ok r) = entries (r ∷ [])
decision_response (err ReviewError.not_found) = http 404
decision_response (err (ReviewError.already_decided st)) = http 409
decision_response (err e) = http 500

unfoldable pub decide_review : Text → DecideArgs → Text → Stores → Response × Stores
unfolding decision_response
decide_review run_id body now none =
    (if valid_run_id run_id && valid_decision_request body then http 503 else http 422, none)
decide_review run_id body now (some store) =
    let (r, store') = Memory.decide run_id body now store in
    if valid_run_id run_id && valid_decision_request body
    then (decision_response r, some store')
    else (http 422, some store)
