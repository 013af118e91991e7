-- ===== src/Reviews/Api/Codes.antt =====
-- api/endpoints/reviews.py: which status code a request gets.
use langgraph_agent_stack.Prelude.{
  if◌then◌else◌, Bool-cases, Option-cases, is_some, Text, is_blank, ℕ, ◌≡◌, refl, inl, inr, true,
  false, ◌&&◌, Option, none, some, arith, text_eq, nat_eq,
}
use langgraph_agent_stack.Prelude.Dict
use langgraph_agent_stack.Prelude.Int.{ℤ, pos, negsuc}
use langgraph_agent_stack.Reviews.{
  ReviewStatus, ReviewRecord, DecideArgs, is_pending, valid_decision, validate_decision_args,
  validate_list_args,
}
use langgraph_agent_stack.Reviews.Memory
use langgraph_agent_stack.Reviews.Memory.{InMemoryReviewStore}
use langgraph_agent_stack.Reviews.Api.{
  status_of, valid_run_id, valid_decision_request, valid_page, list_reviews, get_review,
  decide_review, decision_response,
}

-- The code that a decision of a review in this state should get.
abbrev pub decision_code : DecideArgs → Option ReviewRecord → ℕ
decision_code body none = if is_blank body.reviewer then 500 else 404
decision_code body (some r) =
    if is_blank body.reviewer then 500 else if is_pending r.status then 200 else 409

decide_found-code :
    (run_id : Text) (body : DecideArgs) (d : ReviewStatus) (now : Text) (o : Option ReviewRecord)
    (store : InMemoryReviewStore)
    → is_blank body.reviewer ≡ false
    → status_of (decision_response (Memory.decide_found run_id body d now o store).0)
      ≡ decision_code body o
unfolding Memory.decide_found decision_response
decide_found-code run_id body d now none store h = rw h
decide_found-code run_id body d now (some r) store h = elim (Bool-cases (is_pending r.status)) [
  | inl e ↦ rw (e, h)
  | inr e ↦ rw (e, h)
]

decision_named :
    (body : DecideArgs)
    → valid_decision_request body ≡ true
    → (d : ReviewStatus) × (valid_decision body.status ≡ some d)
unfolding valid_decision_request
decision_named body w = elim (Option-cases (valid_decision body.status)) [
  | inl n ↦ absurd (cc (rw n at w))
  | inr (d, e) ↦ (d, e)
]

decision_code_blank :
    (body : DecideArgs) (o : Option ReviewRecord)
    → is_blank body.reviewer ≡ true
    → decision_code body o ≡ 500
decision_code_blank body none h = rw h
decision_code_blank body (some r) h = rw h

decide-code :
    (run_id : Text) (body : DecideArgs) (now : Text) (store : InMemoryReviewStore)
    → (d : ReviewStatus) × (valid_decision body.status ≡ some d)
    → status_of (decision_response (Memory.decide run_id body now store).0)
      ≡ decision_code body (Memory.get run_id store)
unfolding Memory.decide Memory.get validate_decision_args decision_response
decide-code run_id body now store (d, e) = elim (Bool-cases (is_blank body.reviewer)) [
  | inl blank ↦
      rw (decision_code_blank body (Dict.get run_id store.records) blank)
        (rw (Memory.decide, validate_decision_args, e, blank))
  | inr named ↦
      rw (Memory.decide, validate_decision_args, e, named)
        (decide_found-code run_id body d now (Dict.get run_id store.records) store named)
]

-- A request that passes the model's checks gets 200 exactly when the review is pending and the
-- reviewer is not white space only; 404 when there is no review, 409 when it is decided, and 500
-- when the reviewer is white space only, which the model's length check lets through.
pub decide_review-code :
    (run_id : Text) (body : DecideArgs) (now : Text) (store : InMemoryReviewStore)
    → valid_run_id run_id ≡ true
    → valid_decision_request body ≡ true
    → status_of (decide_review run_id body now (some store)).0
      ≡ decision_code body (Memory.get run_id store)
unfolding decide_review Memory.decide Memory.get
decide_review-code run_id body now store v w =
    rw (v, w) (decide-code run_id body now store (decision_named body w))

-- The other codes of the three endpoints: 422 for a request that the model refuses, and 503 for one
-- that it accepts where there is no store; a read of an accepted request gets 200 or 404, and a
-- page always 200.
pub review_codes :
    (run_id : Text) (body : DecideArgs) (now : Text) (status : Option ReviewStatus)
    (limit offset : ℤ) (store : InMemoryReviewStore)
    → (status_of (get_review run_id none) ≡ (if valid_run_id run_id then 503 else 422))
      × (status_of (get_review run_id (some store)) ≡ (
          if valid_run_id run_id
          then (if is_some (Memory.get run_id store) then 200 else 404)
          else 422))
      × (status_of (list_reviews status limit offset none)
          ≡ (if valid_page limit offset then 503 else 422))
      × (status_of (list_reviews status limit offset (some store))
          ≡ (if valid_page limit offset then 200 else 422))
      × (status_of (decide_review run_id body now none).0
          ≡ (if valid_run_id run_id && valid_decision_request body then 503 else 422))
unfolding get_review list_reviews decide_review Memory.list_reviews validate_list_args valid_page
review_codes run_id body now status limit offset store =
    (ground arith, ground arith, ground arith, page_code limit offset, ground arith)
  where
    page_code :
        (limit offset : ℤ)
        → status_of (list_reviews status limit offset (some store))
          ≡ (if valid_page limit offset then 200 else 422)
    page_code (pos n) (pos m) = ground arith
    page_code (pos n) (negsuc m) = ground arith
    page_code (negsuc n) offset = refl
