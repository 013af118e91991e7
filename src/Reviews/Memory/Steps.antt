-- ===== src/Reviews/Memory/Steps.antt =====
-- core/review_store.py: what one call of `InMemoryReviewStore` does to the review of a run.
use langgraph_agent_stack.Prelude.{
  ◌==◌, Bool-cases, Option-cases, Text, text_beq_iff, Result-cases, ok, ◌≡◌, refl, inl, inr, true,
  Option, none, some, arith, text_eq, nat_eq,
}
use langgraph_agent_stack.Reviews.{
  validate_create_args, Call, ReviewStatus, ReviewRecord, is_pending, pending, new_record,
  decided_record, validate_decision_args, valid_decision, DecideArgs, CreateArgs, approved,
  rejected,
}
use langgraph_agent_stack.Reviews.Memory.{
  InMemoryReviewStore, insert_new, create, get, decide, decide_found, step,
}
use langgraph_agent_stack.Prelude.Dict
use langgraph_agent_stack.Prelude.Dict.{Dict}

-- What a call may do to the review of a run: nothing, its creation, or the decision of a pending
-- one.
pub data Moves (id : Text) : Option ReviewRecord → Option ReviewRecord → Type 0 where
  same : (o : Option ReviewRecord) → Moves id o o
  created : (a : CreateArgs) (now : Text) → a.run_id ≡ id → Moves id none (some (new_record a now))
  decided :
      (r : ReviewRecord) (a : DecideArgs) (d : ReviewStatus) (now : Text)
      → r.status ≡ pending
      → valid_decision a.status ≡ some d
      → Moves id (some r) (some (decided_record a d now r))

pending_of : (st : ReviewStatus) → is_pending st ≡ true → st ≡ pending
pending_of pending h = refl
pending_of approved h = cc
pending_of rejected h = cc

valid_of :
    (a : DecideArgs) (d : ReviewStatus)
    → validate_decision_args a ≡ ok d
    → valid_decision a.status ≡ some d
unfolding validate_decision_args
valid_of a d h = ground arith

-- Written where nothing was: a write to another key changes nothing here.
put-Moves :
    (id key : Text) (new : ReviewRecord) (records : Dict Text ReviewRecord)
    → (key ≡ id → Moves id (Dict.get id records) (some new))
    → Moves id (Dict.get id records) (Dict.get id (Dict.put key new records))
put-Moves id key new records h = rw Dict.get-put (elim (Bool-cases (key == id)) [
  | inl hit ↦ rw hit (h ((text_beq_iff key id).0 hit))
  | inr miss ↦ rw miss (same (Dict.get id records))
])

insert_new-Moves :
    (a : CreateArgs) (now : Text) (s : InMemoryReviewStore) (id : Text)
    → Moves id (get id s) (get id (insert_new (new_record a now) s).1)
unfolding insert_new get new_record
insert_new-Moves a now s id = elim (Option-cases (Dict.get a.run_id s.records)) [
  | inl new ↦ rw new (
      put-Moves id a.run_id (new_record a now) s.records
        (λ e. rw (← e) (rw new (created a now refl))))
  | inr (r, there) ↦ rw there (same (Dict.get id s.records))
]

module _ (id run_id : Text) (a : DecideArgs) (d : ReviewStatus) (now : Text)
    (s : InMemoryReviewStore) where
  decide_found-Moves :
      validate_decision_args a ≡ ok d
      → Moves id (get id s) (get id (decide_found run_id a d now (Dict.get run_id s.records) s).1)
  unfolding decide_found get
  decide_found-Moves h = elim (Option-cases (Dict.get run_id s.records)) [
    | inl missing ↦ rw missing (same (Dict.get id s.records))
    | inr (r, there) ↦ rw there (elim (Bool-cases (is_pending r.status)) [
      | inl open_review ↦ rw open_review (
          put-Moves id run_id (decided_record a d now r) s.records (λ e.
            rw (← e)
              (rw there (decided r a d now (pending_of r.status open_review) (valid_of a d h)))))
      | inr closed ↦ rw closed (same (Dict.get id s.records))
    ])
  ]

-- Whatever the call, the review of a run is left as it was, is created with the call's arguments
-- where there was none, or is a pending one that gets a valid decision: no call removes a review,
-- reopens it or writes another column.
pub step-Moves :
    (c : Call) (s : InMemoryReviewStore) (id : Text) → Moves id (get id s) (get id (step c s).1)
unfolding step create decide
step-Moves (Call.create a now) s id = elim (Result-cases (validate_create_args a)) [
  | inl (u, v) ↦ rw (v, step, create) (insert_new-Moves a now s id)
  | inr (e, v) ↦ rw (v, step, create) (same (get id s))
]
step-Moves (Call.get_review run_id) s id = same (get id s)
step-Moves (Call.list_reviews status limit offset) s id = same (get id s)
step-Moves (Call.decide run_id a now) s id = elim (Result-cases (validate_decision_args a)) [
  | inl (d, v) ↦ rw (v, step, decide) (decide_found-Moves id run_id a d now s v)
  | inr (e, v) ↦ rw (v, step, decide) (same (get id s))
]
