-- ===== src/Reviews/Memory/History.antt =====
-- core/review_store.py: what holds of the reviews through any sequence of calls.
use langgraph_agent_stack.Prelude.{
  length, length-take-le, Text, text_beq_refl, Result-cases, ok, err, ◌≤◌, ◌≡◌, refl, inl, inr,
  false, Option, none, some, List, [], ◌∷◌, arith, text_eq, nat_eq,
}
use langgraph_agent_stack.Reviews.Memory.{
  init, decide_found, InMemoryReviewStore, get, decide, step, run,
}
use langgraph_agent_stack.Reviews.{
  new_record, output_summary_max_chars, already_decided, ReviewError, decided_record, ReviewStatus,
  ReviewRecord, is_pending, validate_decision_args, valid_decision, DecideArgs, Call,
}
use langgraph_agent_stack.Prelude.Dict
use langgraph_agent_stack.Reviews.Memory.Steps.{Moves, same, created, decided, step-Moves}

-- A predicate of a review that holds at creation and that a decision keeps holds after any calls.
module _ (P : Option ReviewRecord → Type 0) (id : Text)
    (keep : (o o' : Option ReviewRecord) → Moves id o o' → P o → P o') where
  run_induction :
      (calls : List Call) (s : InMemoryReviewStore) → P (get id s) → P (get id (run calls s).1)
  unfolding run
  run_induction [] s h = h
  run_induction (c ∷ calls) s h =
      run_induction calls (step c s).1 (keep (get id s) (get id (step c s).1) (step-Moves c s id) h)

settled_step :
    {id : Text} (r : ReviewRecord) (o o' : Option ReviewRecord)
    → is_pending r.status ≡ false
    → Moves id o o'
    → o ≡ some r
    → o' ≡ some r
settled_step r o o' h (same _) e = e
settled_step r o o' h (created a now _) e = cc
settled_step r o o' h (decided r' a d now p _) e = ground arith

-- Once a review is approved or rejected, no sequence of calls changes any column of it.
pub run-settled :
    (calls : List Call) (s : InMemoryReviewStore) (id : Text) (r : ReviewRecord)
    → get id s ≡ some r
    → is_pending r.status ≡ false
    → get id (run calls s).1 ≡ some r
run-settled calls s id r e h =
    run_induction (λ o. o ≡ some r) id (λ o o' m. settled_step r o o' h m) calls s e

valid-not-pending : (t : Text) (d : ReviewStatus) → valid_decision t ≡ some d → is_pending d ≡ false
unfolding valid_decision
valid-not-pending t d h = ground arith

module _ (id : Text) (a : DecideArgs) (now : Text) where
  decide_found-ok :
      (d : ReviewStatus) (o : Option ReviewRecord) (s : InMemoryReviewStore) (r : ReviewRecord)
      → is_pending d ≡ false
      → (decide_found id a d now o s).0 ≡ ok r
      → (get id (decide_found id a d now o s).1 ≡ some r) × (is_pending r.status ≡ false)
  unfolding decide_found get decided_record
  decide_found-ok d none s r h e = cc
  decide_found-ok d (some x) s r h e =
      ground (arith, Dict.get-put id id (decided_record a d now x) s.records, text_beq_refl id)

  decide_valid :
      (s : InMemoryReviewStore) (d : ReviewStatus)
      → validate_decision_args a ≡ ok d
      → decide id a now s ≡ decide_found id a d now (get id s) s
  unfolding decide get
  decide_valid s d v = rw (v, decide)

  decide_invalid :
      (s : InMemoryReviewStore) (e : ReviewError)
      → validate_decision_args a ≡ err e
      → decide id a now s ≡ (err e, s)
  unfolding decide
  decide_invalid s e v = rw (v, decide)

  valid_decided : (d : ReviewStatus) → validate_decision_args a ≡ ok d → is_pending d ≡ false
  unfolding validate_decision_args
  valid_decided d v = ground (arith, valid-not-pending a.status d)

  decide-ok :
      (s : InMemoryReviewStore) (r : ReviewRecord)
      → (decide id a now s).0 ≡ ok r
      → (get id (decide id a now s).1 ≡ some r) × (is_pending r.status ≡ false)
  decide-ok s r h = elim (Result-cases (validate_decision_args a)) [
    | inl (d, v) ↦
        rw (decide_valid s d v)
          (decide_found-ok d (get id s) s r (valid_decided d v) (rw (decide_valid s d v) at h))
    | inr (e, v) ↦ let h' = rw (decide_invalid s e v) at h in cc
  ]

  decide-decided :
      (s : InMemoryReviewStore) (r : ReviewRecord) (d : ReviewStatus)
      → validate_decision_args a ≡ ok d
      → get id s ≡ some r
      → is_pending r.status ≡ false
      → decide id a now s ≡ (err (already_decided r.status), s)
  unfolding decide_found
  decide-decided s r d v e h = rw (decide_valid s d v, e) (rw h)

-- Of two decisions of one review only one is recorded: once `decide` has returned a record, a later
-- `decide` with valid arguments raises `already_decided` with the status of that record and leaves
-- the store as it is, whatever calls come between the two.
pub decide_once :
    (s : InMemoryReviewStore) (id : Text) (a b : DecideArgs) (now later : Text) (r : ReviewRecord)
    (d : ReviewStatus) (calls : List Call)
    → (decide id a now s).0 ≡ ok r
    → validate_decision_args b ≡ ok d
    → decide id b later (run calls (decide id a now s).1).1
      ≡ (err (already_decided r.status), (run calls (decide id a now s).1).1)
decide_once s id a b now later r d calls h v =
    let (there, closed) = decide-ok id a now s r h in
    decide-decided id b later (run calls (decide id a now s).1).1 r d v
      (run-settled calls (decide id a now s).1 id r there closed) closed

-- The columns that a call never writes once a review is there.
abbrev pub SameRun : ReviewRecord → ReviewRecord → Type 0
SameRun r r' =
    (r'.run_id ≡ r.run_id)
    × (r'.pack_id ≡ r.pack_id)
    × (r'.session_id ≡ r.session_id)
    × (r'.output_summary ≡ r.output_summary)
    × (r'.created_at ≡ r.created_at)

abbrev Kept : ReviewRecord → Option ReviewRecord → Type 0
Kept r o = (r' : ReviewRecord) × (o ≡ some r') × SameRun r r'

Kept-step :
    {id : Text} (r : ReviewRecord) (o o' : Option ReviewRecord)
    → Moves id o o'
    → Kept r o
    → Kept r o'
unfolding decided_record
Kept-step r o o' (same _) k = k
Kept-step r o o' (created a now _) k = absurd (cc k.1)
Kept-step r o o' (decided x a d now _ _) k =
    (decided_record a d now x, refl, ground (arith, k.1, k.2))

-- A review is never lost: after any calls its run still has one, with the run, pack, session,
-- summary and creation time that it had.
pub run-kept :
    (calls : List Call) (s : InMemoryReviewStore) (id : Text) (r : ReviewRecord)
    → get id s ≡ some r
    → (r' : ReviewRecord) × (get id (run calls s).1 ≡ some r') × SameRun r r'
run-kept calls s id r e =
    run_induction (Kept r) id (λ o o' m. Kept-step r o o' m) calls s
      (r, e, (refl, refl, refl, refl, refl))

abbrev IsShort : Text → Option ReviewRecord → Type 0
IsShort id none = Unit
IsShort id (some r) = (r.run_id ≡ id) × (length r.output_summary ≤ output_summary_max_chars)

IsShort-step :
    {id : Text} (o o' : Option ReviewRecord) → Moves id o o' → IsShort id o → IsShort id o'
unfolding new_record decided_record
IsShort-step o o' (same _) h = h
IsShort-step o o' (created a now e) h =
    (e, length-take-le output_summary_max_chars a.output_summary)
IsShort-step o o' (decided r a d now _ _) h = h

-- Whatever the callers pass, a stored review stands under its own run id, and its summary has at
-- most 500 characters.
pub run-short :
    (calls : List Call) (id : Text) (r : ReviewRecord)
    → get id (run calls init).1 ≡ some r
    → (r.run_id ≡ id) × (length r.output_summary ≤ 500)
unfolding get Dict.get
run-short calls id r e = rw e at (run_induction (IsShort id) id IsShort-step calls init tt)
