-- ===== src/History/Queries.antt =====
-- core/memory.py: the queries of `ConversationMemory` that list runs, newest first.
use langgraph_agent_stack.Prelude.{
  ltb, if◌then◌else◌, Bool-cases, take, filter, All, Text, is_blank, Result, ok, err, ℕ, ◌≤◌, ◌≡◌,
  refl, inl, inr, Bool, true, false, List, [], ◌∷◌, arith, text_eq, nat_eq,
}
use langgraph_agent_stack.History.{
  Run, ConversationMemory, HistoryError, empty_session_id, bad_limit, is_value,
}
use langgraph_agent_stack.Prelude.Dict
use langgraph_agent_stack.Prelude.Dict.{Dict}
use langgraph_agent_stack.Prelude.Int.{ℤ, at_least, to_ℕ}
use langgraph_agent_stack.Prelude.Count.{count_if}

-- `ORDER BY created_at DESC`: of rows with the same time, the first in the table comes first.
unfoldable pub insert : Run → List Run → List Run
insert r [] = r ∷ []
insert r (later ∷ rest) =
    let tail = insert r rest in
    if ltb r.created_at later.created_at then later ∷ tail else r ∷ later ∷ rest

unfoldable pub select : (Run → Bool) → Dict Text Run → List Run
unfolding insert
select test [] = []
select test ((k, r) ∷ rows) =
    let found = select test rows in if test r then insert r found else found

unfoldable pub list_runs : ℤ → ConversationMemory → Result HistoryError (List Run)
unfolding select
list_runs limit s =
    if at_least 1 limit then ok (take (to_ℕ limit) (select (λ r. true) s.rows)) else err bad_limit

unfoldable pub is_session : Text → Run → Bool
unfolding is_value
is_session session_id r = is_value session_id r.session_id

unfoldable pub list_runs_by_session : Text → ℤ → ConversationMemory → Result HistoryError (List Run)
unfolding select is_session
list_runs_by_session session_id limit s =
    if is_blank session_id
    then err empty_session_id
    else if at_least 1 limit
    then ok (take (to_ℕ limit) (select (is_session session_id) s.rows))
    else err bad_limit

-- Newest first.
abbrev pub IsNewestFirst : List Run → Type 0
IsNewestFirst [] = Unit
IsNewestFirst (r ∷ rest) = All (λ (x : Run). x.created_at ≤ r.created_at) rest × IsNewestFirst rest

pub older_All :
    (t u : ℕ) (rest : List Run)
    → t ≤ u
    → All (λ (x : Run). x.created_at ≤ t) rest
    → All (λ (x : Run). x.created_at ≤ u) rest
older_All t u [] le h = tt
older_All t u (x ∷ rest) le h = (omega (arith, h.0), older_All t u rest le h.1)

insert-All :
    (r : Run) (t : ℕ) (rest : List Run)
    → r.created_at ≤ t
    → All (λ (x : Run). x.created_at ≤ t) rest
    → All (λ (x : Run). x.created_at ≤ t) (insert r rest)
unfolding insert
insert-All r t [] le h = (le, tt)
insert-All r t (x ∷ rest) le h = elim (Bool-cases (ltb r.created_at x.created_at)) [
  | inl older ↦ rw older (h.0, insert-All r t rest le h.1)
  | inr as_new ↦ rw as_new (le, h)
]

pub insert-IsNewestFirst :
    (r : Run) (rest : List Run) → IsNewestFirst rest → IsNewestFirst (insert r rest)
unfolding insert
insert-IsNewestFirst r [] h = (tt, tt)
insert-IsNewestFirst r (x ∷ rest) h = elim (Bool-cases (ltb r.created_at x.created_at)) [
  | inl older ↦
      rw older (insert-All r x.created_at rest (ground arith) h.0, insert-IsNewestFirst r rest h.1)
  | inr as_new ↦
      rw as_new ((ground arith, older_All x.created_at r.created_at rest (ground arith) h.0), h)
]

pub select-IsNewestFirst :
    (test : Run → Bool) (rows : Dict Text Run) → IsNewestFirst (select test rows)
unfolding select
select-IsNewestFirst test [] = tt
select-IsNewestFirst test ((k, r) ∷ rows) = elim (Bool-cases (test r)) [
  | inl hit ↦ rw hit (insert-IsNewestFirst r (select test rows) (select-IsNewestFirst test rows))
  | inr miss ↦ rw miss (select-IsNewestFirst test rows)
]

count_if-insert :
    (p : Run → Bool) (r : Run) (rest : List Run)
    → count_if p (insert r rest) ≡ count_if p (r ∷ rest)
unfolding insert
count_if-insert p r [] = refl
count_if-insert p r (x ∷ rest) = elim (Bool-cases (ltb r.created_at x.created_at)) [
  | inl older ↦ rw (older, count_if-insert p r rest) (omega arith)
  | inr as_new ↦ rw as_new refl
]

pub count_if-select :
    (p test : Run → Bool) (rows : Dict Text Run)
    → count_if p (select test rows) ≡ count_if p (filter test (Dict.values rows))
unfolding select
count_if-select p test [] = refl
count_if-select p test ((k, r) ∷ rows) = elim (Bool-cases (test r)) [
  | inl hit ↦ rw (hit, count_if-insert p r (select test rows), count_if-select p test rows) refl
  | inr miss ↦ rw (miss, count_if-select p test rows) refl
]

-- For a session id that is not blank and a limit of at least one, `list_runs_by_session` gives the
-- first `limit` runs of a list that is newest first and holds exactly the session's runs in the
-- table, each as often as it is there.
pub list_runs_by_session-newest :
    (session_id : Text) (limit : ℤ) (s : ConversationMemory)
    → is_blank session_id ≡ false
    → at_least 1 limit ≡ true
    → (listed : List Run) × (list_runs_by_session session_id limit s
        ≡ ok (take (to_ℕ limit) listed))
      × IsNewestFirst listed
      × ((p : Run → Bool)
          → count_if p listed ≡ count_if p (filter (is_session session_id) (Dict.values s.rows)))
unfolding list_runs_by_session
list_runs_by_session-newest session_id limit s named within = (
  select (is_session session_id) s.rows,
  rw (named, within) refl,
  select-IsNewestFirst (is_session session_id) s.rows,
  λ p. count_if-select p (is_session session_id) s.rows,
)
