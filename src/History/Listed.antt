-- ===== src/History/Listed.antt =====
-- core/memory.py: the version that a session gets back, found again in the list of its runs.
use langgraph_agent_stack.Prelude.{
  ltb, if◌then◌else◌, Bool-cases, length, filter, All, take_of_length-le, Text, is_blank, ok, suc,
  ◌≤◌, ◌≡◌, refl, sym, ap, ◌∙◌, inl, inr, Bool, true, false, ◌&&◌, Option, none, some, List, [],
  ◌∷◌, arith, text_eq, nat_eq,
}
use langgraph_agent_stack.Prelude.Dict.{Dict}
use langgraph_agent_stack.Prelude.Int.{ℤ, at_least, to_ℕ}
use langgraph_agent_stack.History.Queries.{
  insert, select, is_session, list_runs_by_session, IsNewestFirst, older_All, select-IsNewestFirst,
}
use langgraph_agent_stack.History.{
  Run, ConversationMemory, is_value, is_run_of, newer, latest, get_pack_version_for_session,
}

abbrev pub first_of : List Run → Option Run
first_of [] = none
first_of (r ∷ rest) = some r

abbrev pub version_of : Option Run → Option Text
version_of none = none
version_of (some r) = r.pack_version

first_of-insert :
    (r : Run) (rest : List Run) → first_of (insert r rest) ≡ some (newer r (first_of rest))
unfolding insert newer
first_of-insert r [] = refl
first_of-insert r (x ∷ rest) = elim (Bool-cases (ltb r.created_at x.created_at)) [
  | inl older ↦ rw older refl
  | inr as_new ↦ rw as_new refl
]

latest-select :
    (test : Run → Bool) (rows : Dict Text Run) → latest test rows ≡ first_of (select test rows)
unfolding select latest
latest-select test [] = refl
latest-select test ((k, r) ∷ rows) = elim (Bool-cases (test r)) [
  | inl hit ↦ rw (hit, first_of-insert r (select test rows), latest-select test rows) refl
  | inr miss ↦ rw (miss, latest-select test rows) refl
]

insert-front :
    (r : Run) (rest : List Run)
    → All (λ (x : Run). x.created_at ≤ r.created_at) rest
    → insert r rest ≡ r ∷ rest
unfolding insert
insert-front r [] h = refl
insert-front r (x ∷ rest) h = ground (arith, h.0)

All-filter :
    (P : Run → Type 0) (p : Run → Bool) (rest : List Run) → All P rest → All P (filter p rest)
All-filter P p [] h = tt
All-filter P p (x ∷ rest) h = elim (Bool-cases (p x)) [
  | inl hit ↦ rw hit (h.0, All-filter P p rest h.1)
  | inr miss ↦ rw miss (All-filter P p rest h.1)
]

-- in a list that is newest first, what is inserted keeps its place under a filter
filter-insert :
    (p : Run → Bool) (r : Run) (rest : List Run)
    → IsNewestFirst rest
    → filter p (insert r rest) ≡ (if p r then insert r (filter p rest) else filter p rest)
unfolding insert
filter-insert p r [] h = refl
filter-insert p r (x ∷ rest) h = elim (Bool-cases (ltb r.created_at x.created_at)) [
  | inl older ↦ rw (older, filter-insert p r rest h.1) (kept older)
  | inr as_new ↦ rw as_new (elim (Bool-cases (p r)) [
    | inl hit ↦ rw hit (
        sym (
          insert-front r (filter p (x ∷ rest)) (
            All-filter (λ (y : Run). y.created_at ≤ r.created_at) p (x ∷ rest)
              (ground arith, older_All x.created_at r.created_at rest (ground arith) h.0))))
    | inr miss ↦ rw miss refl
  ])
]
  where
    kept :
        ltb r.created_at x.created_at ≡ true
        → (let tail = if p r then insert r (filter p rest) else filter p rest in
            if p x then x ∷ tail else tail)
          ≡ (if p r then insert r (filter p (x ∷ rest)) else filter p (x ∷ rest))
    kept older = elim (Bool-cases (p x)) [
      | inr other ↦ rw other refl
      | inl passes ↦ elim (Bool-cases (p r)) [
        | inl hit ↦ rw (passes, hit, older) refl
        | inr miss ↦ rw (passes, miss) refl
      ]
    ]

filter-select :
    (p test : Run → Bool) (rows : Dict Text Run)
    → filter p (select test rows) ≡ select (λ r. test r && p r) rows
unfolding select
filter-select p test [] = refl
filter-select p test ((k, r) ∷ rows) = elim (Bool-cases (test r)) [
  | inr miss ↦ rw miss (filter-select p test rows)
  | inl hit ↦
      rw
        (
          hit,
          filter-insert p r (select test rows) (select-IsNewestFirst test rows),
          filter-select p test rows,
        )
        refl
]

length-insert : (r : Run) (rest : List Run) → length (insert r rest) ≡ suc (length rest)
unfolding insert
length-insert r [] = refl
length-insert r (x ∷ rest) = elim (Bool-cases (ltb r.created_at x.created_at)) [
  | inl older ↦ rw (older, length-insert r rest) refl
  | inr as_new ↦ rw as_new refl
]

length-select-le :
    (test : Run → Bool) (rows : Dict Text Run) → length (select test rows) ≤ length rows
unfolding select
length-select-le test [] = omega arith
length-select-le test ((k, r) ∷ rows) = elim (Bool-cases (test r)) [
  | inl hit ↦
      rw (hit, length-insert r (select test rows)) (omega (arith, length-select-le test rows))
  | inr miss ↦ rw miss (omega (arith, length-select-le test rows))
]

-- The version that a session gets back for a pack is the one of the first run of that pack in the
-- list of the session's runs, where the limit of the list is no smaller than the table.
pub get_pack_version-listed :
    (session_id pack_id : Text) (limit : ℤ) (s : ConversationMemory)
    → is_blank session_id ≡ false
    → at_least 1 limit ≡ true
    → length s.rows ≤ to_ℕ limit
    → (listed : List Run) × (list_runs_by_session session_id limit s ≡ ok listed)
      × (get_pack_version_for_session session_id pack_id s
          ≡ version_of (first_of (filter (λ (r : Run). is_value pack_id r.pack_id) listed)))
unfolding list_runs_by_session get_pack_version_for_session is_run_of is_session
get_pack_version-listed session_id pack_id limit s named within room =
    let listed = select (is_session session_id) s.rows in
    (
      listed,
      rw (named, within)
          (ap ok (
            take_of_length-le (to_ℕ limit) listed
              (omega (arith, length-select-le (is_session session_id) s.rows)))),
      by_version (latest (is_run_of session_id pack_id) s.rows)
          ∙ ap version_of (
              latest-select (is_run_of session_id pack_id) s.rows
              ∙ ap first_of (
                  sym (
                    filter-select (λ (r : Run). is_value pack_id r.pack_id) (is_session session_id)
                      s.rows))),
    )
  where
    by_version :
        (found : Option Run)
        → elim found [ none ↦ none | some r ↦ r.pack_version ] ≡ version_of found
    by_version none = refl
    by_version (some r) = refl
