-- ===== src/Reviews/Sqlite/Rows.antt =====
-- core/review_store.py: the rows of the `reviews` table, in the order of their ids.
use langgraph_agent_stack.Prelude.{
  ◌==◌, Bool-cases, is_some, filter, any, All, All-append, All-reverse, Text, text_beq_iff, ℕ, ◌+◌,
  ◌<◌, ◌≡◌, refl, inl, inr, Bool, true, false, none, some, List, [], ◌∷◌, ◌++◌, reverse, arith,
  text_eq, nat_eq,
}
use mathlib.Core.Path.{subst}
use mathlib.Core.List.{reverse-cons}
use langgraph_agent_stack.Prelude.Dict
use langgraph_agent_stack.Prelude.Dict.{Dict}
use langgraph_agent_stack.Prelude.Count.{count_if}
use langgraph_agent_stack.Reviews.{
  ReviewRecord, ReviewStatus, DecideArgs, is_pending, decided_record,
}
use langgraph_agent_stack.Reviews.Sqlite.{
  Row, has_run_id, to_decide, select_one, update_rows, insert_desc, order_by_id_desc, reviews_of,
}

-- The rows as the entries of a dictionary by run id.
abbrev pub entries : List Row → Dict Text ReviewRecord
entries [] = []
entries (row ∷ rows) = (row.review.run_id, row.review) ∷ entries rows

-- The ids grow down the table and stay below the counter.
abbrev pub IsAscending : List Row → ℕ → Type 0
IsAscending [] next = Unit
IsAscending (row ∷ rows) next =
    (row.id < next) × All (λ (r : Row). row.id < r.id) rows × IsAscending rows next

abbrev Fresh : Text → List Row → Type 0
Fresh run_id = All (λ (r : Row). has_run_id run_id r ≡ false)

-- `run_id` is unique.
abbrev pub IsUnique : List Row → Type 0
IsUnique [] = Unit
IsUnique (row ∷ rows) = Fresh row.review.run_id rows × IsUnique rows

insert_desc-append :
    (row : Row) (rows : List Row)
    → All (λ (r : Row). row.id < r.id) rows
    → insert_desc row rows ≡ rows ++ row ∷ []
unfolding insert_desc
insert_desc-append row [] h = refl
insert_desc-append row (r ∷ rows) h = ground (arith, insert_desc-append row rows h.1, h.0)

-- On such a table ORDER BY id DESC is the reverse of the insertion order.
pub order_by_id_desc-reverse :
    (rows : List Row) (next : ℕ) → IsAscending rows next → order_by_id_desc rows ≡ reverse rows
unfolding order_by_id_desc
order_by_id_desc-reverse [] next h = refl
order_by_id_desc-reverse (row ∷ rows) next h =
    rw (order_by_id_desc-reverse rows next h.2, reverse-cons row rows)
      (insert_desc-append row (reverse rows) (All-reverse _ rows h.1))

All-filter :
    (P : Row → Type 0) (p : Row → Bool) (rows : List Row) → All P rows → All P (filter p rows)
All-filter P p [] h = h
All-filter P p (row ∷ rows) h = elim (Bool-cases (p row)) [
  | inl t ↦ rw t (h.0, All-filter P p rows h.1)
  | inr f ↦ rw f (All-filter P p rows h.1)
]

pub IsAscending-filter :
    (p : Row → Bool) (rows : List Row) (next : ℕ)
    → IsAscending rows next
    → IsAscending (filter p rows) next
IsAscending-filter p [] next h = h
IsAscending-filter p (row ∷ rows) next h = elim (Bool-cases (p row)) [
  | inl t ↦ rw t (h.0, All-filter _ p rows h.1, IsAscending-filter p rows next h.2)
  | inr f ↦ rw f (IsAscending-filter p rows next h.2)
]

pub IsAscending-insert :
    (rows : List Row) (next : ℕ) (r : ReviewRecord)
    → IsAscending rows next
    → IsAscending (rows ++ record { id = next; review = r } ∷ []) (next + 1)
IsAscending-insert [] next r h = (omega arith, tt, tt)
IsAscending-insert (row ∷ rows) next r h =
    (omega arith, All-append _ rows _ h.1 (h.0, tt), IsAscending-insert rows next r h.2)

pub select_one-get : (id : Text) (rows : List Row) → select_one id rows ≡ Dict.get id (entries rows)
unfolding select_one Dict.get
select_one-get id [] = refl
select_one-get id (row ∷ rows) = rw (select_one-get id rows)

pub any-get :
    (id : Text) (rows : List Row) → any (has_run_id id) rows ≡ is_some (Dict.get id (entries rows))
unfolding Dict.get
any-get id [] = refl
any-get id (row ∷ rows) = ground (arith, any-get id rows)

pub entries-append :
    (rows rows' : List Row) → entries (rows ++ rows') ≡ entries rows ++ entries rows'
entries-append [] rows' = refl
entries-append (row ∷ rows) rows' = rw (entries-append rows rows')

pub values-entries : (rows : List Row) → Dict.values (entries rows) ≡ reviews_of rows
values-entries [] = refl
values-entries (row ∷ rows) = rw (values-entries rows)

module _ (id : Text) (a : DecideArgs) (d : ReviewStatus) (now : Text) where
  -- Rows of other runs are left alone and not counted.
  update_rows-Fresh :
      (rows : List Row)
      → Fresh id rows
      → (update_rows id a d now rows ≡ rows) × (count_if (to_decide id) rows ≡ 0)
  unfolding update_rows
  update_rows-Fresh [] h = (refl, refl)
  update_rows-Fresh (row ∷ rows) h =
      let (kept, counted) = update_rows-Fresh rows h.1 in
      (rw h.0 (rw kept), rw h.0 (rw counted (omega arith)))

  Fresh-hit :
      (row : Row) (rows : List Row)
      → has_run_id id row ≡ true
      → Fresh row.review.run_id rows
      → Fresh id rows
  Fresh-hit row rows hit h = subst (λ k. Fresh k rows) ((text_beq_iff row.review.run_id id).0 hit) h

  -- Where the run id is unique, the UPDATE writes the one pending row of the run, as a write to
  -- the dictionary does, and `rowcount` is 1; it is 0, and nothing is written, where there is none.
  pub update_rows-put :
      (rows : List Row) (r : ReviewRecord)
      → IsUnique rows
      → Dict.get id (entries rows) ≡ some r
      → is_pending r.status ≡ true
      → (entries (update_rows id a d now rows)
          ≡ Dict.put id (decided_record a d now r) (entries rows))
        × (count_if (to_decide id) rows ≡ 1)
  unfolding update_rows Dict.get Dict.put decided_record
  update_rows-put [] r u e p = cc
  update_rows-put (row ∷ rows) r u e p = elim (Bool-cases (has_run_id id row)) [
    | inl hit ↦
        let (kept, counted) = update_rows-Fresh rows (Fresh-hit row rows hit u.0) in
        ground (arith, kept, counted)
    | inr miss ↦
        let (written, counted) = update_rows-put rows r u.1 (rw miss at e) p in
        (rw (miss, written), rw miss (rw counted (omega arith)))
  ]

  pub update_rows-settled :
      (rows : List Row) (r : ReviewRecord)
      → IsUnique rows
      → Dict.get id (entries rows) ≡ some r
      → is_pending r.status ≡ false
      → (update_rows id a d now rows ≡ rows) × (count_if (to_decide id) rows ≡ 0)
  unfolding update_rows Dict.get
  update_rows-settled [] r u e p = cc
  update_rows-settled (row ∷ rows) r u e p = elim (Bool-cases (has_run_id id row)) [
    | inl hit ↦
        let (kept, counted) = update_rows-Fresh rows (Fresh-hit row rows hit u.0) in
        ground (arith, kept, counted)
    | inr miss ↦
        let (written, counted) = update_rows-settled rows r u.1 (rw miss at e) p in
        (rw miss (rw written), rw miss (rw counted (omega arith)))
  ]

  pub update_rows-missing :
      (rows : List Row)
      → Dict.get id (entries rows) ≡ none
      → (update_rows id a d now rows ≡ rows) × (count_if (to_decide id) rows ≡ 0)
  unfolding update_rows Dict.get
  update_rows-missing [] e = (refl, refl)
  update_rows-missing (row ∷ rows) e = elim (Bool-cases (has_run_id id row)) [
    | inl hit ↦ absurd (cc (rw hit at e))
    | inr miss ↦
        let (written, counted) = update_rows-missing rows (rw miss at e) in
        (rw miss (rw written), rw miss (rw counted (omega arith)))
  ]

  Fresh-update : (k : Text) (rows : List Row) → Fresh k rows → Fresh k (update_rows id a d now rows)
  unfolding update_rows decided_record
  Fresh-update k [] h = h
  Fresh-update k (row ∷ rows) h = (ground arith, Fresh-update k rows h.1)

  pub IsUnique-update : (rows : List Row) → IsUnique rows → IsUnique (update_rows id a d now rows)
  unfolding update_rows decided_record
  IsUnique-update [] h = h
  IsUnique-update (row ∷ rows) h = elim (Bool-cases (to_decide id row)) [
    | inl t ↦ rw t (Fresh-update row.review.run_id rows h.0, IsUnique-update rows h.1)
    | inr f ↦ rw f (Fresh-update row.review.run_id rows h.0, IsUnique-update rows h.1)
  ]

  above-update :
      (n : ℕ) (rows : List Row)
      → All (λ (r : Row). n < r.id) rows
      → All (λ (r : Row). n < r.id) (update_rows id a d now rows)
  unfolding update_rows
  above-update n [] h = h
  above-update n (row ∷ rows) h = (ground arith, above-update n rows h.1)

  pub IsAscending-update :
      (rows : List Row) (next : ℕ)
      → IsAscending rows next
      → IsAscending (update_rows id a d now rows) next
  unfolding update_rows
  IsAscending-update [] next h = h
  IsAscending-update (row ∷ rows) next h = elim (Bool-cases (to_decide id row)) [
    | inl t ↦ rw t (h.0, above-update row.id rows h.1, IsAscending-update rows next h.2)
    | inr f ↦ rw f (h.0, above-update row.id rows h.1, IsAscending-update rows next h.2)
  ]

Fresh-missing : (k : Text) (rows : List Row) → Dict.get k (entries rows) ≡ none → Fresh k rows
unfolding Dict.get
Fresh-missing k [] h = tt
Fresh-missing k (row ∷ rows) h = elim (Bool-cases (has_run_id k row)) [
  | inl hit ↦ absurd (cc (rw hit at h))
  | inr miss ↦ (miss, Fresh-missing k rows (rw miss at h))
]

Fresh-insert :
    (k : Text) (rows : List Row) (row : Row)
    → (row.review.run_id == k) ≡ false
    → Fresh k rows
    → Fresh k (rows ++ row ∷ [])
Fresh-insert k rows row n h = All-append _ rows (row ∷ []) h (n, tt)

pub IsUnique-insert :
    (rows : List Row) (row : Row)
    → Dict.get row.review.run_id (entries rows) ≡ none
    → IsUnique rows
    → IsUnique (rows ++ row ∷ [])
unfolding Dict.get
IsUnique-insert [] row h u = (tt, tt)
IsUnique-insert (r ∷ rows) row h u = elim (Bool-cases (has_run_id row.review.run_id r)) [
  | inl hit ↦ absurd (cc (rw hit at h))
  | inr miss ↦ (
    Fresh-insert r.review.run_id rows row (rw (Dict.==-sym row.review.run_id r.review.run_id) miss)
        u.0,
    IsUnique-insert rows row (rw miss at h) u.1,
  )
]
