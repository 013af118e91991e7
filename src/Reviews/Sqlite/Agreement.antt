-- ===== src/Reviews/Sqlite/Agreement.antt =====
-- core/review_store.py: `SqliteReviewStore` against `InMemoryReviewStore`.
use langgraph_agent_stack.Prelude.{
  if◌then◌else◌, Bool-cases, Option-cases, take, drop, filter, any, All, filter-reverse, Text,
  text_beq_refl, Result, is_ok, Result-cases, ok, err, ℕ, zero, suc, ◌≤◌, ◌≡◌, refl, sym, ◌⊎◌, inl,
  inr, Bool, true, false, ◌&&◌, Option, none, some, List, [], ◌∷◌, ◌++◌, reverse, arith, text_eq,
  nat_eq,
}
use langgraph_agent_stack.Reviews.{
  ReviewStatus, is_pending, ReviewRecord, ReviewError, exists, int_too_large, CreateArgs,
  DecideArgs, validate_create_args, validate_decision_args, validate_list_args, new_record,
  matches_status, Call,
}
use langgraph_agent_stack.Reviews.Sqlite.{
  Row, SqliteReviewStore, init, has_run_id, select_one, insert_row, to_decide, update_rows,
  order_by_id_desc, reviews_of, create, get, fits_sqlite, list_reviews, decide_reply, decide, step,
  run,
}
use mathlib.Core.List.{reverse-cons}
use langgraph_agent_stack.Prelude.Dict
use langgraph_agent_stack.Prelude.Dict.{Dict}
use langgraph_agent_stack.Prelude.Count.{count_if}
use langgraph_agent_stack.Prelude.Int.{ℤ, at_least, to_ℕ}
use langgraph_agent_stack.Reviews.Memory
use langgraph_agent_stack.Reviews.Memory.{InMemoryReviewStore}
use langgraph_agent_stack.Reviews.Sqlite.Rows.{
  entries, IsAscending, IsUnique, order_by_id_desc-reverse, IsAscending-filter, IsAscending-insert,
  select_one-get, any-get, entries-append, values-entries, update_rows-put, update_rows-settled,
  update_rows-missing, IsUnique-update, IsAscending-update, IsUnique-insert,
}

-- The dictionary holds the reviews of the table, in the same order.
pub record Agrees (m : InMemoryReviewStore) (s : SqliteReviewStore) : Type 0 where
  pub same : m.records ≡ entries s.rows
  pub ascending : IsAscending s.rows s.next_id
  pub unique : IsUnique s.rows

abbrev pub SameReply :
    {A : Type 0}
    → Result ReviewError A × InMemoryReviewStore
    → Result ReviewError A × SqliteReviewStore
    → Type 0
SameReply (r, m) (r', s) = (r ≡ r') × Agrees m s

reviews_of-take : (n : ℕ) (rows : List Row) → reviews_of (take n rows) ≡ take n (reviews_of rows)
reviews_of-take zero rows = refl
reviews_of-take (suc n) [] = refl
reviews_of-take (suc n) (row ∷ rows) = rw (reviews_of-take n rows)

reviews_of-drop : (n : ℕ) (rows : List Row) → reviews_of (drop n rows) ≡ drop n (reviews_of rows)
reviews_of-drop zero rows = refl
reviews_of-drop (suc n) [] = refl
reviews_of-drop (suc n) (row ∷ rows) = reviews_of-drop n rows

reviews_of-append :
    (rows rows' : List Row) → reviews_of (rows ++ rows') ≡ reviews_of rows ++ reviews_of rows'
reviews_of-append [] rows' = refl
reviews_of-append (row ∷ rows) rows' = rw (reviews_of-append rows rows')

reviews_of-reverse : (rows : List Row) → reviews_of (reverse rows) ≡ reverse (reviews_of rows)
reviews_of-reverse [] = refl
reviews_of-reverse (row ∷ rows) =
    rw (reverse-cons row rows, reviews_of-append (reverse rows) (row ∷ []), reviews_of-reverse rows)
      (sym (reverse-cons row.review (reviews_of rows)))

reviews_of-filter :
    (p : ReviewRecord → Bool) (rows : List Row)
    → reviews_of (filter (λ (row : Row). p row.review) rows) ≡ filter p (reviews_of rows)
reviews_of-filter p [] = refl
reviews_of-filter p (row ∷ rows) = ground (arith, reviews_of-filter p rows)

-- The numbers of the call are within what the driver of SQLite takes.
abbrev pub is_storable : Call → Bool
is_storable (Call.create a now) = true
is_storable (Call.get_review run_id) = true
is_storable (Call.list_reviews status limit offset) = fits_sqlite limit && fits_sqlite offset
is_storable (Call.decide run_id a now) = true

module _ {m : InMemoryReviewStore} {s : SqliteReviewStore} (h : Agrees m s) where
  selected :
      (status : Option ReviewStatus)
      → filter (matches_status status) (reverse (Dict.values m.records))
        ≡ reviews_of
            (order_by_id_desc (filter (λ (row : Row). matches_status status row.review) s.rows))
  selected status =
      let taken : List Row = filter (λ (row : Row). matches_status status row.review) s.rows in
      rw
        (
          order_by_id_desc-reverse taken s.next_id
              (IsAscending-filter _ s.rows s.next_id h.ascending),
          reviews_of-reverse taken,
          reviews_of-filter (matches_status status) s.rows,
          h.same,
          values-entries s.rows,
        )
        (filter-reverse (matches_status status) (reviews_of s.rows))

  list_reviews-eq :
      (status : Option ReviewStatus) (limit offset : ℤ)
      → (fits_sqlite limit && fits_sqlite offset) ≡ true
      → Memory.list_reviews status limit offset m ≡ list_reviews status limit offset s
  unfolding Memory.list_reviews list_reviews
  list_reviews-eq status limit offset fits =
      rw (fits, selected status, reviews_of-take, reviews_of-drop)

  insert-Agrees :
      (r : ReviewRecord)
      → SameReply
          (Memory.insert_new r m)
          (if any (has_run_id r.run_id) s.rows then (err exists, s) else (ok r, insert_row r s))
  unfolding Memory.insert_new insert_row
  insert-Agrees r = elim (Option-cases (Dict.get r.run_id m.records)) [
    | inl new ↦
        let absent : Dict.get r.run_id (entries s.rows) ≡ none = rw h.same at new in
        rw (any-get r.run_id s.rows, absent, new)
          (
            refl,
            record {
              same = rw (Dict.put_absent r.run_id r m.records new, entries-append s.rows, h.same);
              ascending = IsAscending-insert s.rows s.next_id r h.ascending;
              unique = IsUnique-insert s.rows _ absent h.unique;
            },
          )
    | inr (old, there) ↦
        let there' : Dict.get r.run_id (entries s.rows) ≡ some old = rw h.same at there in
        rw (any-get r.run_id s.rows, there', there) (refl, h)
  ]

  -- The table after an UPDATE that took no row is the table before it.
  unchanged :
      (id : Text) (a : DecideArgs) (d : ReviewStatus) (now : Text)
      → update_rows id a d now s.rows ≡ s.rows
      → Agrees m (record s { rows = update_rows id a d now s.rows })
  unchanged id a d now e =
      rw e (record { same = h.same; ascending = h.ascending; unique = h.unique })

  decide-Agrees :
      (id : Text) (a : DecideArgs) (d : ReviewStatus) (now : Text)
      → SameReply (Memory.decide_found id a d now (Dict.get id m.records) m) (
          let rows = update_rows id a d now s.rows in
          (
            decide_reply (count_if (to_decide id) s.rows) (select_one id rows) (select_one id rows),
            record s { rows = rows },
          ))
  unfolding Memory.decide_found decide_reply
  decide-Agrees id a d now = elim (Option-cases (Dict.get id m.records)) [
    | inl missing ↦
        let missing' : Dict.get id (entries s.rows) ≡ none = rw h.same at missing in
        let (kept, counted) = update_rows-missing id a d now s.rows missing' in
        (
          rw (missing, counted, kept, select_one-get id s.rows, missing'),
          rw missing (unchanged id a d now kept),
        )
    | inr (r, there) ↦
        let there' : Dict.get id (entries s.rows) ≡ some r = rw h.same at there in
        elim (Bool-cases (is_pending r.status)) [
          | inl open_review ↦
              let (written, counted) =
                update_rows-put id a d now s.rows r h.unique there' open_review in
              (
                rw (
                  there,
                  Memory.decide_found,
                  open_review,
                  counted,
                  select_one-get id (update_rows id a d now s.rows),
                  written,
                  Dict.get-put,
                  text_beq_refl id,
                ),
                rw (there, Memory.decide_found, open_review)
                    (record {
                      same = rw (h.same, written);
                      ascending = IsAscending-update id a d now s.rows s.next_id h.ascending;
                      unique = IsUnique-update id a d now s.rows h.unique;
                    }),
              )
          | inr closed ↦
              let (kept, counted) =
                update_rows-settled id a d now s.rows r h.unique there' closed in
              (
                rw (
                  there,
                  Memory.decide_found,
                  closed,
                  counted,
                  kept,
                  select_one-get id s.rows,
                  there',
                ),
                rw (there, Memory.decide_found, closed) (unchanged id a d now kept),
              )
        ]
  ]

  create-Agrees : (a : CreateArgs) (now : Text) → SameReply (Memory.create a now m) (create a now s)
  unfolding Memory.create create
  create-Agrees a now = elim (Result-cases (validate_create_args a)) [
    | inl (u, v) ↦ rw (v, Memory.create, create) (insert-Agrees (new_record a now))
    | inr (e, v) ↦ rw (v, Memory.create, create) (refl, h)
  ]

  decide-valid-Agrees :
      (id : Text) (a : DecideArgs) (now : Text)
      → SameReply (Memory.decide id a now m) (decide id a now s)
  unfolding Memory.decide decide
  decide-valid-Agrees id a now = elim (Result-cases (validate_decision_args a)) [
    | inl (d, v) ↦ rw (v, Memory.decide, decide) (decide-Agrees id a d now)
    | inr (e, v) ↦ rw (v, Memory.decide, decide) (refl, h)
  ]

  step-Agrees : (c : Call) → is_storable c ≡ true → SameReply (Memory.step c m) (step c s)
  unfolding Memory.step step Memory.get get
  step-Agrees (Call.create a now) fits = let (same, kept) = create-Agrees a now in (rw same, kept)
  step-Agrees (Call.get_review id) fits = (rw (h.same, select_one-get id s.rows), h)
  step-Agrees (Call.list_reviews status limit offset) fits =
      (rw (list_reviews-eq status limit offset fits), h)
  step-Agrees (Call.decide id a now) fits =
      let (same, kept) = decide-valid-Agrees id a now in (rw same, kept)

run-Agrees :
    (calls : List Call) (m : InMemoryReviewStore) (s : SqliteReviewStore)
    → Agrees m s
    → All (λ c. is_storable c ≡ true) calls
    → (Memory.run calls m).0 ≡ (run calls s).0
unfolding Memory.run run
run-Agrees [] m s h fits = refl
run-Agrees (c ∷ calls) m s h fits =
    let (same, kept) = step-Agrees h c fits.0 in
    rw (same, run-Agrees calls (Memory.step c m).1 (step c s).1 kept fits.1)

-- From empty stores, the two backends give the same replies, errors included, to every sequence of
-- calls with the same arguments at the same times, in which every limit and offset of a listing is
-- below 2^63; and a valid listing with a larger number, which the store in memory answers in every state, is an
-- error of SQLite's driver in every state.
pub memory_sqlite_agree :
    (calls : List Call) (status : Option ReviewStatus) (limit offset : ℤ) (m : InMemoryReviewStore)
    (s : SqliteReviewStore)
    → All (λ c. is_storable c ≡ true) calls
    → at_least 1 limit ≡ true
    → at_least 0 offset ≡ true
    → (0x8000000000000000 ≤ to_ℕ limit) ⊎ (0x8000000000000000 ≤ to_ℕ offset)
    → ((Memory.run calls Memory.init).0 ≡ (run calls init).0)
      × (is_ok (Memory.list_reviews status limit offset m) ≡ true)
      × (list_reviews status limit offset s ≡ err int_too_large)
unfolding list_reviews validate_list_args Memory.list_reviews
memory_sqlite_agree calls status limit offset m s fits positive natural large = (
  run-Agrees calls Memory.init init (record { same = refl; ascending = tt; unique = tt }) fits,
  rw (positive, natural) refl,
  rw (positive, natural, too_large large) refl,
)
  where
    too_large :
        (0x8000000000000000 ≤ to_ℕ limit) ⊎ (0x8000000000000000 ≤ to_ℕ offset)
        → (fits_sqlite limit && fits_sqlite offset) ≡ false
    too_large (inl big) = ground arith
    too_large (inr big) = ground arith
