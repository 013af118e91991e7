-- ===== src/Reviews/Memory/Pages.antt =====
-- core/review_store.py: `list_reviews` page by page.
use langgraph_agent_stack.Prelude.{
  leb, leb→le, le→leb, Bool-cases, take, drop, filter, take-nil, drop-nil, ok, ℕ, zero, suc, ◌+◌,
  ◌≤◌, ◌≡◌, sym, ap, inl, inr, Option, List, [], ◌∷◌, ◌++◌, reverse, arith, text_eq, nat_eq,
}
use native.Mathlib.Nat.{zero-add, suc-add}
use langgraph_agent_stack.Prelude.Dict
use langgraph_agent_stack.Prelude.Int.{pos}
use langgraph_agent_stack.Reviews.{ReviewStatus, ReviewRecord, matches_status, validate_list_args}
use langgraph_agent_stack.Reviews.Memory.{InMemoryReviewStore, list_reviews}

take-add {ℓ} :
    {A : Type ℓ} (n m : ℕ) (xs : List A) → take n xs ++ take m (drop n xs) ≡ take (n + m) xs
take-add zero m xs = rw (zero-add m)
take-add (suc n) m [] = rw (suc-add n m) (take-nil m)
take-add (suc n) m (x ∷ xs) = rw (suc-add n m) (ap (◌∷◌ x) (take-add n m xs))

drop-add {ℓ} : {A : Type ℓ} (n m : ℕ) (xs : List A) → drop m (drop n xs) ≡ drop (n + m) xs
drop-add zero m xs = rw (zero-add m)
drop-add (suc n) m [] = rw (suc-add n m) (drop-nil m)
drop-add (suc n) m (x ∷ xs) = rw (suc-add n m) (drop-add n m xs)

-- The reviews of a status, newest first.
abbrev pub selected : Option ReviewStatus → InMemoryReviewStore → List ReviewRecord
selected status s = filter (matches_status status) (reverse (Dict.values s.records))

page_lem :
    (status : Option ReviewStatus) (limit offset : ℕ) (s : InMemoryReviewStore)
    (p : List ReviewRecord)
    → list_reviews status (pos limit) (pos offset) s ≡ ok p
    → (1 ≤ limit) × (p ≡ take limit (drop offset (selected status s)))
unfolding list_reviews validate_list_args
page_lem status limit offset s p h = elim (Bool-cases (leb 1 limit)) [
  | inl e ↦ (leb→le 1 limit e, let h' = rw (e, le→leb 0 offset (omega arith)) at h in cc)
  | inr e ↦ absurd (cc (rw e at h))
]

page_of :
    (status : Option ReviewStatus) (limit offset : ℕ) (s : InMemoryReviewStore)
    → 1 ≤ limit
    → list_reviews status (pos limit) (pos offset) s
      ≡ ok (take limit (drop offset (selected status s)))
unfolding list_reviews validate_list_args
page_of status limit offset s h = rw (le→leb 1 limit h, le→leb 0 offset (omega arith))

-- Two pages in a row are one longer page: no review is skipped or shown twice, whatever the filter.
pub list_reviews_pages :
    (status : Option ReviewStatus) (limit limit' offset : ℕ) (s : InMemoryReviewStore)
    (p p' : List ReviewRecord)
    → list_reviews status (pos limit) (pos offset) s ≡ ok p
    → list_reviews status (pos limit') (pos (offset + limit)) s ≡ ok p'
    → list_reviews status (pos (limit + limit')) (pos offset) s ≡ ok (p ++ p')
list_reviews_pages status limit limit' offset s p p' h h' =
    let (l, e) = page_lem status limit offset s p h in
    let (l', e') = page_lem status limit' (offset + limit) s p' h' in
    rw (page_of status (limit + limit') offset s (omega arith), e, e')
      (ap ok (sym (pages limit limit' offset (selected status s))))
  where
    pages :
        (n m k : ℕ) (xs : List ReviewRecord)
        → take n (drop k xs) ++ take m (drop (k + n) xs) ≡ take (n + m) (drop k xs)
    pages n m k xs = rw (← drop-add k n xs) (take-add n m (drop k xs))
