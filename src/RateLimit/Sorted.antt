-- ===== src/RateLimit/Sorted.antt =====
-- Buckets in the order of time, and what the cut-off leaves of them.
use langgraph_agent_stack.Prelude.{
  ltb, leb, Bool-cases, length, filter, All, filter-append, All-append, ℕ, ◌≤◌, ◌≡◌, refl, inl, inr,
  true, List, [], ◌∷◌, ◌++◌, arith,
}
use langgraph_agent_stack.Prelude.Count.{count_if}
use langgraph_agent_stack.RateLimit.{prune, is_stale}

-- Times that do not fall.
abbrev pub IsSorted : List ℕ → Type 0
IsSorted [] = Unit
IsSorted (t ∷ ts) = All (λ u. t ≤ u) ts × IsSorted ts

-- The times that a cut-off leaves.
abbrev pub recent : ℕ → List ℕ → List ℕ
recent cutoff = filter (leb cutoff)

recent-All : (cutoff : ℕ) (ts : List ℕ) → All (λ u. cutoff ≤ u) ts → recent cutoff ts ≡ ts
recent-All cutoff [] h = refl
recent-All cutoff (t ∷ ts) h = ground (arith, recent-All cutoff ts h.1, h.0)

All-le_trans : (a b : ℕ) (ts : List ℕ) → a ≤ b → All (λ u. b ≤ u) ts → All (λ u. a ≤ u) ts
All-le_trans a b [] h k = tt
All-le_trans a b (t ∷ ts) h k = (omega arith, All-le_trans a b ts h k.1)

-- On a sorted bucket the loop from the left leaves exactly the times in the window.
pub prune-recent : (cutoff : ℕ) (ts : List ℕ) → IsSorted ts → prune cutoff ts ≡ recent cutoff ts
unfolding prune
prune-recent cutoff [] h = refl
prune-recent cutoff (t ∷ ts) h = elim (Bool-cases (ltb t cutoff)) [
  | inl old ↦ ground (arith, prune-recent cutoff ts h.1)
  | inr new ↦ ground (arith, recent-All cutoff ts (All-le_trans cutoff t ts (ground arith) h.0))
]

pub recent_twice : (a b : ℕ) (ts : List ℕ) → a ≤ b → recent b (recent a ts) ≡ recent b ts
recent_twice a b [] h = refl
recent_twice a b (t ∷ ts) h = ground (arith, recent_twice a b ts h)

pub recent-append : (a : ℕ) (ts us : List ℕ) → recent a (ts ++ us) ≡ recent a ts ++ recent a us
recent-append a ts us = filter-append (leb a) ts us

pub length-recent : (a : ℕ) (ts : List ℕ) → length (recent a ts) ≡ count_if (leb a) ts
length-recent a [] = refl
length-recent a (t ∷ ts) = ground (arith, length-recent a ts)

All-recent : (P : ℕ → Type 0) (a : ℕ) (ts : List ℕ) → All P ts → All P (recent a ts)
All-recent P a [] h = h
All-recent P a (t ∷ ts) h = elim (Bool-cases (leb a t)) [
  | inl e ↦ rw e (h.0, All-recent P a ts h.1)
  | inr e ↦ rw e (All-recent P a ts h.1)
]

pub IsSorted-recent : (a : ℕ) (ts : List ℕ) → IsSorted ts → IsSorted (recent a ts)
IsSorted-recent a [] h = h
IsSorted-recent a (t ∷ ts) h = elim (Bool-cases (leb a t)) [
  | inl e ↦ rw e (All-recent (λ u. t ≤ u) a ts h.0, IsSorted-recent a ts h.1)
  | inr e ↦ rw e (IsSorted-recent a ts h.1)
]

pub below-recent :
    (now a : ℕ) (ts : List ℕ) → All (λ u. u ≤ now) ts → All (λ u. u ≤ now) (recent a ts)
below-recent now a ts h = All-recent (λ u. u ≤ now) a ts h

pub IsSorted-snoc :
    (ts : List ℕ) (now : ℕ) → IsSorted ts → All (λ u. u ≤ now) ts → IsSorted (ts ++ now ∷ [])
IsSorted-snoc [] now h k = (tt, tt)
IsSorted-snoc (t ∷ ts) now h k =
    (All-append (λ u. t ≤ u) ts (now ∷ []) h.0 (k.0, tt), IsSorted-snoc ts now h.1 k.1)

pub below-snoc :
    (ts : List ℕ) (now : ℕ) → All (λ u. u ≤ now) ts → All (λ u. u ≤ now) (ts ++ now ∷ [])
below-snoc ts now h = All-append (λ u. u ≤ now) ts (now ∷ []) h (omega arith, tt)

pub below_later : (a b : ℕ) (ts : List ℕ) → a ≤ b → All (λ u. u ≤ a) ts → All (λ u. u ≤ b) ts
below_later a b [] h k = tt
below_later a b (t ∷ ts) h k = (omega arith, below_later a b ts h k.1)

-- A sorted bucket whose newest time is too old has nothing in the window.
pub stale-recent :
    (cutoff : ℕ) (ts : List ℕ) → IsSorted ts → is_stale cutoff ts ≡ true → recent cutoff ts ≡ []
unfolding is_stale
stale-recent cutoff [] h e = refl
stale-recent cutoff (t ∷ []) h e = ground arith
stale-recent cutoff (t ∷ t' ∷ ts) h e = ground (arith, stale-recent cutoff (t' ∷ ts) h.1 e, h.0.0)
