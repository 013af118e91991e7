-- ===== src/Prelude/Dict.antt =====
-- Python's `dict` with an equality of keys: insertion order is kept, and a write to a key that is
-- there keeps its place.
use mathlib.Core.Path.{◌≡◌, refl}
use mathlib.Core.Bool.{true, false}
use mathlib.Core.Option.{Option, none, some}
use mathlib.Core.List.{List, [], ◌∷◌, ◌++◌}
use native.Mathlib.Omega.{arith}
use mathlib.Core.Logic.{inl, inr}
use langgraph_agent_stack.Prelude.Tests.{Bool-cases, if◌then◌else◌, Eq, ◌==◌}

abbrev pub Dict {ℓ κ} : Type ℓ → Type κ → Type (ℓ ⊔ κ)
Dict K V = List (K × V)

module _ {ℓ κ} {K : Type ℓ} {V : Type κ} where
  abbrev pub keys : Dict K V → List K
  keys [] = []
  keys (e ∷ d) = e.0 ∷ keys d

  abbrev pub values : Dict K V → List V
  values [] = []
  values (e ∷ d) = e.1 ∷ values d

module _ {ℓ} {K : Type ℓ} ⦃e : Eq K⦄ where
  pub beq_refl : (k : K) → (k == k) ≡ true
  beq_refl k = (e.same_key_iff k k).1 refl

  pub ==-sym : (k j : K) → (k == j) ≡ (j == k)
  ==-sym k j = ground (arith, e.same_key_iff k j, e.same_key_iff j k)

module _ {ℓ κ} {K : Type ℓ} {V : Type κ} ⦃e : Eq K⦄ where
  unfoldable pub get : K → Dict K V → Option V
  get k [] = none
  get k ((j, v) ∷ d) = if j == k then some v else get k d

  unfoldable pub put : K → V → Dict K V → Dict K V
  put k v [] = (k, v) ∷ []
  put k v ((j, w) ∷ d) = if j == k then (j, v) ∷ d else (j, w) ∷ put k v d

  unfoldable pub remove : K → Dict K V → Dict K V
  remove k [] = []
  remove k ((j, w) ∷ d) = let rest = remove k d in if j == k then rest else (j, w) ∷ rest

  pub get-put :
      (k j : K) (v : V) (d : Dict K V) → get j (put k v d) ≡ (if k == j then some v else get j d)
  unfolding get put
  get-put k j v [] = refl
  get-put k j v ((i, w) ∷ d) =
      ground (arith, e.same_key_iff k j, e.same_key_iff i k, e.same_key_iff i j, get-put k j v d)

  pub get-remove :
      (k j : K) (d : Dict K V) → get j (remove k d) ≡ (if k == j then none else get j d)
  unfolding get remove
  get-remove k j [] = ground arith
  get-remove k j ((i, w) ∷ d) =
      ground (arith, get-remove k j d, e.same_key_iff k j, e.same_key_iff i k, e.same_key_iff i j)

  -- a write to a key that is not there goes to the end
  pub put_absent : (k : K) (v : V) (d : Dict K V) → get k d ≡ none → put k v d ≡ d ++ (k, v) ∷ []
  unfolding get put
  put_absent k v [] h = refl
  put_absent k v ((i, w) ∷ d) h = ground (arith, put_absent k v d)

module _ {ℓ κ} {K : Type ℓ} {V : Type κ} ⦃e : Eq K⦄ where
  -- No key stands twice.
  abbrev pub Lacks : K → Dict K V → Type 0
  Lacks k [] = Unit
  Lacks k (entry ∷ d) = ((entry.0 == k) ≡ false) × Lacks k d

  abbrev pub IsUnique : Dict K V → Type 0
  IsUnique [] = Unit
  IsUnique (entry ∷ d) = Lacks entry.0 d × IsUnique d

  pub Lacks-get : (k : K) (d : Dict K V) → Lacks k d → get k d ≡ none
  unfolding get
  Lacks-get k [] h = refl
  Lacks-get k ((j, v) ∷ d) h = rw h.0 (Lacks-get k d h.1)

  pub get-Lacks : (k : K) (d : Dict K V) → get k d ≡ none → Lacks k d
  unfolding get
  get-Lacks k [] h = tt
  get-Lacks k ((j, v) ∷ d) h = elim (Bool-cases (j == k)) [
    | inl hit ↦ absurd (cc (rw hit at h))
    | inr miss ↦ (miss, get-Lacks k d (rw miss at h))
  ]

  pub put-Lacks :
      (j k : K) (v : V) (d : Dict K V) → (k == j) ≡ false → Lacks j d → Lacks j (put k v d)
  unfolding put
  put-Lacks j k v [] n h = (n, tt)
  put-Lacks j k v ((i, w) ∷ d) n h = elim (Bool-cases (i == k)) [
    | inl hit ↦ rw hit h
    | inr miss ↦ rw miss (h.0, put-Lacks j k v d n h.1)
  ]

  pub put-IsUnique : (k : K) (v : V) (d : Dict K V) → IsUnique d → IsUnique (put k v d)
  unfolding put
  put-IsUnique k v [] h = (tt, tt)
  put-IsUnique k v ((i, w) ∷ d) h = elim (Bool-cases (i == k)) [
    | inl hit ↦ rw hit h
    | inr miss ↦ rw miss (put-Lacks i k v d (rw (==-sym k i) miss) h.0, put-IsUnique k v d h.1)
  ]
