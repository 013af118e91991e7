-- ===== src/Prelude/Lists.antt =====
-- Lists measured and indexed by native numbers, under the library's names.
use Prim.Native.Nat.{ℕ, zero, suc, ◌+◌, ◌≤◌}
use mathlib.Core.Path.{◌≡◌, refl, ap, sym}
use mathlib.Core.List.{reverse, reverse-cons, append-nil, List, [], ◌∷◌, ◌++◌}
use mathlib.Core.Bool.{Bool, true, false, ◌||◌, ◌&&◌}
use native.Mathlib.Omega.{arith}
use langgraph_agent_stack.Prelude.Tests.{if◌then◌else◌, Eq, ◌==◌}

module _ {ℓ} {A : Type ℓ} where
  abbrev pub length : List A → ℕ
  length [] = 0
  length (a ∷ rest) = suc (length rest)

  abbrev pub take : ℕ → List A → List A
  take zero rest = []
  take (suc n) [] = []
  take (suc n) (a ∷ rest) = a ∷ take n rest

  abbrev pub drop : ℕ → List A → List A
  drop zero rest = rest
  drop (suc n) [] = []
  drop (suc n) (a ∷ rest) = drop n rest

  abbrev pub filter : (A → Bool) → List A → List A
  filter p [] = []
  filter p (a ∷ rest) = let kept = filter p rest in if p a then a ∷ kept else kept

  abbrev pub any : (A → Bool) → List A → Bool
  any p [] = false
  any p (a ∷ rest) = p a || any p rest

  abbrev pub all : (A → Bool) → List A → Bool
  all p [] = true
  all p (a ∷ rest) = p a && all p rest

  abbrev pub All {κ} : (A → Type κ) → List A → Type κ
  All P [] = Unit
  All P (a ∷ rest) = P a × All P rest

  pub length-append : (rest bs : List A) → length (rest ++ bs) ≡ length rest + length bs
  length-append [] bs = omega arith
  length-append (a ∷ rest) bs = omega (arith, length-append rest bs)

  pub length-take-le : (n : ℕ) (rest : List A) → length (take n rest) ≤ n
  length-take-le zero rest = omega arith
  length-take-le (suc n) [] = omega arith
  length-take-le (suc n) (a ∷ rest) = omega (arith, length-take-le n rest)

  pub take_of_length-le : (n : ℕ) (rest : List A) → length rest ≤ n → take n rest ≡ rest
  take_of_length-le zero [] h = refl
  take_of_length-le zero (a ∷ rest) h = absurd (omega arith)
  take_of_length-le (suc n) [] h = refl
  take_of_length-le (suc n) (a ∷ rest) h = ap (◌∷◌ a) (take_of_length-le n rest (omega arith))

  pub length-filter-le : (p : A → Bool) (rest : List A) → length (filter p rest) ≤ length rest
  length-filter-le p [] = omega arith
  length-filter-le p (a ∷ rest) = ground (arith, length-filter-le p rest)

  pub filter-append :
      (p : A → Bool) (rest bs : List A) → filter p (rest ++ bs) ≡ filter p rest ++ filter p bs
  filter-append p [] bs = refl
  filter-append p (a ∷ rest) bs = ground (arith, filter-append p rest bs)

  pub take-nil : (n : ℕ) → take n [] ≡ []
  take-nil zero = refl
  take-nil (suc n) = refl

  pub drop-nil : (n : ℕ) → drop n [] ≡ []
  drop-nil zero = refl
  drop-nil (suc n) = refl

  pub All-append {κ} :
      (P : A → Type κ) (rest bs : List A) → All P rest → All P bs → All P (rest ++ bs)
  All-append P [] bs hx hy = hy
  All-append P (a ∷ rest) bs hx hy = (hx.0, All-append P rest bs hx.1 hy)

  pub All-reverse {κ} : (P : A → Type κ) (rest : List A) → All P rest → All P (reverse rest)
  All-reverse P [] h = h
  All-reverse P (a ∷ rest) h =
      rw (reverse-cons a rest)
        (All-append P (reverse rest) (a ∷ []) (All-reverse P rest h.1) (h.0, tt))

  filter_last :
      (b : Bool) (a : A) (rest : List A)
      → reverse rest ++ (if b then a ∷ [] else []) ≡ reverse (if b then a ∷ rest else rest)
  filter_last true a rest = sym (reverse-cons a rest)
  filter_last false a rest = append-nil (reverse rest)

  pub filter-reverse :
      (p : A → Bool) (rest : List A) → filter p (reverse rest) ≡ reverse (filter p rest)
  filter-reverse p [] = refl
  filter-reverse p (a ∷ rest) =
      rw (reverse-cons a rest, filter-append p (reverse rest) (a ∷ []), filter-reverse p rest)
        (filter_last (p a) a (filter p rest))

-- `a in rest`
module _ {ℓ} {A : Type ℓ} ⦃e : Eq A⦄ where
  abbrev pub mem : A → List A → Bool
  mem a [] = false
  mem a (b ∷ rest) = (a == b) || mem a rest
