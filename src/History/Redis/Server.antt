-- ===== src/History/Redis/Server.antt =====
-- A Redis server that keeps its hashes and sorted sets in dictionaries, with the documented laws.
use langgraph_agent_stack.Prelude.{
  ltb, if◌then◌else◌, ◌==◌, Bool-cases, Option-cases, is_some, or_else, take, All, Text,
  text_beq_iff, lower, ℕ, zero, suc, ◌≤◌, ◌<◌, ◌≡◌, refl, ap, ◌∙◌, inl, inr, true, false, ◌&&◌,
  none, some, List, [], ◌∷◌, arith, text_eq, nat_eq,
}
use langgraph_agent_stack.History.Redis.{RunServer}
use langgraph_agent_stack.History.{Run}
use mathlib.Core.Path.{subst}
use langgraph_agent_stack.Prelude.Dict
use langgraph_agent_stack.Prelude.Dict.{Dict}

abbrev pub score : Dict Text ℕ → Text → ℕ
score d n = or_else (Dict.get n d) 0

abbrev pub place : Dict Text ℕ → Text → List Text → List Text
place d n [] = n ∷ []
place d n (m ∷ rest) =
    let tail = place d n rest in if ltb (score d n) (score d m) then m ∷ tail else n ∷ m ∷ rest

abbrev pub ranked : Dict Text ℕ → List Text → List Text
ranked d [] = []
ranked d (n ∷ names) = place d n (ranked d names)

place-All :
    (P : Text → Type 0) (d : Dict Text ℕ) (n : Text) (names : List Text)
    → P n
    → All P names
    → All P (place d n names)
place-All P d n [] h hs = (h, tt)
place-All P d n (m ∷ names) h hs = elim (Bool-cases (ltb (score d n) (score d m))) [
  | inl lower ↦ rw lower (hs.0, place-All P d n names h hs.1)
  | inr higher ↦ rw higher (h, hs)
]

pub ranked-All :
    (P : Text → Type 0) (d : Dict Text ℕ) (names : List Text) → All P names → All P (ranked d names)
ranked-All P d [] h = tt
ranked-All P d (n ∷ names) h = place-All P d n (ranked d names) h.0 (ranked-All P d names h.1)

abbrev pub Heads : Dict Text ℕ → List Text → List Text → Type 0
Heads d names [] = names ≡ []
Heads d names (top ∷ rest) = All (λ (x : Text). score d x ≤ score d top) names

below_All :
    (d : Dict Text ℕ) (n m : Text) (names : List Text)
    → score d m ≤ score d n
    → All (λ (x : Text). score d x ≤ score d m) names
    → All (λ (x : Text). score d x ≤ score d n) names
below_All d n m [] le h = tt
below_All d n m (x ∷ names) le h = (omega (arith, h.0), below_All d n m names le h.1)

place-Heads :
    (d : Dict Text ℕ) (n : Text) (names sorted : List Text)
    → Heads d names sorted
    → Heads d (n ∷ names) (place d n sorted)
place-Heads d n names [] h = (omega arith, rw h tt)
place-Heads d n names (m ∷ rest) h = elim (Bool-cases (ltb (score d n) (score d m))) [
  | inl lower ↦ rw lower (ground arith, h)
  | inr higher ↦ rw higher (omega arith, below_All d n m names (ground arith) h)
]

pub ranked-Heads : (d : Dict Text ℕ) (names : List Text) → Heads d names (ranked d names)
ranked-Heads d [] = refl
ranked-Heads d (n ∷ names) = place-Heads d n names (ranked d names) (ranked-Heads d names)

abbrev pub IsMember : Dict Text ℕ → Text → Type 0
IsMember d n = is_some (Dict.get n d) ≡ true

more_members :
    (d : Dict Text ℕ) (j : Text) (v : ℕ) (names : List Text)
    → All (IsMember d) names
    → All (IsMember ((j, v) ∷ d)) names
unfolding Dict.get
more_members d j v [] h = tt
more_members d j v (n ∷ names) h = (one n h.0, more_members d j v names h.1)
  where
    one : (n : Text) → IsMember d n → IsMember ((j, v) ∷ d) n
    one n member = elim (Bool-cases (j == n)) [
      | inl same ↦ rw same refl
      | inr other ↦ rw other member
    ]

pub keys_members : (d : Dict Text ℕ) → All (IsMember d) (Dict.keys d)
unfolding Dict.get
keys_members [] = tt
keys_members ((j, v) ∷ d) =
    (rw (Dict.beq_refl j) refl, more_members d j v (Dict.keys d) (keys_members d))

at_member :
    (P : Text → Type 0) (n : Text) (u : ℕ) (d : Dict Text ℕ)
    → Dict.get n d ≡ some u
    → All P (Dict.keys d)
    → P n
unfolding Dict.get
at_member P n u [] found h = absurd (cc)
at_member P n u ((j, v) ∷ d) found h = elim (Bool-cases (j == n)) [
  | inl same ↦ subst P ((text_beq_iff j n).0 same) h.0
  | inr other ↦ at_member P n u d (rw other at found) h.1
]

pub take-All : (P : Text → Type 0) (k : ℕ) (names : List Text) → All P names → All P (take k names)
take-All P zero names h = tt
take-All P (suc k) [] h = tt
take-All P (suc k) (n ∷ names) h = (h.0, take-All P k names h.1)

abbrev pub NoRival : Dict Text ℕ → Text → ℕ → Type 0
NoRival d n t = (n' : Text) (u : ℕ) → Dict.get n' d ≡ some u → (n' == n) ≡ false → u < t

not_both : (a b t u : ℕ) → a ≡ t → b ≡ u → u < t → ¬ (a ≤ b)
not_both a b t u ea eb less le = omega arith

pub top_first :
    (d : Dict Text ℕ) (n : Text) (t : ℕ) (sorted : List Text)
    → Dict.get n d ≡ some t
    → NoRival d n t
    → Heads d (Dict.keys d) sorted
    → All (IsMember d) sorted
    → take 1 sorted ≡ n ∷ []
top_first d n t [] found unrivalled heads members =
    absurd (cc (at_member (λ x. true ≡ false) n t d found (rw heads tt)))
top_first d n t (top ∷ rest) found unrivalled heads members = elim (Bool-cases (top == n)) [
  | inl same ↦ ap (λ x. x ∷ []) ((text_beq_iff top n).0 same)
  | inr other ↦ elim (Option-cases (Dict.get top d)) [
    | inl missing ↦ absurd (cc (rw missing at members.0))
    | inr (u, has) ↦ absurd (
        not_both (score d n) (score d top) t u (ap (λ o. or_else o 0) found)
          (ap (λ o. or_else o 0) has) (unrivalled top u has other)
          (at_member (λ x. score d x ≤ score d top) n t d found heads))
  ]
]

pub record Store : Type 0 where
  pub hashes : Dict Text Run
  pub sets : Dict Text (Dict Text ℕ)

abbrev pub set_of : Text → Store → Dict Text ℕ
set_of key s = or_else (Dict.get key s.sets) []

pub add_score :
    (key n key' n' : Text) (t : ℕ) (sets : Dict Text (Dict Text ℕ))
    → Dict.get n (
        or_else
          (Dict.get key (Dict.put key' (Dict.put n' t (or_else (Dict.get key' sets) [])) sets))
          [])
      ≡ (if key' == key && n' == n then some t else Dict.get n (or_else (Dict.get key sets) []))
add_score key n key' n' t sets = elim (Bool-cases (key' == key)) [
  | inr other ↦ rw (Dict.get-put key' key _ sets, other) refl
  | inl same ↦
      rw (Dict.get-put key' key (Dict.put n' t (or_else (Dict.get key' sets) [])) sets, same)
        (Dict.get-put n' n t (or_else (Dict.get key' sets) [])
          ∙ ap (λ k. if n' == n then some t else Dict.get n (or_else (Dict.get k sets) []))
              ((text_beq_iff key' key).0 same))
]

pub nothing_in : (V : Type 0) (k : Text) → (let d : Dict Text V = [] in Dict.get k d ≡ none)
unfolding Dict.get
nothing_in V k = refl

pub no_score : (key n : Text) → Dict.get n (set_of key (record { hashes = []; sets = [] })) ≡ none
unfolding Dict.get
no_score key n = refl

abbrev pub server : RunServer
server = record {
  State = Store;
  empty = record { hashes = []; sets = [] };
  hgetall = λ k s. Dict.get k s.hashes;
  hset = λ k r s. record s { hashes = Dict.put k r s.hashes };
  zscore = λ key n s. Dict.get n (set_of key s);
  zadd = λ key n t s. record s { sets = Dict.put key (Dict.put n t (set_of key s)) s.sets };
  zrevrange = λ key k s. take k (ranked (set_of key s) (Dict.keys (set_of key s)));
  hgetall_empty = λ k. nothing_in Run k;
  zscore_empty = λ key n. no_score key n;
  hgetall_hset = λ j k r s. Dict.get-put k j r s.hashes;
  hgetall_zadd = λ j key n t s. refl;
  zscore_hset = λ key n k r s. refl;
  zscore_zadd = λ key n key' n' t s. add_score key n key' n' t s.sets;
  zrevrange_members = λ key k s.
      take-All (IsMember (set_of key s)) k (ranked (set_of key s) (Dict.keys (set_of key s))) (
        ranked-All (IsMember (set_of key s)) (set_of key s) (Dict.keys (set_of key s))
          (keys_members (set_of key s)));
  zrevrange_top = λ key n t s found unrivalled.
      top_first (set_of key s) n t (ranked (set_of key s) (Dict.keys (set_of key s))) found
        unrivalled (ranked-Heads (set_of key s) (Dict.keys (set_of key s)))
        (ranked-All (IsMember (set_of key s)) (set_of key s) (Dict.keys (set_of key s))
          (keys_members (set_of key s)));
}
