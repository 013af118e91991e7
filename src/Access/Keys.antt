-- ===== src/Access/Keys.antt =====
-- core/config.py: `resolved_api_keys`; core/security.py: `verify_bearer_token`; the token of the
-- header in api/middleware.py.
use langgraph_agent_stack.Prelude.{
  leb, nat_beq, if◌then◌else◌, ◌==◌, Bool-cases, or_else, drop, any, all, All, mem, Text, text,
  text_beq_iff, strip, nonempty, starts_with, split, Result, ok, err, ℕ, ◌≡◌, refl, sym, ap, ◌∙◌,
  inl, inr, Bool, true, false, not, ◌&&◌, ◌||◌, Option, none, some, List, [], ◌∷◌, ◌++◌, map, arith,
  text_eq, nat_eq,
}
use langgraph_agent_stack.Access.{Settings, ServerError, non_ascii}
use mathlib.Core.Path.{subst}

-- `dict.fromkeys(key for key in candidates if key)`, given the keys seen before
unfoldable pub distinct : List Text → List Text → List Text
distinct seen [] = []
distinct seen (key ∷ rest) =
    let others = distinct seen rest in
    let next = distinct (key ∷ seen) rest in
    if nonempty key && not (mem key seen) then key ∷ next else others

abbrev pub legacy_key : Option Text → List Text
legacy_key none = []
legacy_key (some key) = if nonempty key then strip key ∷ [] else []

abbrev pub listed_keys : Option Text → List Text
listed_keys none = []
listed_keys (some keys) = if nonempty keys then map strip (split 44 keys) else []

unfoldable pub resolved_api_keys : Settings → List Text
unfolding distinct strip split
resolved_api_keys settings =
    distinct [] (legacy_key settings.api_key ++ listed_keys settings.api_keys)

abbrev pub is_ascii : Text → Bool
is_ascii s = all (λ c. leb c 127) s

-- `for key in keys: if hmac.compare_digest(token, key): matched = True`; compare_digest raises a
-- TypeError for a text that is not ASCII.
unfoldable pub compare_all : Text → List Text → Bool → Result ServerError Bool
compare_all token [] matched = ok matched
compare_all token (key ∷ keys) matched =
    let rest = compare_all token keys (if token == key then true else matched) in
    if is_ascii token && is_ascii key then rest else err non_ascii

unfoldable pub verify_bearer_token : Text → List Text → Result ServerError Bool
unfolding compare_all
verify_bearer_token token keys =
    if not (nonempty token) || not (nonempty keys) then ok false else compare_all token keys false

-- The comparison came to an end, and found the token.
abbrev pub is_accepted : Result ServerError Bool → Bool
is_accepted (ok matched) = matched
is_accepted (err e) = false

-- The token of an `Authorization` header.
unfoldable pub bearer_token : Option Text → Text
unfolding strip
bearer_token auth_header =
    let header = or_else auth_header [] in
    if starts_with (text "Bearer ") header then strip (drop 7 header) else []

both : (a b : Bool) → (a && b) ≡ true → (a ≡ true) × (b ≡ true)
both a b h = (ground (arith, h), ground (arith, h))

compare_all-mem :
    (token : Text) (keys : List Text) (matched : Bool)
    → is_ascii token ≡ true
    → all is_ascii keys ≡ true
    → compare_all token keys matched ≡ ok (matched || mem token keys)
unfolding compare_all
compare_all-mem token [] matched a as_keys = ap ok (ground arith)
compare_all-mem token (key ∷ keys) matched a as_keys =
    let (first, others) = both (is_ascii key) (all is_ascii keys) as_keys in
    elim (Bool-cases (token == key)) [
      | inl same ↦
          rw (a, first, same, compare_all-mem token keys true a others) (ap ok (ground arith))
      | inr other ↦ rw (a, first, other, compare_all-mem token keys matched a others) refl
    ]

-- Whatever does not end with an answer has met a text that is not ASCII.
compare_all-err :
    (token : Text) (keys : List Text) (matched : Bool) (e : ServerError)
    → compare_all token keys matched ≡ err e
    → (e ≡ non_ascii) × ((is_ascii token && all is_ascii keys) ≡ false)
unfolding compare_all
compare_all-err token [] matched e h = absurd (cc)
compare_all-err token (key ∷ keys) matched e h =
    elim (Bool-cases (is_ascii token && is_ascii key)) [
      | inr odd ↦ (err_same (rw odd at h), ground (arith, odd))
      | inl plain ↦
          let (is, later) = compare_all-err token keys _ e (rw plain at h) in
          (is, ground (arith, plain, later))
    ]
  where
    err_same :
        {e : ServerError}
        → (let r : Result ServerError Bool = err non_ascii in r ≡ err e)
        → e ≡ non_ascii
    err_same h = cc

pub verify_bearer_token-err :
    (token : Text) (keys : List Text) (e : ServerError)
    → verify_bearer_token token keys ≡ err e
    → (e ≡ non_ascii) × ((is_ascii token && all is_ascii keys) ≡ false)
unfolding verify_bearer_token
verify_bearer_token-err [] keys e h = absurd (cc)
verify_bearer_token-err (c ∷ token) [] e h = absurd (cc)
verify_bearer_token-err (c ∷ token) (key ∷ keys) e h =
    compare_all-err (c ∷ token) (key ∷ keys) false e h

-- The comparison with every key, which never stops early, accepts exactly a token that is not empty
-- and is one of the keys, if all of them are ASCII.
verify_bearer_token-mem :
    (token : Text) (keys : List Text)
    → is_ascii token ≡ true
    → all is_ascii keys ≡ true
    → verify_bearer_token token keys ≡ ok (nonempty token && mem token keys)
unfolding verify_bearer_token
verify_bearer_token-mem [] keys a as_keys = refl
verify_bearer_token-mem (c ∷ token) [] a as_keys = refl
verify_bearer_token-mem (c ∷ token) (key ∷ keys) a as_keys =
    compare_all-mem (c ∷ token) (key ∷ keys) false a as_keys

-- Keys that are not empty, stand in no list before them, and are pairwise different.
abbrev pub AreKeys : List Text → List Text → Type 0
AreKeys seen [] = Unit
AreKeys seen (key ∷ keys) =
    (nonempty key ≡ true) × (mem key seen ≡ false) × AreKeys (key ∷ seen) keys

distinct-AreKeys : (seen candidates : List Text) → AreKeys seen (distinct seen candidates)
unfolding distinct
distinct-AreKeys seen [] = tt
distinct-AreKeys seen (key ∷ rest) = elim (Bool-cases (nonempty key)) [
  | inr empty ↦ rw empty (distinct-AreKeys seen rest)
  | inl full ↦ elim (Bool-cases (mem key seen)) [
    | inl again ↦ rw (full, again) (distinct-AreKeys seen rest)
    | inr new ↦ rw (full, new) (full, new, distinct-AreKeys (key ∷ seen) rest)
  ]
]

-- an element that is equal to `key` can stand for it
abbrev AgreesOn : (seen rest : List Text) → Text → Text → Type 0
AgreesOn seen rest token key = (mem token seen ≡ mem key seen) × (nonempty token ≡ nonempty key)

same_AgreesOn :
    (seen rest : List Text) (token key : Text)
    → (token == key) ≡ true
    → AgreesOn seen rest token key
same_AgreesOn seen rest token key same =
    subst (AgreesOn seen rest token) ((text_beq_iff token key).0 same) (refl, refl)

-- The configured keys are the candidates that are not empty: none is lost and none is added.
mem-distinct :
    (token : Text) (seen candidates : List Text)
    → mem token seen ≡ false
    → mem token (distinct seen candidates) ≡ nonempty token && mem token candidates
unfolding distinct
mem-distinct token seen [] fresh = ground arith
mem-distinct token seen (key ∷ rest) fresh = elim (Bool-cases (token == key)) [
  | inl same ↦
      let (as_seen, as_full) = same_AgreesOn seen rest token key same in
      elim (Bool-cases (nonempty key)) [
        | inr empty ↦ rw empty (mem-distinct token seen rest fresh ∙ rw (same, as_full, empty) refl)
        | inl full ↦ rw (full, sym as_seen, fresh) (rw (same, as_full, full) refl)
      ]
  | inr other ↦ elim (Bool-cases (nonempty key && not (mem key seen))) [
    | inl new ↦ rw (new, other) (mem-distinct token (key ∷ seen) rest (rw other fresh))
    | inr skipped ↦ rw (skipped, other) (mem-distinct token seen rest fresh)
  ]
]

pub resolved_api_keys-AreKeys : (settings : Settings) → AreKeys [] (resolved_api_keys settings)
unfolding resolved_api_keys
resolved_api_keys-AreKeys settings =
    distinct-AreKeys [] (legacy_key settings.api_key ++ listed_keys settings.api_keys)

-- `sep.join(parts)`
abbrev pub join : ℕ → List Text → Text
join sep [] = []
join sep (part ∷ []) = part
join sep (part ∷ next ∷ parts) = part ++ sep ∷ join sep (next ∷ parts)

abbrev pub lacks : ℕ → Text → Bool
lacks sep s = not (any (λ c. nat_beq c sep) s)

split-append :
    (sep : ℕ) (part rest : Text)
    → lacks sep part ≡ true
    → split sep (part ++ sep ∷ rest) ≡ part ∷ split sep rest
unfolding split
split-append sep [] rest h = ground arith
split-append sep (c ∷ part) rest h = elim (Bool-cases (nat_beq c sep)) [
  | inl hit ↦ absurd (cc (rw hit at h))
  | inr miss ↦ rw (miss, split-append sep part rest (rw miss at h)) refl
]

split-single : (sep : ℕ) (part : Text) → lacks sep part ≡ true → split sep part ≡ part ∷ []
unfolding split
split-single sep [] h = refl
split-single sep (c ∷ part) h = elim (Bool-cases (nat_beq c sep)) [
  | inl hit ↦ absurd (cc (rw hit at h))
  | inr miss ↦ rw (miss, split-single sep part (rw miss at h)) refl
]

split-join :
    (sep : ℕ) (part : Text) (parts : List Text)
    → All (λ p. lacks sep p ≡ true) (part ∷ parts)
    → split sep (join sep (part ∷ parts)) ≡ part ∷ parts
split-join sep part [] h = split-single sep part h.0
split-join sep part (next ∷ parts) h =
    split-append sep part (join sep (next ∷ parts)) h.0
    ∙ ap (◌∷◌ part) (split-join sep next parts h.1)

mem-append :
    (token : Text) (xs ys : List Text) → mem token (xs ++ ys) ≡ (mem token xs || mem token ys)
mem-append token [] ys = refl
mem-append token (x ∷ xs) ys = ground (arith, mem-append token xs ys)

-- The token is the part, without the white space around it.
abbrev pub is_part : Text → Text → Bool
is_part token part = token == strip part

mem-map :
    (token : Text) (parts : List Text) → mem token (map strip parts) ≡ any (is_part token) parts
mem-map token [] = refl
mem-map token (part ∷ parts) = rw (mem-map token parts) refl

module _ (c : ℕ) (rest : Text) where
  legacy-mem : (key : Text) → mem (c ∷ rest) (legacy_key (some key)) ≡ is_part (c ∷ rest) key
  unfolding strip
  legacy-mem [] = refl
  legacy-mem (k ∷ key) = ground arith

  listed-mem :
      (part : Text) (parts : List Text)
      → All (λ p. lacks 44 p ≡ true) (part ∷ parts)
      → mem (c ∷ rest) (listed_keys (some (join 44 (part ∷ parts))))
        ≡ any (is_part (c ∷ rest)) (part ∷ parts)
  unfolding strip
  listed-mem [] [] h = refl
  listed-mem (k ∷ part) [] h =
      rw (split-join 44 (k ∷ part) [] h) (mem-map (c ∷ rest) ((k ∷ part) ∷ []))
  listed-mem [] (next ∷ parts) h =
      rw (split-join 44 [] (next ∷ parts) h) (mem-map (c ∷ rest) ([] ∷ next ∷ parts))
  listed-mem (k ∷ part) (next ∷ parts) h =
      rw (split-join 44 (k ∷ part) (next ∷ parts) h)
        (mem-map (c ∷ rest) ((k ∷ part) ∷ next ∷ parts))

-- The accepted keys are pairwise different and not empty. With a legacy key and a list of keys that
-- is written with commas between parts that have none, a token is accepted exactly when it is not
-- empty and is the legacy key or one of the parts, without the white space around them, provided
-- that the token and the keys are ASCII.
pub resolved_api_keys-accepted :
    (settings : Settings) (legacy part : Text) (parts : List Text) (token : Text)
    → settings.api_key ≡ some legacy
    → settings.api_keys ≡ some (join 44 (part ∷ parts))
    → All (λ p. lacks 44 p ≡ true) (part ∷ parts)
    → is_ascii token ≡ true
    → all is_ascii (resolved_api_keys settings) ≡ true
    → AreKeys [] (resolved_api_keys settings)
      × (verify_bearer_token token (resolved_api_keys settings)
          ≡ ok (nonempty token && any (is_part token) (legacy ∷ part ∷ parts)))
unfolding resolved_api_keys
resolved_api_keys-accepted settings legacy part parts token one many plain a as_keys = (
  resolved_api_keys-AreKeys settings,
  verify_bearer_token-mem token (resolved_api_keys settings) a as_keys ∙ ap ok (found token),
)
  where
    found :
        (token : Text)
        → (nonempty token && mem token (resolved_api_keys settings))
          ≡ (nonempty token && any (is_part token) (legacy ∷ part ∷ parts))
    found [] = refl
    found (c ∷ rest) =
        mem-distinct (c ∷ rest) [] (legacy_key settings.api_key ++ listed_keys settings.api_keys)
          refl
        ∙ mem-append (c ∷ rest) (legacy_key settings.api_key) (listed_keys settings.api_keys)
        ∙ rw (one, many, legacy-mem c rest legacy, listed-mem c rest part parts plain) refl
