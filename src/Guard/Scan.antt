-- ===== src/Guard/Scan.antt =====
-- domain_packs/common/output_guard.py: the guard looks at every text of the output, at any depth.
use langgraph_agent_stack.Prelude.{
  Bool-cases, is_some, any, Text, text, nonempty, decimal, is_ok, ok_injective, ok, ℕ, ◌+◌, ◌≡◌,
  refl, ap, ◌∙◌, inl, inr, Bool, true, false, not, ◌&&◌, ◌||◌, Option, none, some, List, [], ◌∷◌,
  ◌++◌, arith,
}
use langgraph_agent_stack.Guard.{
  output_integrity_patterns, Search, OutputIntegrityFinding, finding_of, scan_patterns, scan_text,
  scan_structured_output, scan_items, scan_fields, non_json_prefix, GuardEvent, policy_fail_closed,
  critical_of, audited, decide, findings_of, guard_llm_output,
}
use langgraph_agent_stack.Policies.{PolicyRegistry, get, string, is_regulated}
use langgraph_agent_stack.Prelude.Json.{
  Json, null, boolean, number, string, array, object, JsonItems, no_items, item, JsonFields,
  no_fields, field,
}
use langgraph_agent_stack.Policies

-- A pattern that fails closed matches the text.
abbrev pub hits : Search → Text → List (Text × Bool) → Bool
hits search s [] = false
hits search s (pattern ∷ patterns) =
    (pattern.1 && is_some (search pattern.0 s)) || hits search s patterns

abbrev pub is_critical : Search → Text → Bool
is_critical search s = nonempty s && hits search s output_integrity_patterns

-- The texts that stand in a value, keys left out.
abbrev mutual
  pub texts_of : Json → List Text
  texts_of null = []
  texts_of (boolean b) = []
  texts_of (number z) = []
  texts_of (string s) = s ∷ []
  texts_of (array values) = texts_of_items values
  texts_of (object entries) = texts_of_fields entries

  pub texts_of_items : JsonItems → List Text
  texts_of_items no_items = []
  texts_of_items (item v rest) = texts_of v ++ texts_of_items rest

  pub texts_of_fields : JsonFields → List Text
  texts_of_fields no_fields = []
  texts_of_fields (field key v rest) = texts_of v ++ texts_of_fields rest

abbrev closes : OutputIntegrityFinding → Bool
closes f = f.fail_closed

any-append : {A : Type 0} (p : A → Bool) (xs ys : List A) → any p (xs ++ ys) ≡ any p xs || any p ys
any-append p [] ys = refl
any-append p (x ∷ xs) ys = ground (arith, any-append p xs ys)

finding-hits :
    (s path : Text) (pattern : Text × Bool) (found : Option (ℕ × ℕ))
    → any closes (finding_of s path pattern found) ≡ pattern.1 && is_some found
finding-hits s path (pattern_id, true) none = refl
finding-hits s path (pattern_id, false) none = refl
finding-hits s path (pattern_id, true) (some span) = refl
finding-hits s path (pattern_id, false) (some span) = refl

scan_patterns-hits :
    (search : Search) (s path : Text) (patterns : List (Text × Bool))
    → any closes (scan_patterns search s path patterns) ≡ hits search s patterns
unfolding scan_patterns
scan_patterns-hits search s path [] = refl
scan_patterns-hits search s path (pattern ∷ patterns) =
    rw
      (
        any-append closes (finding_of s path pattern (search pattern.0 s))
            (scan_patterns search s path patterns),
        finding-hits s path pattern (search pattern.0 s),
        scan_patterns-hits search s path patterns,
      )
      refl

scan_text-is_critical :
    (search : Search) (s path : Text) → any closes (scan_text search s path) ≡ is_critical search s
unfolding scan_text
scan_text-is_critical search [] path = refl
scan_text-is_critical search (c ∷ s) path =
    scan_patterns-hits search (c ∷ s) path output_integrity_patterns

or_false : (b : Bool) → b ≡ (b || false)
or_false true = refl
or_false false = refl

mutual
  unfolding scan_structured_output

  scan-texts :
      (search : Search) (v : Json) (prefix : Text)
      → any closes (scan_structured_output search v prefix) ≡ any (is_critical search) (texts_of v)
  scan-texts search null prefix = refl
  scan-texts search (boolean b) prefix = refl
  scan-texts search (number z) prefix = refl
  scan-texts search (string s) prefix =
      scan_text-is_critical search s prefix ∙ or_false (is_critical search s)
  scan-texts search (array values) prefix = scan_items-texts search values prefix 0
  scan-texts search (object entries) prefix = scan_fields-texts search entries prefix

  scan_items-texts :
      (search : Search) (values : JsonItems) (prefix : Text) (index : ℕ)
      → any closes (scan_items search values prefix index)
        ≡ any (is_critical search) (texts_of_items values)
  scan_items-texts search no_items prefix index = refl
  scan_items-texts search (item v rest) prefix index =
      rw
        (
          any-append closes
              (scan_structured_output search v
                (prefix ++ (text "[" ++ (decimal index ++ text "]"))))
              (scan_items search rest prefix (index + 1)),
          any-append (is_critical search) (texts_of v) (texts_of_items rest),
          scan-texts search v (prefix ++ (text "[" ++ (decimal index ++ text "]"))),
          scan_items-texts search rest prefix (index + 1),
        )
        refl

  scan_fields-texts :
      (search : Search) (entries : JsonFields) (prefix : Text)
      → any closes (scan_fields search entries prefix)
        ≡ any (is_critical search) (texts_of_fields entries)
  scan_fields-texts search no_fields prefix = refl
  scan_fields-texts search (field key v rest) prefix =
      rw
        (
          any-append closes (scan_structured_output search v (prefix ++ (text "." ++ key)))
              (scan_fields search rest prefix),
          any-append (is_critical search) (texts_of v) (texts_of_fields rest),
          scan-texts search v (prefix ++ (text "." ++ key)),
          scan_fields-texts search rest prefix,
        )
        refl

decide-is_ok :
    {A : Type 0} (a : A) (findings : List OutputIntegrityFinding) (events : List GuardEvent)
    → (is_ok (decide a (critical_of findings) events).0 ≡ not (any closes findings))
      × ((b : A) → (decide a (critical_of findings) events).0 ≡ ok b → a ≡ b)
decide-is_ok a [] events = (refl, λ b e. ok_injective a b e)
decide-is_ok a (f ∷ findings) events = elim (Bool-cases f.fail_closed) [
  | inl stops ↦ rw stops (refl, λ b e. absurd (cc))
  | inr goes_on ↦ rw goes_on (decide-is_ok a findings events)
]

-- Whether the guard has to refuse an output.
abbrev pub must_refuse : Search → Text → Text → JsonFields → PolicyRegistry → Bool
must_refuse search pack_id raw entries policies =
    is_regulated pack_id
    && policy_fail_closed (Policies.get pack_id policies)
    && any (is_critical search) (non_json_prefix raw ∷ texts_of_fields entries)

-- The guard refuses an output exactly when the pack is regulated, its policy fails closed, and a
-- pattern that fails closed matches the prose before the JSON or some text in the JSON, at whatever
-- depth of dicts and lists; an output that it lets through is as it was.
pub guard_llm_output-must_refuse :
    (search : Search) (pack_id raw : Text) (entries : JsonFields) (policies : PolicyRegistry)
    → (is_ok (guard_llm_output search pack_id raw entries policies).0
        ≡ not (must_refuse search pack_id raw entries policies))
      × ((entries' : JsonFields)
          → (guard_llm_output search pack_id raw entries policies).0 ≡ ok entries'
          → entries ≡ entries')
unfolding guard_llm_output
guard_llm_output-must_refuse search pack_id raw entries policies =
    elim (Bool-cases (is_regulated pack_id)) [
      | inr free ↦ rw free (refl, λ e h. ok_injective entries e h)
      | inl regulated ↦ elim (Bool-cases (policy_fail_closed (Policies.get pack_id policies))) [
        | inr lenient ↦ rw (regulated, lenient) (refl, λ e h. ok_injective entries e h)
        | inl strict ↦
            let findings = findings_of search raw entries in
            let done = decide-is_ok entries findings (audited findings) in
            rw (regulated, strict) (done.0 ∙ ap not (all_texts search raw entries), done.1)
      ]
    ]
  where
    all_texts :
        (search : Search) (raw : Text) (entries : JsonFields)
        → any closes (findings_of search raw entries)
          ≡ any (is_critical search) (non_json_prefix raw ∷ texts_of_fields entries)
    all_texts search raw entries =
        any-append closes (scan_text search (non_json_prefix raw) (text "raw.prefix"))
          (scan_structured_output search (object entries) (text "$"))
        ∙ rw
            (
              scan_text-is_critical search (non_json_prefix raw) (text "raw.prefix"),
              scan-texts search (object entries) (text "$"),
            )
            refl
