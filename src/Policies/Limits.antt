-- ===== src/Policies/Limits.antt =====
-- control_plane/enforce.py: the limits that hold for a pack.
use langgraph_agent_stack.Prelude.{
  Bool-cases, or_else, length, All, Text, Result, Result-cases, ok, err, ℕ, ◌≤◌, ◌<◌, ◌≡◌, refl,
  sym, ◌∙◌, ◌⊎◌, inl, inr, true, false, Option, none, some, List, [], ◌∷◌, arith,
}
use mathlib.Core.Path.{subst}
use langgraph_agent_stack.Validation.{
  ValidationError, InputValidator, too_long, null_byte, has_null, validate, check_content_safety,
}
use langgraph_agent_stack.Validation.Sanitised.{IsClean, validate_cases}
use langgraph_agent_stack.Policies.{
  PolicyRegistry, get, max_query_chars, exceeds, validate_query_for_pack, FieldValue, string, items,
  other, Field, check_items, check_field, check_fields, validate_pack_body,
}

-- The text is within a cap that may be absent.
abbrev pub Within : Text → Option ℕ → Type 0
Within s none = Unit
Within s (some cap) = length s ≤ cap

Within-exceeds : (s : Text) (cap : Option ℕ) → exceeds s cap ≡ false → Within s cap
unfolding exceeds
Within-exceeds s none h = tt
Within-exceeds s (some cap) h = ground arith

-- A query that is accepted for a pack is within both the policy's limit, if it has one, and the
-- validator's, has no null byte, and is handed on clean.
pub validate_query_for_pack-ok :
    (query pack_id t : Text) (validator : InputValidator) (policies : PolicyRegistry)
    → validate_query_for_pack query pack_id validator policies ≡ ok t
    → Within query (max_query_chars (get pack_id policies))
      × (length query ≤ validator.max_length)
      × IsClean query t
unfolding validate_query_for_pack
validate_query_for_pack-ok query pack_id t validator policies h =
    elim (Bool-cases (exceeds query (max_query_chars (get pack_id policies)))) [
      | inl long ↦ absurd (cc (rw long at h))
      | inr fits ↦
          let (short, clean) = validated (validate_cases validator query) (rw fits at h) in
          (Within-exceeds query _ fits, short, clean)
    ]
  where
    same_ok : {a b : Text} → (let x : Result ValidationError Text = ok a in x ≡ ok b) → a ≡ b
    same_ok e = cc

    validated :
        ((validator.max_length < length query) × (validate validator query ≡ err too_long))
          ⊎ ((length query ≤ validator.max_length)
              × (has_null query ≡ true)
              × (validate validator query ≡ err null_byte))
          ⊎ ((length query ≤ validator.max_length)
              × (u : Text) × (validate validator query ≡ ok u)
              × IsClean query u)
        → validate validator query ≡ ok t
        → (length query ≤ validator.max_length) × IsClean query t
    validated (inl (_, e)) v = absurd (cc (e, v))
    validated (inr (inl (_, _, e))) v = absurd (cc (e, v))
    validated (inr (inr (fits, u, e, clean))) v =
        (fits, subst (IsClean query) (same_ok (sym e ∙ v)) clean)

-- A text that was checked is empty, or within its cap and free of null bytes.
abbrev pub IsSafe : ℕ → Text → Type 0
IsSafe cap [] = Unit
IsSafe cap (c ∷ s) = (length (c ∷ s) ≤ cap) × (has_null (c ∷ s) ≡ false)

abbrev pub ItemsSafe : ℕ → List (Option Text) → Type 0
ItemsSafe cap [] = Unit
ItemsSafe cap (none ∷ rest) = ItemsSafe cap rest
ItemsSafe cap (some s ∷ rest) = IsSafe cap s × ItemsSafe cap rest

abbrev pub ValueSafe : ℕ → Option ℕ → FieldValue → Type 0
ValueSafe fallback cap (string s) = IsSafe (or_else cap fallback) s
ValueSafe fallback cap (items rest) = ItemsSafe fallback rest
ValueSafe fallback cap other = Unit

checked-IsSafe :
    (cap : ℕ) (s t : Text)
    → check_content_safety cap s ≡ ok t
    → (length s ≤ cap) × (has_null s ≡ false)
unfolding check_content_safety
checked-IsSafe cap s t h = ground arith

check_items-ok :
    (cap : ℕ) (rest : List (Option Text)) → check_items cap rest ≡ ok tt → ItemsSafe cap rest
unfolding check_items
check_items-ok cap [] h = tt
check_items-ok cap (none ∷ rest) h = check_items-ok cap rest h
check_items-ok cap (some [] ∷ rest) h = (tt, check_items-ok cap rest h)
check_items-ok cap (some (c ∷ s) ∷ rest) h =
    elim (Result-cases (check_content_safety cap (c ∷ s))) [
      | inr (e, refused) ↦ absurd (cc (rw refused at h))
      | inl (t, checked) ↦
          (checked-IsSafe cap (c ∷ s) t checked, check_items-ok cap rest (rw checked at h))
    ]

value_of :
    (fallback : ℕ) (f : Field) (v : FieldValue)
    → f.value ≡ v
    → check_field fallback f ≡ ok tt
    → ValueSafe fallback f.max_length v
unfolding check_field
value_of fallback f (string []) e h = tt
value_of fallback f (string (c ∷ s)) e h =
    elim (Result-cases (check_content_safety (or_else f.max_length fallback) (c ∷ s))) [
      | inr (x, refused) ↦ absurd (cc (rw (check_field, e, refused) at h))
      | inl (t, checked) ↦ checked-IsSafe (or_else f.max_length fallback) (c ∷ s) t checked
    ]
value_of fallback f (items rest) e h = check_items-ok fallback rest (rw (check_field, e) at h)
value_of fallback f other e h = tt

check_fields-ok :
    (fallback : ℕ) (fields : List Field)
    → check_fields fallback fields ≡ ok tt
    → All (λ (f : Field). ValueSafe fallback f.max_length f.value) fields
unfolding check_fields
check_fields-ok fallback [] h = tt
check_fields-ok fallback (f ∷ fields) h = elim (Result-cases (check_field fallback f)) [
  | inr (x, refused) ↦ absurd (cc (rw refused at h))
  | inl (u, checked) ↦
      (value_of fallback f f.value refl checked, check_fields-ok fallback fields (rw checked at h))
]

-- In a body that is accepted, every text field is empty, or is free of null bytes and within its
-- schema's limit, or the pack's where the schema has none; so is every text in a list, within the
-- pack's limit. The pack's limit is its policy's, or the validator's where that has none.
pub validate_pack_body-ok :
    (fields : List Field) (pack_id : Text) (validator : InputValidator) (policies : PolicyRegistry)
    → validate_pack_body fields pack_id validator policies ≡ ok tt
    → All
        (λ (f : Field).
          ValueSafe
            (or_else (max_query_chars (get pack_id policies)) validator.max_length)
            f.max_length
            f.value)
        fields
unfolding validate_pack_body
validate_pack_body-ok fields pack_id validator policies h = check_fields-ok _ fields h
