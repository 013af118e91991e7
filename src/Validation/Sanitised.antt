-- ===== src/Validation/Sanitised.antt =====
-- core/security.py: what `InputValidator` lets through.
use langgraph_agent_stack.Prelude.{
  leb, if◌then◌else◌, leb→le, ◌==◌, Bool-cases, length, length-append, Text, lstrip, strip, ok, err,
  ℕ, ◌+◌, ◌≤◌, ◌<◌, min, ◌≡◌, refl, ◌∙◌, ◌⊎◌, inl, inr, true, false, ◌&&◌, ◌||◌, [], ◌∷◌, ◌++◌,
  reverse, arith, text_eq, nat_eq,
}
use mathlib.Core.List.{reverse-cons}
use langgraph_agent_stack.Validation.{
  too_long, null_byte, InputValidator, newline, collapse_newlines, has_null, validate,
}

-- No three newlines in a row; `run` counts those that stand directly before the text.
abbrev pub NoFlood : ℕ → Text → Type 0
NoFlood run [] = Unit
NoFlood run (c ∷ s) =
    (((c == newline) && leb 2 run) ≡ false) × NoFlood (if c == newline then run + 1 else 0) s

collapse-length : (run : ℕ) (s : Text) → length (collapse_newlines run s) ≤ length s
unfolding collapse_newlines
collapse-length run [] = omega arith
collapse-length run (c ∷ s) =
    ground (arith, collapse-length (if c == newline then run + 1 else 0) s)

-- `out` newlines stand before the output: as many as were read, up to two.
collapse-NoFlood :
    (run out : ℕ) (s : Text) → out ≡ min run 2 → NoFlood out (collapse_newlines run s)
unfolding collapse_newlines
collapse-NoFlood run out [] h = tt
collapse-NoFlood run out (c ∷ s) h = elim (Bool-cases (c == newline)) [
  | inr other ↦ rw (other, other) (refl, collapse-NoFlood 0 0 s (omega arith))
  | inl line ↦ elim (Bool-cases (leb 2 run)) [
    | inl flood ↦ rw (line, flood) (collapse-NoFlood (run + 1) out s (ground arith))
    | inr few ↦
        rw (line, few)
          (ground arith, rw line (collapse-NoFlood (run + 1) (out + 1) s (ground arith)))
  ]
]

collapse-has_null :
    (run : ℕ) (s : Text) → has_null s ≡ false → has_null (collapse_newlines run s) ≡ false
unfolding collapse_newlines has_null
collapse-has_null run [] h = refl
collapse-has_null run (c ∷ s) h =
    ground (arith, collapse-has_null (if c == newline then run + 1 else 0) s)

lstrip-length : (s : Text) → length (lstrip s) ≤ length s
unfolding lstrip
lstrip-length [] = omega arith
lstrip-length (c ∷ s) = ground (arith, lstrip-length s)

lstrip-has_null : (s : Text) → has_null s ≡ false → has_null (lstrip s) ≡ false
unfolding lstrip has_null
lstrip-has_null [] h = refl
lstrip-has_null (c ∷ s) h = ground (arith, lstrip-has_null s)

has_null-append : (s t : Text) → has_null (s ++ t) ≡ (has_null s || has_null t)
unfolding has_null
has_null-append [] t = refl
has_null-append (c ∷ s) t = ground (arith, has_null-append s t)

has_null-reverse : (s : Text) → has_null (reverse s) ≡ has_null s
has_null-reverse [] = refl
has_null-reverse (c ∷ s) =
    rw (reverse-cons c s, has_null-append (reverse s) (c ∷ []), has_null-reverse s)
      (unfold has_null in ground arith)

reverse-length : (s : Text) → length (reverse s) ≡ length s
reverse-length [] = refl
reverse-length (c ∷ s) =
    rw (reverse-cons c s) (omega (arith, length-append (reverse s) (c ∷ []), reverse-length s))

strip-length : (s : Text) → length (strip s) ≤ length s
unfolding strip
strip-length s = omega (
  arith,
  reverse-length (lstrip (reverse (lstrip s))),
  lstrip-length (reverse (lstrip s)),
  reverse-length (lstrip s),
  lstrip-length s,
)

strip-has_null : (s : Text) → has_null s ≡ false → has_null (strip s) ≡ false
unfolding strip
strip-has_null s h =
    has_null-reverse (lstrip (reverse (lstrip s)))
    ∙ lstrip-has_null (reverse (lstrip s)) (has_null-reverse (lstrip s) ∙ lstrip-has_null s h)

-- A text that `validate` may return for `s`.
pub record IsClean (s t : Text) : Type 0 where
  pub shorter : length t ≤ length s
  pub no_null : has_null t ≡ false
  pub no_flood : NoFlood 0 t

collapsed-IsClean : (s : Text) → has_null s ≡ false → IsClean s (collapse_newlines 0 (strip s))
collapsed-IsClean s h = record {
  shorter = omega (arith, collapse-length 0 (strip s), strip-length s);
  no_null = collapse-has_null 0 (strip s) (strip-has_null s h);
  no_flood = collapse-NoFlood 0 0 (strip s) (omega arith);
}

-- A query that is longer than the limit is refused as too long; one within it that has a null byte
-- is refused for that; any other gives a text that is no longer, has no null byte, and has no three
-- newlines in a row.
pub validate_cases :
    (v : InputValidator) (s : Text)
    → ((v.max_length < length s) × (validate v s ≡ err too_long))
      ⊎ ((length s ≤ v.max_length) × (has_null s ≡ true) × (validate v s ≡ err null_byte))
      ⊎ ((length s ≤ v.max_length) × (t : Text) × (validate v s ≡ ok t) × IsClean s t)
unfolding validate
validate_cases v s = elim (Bool-cases (leb (length s) v.max_length)) [
  | inr long ↦ inl (ground arith, rw long)
  | inl fits ↦ elim (Bool-cases (has_null s)) [
    | inl null ↦ inr (inl (leb→le _ _ fits, null, rw (fits, null)))
    | inr fine ↦ inr (
        inr (
          leb→le _ _ fits,
          collapse_newlines 0 (strip s),
          rw (fits, fine),
          collapsed-IsClean s fine,
        ))
  ]
]
