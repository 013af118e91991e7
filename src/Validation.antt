-- ===== src/Validation.antt =====
-- core/security.py: `InputValidator`.
pub mod Sanitised
mod Tests
use langgraph_agent_stack.Prelude.{
  leb, if◌then◌else◌, ◌==◌, length, Text, strip, Result, guard, ok, ℕ, ◌+◌, Bool, false, not, ◌&&◌,
  ◌||◌, [], ◌∷◌, text_eq, nat_eq, ◌>>◌,
}
use langgraph_agent_stack.Prelude.Int.{ℤ, at_least, to_ℕ}

pub data ValidationError : Type 0 where
  bad_max_length too_long null_byte : ValidationError

pub record InputValidator : Type 0 where
  pub max_length : ℕ

-- `__init__`
unfoldable pub init : ℤ → Result ValidationError InputValidator
init max_length = do
  guard (at_least 1 max_length) bad_max_length
  ok (record { max_length = to_ℕ max_length })

abbrev pub newline : ℕ
newline = 10

-- `re.sub(r"\n{3,}", "\n\n", text)`: of each run of newlines the first two stay; `run` counts those
-- that stand directly before the text.
unfoldable pub collapse_newlines : ℕ → Text → Text
collapse_newlines run [] = []
collapse_newlines run (c ∷ s) =
    let rest = collapse_newlines (if c == newline then run + 1 else 0) s in
    if (c == newline) && leb 2 run then rest else c ∷ rest

-- `"\x00" in text`
unfoldable pub has_null : Text → Bool
has_null [] = false
has_null (c ∷ s) = c == 0 || has_null s

-- `check_content_safety`, with its limit.
unfoldable pub check_content_safety : ℕ → Text → Result ValidationError Text
check_content_safety limit s = do
  guard (leb (length s) limit) too_long
  guard (not (has_null s)) null_byte
  ok (collapse_newlines 0 (strip s))

unfoldable pub validate : InputValidator → Text → Result ValidationError Text
unfolding check_content_safety
validate v query = do
  guard (leb (length query) v.max_length) too_long
  check_content_safety v.max_length query
