-- ===== src/Validation/Tests.antt =====
-- core/security.py: texts through `InputValidator`.
use langgraph_agent_stack.Prelude.{Text, text, strip, ok, err, ◌≡◌, refl}
use langgraph_agent_stack.Prelude.Int.{pos}
use langgraph_agent_stack.Validation.{
  InputValidator, too_long, init, bad_max_length, collapse_newlines, has_null, check_content_safety,
  validate,
}

-- All that the texts below compute with.
program : Unit {0}
unfolding strip collapse_newlines has_null check_content_safety validate init
program = tt

abbrev ten : InputValidator
ten = record { max_length = 10 }

abbrev flooded : Text
flooded = text " a\n\n\n\nb "

no_flood : validate ten flooded ≡ ok (text "a\n\nb")
unfolding program
no_flood = refl

zero_limit : init (pos 0) ≡ err bad_max_length
unfolding program
zero_limit = refl

long_query : validate ten (text "hello world") ≡ err too_long
unfolding program
long_query = refl
