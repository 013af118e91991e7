-- ===== src/RateLimit/Tests.antt =====
-- core/security.py: runs of `RateLimiter`, and the theorems at concrete calls.
use langgraph_agent_stack.Prelude.{
  Text, text, ok, err, ℕ, ◌≤◌, ◌≡◌, refl, true, false, List, [], ◌∷◌, arith, text_eq, nat_eq,
}
use langgraph_agent_stack.Prelude.Dict
use langgraph_agent_stack.Prelude.Count.{count_if}
use langgraph_agent_stack.Prelude.Int.{pos}
use langgraph_agent_stack.RateLimit.{bad_window_seconds, init, is_allowed, remaining, run}
use langgraph_agent_stack.RateLimit.Window.{spec_run, allowed_times, in_span}
use langgraph_agent_stack.RateLimit.Refinement
use langgraph_agent_stack.RateLimit.Refinement.{fresh}

program : Unit {0}
unfolding init is_allowed remaining run Dict.get Dict.put allowed_times
program = tt

abbrev calls : List (Text × ℕ)
calls = (text "a", 1) ∷ (text "a", 2) ∷ (text "b", 3) ∷ (text "a", 5) ∷ (text "a", 12) ∷ []

-- two requests in ten ticks
calls_ran : (run calls (fresh 2 10)).0 ≡ true ∷ true ∷ true ∷ false ∷ true ∷ []
unfolding program
calls_ran = refl

init_refused : init (pos 1) (pos 0) ≡ err bad_window_seconds
unfolding program
init_refused = refl

starts_empty : init (pos 2) (pos 10) ≡ ok (fresh 2 10)
unfolding program
starts_empty = refl

run-eq-spec_run_example : (run calls (fresh 2 10)).0 ≡ spec_run 2 10 [] calls
run-eq-spec_run_example = Refinement.run-eq-spec_run 2 10 calls (omega arith)

run-bounded_example :
    count_if (in_span 2 10) (allowed_times (text "a") calls (run calls (fresh 2 10)).0) ≤ 2
run-bounded_example = Refinement.run-bounded 2 10 calls (text "a") 2 (omega arith)
