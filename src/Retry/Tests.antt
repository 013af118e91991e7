-- ===== src/Retry/Tests.antt =====
-- agents/llm_retry.py and agents/base_agent.py: tenacity's loop as a function, and the theorems at
-- clients that fail.
use langgraph_agent_stack.Prelude.{
  if◌then◌else◌, text, Result, ok, err, ℕ, zero, suc, ◌+◌, ◌≤◌, ◌<◌, ◌≡◌, refl, Bool, true, false,
  none, some, [], ◌∷◌, arith,
}
use langgraph_agent_stack.Retry.Chain.{nothing, raised, find_auth_cause}
use langgraph_agent_stack.Retry.Steps.{AgentState}
use langgraph_agent_stack.Retry.Attempts.{
  is_transient, invoke_llm_with_retry-calls, invoke_llm_with_retry-settled,
  invoke_llm_with_retry-exhausted,
}
use langgraph_agent_stack.Retry.Outcome.{
  Response, attempts_exhausted, Calls, Retrying, invoke_llm_with_retry,
}
use langgraph_agent_stack.Retry.{
  Installed, LlmException, retryable_llm_exception_types, auth_llm_exception_types,
  http_status_code, is_auth_llm_error, is_retryable_llm_error, retry_if_transient_llm_error,
}

module _ {S A E : Type 0} (should_retry : E → Bool) (before_sleep : E → S → S)
    (fn : S → Result E A × S) where
  abbrev attempt : (S → Result E A × S) → Result E A × S → Result E A × S
  attempt next (ok a, s) = (ok a, s)
  attempt next (err e, s) = if should_retry e then next (before_sleep e s) else (err e, s)

  abbrev attempts : ℕ → S → Result E A × S
  attempts zero s = fn s
  attempts (suc zero) s = fn s
  attempts (suc (suc n)) s = attempt (attempts (suc n)) (fn s)

  attempts_return : (n : ℕ) (s s' : S) (a : A) → fn s ≡ (ok a, s') → attempts n s ≡ (ok a, s')
  attempts_return zero s s' a e = e
  attempts_return (suc zero) s s' a e = e
  attempts_return (suc (suc n)) s s' a e = rw e refl

  attempts_raise :
      (n : ℕ) (s s' : S) (x : E)
      → fn s ≡ (err x, s')
      → should_retry x ≡ false
      → attempts n s ≡ (err x, s')
  attempts_raise zero s s' x e h = e
  attempts_raise (suc zero) s s' x e h = e
  attempts_raise (suc (suc n)) s s' x e h = rw (e, h) refl

  attempts_stop :
      (n : ℕ) (s s' : S) (x : E) → fn s ≡ (err x, s') → n ≤ 1 → attempts n s ≡ (err x, s')
  attempts_stop zero s s' x e h = e
  attempts_stop (suc zero) s s' x e h = e
  attempts_stop (suc (suc n)) s s' x e h = absurd (omega arith)

  attempts_go_on :
      (n : ℕ) (s s' : S) (x : E)
      → fn s ≡ (err x, s')
      → should_retry x ≡ true
      → attempts (suc (suc n)) s ≡ attempts (suc n) (before_sleep x s')
  attempts_go_on n s s' x e h = rw (e, h) refl

abbrev retryer : Retrying
retryer = record {
  call =
      λ {S} {A} {E}. λ n should_retry before_sleep fn s. attempts should_retry before_sleep fn n s;
  call_returns = λ {S} {A} {E}. λ n should_retry before_sleep fn s s' a e.
      attempts_return should_retry before_sleep fn n s s' a e;
  call_raises = λ {S} {A} {E}. λ n should_retry before_sleep fn s s' x e h.
      attempts_raise should_retry before_sleep fn n s s' x e h;
  call_stops = λ {S} {A} {E}. λ n should_retry before_sleep fn s s' x e h.
      attempts_stop should_retry before_sleep fn n s s' x e h;
  call_again = λ {S} {A} {E}. λ n should_retry before_sleep fn s s' x e h.
      attempts_go_on should_retry before_sleep fn n s s' x e h;
}

abbrev packages : Installed
packages = record { httpx = true; anthropic = true; openai = false; google = false }

abbrev overloaded : LlmException
overloaded = record {
  classes = text "anthropic.APIStatusError" ∷ [];
  status_code = some 529;
  response_status = none;
}

abbrev rejected : LlmException
rejected = record {
  classes = text "anthropic.AuthenticationError" ∷ text "anthropic.APIStatusError" ∷ [];
  status_code = some 401;
  response_status = none;
}

abbrev wrapped : LlmException
wrapped = record {
  classes = text "AgentExecutionError" ∷ [];
  status_code = none;
  response_status = none;
}

abbrev answer : Response
answer = record { content = text "hi"; usage_metadata = some (some 3, some 2) }

abbrev fresh : Calls
fresh = record {
  calls = 0;
  successes = 0;
  retryable_errors = 0;
  fatal_errors = 0;
  input_tokens = 0;
  output_tokens = 0;
  retries = 0;
  exhausted = 0;
}

-- overloaded once, then fine
abbrev recovering : ℕ → Result LlmException Response
recovering zero = err overloaded
recovering (suc k) = ok answer

abbrev down : ℕ → Result LlmException Response
down k = err overloaded

abbrev started : AgentState
started = record { step_count = none; status = text "running" }

overloaded_transient : is_transient packages (err overloaded) ≡ true
unfolding retry_if_transient_llm_error is_retryable_llm_error retryable_llm_exception_types
    http_status_code
overloaded_transient = refl

rejected_final : is_transient packages (err rejected) ≡ false
unfolding retry_if_transient_llm_error is_retryable_llm_error retryable_llm_exception_types
    http_status_code
rejected_final = refl

chain_found :
    find_auth_cause packages 10 (raised wrapped (raised rejected nothing nothing) nothing)
    ≡ some rejected
unfolding find_auth_cause is_auth_llm_error auth_llm_exception_types http_status_code
chain_found = refl

recovering_before : (j : ℕ) → j < 1 → is_transient packages (recovering (0 + j)) ≡ true
recovering_before zero less = overloaded_transient
recovering_before (suc j) less = absurd (omega arith)

invoke_llm_with_retry-calls_example :
    (0 < (invoke_llm_with_retry retryer packages down 3 fresh).1.calls)
    × ((invoke_llm_with_retry retryer packages down 3 fresh).1.calls ≤ 4)
invoke_llm_with_retry-calls_example = invoke_llm_with_retry-calls retryer packages down 3 fresh

invoke_llm_with_retry-settled_example :
    ((invoke_llm_with_retry retryer packages recovering 3 fresh).0 ≡ ok answer)
    × ((invoke_llm_with_retry retryer packages recovering 3 fresh).1.calls ≡ 2)
    × ((invoke_llm_with_retry retryer packages recovering 3 fresh).1.retries ≡ 1)
invoke_llm_with_retry-settled_example =
    invoke_llm_with_retry-settled retryer packages recovering 3 1 fresh (omega arith)
      recovering_before refl

invoke_llm_with_retry-exhausted_example :
    (exc : LlmException) × (down 3 ≡ err exc)
    × ((invoke_llm_with_retry retryer packages down 3 fresh).0 ≡ err (attempts_exhausted 4 exc))
    × ((invoke_llm_with_retry retryer packages down 3 fresh).1.calls ≡ 4)
    × ((invoke_llm_with_retry retryer packages down 3 fresh).1.exhausted ≡ 1)
invoke_llm_with_retry-exhausted_example =
    invoke_llm_with_retry-exhausted retryer packages down 3 fresh (λ j less. overloaded_transient)
