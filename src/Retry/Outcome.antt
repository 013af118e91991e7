-- ===== src/Retry/Outcome.antt =====
-- agents/base_agent.py: `_invoke_llm_with_retry`.
use langgraph_agent_stack.Prelude.{
  if◌then◌else◌, or_else, Text, Result, ok, err, ℕ, suc, ◌+◌, ◌≤◌, ◌≡◌, Bool, true, false, ◌||◌,
  Option, none, some,
}
use langgraph_agent_stack.Retry.{
  Installed, LlmException, is_auth_llm_error, is_budget_error, is_pricing_error,
  retry_if_transient_llm_error,
}

-- What the code reads of a response: the token counts, where it has them.
pub record Response : Type 0 where
  pub content : Text
  pub usage_metadata : Option (Option ℕ × Option ℕ)

pub data AgentError : Type 0 where
  budget_exceeded_error : LlmException → AgentError
  authentication_error : LlmException → AgentError
  execution_error : LlmException → AgentError
  attempts_exhausted : ℕ → LlmException → AgentError

-- What `_invoke_once` raises: an error of the agent, or the client's own exception again.
pub data Raised : Type 0 where
  agent_error : AgentError → Raised
  llm_error : LlmException → Raised

-- How often the client was called, and the counters.
pub record Calls : Type 0 where
  pub calls : ℕ
  pub successes : ℕ
  pub retryable_errors : ℕ
  pub fatal_errors : ℕ
  pub input_tokens : ℕ
  pub output_tokens : ℕ
  pub retries : ℕ
  pub exhausted : ℕ

-- `retryer(fn)`: tenacity's loop, with its documented behaviour. It calls `fn` until it returns or
-- raises what `should_retry` refuses, at most `stop_after` times, and raises the last exception
-- again; `before_sleep` runs before each further attempt.
pub record Retrying : Type 1 where
  pub call :
      {S A E : Type 0} → ℕ → (E → Bool) → (E → S → S) → (S → Result E A × S) → S → Result E A × S
  pub call_returns :
      {S A E : Type 0} (n : ℕ) (should_retry : E → Bool) (before_sleep : E → S → S)
      (fn : S → Result E A × S) (s s' : S) (a : A)
      → fn s ≡ (ok a, s')
      → call n should_retry before_sleep fn s ≡ (ok a, s')
  pub call_raises :
      {S A E : Type 0} (n : ℕ) (should_retry : E → Bool) (before_sleep : E → S → S)
      (fn : S → Result E A × S) (s s' : S) (e : E)
      → fn s ≡ (err e, s')
      → should_retry e ≡ false
      → call n should_retry before_sleep fn s ≡ (err e, s')
  pub call_stops :
      {S A E : Type 0} (n : ℕ) (should_retry : E → Bool) (before_sleep : E → S → S)
      (fn : S → Result E A × S) (s s' : S) (e : E)
      → fn s ≡ (err e, s')
      → n ≤ 1
      → call n should_retry before_sleep fn s ≡ (err e, s')
  pub call_again :
      {S A E : Type 0} (n : ℕ) (should_retry : E → Bool) (before_sleep : E → S → S)
      (fn : S → Result E A × S) (s s' : S) (e : E)
      → fn s ≡ (err e, s')
      → should_retry e ≡ true
      → call (suc (suc n)) should_retry before_sleep fn s
        ≡ call (suc n) should_retry before_sleep fn (before_sleep e s')

abbrev pub count_usage : Option (Option ℕ × Option ℕ) → Calls → Calls
count_usage none s = s
count_usage (some (input, output)) s = record s {
  input_tokens = s.input_tokens + or_else input 0;
  output_tokens = s.output_tokens + or_else output 0;
}

-- `_invoke_once`, with the client's answer to its next call.
unfoldable pub once_result :
    Installed → Result LlmException Response → Calls → Result Raised Response × Calls
once_result packages (ok r) s =
    (ok r, count_usage r.usage_metadata (record s { successes = s.successes + 1 }))
once_result packages (err exc) s =
    if is_budget_error exc || is_pricing_error exc
    then (err (agent_error (budget_exceeded_error exc)), s)
    else if retry_if_transient_llm_error packages exc
    then (err (llm_error exc), record s { retryable_errors = s.retryable_errors + 1 })
    else (
      err (
          agent_error (
            if is_auth_llm_error packages exc
            then authentication_error exc
            else execution_error exc)),
      record s { fatal_errors = s.fatal_errors + 1 },
    )

-- The client answers its k-th call with `invoke k`.
unfoldable pub invoke_once :
    Installed → (ℕ → Result LlmException Response) → Calls → Result Raised Response × Calls
unfolding once_result
invoke_once packages invoke s =
    once_result packages (invoke s.calls) (record s { calls = s.calls + 1 })

-- The retry predicate on what `_invoke_once` raises.
abbrev pub should_retry : Installed → Raised → Bool
should_retry packages (agent_error e) = false
should_retry packages (llm_error exc) = retry_if_transient_llm_error packages exc

-- `before_sleep_log_transient_error`
abbrev pub before_sleep : Raised → Calls → Calls
before_sleep e s = record s { retries = s.retries + 1 }

abbrev pub finish : ℕ → Result Raised Response × Calls → Result AgentError Response × Calls
finish max_attempts (ok r, s) = (ok r, s)
finish max_attempts (err (agent_error e), s) = (err e, s)
finish max_attempts (err (llm_error exc), s) = (
  err (attempts_exhausted max_attempts exc),
  record s { exhausted = s.exhausted + 1; fatal_errors = s.fatal_errors + 1 },
)

-- `_invoke_llm_with_retry`
unfoldable pub invoke_llm_with_retry :
    Retrying
    → Installed
    → (ℕ → Result LlmException Response)
    → ℕ
    → Calls
    → Result AgentError Response × Calls
unfolding invoke_once
invoke_llm_with_retry retryer packages invoke max_retries s =
    let max_attempts = max_retries + 1 in
    finish max_attempts (
      retryer.call max_attempts (should_retry packages) before_sleep (invoke_once packages invoke)
        s)
