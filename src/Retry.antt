-- ===== src/Retry.antt =====
-- agents/llm_retry.py, and of agents/base_agent.py the call of the language model with its retries
-- and the step counter. An exception is what the code reads of it: the qualified names of its
-- classes, bases included, its `status_code` and that of its `response`. Tenacity's loop and the
-- provider's client are parameters; the Prometheus counters are numbers of the state.
pub mod Chain
pub mod Outcome
pub mod Attempts
pub mod Steps
mod Tests
use langgraph_agent_stack.Prelude.{
  if◌then◌else◌, any, mem, Text, text, ℕ, Bool, false, ◌||◌, Option, none, some, List, [], ◌∷◌,
  ◌++◌, text_eq, nat_eq,
}

-- Which optional packages can be imported.
pub record Installed : Type 0 where
  pub httpx : Bool
  pub anthropic : Bool
  pub openai : Bool
  pub google : Bool

pub record LlmException : Type 0 where
  pub classes : List Text
  pub status_code : Option ℕ
  pub response_status : Option (Option ℕ)

-- `isinstance(exc, types)`
abbrev pub is_instance : LlmException → List Text → Bool
is_instance exc types = any (λ c. mem c types) exc.classes

abbrev pub types_if : Bool → List Text → List Text
types_if installed types = if installed then types else []

unfoldable pub retryable_llm_exception_types : Installed → List Text
retryable_llm_exception_types packages =
    text "TimeoutError"
      ∷ text "ConnectionError"
      ∷ types_if packages.httpx (
          text "httpx.TimeoutException"
          ∷ text "httpx.ConnectError"
          ∷ text "httpx.NetworkError"
          ∷ text "httpx.ReadTimeout"
          ∷ text "httpx.WriteTimeout"
          ∷ [])
    ++ types_if packages.anthropic (
        text "anthropic.RateLimitError"
        ∷ text "anthropic.APITimeoutError"
        ∷ text "anthropic.APIConnectionError"
        ∷ text "anthropic.InternalServerError"
        ∷ [])
    ++ types_if packages.openai (
        text "openai.RateLimitError"
        ∷ text "openai.APITimeoutError"
        ∷ text "openai.APIConnectionError"
        ∷ text "openai.InternalServerError"
        ∷ [])
    ++ types_if packages.google (
        text "google.ServiceUnavailable"
        ∷ text "google.DeadlineExceeded"
        ∷ text "google.TooManyRequests"
        ∷ text "google.InternalServerError"
        ∷ [])

unfoldable pub auth_llm_exception_types : Installed → List Text
auth_llm_exception_types packages =
    types_if packages.anthropic
      (text "anthropic.AuthenticationError" ∷ text "anthropic.PermissionDeniedError" ∷ [])
    ++ types_if packages.openai
        (text "openai.AuthenticationError" ∷ text "openai.PermissionDeniedError" ∷ [])
    ++ types_if packages.google
        (text "google.Unauthenticated" ∷ text "google.PermissionDenied" ∷ [])

abbrev pub transient_http_status_codes : List ℕ
transient_http_status_codes = 408 ∷ 429 ∷ 500 ∷ 502 ∷ 503 ∷ 504 ∷ 529 ∷ []

abbrev pub auth_http_status_codes : List ℕ
auth_http_status_codes = 401 ∷ 403 ∷ []

abbrev or_status : Option ℕ → Option (Option ℕ) → Option ℕ
or_status (some status) response = some status
or_status none (some response_status) = response_status
or_status none none = none

-- `_http_status_code`
unfoldable pub http_status_code : LlmException → Option ℕ
http_status_code exc = or_status exc.status_code exc.response_status
  where
    or_status : Option ℕ → Option (Option ℕ) → Option ℕ
    or_status (some status) response = some status
    or_status none (some response_status) = response_status
    or_status none none = none

abbrev pub status_in : Option ℕ → List ℕ → Bool
status_in none codes = false
status_in (some status) codes = mem status codes

unfoldable pub is_auth_llm_error : Installed → LlmException → Bool
unfolding auth_llm_exception_types http_status_code
is_auth_llm_error packages exc =
    is_instance exc (auth_llm_exception_types packages)
    || status_in (http_status_code exc) auth_http_status_codes

unfoldable pub is_retryable_llm_error : Installed → LlmException → Bool
unfolding retryable_llm_exception_types http_status_code
is_retryable_llm_error packages exc =
    is_instance exc (retryable_llm_exception_types packages)
    || status_in (http_status_code exc) transient_http_status_codes

abbrev pub is_budget_error : LlmException → Bool
is_budget_error exc = is_instance exc (text "core.cost.BudgetExceededError" ∷ [])

abbrev pub is_pricing_error : LlmException → Bool
is_pricing_error exc = is_instance exc (text "core.cost.UnknownModelPricingError" ∷ [])

unfoldable pub retry_if_transient_llm_error : Installed → LlmException → Bool
unfolding is_retryable_llm_error
retry_if_transient_llm_error packages exc =
    if is_budget_error exc then false else is_retryable_llm_error packages exc
