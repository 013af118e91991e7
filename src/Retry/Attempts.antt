-- ===== src/Retry/Attempts.antt =====
-- agents/base_agent.py: how often `_invoke_llm_with_retry` calls the client, and what it returns.
use langgraph_agent_stack.Prelude.{
  if◌then◌else◌, Bool-cases, Result, ok, err, ℕ, zero, suc, ◌+◌, ◌≤◌, ◌<◌, ◌≡◌, refl, sym, ap, ◌∙◌,
  ◌⊎◌, inl, inr, Bool, true, false, not, ◌&&◌, ◌||◌, Option, none, some, arith,
}
use langgraph_agent_stack.Retry.Outcome.{
  Response, AgentError, budget_exceeded_error, authentication_error, execution_error,
  attempts_exhausted, Raised, agent_error, llm_error, Calls, Retrying, count_usage, once_result,
  invoke_once, should_retry, before_sleep, finish, invoke_llm_with_retry,
}
use langgraph_agent_stack.Retry.{
  Installed, LlmException, is_auth_llm_error, is_budget_error, is_pricing_error,
  retry_if_transient_llm_error,
}
use mathlib.Core.Path.{subst}

-- Whether `_invoke_once` raises the client's exception again, to be retried.
abbrev pub is_transient : Installed → Result LlmException Response → Bool
is_transient packages (ok r) = false
is_transient packages (err exc) =
    not (is_budget_error exc || is_pricing_error exc) && retry_if_transient_llm_error packages exc

-- What a call that is not retried comes to.
abbrev pub settle : Installed → Result LlmException Response → Result AgentError Response
settle packages (ok r) = ok r
settle packages (err exc) = err (
    if is_budget_error exc || is_pricing_error exc
    then budget_exceeded_error exc
    else if is_auth_llm_error packages exc
    then authentication_error exc
    else execution_error exc)

abbrev IsTransientUpTo : Installed → (ℕ → Result LlmException Response) → ℕ → ℕ → Type 0
IsTransientUpTo packages invoke start k =
    (j : ℕ) → j < k → is_transient packages (invoke (start + j)) ≡ true

count_usage-calls :
    (u : Option (Option ℕ × Option ℕ)) (s : Calls)
    → ((count_usage u s).calls ≡ s.calls) × ((count_usage u s).retries ≡ s.retries)
count_usage-calls none s = (refl, refl)
count_usage-calls (some (input, output)) s = (refl, refl)

once_result-transient :
    (packages : Installed) (r : Result LlmException Response) (s : Calls)
    → is_transient packages r ≡ true
    → (exc : LlmException) × (r ≡ err exc)
      × (once_result packages r s
          ≡ (err (llm_error exc), record s { retryable_errors = s.retryable_errors + 1 }))
      × (retry_if_transient_llm_error packages exc ≡ true)
unfolding once_result
once_result-transient packages (ok r) s h = absurd (cc)
once_result-transient packages (err exc) s h =
    elim (Bool-cases (is_budget_error exc || is_pricing_error exc)) [
      | inl over ↦ absurd (cc (rw over at h))
      | inr free ↦ elim (Bool-cases (retry_if_transient_llm_error packages exc)) [
        | inl again ↦ (exc, refl, rw (free, again) refl, again)
        | inr fatal ↦ absurd (cc (rw (free, fatal) at h))
      ]
    ]

once_result-ends :
    (packages : Installed) (r : Result LlmException Response) (s : Calls)
    → is_transient packages r ≡ false
    → ((a : Response) × (s' : Calls) × (once_result packages r s ≡ (ok a, s')))
      ⊎ ((e : AgentError) × (s' : Calls) × (once_result packages r s ≡ (err (agent_error e), s')))
unfolding once_result
once_result-ends packages (ok r) s h = inl (r, _, refl)
once_result-ends packages (err exc) s h =
    elim (Bool-cases (is_budget_error exc || is_pricing_error exc)) [
      | inl over ↦ inr (budget_exceeded_error exc, s, rw over refl)
      | inr free ↦ elim (Bool-cases (retry_if_transient_llm_error packages exc)) [
        | inl again ↦ absurd (cc (rw (free, again) at h))
        | inr fatal ↦ inr (
          if is_auth_llm_error packages exc then authentication_error exc else execution_error exc,
          record s { fatal_errors = s.fatal_errors + 1 },
          rw (free, fatal) refl,
        )
      ]
    ]

abbrev Settles : Installed → ℕ → Result LlmException Response → Calls → Type 0
Settles packages n r s =
    ((finish n (once_result packages r s)).0 ≡ settle packages r)
    × ((finish n (once_result packages r s)).1.calls ≡ s.calls)
    × ((finish n (once_result packages r s)).1.retries ≡ s.retries)

once_result-final :
    (packages : Installed) (n : ℕ) (r : Result LlmException Response) (s : Calls)
    → is_transient packages r ≡ false
    → Settles packages n r s
unfolding once_result
once_result-final packages n (ok r) s h =
    let kept = count_usage-calls r.usage_metadata (record s { successes = s.successes + 1 }) in
    (refl, kept.0, kept.1)
once_result-final packages n (err exc) s h =
    elim (Bool-cases (is_budget_error exc || is_pricing_error exc)) [
      | inl over ↦ rw (over) (refl, refl, refl)
      | inr free ↦ elim (Bool-cases (retry_if_transient_llm_error packages exc)) [
        | inl again ↦ absurd (cc (rw (free, again) at h))
        | inr fatal ↦ rw (free, fatal) (refl, refl, refl)
      ]
    ]

add_zero : (n : ℕ) → n + 0 ≡ n
add_zero n = omega arith

add_one : (n : ℕ) → n + 1 ≡ suc n
add_one n = omega arith

add_next : (n k : ℕ) → n + suc k ≡ n + 1 + k
add_next n k = omega arith

module _ (retryer : Retrying) (packages : Installed)
    (invoke : ℕ → Result LlmException Response) where
  -- the loop with `n` attempts
  abbrev loop : ℕ → Calls → Result Raised Response × Calls
  loop n s = retryer.call n (should_retry packages) before_sleep (invoke_once packages invoke) s

  -- a call that is not retried ends the loop
  loop-final :
      (n : ℕ) (s : Calls)
      → is_transient packages (invoke s.calls) ≡ false
      → loop n s ≡ invoke_once packages invoke s
  unfolding invoke_once
  loop-final n s h =
      elim (once_result-ends packages (invoke s.calls) (record s { calls = s.calls + 1 }) h) [
        | inl (a, s', e) ↦
            retryer.call_returns n (should_retry packages) before_sleep
              (invoke_once packages invoke) s s' a e
            ∙ sym e
        | inr (ae, s', e) ↦
            retryer.call_raises n (should_retry packages) before_sleep (invoke_once packages invoke)
              s s' (agent_error ae) e refl
            ∙ sym e
      ]

  -- the state after a call that is to be retried
  abbrev failed : Calls → Calls
  failed s = record s { calls = s.calls + 1; retryable_errors = s.retryable_errors + 1 }

  loop-again :
      (n : ℕ) (s : Calls)
      → is_transient packages (invoke s.calls) ≡ true
      → loop (suc (suc n)) s ≡ loop (suc n) (record (failed s) { retries = s.retries + 1 })
  unfolding invoke_once
  loop-again n s h =
      let (exc, same, step, again) =
        once_result-transient packages (invoke s.calls) (record s { calls = s.calls + 1 }) h in
      retryer.call_again n (should_retry packages) before_sleep (invoke_once packages invoke) s
        (failed s) (llm_error exc) step again

  loop-last :
      (s : Calls)
      → is_transient packages (invoke s.calls) ≡ true
      → (exc : LlmException) × (invoke s.calls ≡ err exc)
        × (loop 1 s ≡ (err (llm_error exc), failed s))
  unfolding invoke_once
  loop-last s h =
      let (exc, same, step, again) =
        once_result-transient packages (invoke s.calls) (record s { calls = s.calls + 1 }) h in
      (
        exc,
        same,
        retryer.call_stops 1 (should_retry packages) before_sleep (invoke_once packages invoke) s
            (failed s) (llm_error exc) step (omega arith),
      )

  later :
      (k : ℕ) (start : ℕ)
      → IsTransientUpTo packages invoke start (suc k)
      → IsTransientUpTo packages invoke (start + 1) k
  later k start h j less =
      subst (λ i. is_transient packages (invoke i) ≡ true) (omega arith) (h (suc j) (omega arith))

  first :
      (k : ℕ) (start : ℕ)
      → IsTransientUpTo packages invoke start (suc k)
      → is_transient packages (invoke start) ≡ true
  first k start h =
      subst (λ i. is_transient packages (invoke i) ≡ true) (omega arith) (h 0 (omega arith))

  -- what comes out of the loop when the call number `i` is the first that is not retried
  abbrev SettlesAt : ℕ → ℕ → Calls → ℕ → Result AgentError Response × Calls → Type 0
  SettlesAt i k s m out =
      (out.0 ≡ settle packages (invoke i))
      × (out.1.calls ≡ s.calls + k + 1)
      × (out.1.retries ≡ s.retries + k)

  loop-settled :
      (m k n : ℕ) (s : Calls)
      → k ≤ n
      → IsTransientUpTo packages invoke s.calls k
      → is_transient packages (invoke (s.calls + k)) ≡ false
      → SettlesAt (s.calls + k) k s m (finish m (loop (suc n) s))
  unfolding invoke_once
  loop-settled m zero n s less before here =
      let here' = subst (λ i. is_transient packages (invoke i) ≡ false) (add_zero s.calls) here in
      let (result, calls, retries) =
        once_result-final packages m (invoke s.calls) (record s { calls = s.calls + 1 }) here' in
      rw (loop-final (suc n) s here') (
        result ∙ ap (λ i. settle packages (invoke i)) (sym (add_zero s.calls)),
        calls ∙ omega arith,
        retries ∙ omega arith,
      )
  loop-settled m (suc k) zero s less before here = absurd (omega arith)
  loop-settled m (suc k) (suc n) s less before here =
      let s' = record (failed s) { retries = s.retries + 1 } in
      let (result, calls, retries) =
        loop-settled m k n s' (omega arith) (later k s.calls before)
          (subst (λ i. is_transient packages (invoke i) ≡ false) (add_next s.calls k) here) in
      rw (loop-again n s (first k s.calls before)) (
        result ∙ ap (λ i. settle packages (invoke i)) (sym (add_next s.calls k)),
        calls ∙ omega arith,
        retries ∙ omega arith,
      )

  loop-exhausted :
      (m n : ℕ) (s : Calls)
      → IsTransientUpTo packages invoke s.calls (suc n)
      → (exc : LlmException) × (invoke (s.calls + n) ≡ err exc)
        × ((finish m (loop (suc n) s)).0 ≡ err (attempts_exhausted m exc))
        × ((finish m (loop (suc n) s)).1.calls ≡ s.calls + n + 1)
        × ((finish m (loop (suc n) s)).1.exhausted ≡ s.exhausted + 1)
  loop-exhausted m zero s all_fail =
      let (exc, same, out) = loop-last s (first zero s.calls all_fail) in
      (exc, ap invoke (add_zero s.calls) ∙ same, rw out refl, rw out (omega arith), rw out refl)
  loop-exhausted m (suc n) s all_fail =
      let s' = record (failed s) { retries = s.retries + 1 } in
      let (exc, same, result, calls, exhausted) =
        loop-exhausted m n s' (later (suc n) s.calls all_fail) in
      let again = loop-again n s (first (suc n) s.calls all_fail) in
      (
        exc,
        ap invoke (add_next s.calls n) ∙ same,
        rw again result,
        rw again (calls ∙ omega arith),
        rw again exhausted,
      )

  -- the calls of the loop, whatever the client answers
  abbrev Bounded : ℕ → ℕ → Calls → Type 0
  Bounded m n s =
      (s.calls < (finish m (loop (suc n) s)).1.calls)
      × ((finish m (loop (suc n) s)).1.calls ≤ s.calls + 1 + n)

  loop-calls_final :
      (m n : ℕ) (s : Calls) → is_transient packages (invoke s.calls) ≡ false → Bounded m n s
  loop-calls_final m n s final =
      let (result, calls, retries) =
        loop-settled m 0 n s (omega arith) (λ j less. absurd (omega arith))
          (subst (λ i. is_transient packages (invoke i) ≡ false) (sym (add_zero s.calls)) final) in
      (omega arith, omega arith)

  loop-calls : (m n : ℕ) (s : Calls) → Bounded m n s
  loop-calls m zero s = elim (Bool-cases (is_transient packages (invoke s.calls))) [
    | inr final ↦ loop-calls_final m zero s final
    | inl again ↦
        let (exc, same, out) = loop-last s again in (rw out (omega arith), rw out (omega arith))
  ]
  loop-calls m (suc n) s = elim (Bool-cases (is_transient packages (invoke s.calls))) [
    | inr final ↦ loop-calls_final m (suc n) s final
    | inl again ↦
        let (low, high) = loop-calls m n (record (failed s) { retries = s.retries + 1 }) in
        (rw (loop-again n s again) (omega arith), rw (loop-again n s again) (omega arith))
  ]

-- Whatever the client answers, a call with `max_retries` retries ends after one client call at
-- least and `max_retries + 1` at most.
pub invoke_llm_with_retry-calls :
    (retryer : Retrying) (packages : Installed) (invoke : ℕ → Result LlmException Response)
    (max_retries : ℕ) (s : Calls)
    → (s.calls < (invoke_llm_with_retry retryer packages invoke max_retries s).1.calls)
      × ((invoke_llm_with_retry retryer packages invoke max_retries s).1.calls
          ≤ s.calls + max_retries + 1)
unfolding invoke_llm_with_retry invoke_once
invoke_llm_with_retry-calls retryer packages invoke max_retries s =
    let (low, high) = loop-calls retryer packages invoke (suc max_retries) max_retries s in
    rw (add_one max_retries) (low, omega arith)

-- When the client call number `k` after the start is the first that does not fail with a transient
-- error, and the retries reach it, the agent returns that response, or raises the error that belongs
-- to it (budget, credentials or other), after `k + 1` calls and `k` counted retries.
pub invoke_llm_with_retry-settled :
    (retryer : Retrying) (packages : Installed) (invoke : ℕ → Result LlmException Response)
    (max_retries k : ℕ) (s : Calls)
    → k ≤ max_retries
    → IsTransientUpTo packages invoke s.calls k
    → is_transient packages (invoke (s.calls + k)) ≡ false
    → ((invoke_llm_with_retry retryer packages invoke max_retries s).0
        ≡ settle packages (invoke (s.calls + k)))
      × ((invoke_llm_with_retry retryer packages invoke max_retries s).1.calls ≡ s.calls + k + 1)
      × ((invoke_llm_with_retry retryer packages invoke max_retries s).1.retries ≡ s.retries + k)
unfolding invoke_llm_with_retry invoke_once
invoke_llm_with_retry-settled retryer packages invoke max_retries k s less before here =
    let out =
      loop-settled retryer packages invoke (suc max_retries) k max_retries s less before here in
    rw (add_one max_retries) out

-- When the client fails with a transient error `max_retries + 1` times in a row, the agent raises an
-- execution error that holds the number of attempts and the last failure, and counts the exhausted
-- retries once.
pub invoke_llm_with_retry-exhausted :
    (retryer : Retrying) (packages : Installed) (invoke : ℕ → Result LlmException Response)
    (max_retries : ℕ) (s : Calls)
    → IsTransientUpTo packages invoke s.calls (suc max_retries)
    → (exc : LlmException) × (invoke (s.calls + max_retries) ≡ err exc)
      × ((invoke_llm_with_retry retryer packages invoke max_retries s).0
          ≡ err (attempts_exhausted (max_retries + 1) exc))
      × ((invoke_llm_with_retry retryer packages invoke max_retries s).1.calls
          ≡ s.calls + max_retries + 1)
      × ((invoke_llm_with_retry retryer packages invoke max_retries s).1.exhausted
          ≡ s.exhausted + 1)
unfolding invoke_llm_with_retry invoke_once
invoke_llm_with_retry-exhausted retryer packages invoke max_retries s all_fail =
    rw (add_one max_retries)
      (loop-exhausted retryer packages invoke (suc max_retries) max_retries s all_fail)
