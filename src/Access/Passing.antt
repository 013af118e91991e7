-- ===== src/Access/Passing.antt =====
-- api/middleware.py: requests without a valid token never reach the route, and those with one do.
use langgraph_agent_stack.Prelude.{
  Bool-cases, mem, Text, nonempty, Result, Result-cases, ok, err, ◌≡◌, refl, sym, inl, inr, Bool,
  true, false, not, ◌&&◌, ◌||◌, Option, none, some, text_eq, nat_eq,
}
use langgraph_agent_stack.RateLimit.{RateLimiter, is_allowed}
use langgraph_agent_stack.Access.{Request, Settings, ServerError}
use langgraph_agent_stack.Access.Body.{ensure_within_limit}
use langgraph_agent_stack.Access.Client.{Library, request_client_ip, rate_limit_endpoint_key}
use langgraph_agent_stack.Access.Gate.{authenticated, within_limit-rest}
use langgraph_agent_stack.Access.Keys.{resolved_api_keys, is_accepted}
use langgraph_agent_stack.Access.Chain.{
  Process, App, drain_exempt_paths, auth_exempt_paths, rate_limit_exempt_paths, passed_on,
  add_security_headers, verified, auth_middleware, limited, with_limiter, rate_limit_middleware,
  log_requests, drain_middleware, body_size_limit_middleware, handle,
}
use mathlib.Core.Path.{subst}

module _ (lib : Library) (settings : Settings) where
  -- Middlewares that pass a request on see only what comes back for it.
  abbrev Agree : App → App → Request → Type 0
  Agree f g request = (s : Process) → f request s ≡ g request s

  auth-Agree :
      (f g : App) (request : Request)
      → authenticated settings request ≡ false
      → Agree (auth_middleware lib settings f) (auth_middleware lib settings g) request
  unfolding auth_middleware
  auth-Agree f g request h s =
      elim (Bool-cases
        (mem request.path auth_exempt_paths || not (nonempty (resolved_api_keys settings)))) [
          | inl free ↦ absurd (cc (rw free at h))
          | inr checked ↦ rw checked (agree _ (rw checked at h))
        ]
    where
      agree :
          (r : Result ServerError Bool)
          → is_accepted r ≡ false
          → verified lib settings f request s r ≡ verified lib settings g request s r
      agree (err e) h = refl
      agree (ok true) h = absurd (cc)
      agree (ok false) h = refl

  limit-Agree :
      (f g : App) (request : Request)
      → Agree f g request
      → Agree (rate_limit_middleware lib settings f) (rate_limit_middleware lib settings g) request
  unfolding rate_limit_middleware
  limit-Agree f g request h s = elim (Bool-cases (mem request.path rate_limit_exempt_paths)) [
    | inl exempt ↦ rw exempt (h s)
    | inr checked ↦ rw checked (elim (Result-cases (rate_limit_endpoint_key lib request settings)) [
      | inr (e, bad) ↦ rw bad refl
      | inl (key, found) ↦ rw found (limiter-Agree key s.rate_limiter)
    ])
  ]
    where
      limiter-Agree :
          (key : Text) (limiter : Option RateLimiter)
          → with_limiter lib settings f request s key limiter
            ≡ with_limiter lib settings g request s key limiter
      limiter-Agree key none = h s
      limiter-Agree key (some limiter) = limited-Agree limiter (is_allowed key request.now limiter)
        where
          limited-Agree :
              (limiter : RateLimiter) (reply : Bool × RateLimiter)
              → limited lib settings f request s limiter reply
                ≡ limited lib settings g request s limiter reply
          limited-Agree limiter (true, after) = h (record s { rate_limiter = some after })
          limited-Agree limiter (false, after) = refl

  log-Agree :
      (f g : App) (request : Request)
      → Agree f g request
      → Agree (log_requests lib settings f) (log_requests lib settings g) request
  unfolding log_requests
  log-Agree f g request h s = elim (Result-cases (request_client_ip lib request settings)) [
    | inr (e, bad) ↦ rw bad refl
    | inl (client, found) ↦ rw (found, h s) refl
  ]

  drain-Agree :
      (f g : App) (request : Request)
      → Agree f g request
      → Agree (drain_middleware lib settings f) (drain_middleware lib settings g) request
  unfolding drain_middleware
  drain-Agree f g request h s =
      elim (Bool-cases (s.shutting_down && not (mem request.path drain_exempt_paths))) [
        | inl down ↦ rw down refl
        | inr up ↦ rw up (h s)
      ]

  pub bounded_unauthenticated :
      (request bounded : Request)
      → ensure_within_limit request settings.max_request_body_bytes ≡ ok bounded
      → authenticated settings request ≡ false
      → authenticated settings bounded ≡ false
  bounded_unauthenticated request bounded fits h =
      subst (λ r. authenticated settings r ≡ false)
        (sym (within_limit-rest request bounded settings.max_request_body_bytes fits)) h

-- A request to a path that needs a token, without one of the configured keys, never reaches the
-- route: whatever the state of the server, its reply and the state after it are the same for any
-- two routes.
pub handle-unauthenticated :
    (lib : Library) (settings : Settings) (route route' : App) (request : Request) (s : Process)
    → authenticated settings request ≡ false
    → handle lib settings route request s ≡ handle lib settings route' request s
unfolding handle body_size_limit_middleware
handle-unauthenticated lib settings route route' request s h =
    let f = auth_middleware lib settings (add_security_headers lib settings route) in
    let g = auth_middleware lib settings (add_security_headers lib settings route') in
    let f1 = rate_limit_middleware lib settings f in
    let g1 = rate_limit_middleware lib settings g in
    let f2 = log_requests lib settings f1 in
    let g2 = log_requests lib settings g1 in
    elim (Result-cases (ensure_within_limit request settings.max_request_body_bytes)) [
      | inr (e, long) ↦ rw long refl
      | inl (bounded, fits) ↦
          let refused = bounded_unauthenticated lib settings request bounded fits h in
          let below = passed_on lib request bounded in
          rw fits (
            drain-Agree lib settings f2 g2 below
              (log-Agree lib settings f1 g1 below (
                limit-Agree lib settings f g below (
                  auth-Agree lib settings (add_security_headers lib settings route)
                    (add_security_headers lib settings route') below refused)))
              s)
    ]
