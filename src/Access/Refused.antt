-- ===== src/Access/Refused.antt =====
-- api/middleware.py: what a request without a valid token gets.
use langgraph_agent_stack.Prelude.{
  Bool-cases, all, mem, Text, text, nonempty, Result, Result-cases, ok, err, ◌≡◌, refl, sym, ◌∙◌,
  inl, inr, Bool, true, false, not, ◌&&◌, ◌||◌, Option, none, some, [], ◌∷◌, text_eq, nat_eq,
}
use langgraph_agent_stack.RateLimit.{RateLimiter, is_allowed}
use langgraph_agent_stack.Access.{Request, Response, Settings, ServerError, non_ascii}
use langgraph_agent_stack.Access.Body.{ensure_within_limit}
use langgraph_agent_stack.Access.Client.{Library, request_client_ip, rate_limit_endpoint_key}
use langgraph_agent_stack.Access.Gate.{authenticated, within_limit-rest}
use langgraph_agent_stack.Access.Keys.{
  resolved_api_keys, is_ascii, verify_bearer_token, is_accepted, bearer_token,
  verify_bearer_token-err,
}
use langgraph_agent_stack.Access.Chain.{
  Process, Reply, App, drain_exempt_paths, auth_exempt_paths, rate_limit_exempt_paths, refuse,
  add_security_headers, verified, auth_middleware, too_many_requests, limited, with_limiter,
  rate_limit_middleware, logged, log_requests, drain_middleware, body_size_limit_middleware, handle,
}
use mathlib.Core.Path.{subst}
use langgraph_agent_stack.Prelude.Dict
use langgraph_agent_stack.Prelude.Dict.{Dict}

-- The token and the keys are such that they can be compared.
abbrev pub are_comparable : Settings → Request → Bool
are_comparable settings request =
    is_ascii (bearer_token (request.headers (text "Authorization")))
    && all is_ascii (resolved_api_keys settings)

-- One of four statuses, and none of the security headers; or the error of the comparison, where the
-- token or a key is not ASCII.
abbrev pub IsRefusal : Settings → Request → Reply → Type 0
IsRefusal settings request (err e, s) = (e ≡ non_ascii) × (are_comparable settings request ≡ false)
IsRefusal settings request (ok response, s) =
    (mem response.status_code (401 ∷ 413 ∷ 429 ∷ 503 ∷ []) ≡ true)
    × (Dict.get (text "x-content-type-options") response.headers ≡ none)

refuse-IsRefusal :
    (settings : Settings) (request : Request) (client : Result ServerError Text) (address : Text)
    (response : Response) (s : Process)
    → client ≡ ok address
    → mem response.status_code (401 ∷ 413 ∷ 429 ∷ 503 ∷ []) ≡ true
    → Dict.get (text "x-content-type-options") response.headers ≡ none
    → IsRefusal settings request (refuse client response s)
refuse-IsRefusal settings request client address response s known status bare =
    rw known (status, bare)

module _ (lib : Library) (settings : Settings) (address : Text) where
  abbrev Refuses : App → Request → Type 0
  Refuses f request = (s : Process) → IsRefusal settings request (f request s)

  abbrev IsKnown : Request → Type 0
  IsKnown request = request_client_ip lib request settings ≡ ok address

  auth-Refuses :
      (f : App) (request : Request)
      → IsKnown request
      → authenticated settings request ≡ false
      → Refuses (auth_middleware lib settings f) request
  unfolding auth_middleware Dict.get
  auth-Refuses f request known h s =
      elim (Bool-cases
        (mem request.path auth_exempt_paths || not (nonempty (resolved_api_keys settings)))) [
          | inl free ↦ absurd (cc (rw free at h))
          | inr checked ↦ rw checked (
              refused
                (verify_bearer_token (bearer_token (request.headers (text "Authorization")))
                  (resolved_api_keys settings))
                refl (rw checked at h))
        ]
    where
      refused :
          (r : Result ServerError Bool)
          → verify_bearer_token
              (bearer_token (request.headers (text "Authorization")))
              (resolved_api_keys settings)
            ≡ r
          → is_accepted r ≡ false
          → IsRefusal settings request (verified lib settings f request s r)
      refused (err e) is h =
          verify_bearer_token-err (bearer_token (request.headers (text "Authorization")))
            (resolved_api_keys settings) e is
      refused (ok true) is h = absurd (cc)
      refused (ok false) is h =
          refuse-IsRefusal settings request (request_client_ip lib request settings) address _ s
            known refl refl

  limited-Refuses :
      (f : App) (request : Request) (s : Process) (limiter : RateLimiter)
      (reply : Bool × RateLimiter)
      → IsKnown request
      → Refuses f request
      → IsRefusal settings request (limited lib settings f request s limiter reply)
  unfolding Dict.get
  limited-Refuses f request s limiter (true, after) known h =
      h (record s { rate_limiter = some after })
  limited-Refuses f request s limiter (false, after) known h =
      refuse-IsRefusal settings request (request_client_ip lib request settings) address
        (too_many_requests lib settings limiter.window) (record s { rate_limiter = some after })
        known refl refl

  with_limiter-Refuses :
      (f : App) (request : Request) (s : Process) (key : Text) (limiter : Option RateLimiter)
      → IsKnown request
      → Refuses f request
      → IsRefusal settings request (with_limiter lib settings f request s key limiter)
  with_limiter-Refuses f request s key none known h = h s
  with_limiter-Refuses f request s key (some limiter) known h =
      limited-Refuses f request s limiter (is_allowed key request.now limiter) known h

  limit-Refuses :
      (f : App) (request : Request) (key : Text)
      → IsKnown request
      → rate_limit_endpoint_key lib request settings ≡ ok key
      → Refuses f request
      → Refuses (rate_limit_middleware lib settings f) request
  unfolding rate_limit_middleware
  limit-Refuses f request key known found h s =
      elim (Bool-cases (mem request.path rate_limit_exempt_paths)) [
        | inl exempt ↦ rw exempt (h s)
        | inr checked ↦
            rw (checked, found) (with_limiter-Refuses f request s key s.rate_limiter known h)
      ]

  logged-IsRefusal :
      (request : Request) (r : Reply)
      → IsRefusal settings request r
      → IsRefusal settings request (logged lib settings request r)
  logged-IsRefusal request (err e, s) h = h
  logged-IsRefusal request (ok response, s) h = (
    h.0,
    Dict.get-put (text "x-request-id") (text "x-content-type-options") _ response.headers ∙ h.1,
  )

  log-Refuses :
      (f : App) (request : Request)
      → IsKnown request
      → Refuses f request
      → Refuses (log_requests lib settings f) request
  unfolding log_requests
  log-Refuses f request known h s = rw known (logged-IsRefusal request (f request s) (h s))

  drain-Refuses :
      (f : App) (request : Request)
      → Refuses f request
      → Refuses (drain_middleware lib settings f) request
  unfolding drain_middleware Dict.get
  drain-Refuses f request h s =
      elim (Bool-cases (s.shutting_down && not (mem request.path drain_exempt_paths))) [
        | inl down ↦ rw down (refl, refl)
        | inr up ↦ rw up (h s)
      ]

-- A request to a path that needs a token, without one of the configured keys, is answered with 401,
-- 413, 429 or 503 in every state of the server, and the answer carries no X-Content-Type-Options;
-- only where the token or a key is not ASCII it may end in the TypeError of the comparison. The
-- client's address and its bucket are found, which takes a well-formed setting of trusted proxies.
pub handle-refused :
    (lib : Library) (settings : Settings) (route : App) (request : Request) (s : Process)
    (address key : Text)
    → request_client_ip lib request settings ≡ ok address
    → rate_limit_endpoint_key lib request settings ≡ ok key
    → authenticated settings request ≡ false
    → IsRefusal settings request (handle lib settings route request s)
unfolding handle body_size_limit_middleware Dict.get
handle-refused lib settings route request s address key known found h =
    let f = auth_middleware lib settings (add_security_headers lib settings route) in
    let f1 = rate_limit_middleware lib settings f in
    let f2 = log_requests lib settings f1 in
    elim (Result-cases (ensure_within_limit request settings.max_request_body_bytes)) [
      | inr (e, long) ↦ rw long (
          refuse-IsRefusal settings request (request_client_ip lib request settings) address _ s
            known refl refl)
      | inl (bounded, fits) ↦
          let below = record request { chunks = lib.delivered request.chunks bounded.chunks } in
          rw fits (
            subst
              (λ b. IsRefusal settings request (
                drain_middleware lib settings f2
                  (record b { chunks = lib.delivered request.chunks bounded.chunks }) s))
              (sym (within_limit-rest request bounded settings.max_request_body_bytes fits))
              (drain-Refuses lib settings address f2 below
                (log-Refuses lib settings address f1 below known (
                  limit-Refuses lib settings address f below key known found (
                    auth-Refuses lib settings address (add_security_headers lib settings route)
                      below known h)))
                s))
    ]
