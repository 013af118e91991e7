-- ===== src/Access/Admitted.antt =====
-- api/middleware.py: a request that every middleware accepts is answered by the route.
use langgraph_agent_stack.Prelude.{
  Bool-cases, or_else, mem, Text, text, nonempty, Result, ok, err, ℕ, ◌≡◌, refl, sym, inl, inr,
  Bool, true, false, not, ◌&&◌, ◌||◌, Option, none, some, [], ◌∷◌, ◌++◌, text_eq, nat_eq,
}
use langgraph_agent_stack.RateLimit.{RateLimiter, is_allowed}
use langgraph_agent_stack.Access.{Request, Response, Settings, ServerError}
use langgraph_agent_stack.Access.Body.{ensure_within_limit}
use langgraph_agent_stack.Access.Client.{Library, request_client_ip, rate_limit_endpoint_key}
use langgraph_agent_stack.Access.Gate.{authenticated}
use langgraph_agent_stack.Access.Keys.{resolved_api_keys, is_accepted}
use langgraph_agent_stack.Access.Chain.{
  Process, App, drain_exempt_paths, auth_exempt_paths, rate_limit_exempt_paths, docs_paths, secured,
  passed_on, add_security_headers, verified, auth_middleware, limited, with_limiter,
  rate_limit_middleware, log_requests, drain_middleware, body_size_limit_middleware, handle,
}
use langgraph_agent_stack.Prelude.Dict
use langgraph_agent_stack.Prelude.Dict.{Dict}

-- The state in which the route runs: the request is counted by the limiter.
abbrev counted : Option RateLimiter → Text → ℕ → Option RateLimiter
counted none key now = none
counted (some limiter) key now = some (is_allowed key now limiter).1

abbrev allows : Option RateLimiter → Text → ℕ → Bool
allows none key now = true
allows (some limiter) key now = (is_allowed key now limiter).0

module _ (lib : Library) (settings : Settings) where
  auth-passes :
      (f : App) (request : Request) (s : Process)
      → authenticated settings request ≡ true
      → auth_middleware lib settings f request s ≡ f request s
  unfolding auth_middleware
  auth-passes f request s h =
      elim (Bool-cases
        (mem request.path auth_exempt_paths || not (nonempty (resolved_api_keys settings)))) [
          | inl free ↦ rw free refl
          | inr checked ↦ rw checked (passed _ (rw checked at h))
        ]
    where
      passed :
          (r : Result ServerError Bool)
          → is_accepted r ≡ true
          → verified lib settings f request s r ≡ f request s
      passed (err e) h = absurd (cc)
      passed (ok true) h = refl
      passed (ok false) h = absurd (cc)

  limiter-passes :
      (f : App) (request : Request) (s : Process) (key : Text) (limiter : Option RateLimiter)
      → s.rate_limiter ≡ limiter
      → allows limiter key request.now ≡ true
      → with_limiter lib settings f request s key limiter
        ≡ f request (record s { rate_limiter = counted limiter key request.now })
  limiter-passes f request s key none same h = rw (sym same) refl
  limiter-passes f request s key (some limiter) same h =
      passed (is_allowed key request.now limiter) h
    where
      passed :
          (reply : Bool × RateLimiter)
          → reply.0 ≡ true
          → limited lib settings f request s limiter reply
            ≡ f request (record s { rate_limiter = some reply.1 })
      passed (true, after) h = refl
      passed (false, after) h = absurd (cc)

-- What the middlewares put on a response: a policy for every page but the documentation, the fixed headers, no name of
-- the server, and the id that the request came with or was given.
abbrev pub HasHeaders : Settings → Request → Dict Text Text → Type 0
HasHeaders settings request headers =
    (Dict.get (text "x-content-type-options") headers ≡ some (text "nosniff"))
    × (Dict.get (text "x-frame-options") headers ≡ some (text "DENY"))
    × (Dict.get (text "referrer-policy") headers ≡ some (text "strict-origin-when-cross-origin"))
    × (Dict.get (text "cache-control") headers ≡ some (text "no-store"))
    × (mem request.path docs_paths ≡ false
        → Dict.get (text "content-security-policy") headers ≡ some (text "default-src 'self'"))
    × (settings.in_production ≡ true
        → Dict.get (text "strict-transport-security") headers
          ≡ some (text "max-age=31536000; includeSubDomains; preload"))
    × (Dict.get (text "server") headers ≡ none)
    × (Dict.get (text "x-request-id") headers
        ≡ some (or_else (request.headers (text "X-Request-ID")) request.new_id))

abbrev with_id : Request → Dict Text Text → Dict Text Text
with_id request headers =
    Dict.put (text "x-request-id") (or_else (request.headers (text "X-Request-ID")) request.new_id)
      headers

ruleset reads = (Dict.get-put, Dict.get-remove)

secured-HasHeaders :
    (settings : Settings) (request : Request) (headers : Dict Text Text)
    → HasHeaders settings request (with_id request (secured settings request headers))
unfolding secured
secured-HasHeaders settings request headers = elim (Bool-cases settings.in_production) [
  | inl strict ↦ rw strict (
    simp reads,
    simp reads,
    simp reads,
    simp reads,
    λ page. rw page simp reads,
    λ production. simp reads,
    simp reads,
    simp reads,
  )
  | inr loose ↦ rw loose (
    simp reads,
    simp reads,
    simp reads,
    simp reads,
    λ page. rw page simp reads,
    λ production. absurd (cc),
    simp reads,
    simp reads,
  )
]

-- A request to a path under the rate limit that is within the body limit, carries a valid token or
-- needs none, comes while the server is not shutting down, and is allowed by the rate limiter is
-- answered by the route, which sees the body that Starlette delivers and the limiter with the
-- request counted. The answer has the status and the content of the route's response, the security
-- headers (the content policy for pages other than the documentation, strict transport in
-- production), no Server header and the request's id, and the request is counted once, with that
-- status.
pub handle-admitted :
    (lib : Library) (settings : Settings) (route : App) (request bounded : Request)
    (s after : Process) (client key : Text) (response : Response)
    → ensure_within_limit request settings.max_request_body_bytes ≡ ok bounded
    → (s.shutting_down && not (mem bounded.path drain_exempt_paths)) ≡ false
    → request_client_ip lib bounded settings ≡ ok client
    → mem bounded.path rate_limit_exempt_paths ≡ false
    → rate_limit_endpoint_key lib bounded settings ≡ ok key
    → allows s.rate_limiter key bounded.now ≡ true
    → authenticated settings bounded ≡ true
    → route
        (passed_on lib request bounded)
        (record s { rate_limiter = counted s.rate_limiter key bounded.now })
      ≡ (ok response, after)
    → (answer : Response) × (handle lib settings route request s ≡ (
      ok answer,
      record after {
        http_requests =
            after.http_requests ++ (bounded.method, bounded.path_label, response.status_code) ∷ [];
      },
    ))
      × (answer.status_code ≡ response.status_code)
      × (answer.content ≡ response.content)
      × HasHeaders settings bounded answer.headers
unfolding handle body_size_limit_middleware drain_middleware log_requests rate_limit_middleware
    add_security_headers
handle-admitted lib settings route request bounded s after client key response fits up known
      limited_path keyed allowed token routed =
    let below = passed_on lib request bounded in
    let s' : Process = record s { rate_limiter = counted s.rate_limiter key bounded.now } in
    (
      record response { headers = with_id bounded (secured settings bounded response.headers) },
      rw
          (
            fits,
            up,
            known,
            limited_path,
            keyed,
            limiter-passes lib settings
                (auth_middleware lib settings (add_security_headers lib settings route)) below s key
                s.rate_limiter refl allowed,
            auth-passes lib settings (add_security_headers lib settings route) below s' token,
            routed,
          )
          refl,
      refl,
      refl,
      secured-HasHeaders settings bounded response.headers,
    )
