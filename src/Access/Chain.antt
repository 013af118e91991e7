-- ===== src/Access/Chain.antt =====
-- api/middleware.py, in the order in which api/app.py stacks the middlewares. Names of headers are
-- in lower case. The lines of the log are left out; the address in them is looked up, since that can
-- fail.
use langgraph_agent_stack.Prelude.{
  if◌then◌else◌, or_else, mem, Text, text, nonempty, decimal, Result, ok, err, ℕ, ◌+◌, ◌/◌, Bool,
  true, false, not, ◌&&◌, ◌||◌, Option, none, some, List, [], ◌∷◌, ◌++◌, text_eq, nat_eq,
}
use langgraph_agent_stack.Prelude.Dict
use langgraph_agent_stack.Prelude.Dict.{Dict}
use langgraph_agent_stack.RateLimit.{RateLimiter, is_allowed}
use langgraph_agent_stack.Access.Client.{Library, request_client_ip, rate_limit_endpoint_key}
use langgraph_agent_stack.Access.Body.{
  BodyError, invalid_content_length, body_too_large, ensure_within_limit,
}
use langgraph_agent_stack.Access.Keys.{resolved_api_keys, verify_bearer_token, bearer_token}
use langgraph_agent_stack.Access.{Request, Response, Settings, ServerError}

-- The state that the middlewares share (api/state.py), and the increments of the counters.
pub record Process : Type 0 where
  pub shutting_down : Bool
  pub rate_limiter : Option RateLimiter
  pub requests_rejected_during_shutdown : ℕ
  pub http_requests : List (Text × Text × ℕ)

abbrev pub Reply : Type 0
Reply = Result ServerError Response × Process

-- `call_next`, or the whole application
abbrev pub App : Type 0
App = Request → Process → Reply

abbrev pub drain_exempt_paths : List Text
drain_exempt_paths = text "/health" ∷ text "/ready" ∷ text "/metrics" ∷ []

abbrev pub auth_exempt_paths : List Text
auth_exempt_paths =
    text "/"
    ∷ text "/health"
    ∷ text "/ready"
    ∷ text "/metrics"
    ∷ text "/docs"
    ∷ text "/redoc"
    ∷ text "/openapi.json"
    ∷ text "/favicon.ico"
    ∷ []

abbrev pub rate_limit_exempt_paths : List Text
rate_limit_exempt_paths = text "/health" ∷ text "/ready" ∷ text "/metrics" ∷ []

abbrev pub docs_paths : List Text
docs_paths = text "/docs" ∷ text "/redoc" ∷ text "/openapi.json" ∷ []

abbrev pub docs_policy : Text
docs_policy =
    text "default-src 'self'; "
    ++ text "script-src 'self' 'unsafe-inline' cdn.jsdelivr.net; "
    ++ text "style-src 'self' 'unsafe-inline' cdn.jsdelivr.net; "
    ++ text "img-src 'self' data: fastapi.tiangolo.com;"

unfoldable pub secured : Settings → Request → Dict Text Text → Dict Text Text
secured settings request headers =
    let fixed = Dict.put (text "cache-control") (text "no-store") (
      Dict.put (text "referrer-policy") (text "strict-origin-when-cross-origin") (
        Dict.put (text "x-frame-options") (text "DENY")
          (Dict.put (text "x-content-type-options") (text "nosniff") headers))) in
    let policy =
      Dict.put (text "content-security-policy")
        (if mem request.path docs_paths then docs_policy else text "default-src 'self'") fixed in
    let strict =
      Dict.put (text "strict-transport-security")
        (text "max-age=31536000; includeSubDomains; preload") policy in
    Dict.remove (text "server") (if settings.in_production then strict else policy)

abbrev pub on_response : (Response → Response) → Reply → Reply
on_response f (ok response, s) = (ok (f response), s)
on_response f (err e, s) = (err e, s)

abbrev pub detail : ℕ → Text → Dict Text Text → Response
detail status message headers = record {
  status_code = status;
  content = message;
  headers = headers;
}

-- a refusal that writes the client's address into the log
abbrev pub refuse : Result ServerError Text → Response → Process → Reply
refuse (err e) response s = (err e, s)
refuse (ok client) response s = (ok response, s)

-- The request that `call_next` hands to the application below.
abbrev pub passed_on : Library → Request → Request → Request
passed_on lib request bounded_request = record bounded_request {
  chunks = lib.delivered request.chunks bounded_request.chunks;
}

module _ (lib : Library) (settings : Settings) where
  unfoldable pub add_security_headers : App → App
  unfolding secured
  add_security_headers call_next request s =
      on_response
        (λ response. record response { headers = secured settings request response.headers })
        (call_next request s)

  abbrev pub verified : App → Request → Process → Result ServerError Bool → Reply
  verified call_next request s (err e) = (err e, s)
  verified call_next request s (ok true) = call_next request s
  verified call_next request s (ok false) =
      refuse (request_client_ip lib request settings)
        (detail 401 (text "Invalid or missing Bearer token.")
          ((text "www-authenticate", text "Bearer") ∷ []))
        s

  unfoldable pub auth_middleware : App → App
  unfolding resolved_api_keys bearer_token verify_bearer_token request_client_ip
  auth_middleware call_next request s =
      let api_keys = resolved_api_keys settings in
      let token = bearer_token (request.headers (text "Authorization")) in
      if mem request.path auth_exempt_paths || not (nonempty api_keys)
      then call_next request s
      else verified call_next request s (verify_bearer_token token api_keys)

  abbrev pub too_many_requests : ℕ → Response
  too_many_requests window =
      detail 429 (text "{\"detail\":\"Rate limit exceeded. Please slow down.\"}")
        ((text "retry-after", decimal (window / settings.ticks_per_second)) ∷ [])

  abbrev pub limited : App → Request → Process → RateLimiter → Bool × RateLimiter → Reply
  limited call_next request s limiter (true, after) =
      call_next request (record s { rate_limiter = some after })
  limited call_next request s limiter (false, after) =
      refuse (request_client_ip lib request settings) (too_many_requests limiter.window)
        (record s { rate_limiter = some after })

  abbrev pub with_limiter : App → Request → Process → Text → Option RateLimiter → Reply
  with_limiter call_next request s limit_key none = call_next request s
  with_limiter call_next request s limit_key (some limiter) =
      limited call_next request s limiter (is_allowed limit_key request.now limiter)

  abbrev pub with_key : App → Request → Process → Result ServerError Text → Reply
  with_key call_next request s (err e) = (err e, s)
  with_key call_next request s (ok limit_key) =
      with_limiter call_next request s limit_key s.rate_limiter

  unfoldable pub rate_limit_middleware : App → App
  unfolding rate_limit_endpoint_key request_client_ip is_allowed decimal
  rate_limit_middleware call_next request s =
      if mem request.path rate_limit_exempt_paths
      then call_next request s
      else with_key call_next request s (rate_limit_endpoint_key lib request settings)

  -- what the log middleware does with a response
  abbrev pub logged : Request → Reply → Reply
  logged request (err e, s) = (err e, s)
  logged request (ok response, s) = (
    ok (record response {
      headers =
          Dict.put (text "x-request-id")
            (or_else (request.headers (text "X-Request-ID")) request.new_id) response.headers;
    }),
    record s {
      http_requests =
          s.http_requests ++ (request.method, request.path_label, response.status_code) ∷ [];
    },
  )

  abbrev pub with_client : App → Request → Process → Result ServerError Text → Reply
  with_client call_next request s (err e) = (err e, s)
  with_client call_next request s (ok client) = logged request (call_next request s)

  unfoldable pub log_requests : App → App
  unfolding request_client_ip
  log_requests call_next request s =
      with_client call_next request s (request_client_ip lib request settings)

  unfoldable pub drain_middleware : App → App
  drain_middleware call_next request s =
      if s.shutting_down && not (mem request.path drain_exempt_paths)
      then (
        ok (detail 503 (text "Server is shutting down.") []),
        record s { requests_rejected_during_shutdown = s.requests_rejected_during_shutdown + 1 },
      )
      else call_next request s

  unfoldable pub error_detail : BodyError → Text
  unfolding decimal
  error_detail invalid_content_length = text "Invalid Content-Length header."
  error_detail body_too_large =
      text "Request body too large. Maximum size is "
      ++ decimal settings.max_request_body_bytes
      ++ text " bytes."

  abbrev pub with_body : App → Request → Process → Result BodyError Request → Reply
  with_body call_next request s (ok bounded_request) =
      call_next (passed_on lib request bounded_request) s
  with_body call_next request s (err e) =
      refuse (request_client_ip lib request settings) (detail 413 (error_detail e) []) s

  unfoldable pub body_size_limit_middleware : App → App
  unfolding ensure_within_limit error_detail request_client_ip
  body_size_limit_middleware call_next request s =
      with_body call_next request s (ensure_within_limit request settings.max_request_body_bytes)

  -- The application with its middlewares; `route` is what api/app.py puts below them.
  unfoldable pub handle : App → App
  unfolding body_size_limit_middleware drain_middleware log_requests rate_limit_middleware
      auth_middleware add_security_headers
  handle route = body_size_limit_middleware (
      drain_middleware
        (log_requests (rate_limit_middleware (auth_middleware (add_security_headers route)))))
