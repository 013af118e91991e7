-- ===== src/Access/Trust.antt =====
-- core/security.py: whose headers count, and which bucket of the rate limiter a request falls into.
use langgraph_agent_stack.Prelude.{
  ltb, leb, if◌then◌else◌, Bool-cases, or_else, length, take, mem, Text, text, nonempty, Result, ok,
  ℕ, ◌≤◌, ◌≡◌, refl, inl, inr, Bool, true, false, Option, none, some, List, [], ◌∷◌, ◌++◌, arith,
  text_eq, nat_eq,
}
use langgraph_agent_stack.RateLimit.{RateLimiter, prune, bucket_of, is_allowed}
use langgraph_agent_stack.Access.Chain.{
  Process, App, rate_limit_exempt_paths, limited, rate_limit_middleware,
}
use langgraph_agent_stack.Access.Client.{
  Library, peer_is_trusted, resolve_client_ip, presented_token, rate_limit_client_key, first_key,
  rate_limit_key, rate_limit_route_path, rate_limit_endpoint_key,
}
use langgraph_agent_stack.Access.Keys.{resolved_api_keys, AreKeys, resolved_api_keys-AreKeys}
use langgraph_agent_stack.Access.{Request, Settings, ServerError}
use langgraph_agent_stack.Prelude.Dict
use langgraph_agent_stack.Prelude.Dict.{Dict}

module _ (lib : Library) where
  -- Whether the headers of the peer are looked at.
  abbrev pub headers_count : Option Text → Settings → Result ServerError Bool
  headers_count none settings = ok false
  headers_count (some peer_host) settings =
      if settings.trust_proxy_headers
      then peer_is_trusted lib peer_host settings.forwarded_allow_ips
      else ok false

  resolve-untrusted :
      (peer_host : Option Text) (headers : Text → Option Text) (settings : Settings)
      → headers_count peer_host settings ≡ ok false
      → resolve_client_ip lib peer_host headers settings.trust_proxy_headers
          settings.forwarded_allow_ips
        ≡ ok (if nonempty (or_else peer_host []) then or_else peer_host [] else text "unknown")
  unfolding resolve_client_ip
  resolve-untrusted none headers settings h = refl
  resolve-untrusted (some []) headers settings h = refl
  resolve-untrusted (some (c ∷ host)) headers settings h =
      elim (Bool-cases settings.trust_proxy_headers) [
        | inr off ↦ rw off refl
        | inl on ↦ rw (on, rw on at h) refl
      ]

-- With one configured key at most, a peer that is no trusted proxy cannot choose its bucket: the key
-- is its own address with the endpoint, whatever headers it sends.
pub rate_limit_endpoint_key-untrusted :
    (lib : Library) (settings : Settings) (request : Request)
    → headers_count lib request.peer_host settings ≡ ok false
    → length (resolved_api_keys settings) ≤ 1
    → rate_limit_endpoint_key lib request settings
      ≡ ok (
          text "ip:"
          ++ (if nonempty (or_else request.peer_host [])
              then or_else request.peer_host []
              else text "unknown")
          ++ 58 ∷ rate_limit_route_path lib request)
unfolding rate_limit_endpoint_key rate_limit_key rate_limit_client_key presented_token
rate_limit_endpoint_key-untrusted lib settings request h few =
    rw
      (
        few_keys (length (resolved_api_keys settings)) few,
        resolve-untrusted lib request.peer_host request.headers settings h,
      )
      refl
  where
    few_keys : (n : ℕ) → n ≤ 1 → ltb 1 n ≡ false
    few_keys n less = ground arith

-- A bucket that no request has used yet lets a request through.
fresh-allowed :
    (key : Text) (now : ℕ) (limiter : RateLimiter)
    → Dict.get key limiter.buckets ≡ none
    → leb 1 limiter.max_requests ≡ true
    → (is_allowed key now limiter).0 ≡ true
unfolding is_allowed bucket_of prune
fresh-allowed key now limiter fresh room = rw (fresh, no_room limiter.max_requests room) refl
  where
    no_room : (n : ℕ) → leb 1 n ≡ true → leb n 0 ≡ false
    no_room n h = ground arith

first_key-nonempty :
    (lib : Library) (keys : List Text)
    → AreKeys [] keys
    → ltb 1 (length keys) ≡ true
    → nonempty (or_else (first_key lib keys) []) ≡ true
first_key-nonempty lib [] h many = absurd (ground arith)
first_key-nonempty lib (key ∷ keys) h many = h.0

-- the bucket of the token that a request presents
abbrev token_bucket : Library → Request → Text
token_bucket lib request =
    (text "token:" ++ take 16 (lib.sha256_hexdigest (presented_token lib request.headers true)))
    ++ 58 ∷ rate_limit_route_path lib request

token_key :
    (lib : Library) (settings : Settings) (request : Request)
    → ltb 1 (length (resolved_api_keys settings)) ≡ true
    → nonempty (presented_token lib request.headers true) ≡ true
    → rate_limit_endpoint_key lib request settings ≡ ok (token_bucket lib request)
unfolding rate_limit_endpoint_key rate_limit_key rate_limit_client_key
token_key lib settings request many presented =
    rw
      (
        many,
        first_key-nonempty lib (resolved_api_keys settings) (resolved_api_keys-AreKeys settings)
            many,
        presented,
      )
      refl

-- With two or more configured keys, a request falls into the bucket of the token that it presents,
-- and nothing has checked the token there: with one that no request has used on that path, it is
-- passed on, however many requests its address has sent.
pub rate_limit_middleware-fresh_token :
    (lib : Library) (settings : Settings) (f : App) (request : Request) (s : Process)
    (limiter : RateLimiter)
    → ltb 1 (length (resolved_api_keys settings)) ≡ true
    → nonempty (presented_token lib request.headers true) ≡ true
    → s.rate_limiter ≡ some limiter
    → leb 1 limiter.max_requests ≡ true
    → Dict.get (token_bucket lib request) limiter.buckets ≡ none
    → rate_limit_middleware lib settings f request s
      ≡ f request (
          if mem request.path rate_limit_exempt_paths then s else record s {
            rate_limiter = some (is_allowed (token_bucket lib request) request.now limiter).1;
          })
unfolding rate_limit_middleware
rate_limit_middleware-fresh_token lib settings f request s limiter many presented installed room
      fresh =
    elim (Bool-cases (mem request.path rate_limit_exempt_paths)) [
      | inl exempt ↦ rw exempt refl
      | inr checked ↦
          rw (checked, token_key lib settings request many presented, installed)
            (passed (is_allowed (token_bucket lib request) request.now limiter)
              (fresh-allowed (token_bucket lib request) request.now limiter fresh room))
    ]
  where
    passed :
        (reply : Bool × RateLimiter)
        → reply.0 ≡ true
        → limited lib settings f request s limiter reply
          ≡ f request (record s { rate_limiter = some reply.1 })
    passed (true, after) h = refl
    passed (false, after) h = absurd (cc)
