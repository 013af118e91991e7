-- ===== src/Access/Client.antt =====
-- core/security.py: the address of the client behind trusted proxies, and the key of its
-- rate-limit bucket; the helpers of api/dependencies.py that call them.
use langgraph_agent_stack.Prelude.{
  ltb, nat_beq, if◌then◌else◌, is_some, or_else, length, take, drop, any, mem, Text, text, text_beq,
  strip, nonempty, starts_with, lower, split, strip_chars, Result, ◌>>=◌, ok, err, Bool, false, not,
  ◌&&◌, ◌||◌, Option, none, some, List, [], ◌∷◌, ◌++◌, text_eq, nat_eq,
}
use langgraph_agent_stack.Access.Keys.{resolved_api_keys}
use langgraph_agent_stack.Access.{Request, Settings, ServerError, invalid_network}

-- Python's ipaddress and the digest of hashlib, and of Starlette what the application below a
-- middleware reads as the body: `delivered sent passed` is that for a request whose stream yields
-- `sent`, when the middleware passes on a request whose stream yields `passed`. `ip_network` is
-- called with strict=False.
pub record Library : Type 1 where
  pub Address : Type 0
  pub Network : Type 0
  pub ip_address : Text → Option Address
  pub ip_network : Text → Option Network
  pub in_network : Address → Network → Bool
  pub sha256_hexdigest : Text → Text
  pub delivered : List Text → List Text → List Text

module _ (lib : Library) where
  unfoldable pub network_entry : Text → Text
  network_entry entry =
      if mem 47 entry then entry else entry ++ (if mem 58 entry then text "/128" else text "/32")

  abbrev pub add_network :
      Text
      → Option lib.Network
      → Result ServerError (List lib.Network)
      → Result ServerError (List lib.Network)
  add_network entry none rest = err (invalid_network entry)
  add_network entry (some network) rest = rest >>= λ networks. ok (network ∷ networks)

  -- `_forwarded_allow_networks`, on the parts of the setting
  unfoldable pub allow_networks : List Text → Result ServerError (List lib.Network)
  unfolding network_entry strip
  allow_networks [] = ok []
  allow_networks (raw ∷ parts) =
      let rest = allow_networks parts in
      let entry = strip raw in
      if nonempty entry
      then add_network (network_entry entry) (lib.ip_network (network_entry entry)) rest
      else rest

  abbrev pub in_any : Option lib.Address → Text → Result ServerError Bool
  in_any none spec = ok false
  in_any (some peer) spec =
      allow_networks (split 44 spec) >>= λ networks. ok (any (lib.in_network peer) networks)

  unfoldable pub peer_is_trusted : Text → Text → Result ServerError Bool
  unfolding allow_networks split strip
  peer_is_trusted peer_host forwarded_allow_ips =
      if not (nonempty peer_host) || not (nonempty (strip forwarded_allow_ips))
      then ok false
      else in_any (lib.ip_address peer_host) forwarded_allow_ips

  abbrev pub head_or_empty : List Text → Text
  head_or_empty [] = []
  head_or_empty (part ∷ parts) = part

  unfoldable pub first_xff_ip : Text → Option Text
  unfolding strip split
  first_xff_ip xff =
      let candidate = strip (head_or_empty (split 44 xff)) in
      if nonempty (strip xff)
      then if is_some (lib.ip_address candidate) then some candidate else none
      else none

  -- `value[:value.index("]")]`
  abbrev pub before_bracket : Text → Text
  before_bracket [] = []
  before_bracket (c ∷ s) = let rest = before_bracket s in if nat_beq c 93 then [] else c ∷ rest

  unfoldable pub forwarded_value : Text → Text
  unfolding strip strip_chars
  forwarded_value directive =
      let value = strip_chars (nat_beq 34) (strip (drop 4 directive)) in
      if starts_with (text "[") value && mem 93 value then before_bracket (drop 1 value) else value

  -- One directive of a `Forwarded` header, without white space around it.
  unfoldable pub directive_ip : Text → Option Text
  unfolding lower strip strip_chars forwarded_value
  directive_ip directive =
      let quoted = strip_chars (nat_beq 34) (strip (drop 4 directive)) in
      let value = forwarded_value directive in
      if not (starts_with (text "for=") (lower directive))
      then none
      else if text_beq (lower quoted) (text "unknown")
      then none
      else if is_some (lib.ip_address value)
      then some value
      else none

  abbrev pub or_next : Option Text → Option Text → Option Text
  or_next none next = next
  or_next (some ip) next = some ip

  unfoldable pub directives_ip : List Text → Option Text
  unfolding directive_ip strip
  directives_ip [] = none
  directives_ip (directive ∷ rest) = or_next (directive_ip (strip directive)) (directives_ip rest)

  unfoldable pub forwarded_header_ip : List Text → Option Text
  unfolding directives_ip split
  forwarded_header_ip [] = none
  forwarded_header_ip (part ∷ parts) =
      or_next (directives_ip (split 59 part)) (forwarded_header_ip parts)

  abbrev pub xff_of : Option Text → Option Text
  xff_of none = none
  xff_of (some xff) = first_xff_ip xff

  abbrev pub forwarded_of : Option Text → Option Text
  forwarded_of none = none
  forwarded_of (some forwarded) = forwarded_header_ip (split 44 forwarded)

  -- What the headers of a trusted peer name as the client.
  unfoldable pub proxied_ip : (Text → Option Text) → Option Text
  unfolding first_xff_ip forwarded_header_ip split
  proxied_ip headers = or_next (xff_of (headers (text "x-forwarded-for"))) (
      or_next (xff_of (headers (text "X-Forwarded-For"))) (
        or_next (forwarded_of (headers (text "forwarded")))
          (forwarded_of (headers (text "Forwarded")))))

  abbrev pub proxied_or : Text → (Text → Option Text) → Bool → Result ServerError Text
  proxied_or peer_host headers trusted =
      ok (if trusted then or_else (proxied_ip headers) peer_host else peer_host)

  unfoldable pub resolve_client_ip :
      Option Text → (Text → Option Text) → Bool → Text → Result ServerError Text
  unfolding peer_is_trusted proxied_ip
  resolve_client_ip none headers trust_proxy forwarded_allow_ips = ok (text "unknown")
  resolve_client_ip (some peer_host) headers trust_proxy forwarded_allow_ips =
      if not (nonempty peer_host)
      then ok (text "unknown")
      else if trust_proxy
      then (peer_is_trusted peer_host forwarded_allow_ips >>= proxied_or peer_host headers)
      else ok peer_host

  abbrev pub first_nonempty : Option Text → Option Text → Text
  first_nonempty a b = if nonempty (or_else a []) then or_else a [] else or_else b []

  -- The token that a request presents, where the buckets are per token; empty otherwise.
  unfoldable pub presented_token : (Text → Option Text) → Bool → Text
  unfolding lower strip
  presented_token headers rate_limit_per_token =
      let auth = first_nonempty (headers (text "authorization")) (headers (text "Authorization")) in
      if rate_limit_per_token && starts_with (text "bearer ") (lower auth)
      then strip (drop 7 auth)
      else []

  unfoldable pub rate_limit_client_key :
      Option Text → (Text → Option Text) → Settings → Option Text → Bool → Result ServerError Text
  unfolding presented_token resolve_client_ip
  rate_limit_client_key peer_host headers settings api_key rate_limit_per_token =
      let token = presented_token headers (rate_limit_per_token && nonempty (or_else api_key [])) in
      if nonempty token
      then ok (text "token:" ++ take 16 (lib.sha256_hexdigest token))
      else resolve_client_ip peer_host headers settings.trust_proxy_headers
          settings.forwarded_allow_ips
        >>= λ client_ip. ok (text "ip:" ++ client_ip)

  -- `_request_client_ip`
  unfoldable pub request_client_ip : Request → Settings → Result ServerError Text
  unfolding resolve_client_ip
  request_client_ip request settings =
      resolve_client_ip request.peer_host request.headers settings.trust_proxy_headers
        settings.forwarded_allow_ips

  abbrev pub first_key : List Text → Option Text
  first_key [] = none
  first_key (key ∷ keys) = some key

  -- `_rate_limit_key`
  unfoldable pub rate_limit_key : Request → Settings → Result ServerError Text
  unfolding rate_limit_client_key resolved_api_keys
  rate_limit_key request settings =
      let api_keys = resolved_api_keys settings in
      rate_limit_client_key request.peer_host request.headers settings (first_key api_keys)
        (ltb 1 (length api_keys))

  -- `_rate_limit_route_path`
  abbrev pub rate_limit_route_path : Request → Text
  rate_limit_route_path request =
      if nonempty (or_else request.path_format [])
      then or_else request.path_format []
      else request.path

  -- `_rate_limit_endpoint_key`
  unfoldable pub rate_limit_endpoint_key : Request → Settings → Result ServerError Text
  unfolding rate_limit_key
  rate_limit_endpoint_key request settings =
      rate_limit_key request settings >>= λ key. ok (key ++ 58 ∷ rate_limit_route_path request)
