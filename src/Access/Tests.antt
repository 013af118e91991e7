-- ===== src/Access/Tests.antt =====
-- api/middleware.py and core/security.py: addresses as texts of digits and dots, and the theorems at
-- concrete requests.
use langgraph_agent_stack.Prelude.{
  if◌then◌else◌, ◌==◌, all, Text, text, strip, nonempty, ok, err, ◌≡◌, refl, Bool, true, false,
  ◌&&◌, ◌||◌, Option, none, some, [], ◌∷◌, ◌++◌, arith, text_eq, nat_eq,
}
use langgraph_agent_stack.RateLimit.{RateLimiter, bucket_of, is_allowed}
use langgraph_agent_stack.Access.{Request, Response, Settings, non_ascii}
use langgraph_agent_stack.Access.Body.{is_digit, ensure_within_limit}
use langgraph_agent_stack.Access.Client.{
  Library, network_entry, allow_networks, peer_is_trusted, first_xff_ip, proxied_ip,
  resolve_client_ip, presented_token, rate_limit_client_key, request_client_ip, rate_limit_key,
  rate_limit_endpoint_key,
}
use langgraph_agent_stack.Access.Gate.{authenticated}
use langgraph_agent_stack.Access.Keys.{
  resolved_api_keys, verify_bearer_token, bearer_token, AreKeys, resolved_api_keys-accepted,
}
use langgraph_agent_stack.Access.Chain.{Process, App, detail, rate_limit_middleware, handle}
use langgraph_agent_stack.Access.Refused.{IsRefusal, handle-refused}
use langgraph_agent_stack.Access.Admitted.{HasHeaders, handle-admitted}
use langgraph_agent_stack.Access.Trust.{
  headers_count, rate_limit_endpoint_key-untrusted, rate_limit_middleware-fresh_token,
}
use langgraph_agent_stack.Access.Passing.{handle-unauthenticated}
use langgraph_agent_stack.Prelude.Dict
use langgraph_agent_stack.Prelude.Dict.{Dict}

abbrev is_dotted : Text → Bool
is_dotted s = nonempty s && all (λ c. is_digit c || c == 46) s

abbrev only_if : Bool → Text → Option Text
only_if valid s = if valid then some s else none

abbrev lib : Library
lib = record {
  Address = Text;
  Network = Text;
  ip_address = λ s. only_if (is_dotted s) s;
  ip_network = λ s. only_if (nonempty s) s;
  in_network = λ address network. (address ++ text "/32") == network;
  sha256_hexdigest = λ s. s;
  delivered = λ sent passed. passed;
}

abbrev settings : Settings
settings = record {
  api_key = some (text " k1 ");
  api_keys = none;
  trust_proxy_headers = true;
  forwarded_allow_ips = text "10.0.0.1";
  max_request_body_bytes = 5;
  in_production = true;
  ticks_per_second = 1;
}

abbrev tenants : Settings
tenants = record settings { api_keys = some (text "k2, k1,,k3") }

abbrev headers_of : Dict Text Text → Text → Option Text
headers_of d k = Dict.get k d

abbrev request : Text → Dict Text Text → Request
request host headers = record {
  method = text "POST";
  path = text "/run";
  path_format = none;
  path_label = text "/run";
  headers = headers_of headers;
  peer_host = some host;
  chunks = text "ab" ∷ text "cd" ∷ [];
  new_id = text "id";
  now = 100;
}

abbrev signed : Request
signed = request (text "10.0.0.1") (
    (text "Authorization", text "Bearer k1 ")
    ∷ (text "x-forwarded-for", text "192.0.2.7, 10.0.0.9")
    ∷ [])

abbrev bounded_signed : Request
bounded_signed = record signed { chunks = text "abcd" ∷ [] }

abbrev guess : Request
guess =
    request (text "192.0.2.7")
      ((text "authorization", text "Bearer nope") ∷ (text "Authorization", text "Bearer nope") ∷ [])

abbrev declared_length : Request
declared_length = request (text "192.0.2.7") ((text "content-length", text " 5") ∷ [])

abbrev limiter : RateLimiter
limiter = record {
  max_requests = 1;
  window = 60;
  buckets = (text "ip:192.0.2.7:/other", 99 ∷ []) ∷ [];
  call_count = 0;
}

abbrev process : Process
process = record {
  shutting_down = false;
  rate_limiter = some limiter;
  requests_rejected_during_shutdown = 0;
  http_requests = [];
}

abbrev route : App
route request s = (ok (detail 200 (text "done") ((text "server", text "x") ∷ [])), s)

abbrev broken_route : App
broken_route request s = (ok (detail 500 [] []), s)

resolved : resolved_api_keys tenants ≡ text "k1" ∷ text "k2" ∷ text "k3" ∷ []
unfolding resolved_api_keys
resolved = refl

client_ip : request_client_ip lib bounded_signed settings ≡ ok (text "192.0.2.7")
unfolding request_client_ip resolve_client_ip peer_is_trusted allow_networks network_entry
    proxied_ip first_xff_ip Dict.get
client_ip = refl

key_signed : rate_limit_endpoint_key lib bounded_signed settings ≡ ok (text "ip:192.0.2.7:/run")
unfolding rate_limit_endpoint_key rate_limit_key rate_limit_client_key presented_token
    resolve_client_ip peer_is_trusted allow_networks network_entry proxied_ip first_xff_ip Dict.get
    resolved_api_keys
key_signed = refl

bounded_fits : ensure_within_limit signed 5 ≡ ok bounded_signed
unfolding ensure_within_limit Dict.get
bounded_fits = refl

guess_refused : authenticated settings guess ≡ false
unfolding bearer_token verify_bearer_token resolved_api_keys Dict.get
guess_refused = refl

signed_accepted : authenticated settings bounded_signed ≡ true
unfolding bearer_token verify_bearer_token resolved_api_keys Dict.get
signed_accepted = refl

admitted_by_limiter : (is_allowed (text "ip:192.0.2.7:/run") 100 limiter).0 ≡ true
unfolding is_allowed bucket_of Dict.get
admitted_by_limiter = refl

untrusted : headers_count lib (some (text "192.0.2.7")) settings ≡ ok false
unfolding peer_is_trusted allow_networks network_entry
untrusted = refl

resolved_api_keys-accepted_example :
    AreKeys [] (resolved_api_keys tenants)
    × (verify_bearer_token (text "k2") (resolved_api_keys tenants) ≡ ok true)
unfolding resolved_api_keys strip
resolved_api_keys-accepted_example =
    resolved_api_keys-accepted tenants (text " k1 ") (text "k2") (text " k1" ∷ [] ∷ text "k3" ∷ [])
      (text "k2") refl refl (refl, (refl, (refl, (refl, tt)))) refl refl

non_ascii_token : verify_bearer_token (0xe9 ∷ []) (resolved_api_keys tenants) ≡ err non_ascii
unfolding verify_bearer_token resolved_api_keys
non_ascii_token = refl

handle-unauthenticated_example :
    handle lib settings route guess process ≡ handle lib settings broken_route guess process
handle-unauthenticated_example =
    handle-unauthenticated lib settings route broken_route guess process guess_refused

guess_ip : request_client_ip lib guess settings ≡ ok (text "192.0.2.7")
unfolding request_client_ip resolve_client_ip peer_is_trusted allow_networks network_entry Dict.get
guess_ip = refl

handle-refused_example : IsRefusal settings guess (handle lib settings route guess process)
unfolding resolved_api_keys
handle-refused_example =
    handle-refused lib settings route guess process (text "192.0.2.7") (text "ip:192.0.2.7:/run")
      guess_ip (rate_limit_endpoint_key-untrusted lib settings guess untrusted (omega arith))
      guess_refused

handle-admitted_example :
    (answer : Response) × (handle lib settings route signed process ≡ (
      ok answer,
      record process {
        rate_limiter = some (is_allowed (text "ip:192.0.2.7:/run") 100 limiter).1;
        http_requests = (text "POST", text "/run", 200) ∷ [];
      },
    ))
    × (answer.status_code ≡ 200)
    × (answer.content ≡ text "done")
    × HasHeaders settings bounded_signed answer.headers
handle-admitted_example =
    handle-admitted lib settings route signed bounded_signed process
      (record process { rate_limiter = some (is_allowed (text "ip:192.0.2.7:/run") 100 limiter).1 })
      (text "192.0.2.7") (text "ip:192.0.2.7:/run")
      (detail 200 (text "done") ((text "server", text "x") ∷ [])) bounded_fits refl client_ip refl
      key_signed admitted_by_limiter signed_accepted refl

rate_limit_endpoint_key-untrusted_example :
    rate_limit_endpoint_key lib guess settings ≡ ok (text "ip:192.0.2.7:/run")
unfolding resolved_api_keys
rate_limit_endpoint_key-untrusted_example =
    rate_limit_endpoint_key-untrusted lib settings guess untrusted (omega arith)

rate_limit_middleware-fresh_token_example :
    rate_limit_middleware lib tenants route guess process ≡ (
      ok (detail 200 (text "done") ((text "server", text "x") ∷ [])),
      record process { rate_limiter = some (is_allowed (text "token:nope:/run") 100 limiter).1 },
    )
unfolding presented_token Dict.get resolved_api_keys
rate_limit_middleware-fresh_token_example =
    rate_limit_middleware-fresh_token lib tenants route guess process limiter refl refl refl refl
      refl
