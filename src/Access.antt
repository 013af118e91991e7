-- ===== src/Access.antt =====
-- The way of a request to its route: api/middleware.py, and of core/security.py, core/config.py and
-- api/dependencies.py what its middlewares call. Python's ipaddress and hashlib are parameters.
pub mod Keys
pub mod Body
pub mod Client
pub mod Chain
pub mod Gate
pub mod Passing
pub mod Admitted
pub mod Refused
pub mod Trust
mod Tests
use langgraph_agent_stack.Prelude.{Text, ℕ, Bool, Option, List, text_eq, nat_eq}
use langgraph_agent_stack.Prelude.Dict.{Dict}

-- A request as the middlewares see it. `headers` is the mapping; `chunks` is what the stream of the
-- body yields; `new_id` the UUID that is drawn for it, `now` the monotonic clock, and `path_label`
-- the label of its metrics.
pub record Request : Type 0 where
  pub method : Text
  pub path : Text
  pub path_format : Option Text
  pub path_label : Text
  pub headers : Text → Option Text
  pub peer_host : Option Text
  pub chunks : List Text
  pub new_id : Text
  pub now : ℕ

pub record Response : Type 0 where
  pub status_code : ℕ
  pub content : Text
  pub headers : Dict Text Text

-- The settings that are read here; the limiter's clock has `ticks_per_second` ticks a second.
pub record Settings : Type 0 where
  pub api_key : Option Text
  pub api_keys : Option Text
  pub trust_proxy_headers : Bool
  pub forwarded_allow_ips : Text
  pub max_request_body_bytes : ℕ
  pub in_production : Bool
  pub ticks_per_second : ℕ

pub data ServerError : Type 0 where
  invalid_network : Text → ServerError
  non_ascii : ServerError
