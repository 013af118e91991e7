-- ===== src/RateLimit/Redis.antt =====
-- core/security.py: `RedisRateLimiter`, the sliding window that all replicas share, and
-- `create_rate_limiter`. The Redis server and the way Lua prints a number are parameters; what the
-- code relies on are the laws of `SortedSetServer`, for keys that have not expired. A script is one
-- step. Times are whole ticks.
pub mod Agreement
mod Tests
use langgraph_agent_stack.Prelude.{
  ltb, leb, if◌then◌else◌, ◌==◌, length, filter, Text, text, nonempty, decimal, Result, ◌>>=◌, ok,
  ℕ, ◌+◌, ◌-◌, ◌≡◌, Bool, true, not, List, [], ◌∷◌, ◌++◌, text_eq, nat_eq,
}
use langgraph_agent_stack.Prelude.Dict
use langgraph_agent_stack.Prelude.Dict.{Dict}
use langgraph_agent_stack.Prelude.Int.{ℤ, pos, negsuc, at_least}
use langgraph_agent_stack.RateLimit.{LimiterError, RateLimiter, init}

-- A score that lies above `now - window`, which may be below zero.
abbrev pub is_live : ℕ → ℕ → Text × ℕ → Bool
is_live window now entry = ltb now (entry.1 + window)

-- A sorted set gives each member one score. `zremrangebyscore key window now` removes the scores up
-- to `now - window`.
pub record SortedSetServer : Type 1 where
  pub State : Type 0
  pub entries : Text → State → Dict Text ℕ
  pub zremrangebyscore : Text → ℕ → ℕ → State → State
  pub zcard : Text → State → ℕ
  pub zadd : Text → ℕ → Text → State → State
  pub expire : Text → State → State
  pub lua_number : ℕ → Text
  pub entries_removed :
      (k j : Text) (window now : ℕ) (s : State)
      → entries j (zremrangebyscore k window now s)
        ≡ (if k == j then filter (is_live window now) (entries j s) else entries j s)
  pub zcard_length : (k : Text) (s : State) → zcard k s ≡ length (entries k s)
  pub entries_added :
      (k j member : Text) (score : ℕ) (s : State)
      → entries j (zadd k score member s)
        ≡ (if k == j then Dict.put member score (entries j s) else entries j s)
  pub entries_expire : (k j : Text) (s : State) → entries j (expire k s) ≡ entries j s

pub record RedisRateLimiter : Type 0 where
  pub max_requests : ℕ
  pub window : ℕ

abbrev pub key_of : Text → Text
key_of ip = text "ratelimit:" ++ ip

-- A request: its client, the time, what `math.random` gives, and whether the server is reached.
pub record Call : Type 0 where
  pub ip : Text
  pub now : ℕ
  pub random : ℕ
  pub reachable : Bool

module _ (r : SortedSetServer) (limiter : RedisRateLimiter) where
  -- `now .. '-' .. math.random(1000000)`
  abbrev pub member_of : Call → Text
  member_of call = r.lua_number call.now ++ 45 ∷ decimal call.random

  -- `_LUA_SCRIPT`
  unfoldable pub script : Text → Call → r.State → ℤ × r.State
  unfolding decimal
  script key call s =
      let pruned = r.zremrangebyscore key limiter.window call.now s in
      let count = r.zcard key pruned in
      if leb limiter.max_requests count then (negsuc 0, pruned) else (
        pos (limiter.max_requests - count - 1),
        r.expire key (r.zadd key call.now (member_of call) pruned),
      )

  -- `is_allowed`, which lets a request through when the server is not reached.
  unfoldable pub redis_is_allowed : Call → r.State → Bool × r.State
  unfolding script
  redis_is_allowed call s =
      if not call.reachable
      then (true, s)
      else let (result, next) = script (key_of call.ip) call s in (at_least 0 result, next)

  -- `remaining`
  unfoldable pub redis_remaining : Call → r.State → ℕ × r.State
  redis_remaining call s =
      if not call.reachable
      then (limiter.max_requests, s)
      else let pruned = r.zremrangebyscore (key_of call.ip) limiter.window call.now s in
        (limiter.max_requests - r.zcard (key_of call.ip) pruned, pruned)

  -- The requests of all replicas, in the order in which the server runs their scripts.
  unfoldable pub redis_run : List Call → r.State → List Bool × r.State
  redis_run [] s = ([], s)
  redis_run (call ∷ calls) s =
      let (allowed, s') = redis_is_allowed call s in
      let (replies, s'') = redis_run calls s' in (allowed ∷ replies, s'')

pub data Backend : Type 0 where
  memory redis : Backend

pub data Chosen : Type 0 where
  in_memory : RateLimiter → Chosen
  shared : RedisRateLimiter → Chosen

-- `create_rate_limiter`: without a URL the limiter of one process takes the place of the shared one.
unfoldable pub create_rate_limiter : Backend → Text → ℕ → ℕ → Result LimiterError Chosen
unfolding init
create_rate_limiter memory redis_url max_requests window =
    (init (pos max_requests) (pos window) >>= (λ s. ok (in_memory s)))
create_rate_limiter redis redis_url max_requests window =
    if not (nonempty redis_url)
    then (init (pos max_requests) (pos window) >>= (λ s. ok (in_memory s)))
    else ok (shared (record { max_requests = max_requests; window = window }))
