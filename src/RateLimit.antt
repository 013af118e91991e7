-- ===== src/RateLimit.antt =====
-- core/security.py: `RateLimiter`, the in-memory sliding-window limiter. Times are whole ticks of
-- the monotonic clock; a cut-off before the clock's start is 0, which no timestamp lies below. A
-- method runs under the lock, so it is one step.
mod Sorted
pub mod Window
mod Tracks
pub mod Refinement
pub mod Clients
pub mod Redis
mod Tests
use langgraph_agent_stack.Prelude.{
  ltb, leb, if◌then◌else◌, ◌==◌, or_else, length, Text, Result, guard, ok, ℕ, ◌+◌, ◌-◌, ◌%◌, Bool,
  true, false, List, [], ◌∷◌, ◌++◌, text_eq, nat_eq, ◌>>◌,
}
use langgraph_agent_stack.Prelude.Dict
use langgraph_agent_stack.Prelude.Dict.{Dict}
use langgraph_agent_stack.Prelude.Count.{count_if}
use langgraph_agent_stack.Prelude.Int.{ℤ, at_least, to_ℕ}

pub data LimiterError : Type 0 where
  bad_max_requests bad_window_seconds : LimiterError

-- A bucket holds the times of a client's requests, oldest first.
pub record RateLimiter : Type 0 where
  pub max_requests : ℕ
  pub window : ℕ
  pub buckets : Dict Text (List ℕ)
  pub call_count : ℕ

abbrev pub evict_interval : ℕ
evict_interval = 100

-- `__init__`
unfoldable pub init : ℤ → ℤ → Result LimiterError RateLimiter
init max_requests window = do
  guard (at_least 1 max_requests) bad_max_requests
  guard (at_least 1 window) bad_window_seconds
  ok (record {
    max_requests = to_ℕ max_requests;
    window = to_ℕ window;
    buckets = [];
    call_count = 0;
  })

-- `while bucket and bucket[0] < cutoff: bucket.popleft()`
unfoldable pub prune : ℕ → List ℕ → List ℕ
prune cutoff [] = []
prune cutoff (ts ∷ bucket) =
    let rest = prune cutoff bucket in if ltb ts cutoff then rest else ts ∷ bucket

-- `not dq or dq[-1] < cutoff`
unfoldable pub is_stale : ℕ → List ℕ → Bool
is_stale cutoff [] = true
is_stale cutoff (ts ∷ []) = ltb ts cutoff
is_stale cutoff (ts ∷ ts' ∷ bucket) = is_stale cutoff (ts' ∷ bucket)

-- `_evict_stale`
unfoldable pub evict_stale : ℕ → Dict Text (List ℕ) → Dict Text (List ℕ)
unfolding is_stale
evict_stale cutoff [] = []
evict_stale cutoff ((ip, bucket) ∷ buckets) =
    let rest = evict_stale cutoff buckets in
    if is_stale cutoff bucket then rest else (ip, bucket) ∷ rest

-- `self._buckets.get(ip, deque())`
unfoldable pub bucket_of : Text → RateLimiter → List ℕ
bucket_of ip s = or_else (Dict.get ip s.buckets) []

unfoldable pub is_allowed : Text → ℕ → RateLimiter → Bool × RateLimiter
unfolding prune evict_stale bucket_of
is_allowed ip now s =
    let cutoff = now - s.window in
    let bucket = prune cutoff (bucket_of ip s) in
    let added = Dict.put ip (bucket ++ now ∷ []) s.buckets in
    let count = s.call_count + 1 in
    if leb s.max_requests (length bucket)
    then (false, record s { buckets = Dict.put ip bucket s.buckets })
    else (
      true,
      record s {
        buckets = if count % evict_interval == 0 then evict_stale cutoff added else added;
        call_count = count;
      },
    )

-- The requests that are still free at the time `now`.
unfoldable pub remaining : Text → ℕ → RateLimiter → ℕ
unfolding bucket_of
remaining ip now s = s.max_requests - count_if (leb (now - s.window)) (bucket_of ip s)

-- Requests of clients with their times, in the order in which they take the lock.
unfoldable pub run : List (Text × ℕ) → RateLimiter → List Bool × RateLimiter
run [] s = ([], s)
run ((ip, now) ∷ calls) s =
    let (allowed, s') = is_allowed ip now s in
    let (replies, s'') = run calls s' in (allowed ∷ replies, s'')
