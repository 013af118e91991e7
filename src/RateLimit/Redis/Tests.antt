-- ===== src/RateLimit/Redis/Tests.antt =====
-- core/security.py: `RedisRateLimiter` on a server that keeps its sorted sets in a dict.
use langgraph_agent_stack.Prelude.{
  if◌then◌else◌, ◌==◌, Bool-cases, or_else, length, filter, Text, text, text_beq_iff, decimal, ok,
  ℕ, ◌≡◌, refl, ap, inl, inr, true, false, List, [], ◌∷◌, arith, text_eq, nat_eq,
}
use langgraph_agent_stack.RateLimit.Refinement.{fresh}
use langgraph_agent_stack.RateLimit.{run}
use langgraph_agent_stack.RateLimit.Redis.Agreement.{timed, one_longer, redis_memory_agree}
use langgraph_agent_stack.RateLimit.Redis.{
  is_live, SortedSetServer, Call, script, redis_is_allowed, redis_remaining, redis_run, redis,
  in_memory, create_rate_limiter,
}
use langgraph_agent_stack.Prelude.Dict
use langgraph_agent_stack.Prelude.Dict.{Dict}

abbrev Sets : Type 0
Sets = Dict Text (Dict Text ℕ)

abbrev set_of : Text → Sets → Dict Text ℕ
set_of k s = or_else (Dict.get k s) []

-- Writing what `f` makes of a set.
abbrev change : (Dict Text ℕ → Dict Text ℕ) → Text → Sets → Sets
change f k s = Dict.put k (f (set_of k s)) s

set_of-change :
    (f : Dict Text ℕ → Dict Text ℕ) (k j : Text) (s : Sets)
    → set_of j (change f k s) ≡ (if k == j then f (set_of j s) else set_of j s)
set_of-change f k j s = elim (Bool-cases (k == j)) [
  | inl same ↦
      rw (Dict.get-put k j (f (set_of k s)) s, same)
        (ap (λ i. f (set_of i s)) ((text_beq_iff k j).0 same))
  | inr other ↦ rw (Dict.get-put k j (f (set_of k s)) s, other) refl
]

abbrev server : SortedSetServer
server = record {
  State = Sets;
  entries = set_of;
  zremrangebyscore = λ k window now s. change (filter (is_live window now)) k s;
  zcard = λ k s. length (set_of k s);
  zadd = λ k score member s. change (Dict.put member score) k s;
  expire = λ k s. s;
  lua_number = decimal;
  entries_removed = λ k j window now s. set_of-change (filter (is_live window now)) k j s;
  zcard_length = λ k s. refl;
  entries_added = λ k j member score s. set_of-change (Dict.put member score) k j s;
  entries_expire = λ k j s. refl;
}

abbrev call : Text → ℕ → ℕ → Call
call ip now random = record { ip = ip; now = now; random = random; reachable = true }

abbrev calls : List Call
calls =
    call (text "a") 1 7
    ∷ call (text "a") 2 7
    ∷ call (text "b") 3 7
    ∷ call (text "a") 5 7
    ∷ call (text "a") 12 7
    ∷ []

program : Unit {0}
unfolding redis_run redis_is_allowed redis_remaining script decimal Dict.get Dict.put
    create_rate_limiter
program = tt

-- a window of eleven ticks
calls_ran : (redis_run server (one_longer 2 10) calls []).0 ≡ true ∷ true ∷ true ∷ false ∷ true ∷ []
unfolding program
calls_ran = refl

-- two requests under one name leave one entry
same_name :
    (redis_run server (one_longer 1 10) (call (text "a") 1 7 ∷ []) []).1
    ≡ (redis_run server (one_longer 2 10) (call (text "a") 1 7 ∷ call (text "a") 1 7 ∷ []) []).1
unfolding program
same_name = refl

fails_open :
    (redis_is_allowed server
      (one_longer 0 10)
      (record (call (text "a") 1 7) { reachable = false })
      []).0
    ≡ true
unfolding program
fails_open = refl

one_left :
    (redis_remaining server
      (one_longer 2 10)
      (call (text "a") 3 7)
      (redis_run server (one_longer 2 10) (call (text "a") 1 7 ∷ []) []).1).0
    ≡ 1
unfolding program
one_left = refl

without_url : create_rate_limiter redis [] 2 10 ≡ ok (in_memory (fresh 2 10))
unfolding program
without_url = refl

redis_memory_agree_example :
    (redis_run server (one_longer 2 10) calls []).0 ≡ (run (timed calls) (fresh 2 10)).0
unfolding program
redis_memory_agree_example =
    redis_memory_agree server 2 10 calls [] (λ ip. refl) (omega arith)
      (refl, (refl, (refl, (refl, (refl, tt)))))
      (
        (λ e. refl, (λ e. refl, (λ e. refl, (λ e. refl, tt)))),
        (
          (λ e. refl, (λ e. refl, (λ e. refl, tt))),
          ((λ e. refl, (λ e. refl, tt)), ((λ e. refl, tt), (tt, tt))),
        ),
      )
