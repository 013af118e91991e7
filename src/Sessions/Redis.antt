-- ===== src/Sessions/Redis.antt =====
-- core/security.py: `RedisSessionRegistry`, the sessions that have a run in flight on any replica.
-- The Redis server is a parameter: what the code relies on are the laws of `LockServer`, at one
-- moment, before any lock expires. A token is a number; a call that finds the server unreachable
-- raises.
pub mod Locks
mod Tests
use langgraph_agent_stack.Prelude.{
  if◌then◌else◌, ◌==◌, Text, ℕ, ◌≡◌, Bool, true, false, not, Option, none, some, text_eq, nat_eq,
}
use langgraph_agent_stack.Prelude.Dict
use langgraph_agent_stack.Prelude.Dict.{Dict}

pub record LockServer : Type 1 where
  pub State : Type 0
  pub get : Text → State → Option ℕ
  pub set_nx : Text → ℕ → State → Bool × State
  pub delete : Text → State → State
  pub set_free :
      (k j : Text) (token : ℕ) (s : State)
      → get k s ≡ none
      → ((set_nx k token s).0 ≡ true)
        × (get j (set_nx k token s).1 ≡ (if k == j then some token else get j s))
  pub set_taken :
      (k : Text) (token t : ℕ) (s : State) → get k s ≡ some t → set_nx k token s ≡ (false, s)
  pub get_deleted :
      (k j : Text) (s : State) → get j (delete k s) ≡ (if k == j then none else get j s)

-- `self._tokens`, of one replica.
pub record RedisSessionRegistry : Type 0 where
  pub tokens : Dict Text ℕ

module _ (r : LockServer) where
  -- `try_acquire` with its new token: `SET key token NX EX ttl`, and what follows; it fails open.
  unfoldable pub try_acquire :
      Text → ℕ → Bool → RedisSessionRegistry → r.State → Bool × RedisSessionRegistry × r.State
  try_acquire session_id token reachable registry s =
      if not reachable
      then (true, registry, s)
      else let (acquired, next) = r.set_nx session_id token s in
        if not acquired
        then (false, registry, next)
        else (true, record { tokens = Dict.put session_id token registry.tokens }, next)

  -- `_RELEASE_SCRIPT`
  unfoldable pub release_script : Text → ℕ → r.State → r.State
  release_script key token s = elim (r.get key s) [
    | none ↦ s
    | some t ↦ if t == token then r.delete key s else s
  ]

  unfoldable pub release :
      Text → Bool → RedisSessionRegistry → r.State → RedisSessionRegistry × r.State
  unfolding release_script
  release session_id reachable registry s = elim (Dict.get session_id registry.tokens) [
    | none ↦ (registry, s)
    | some token ↦ (
      record { tokens = Dict.remove session_id registry.tokens },
      if reachable then release_script session_id token s else s,
    )
  ]
