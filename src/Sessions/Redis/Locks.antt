-- ===== src/Sessions/Redis/Locks.antt =====
-- core/security.py: who may take and free the lock of a session.
use langgraph_agent_stack.Prelude.{
  nat_beq_iff, ◌==◌, Bool-cases, Option-cases, Text, ℕ, ◌≡◌, refl, sym, ap, ◌∙◌, ◌≢◌, inl, inr,
  Bool, true, false, none, some, text_eq, nat_eq,
}
use langgraph_agent_stack.Prelude.Dict
use langgraph_agent_stack.Prelude.Dict.{Dict}
use langgraph_agent_stack.Sessions.Redis
use langgraph_agent_stack.Sessions.Redis.{LockServer, RedisSessionRegistry, release_script}

module _ (r : LockServer) where
  script-other :
      (key : Text) (token t : ℕ) (s : r.State)
      → r.get key s ≡ some t
      → (t == token) ≡ false
      → release_script r key token s ≡ s
  unfolding release_script
  script-other key token t s held differs = rw (release_script, held, differs) refl

  script-own :
      (key : Text) (token : ℕ) (s : r.State)
      → r.get key s ≡ some token
      → release_script r key token s ≡ r.delete key s
  unfolding release_script
  script-own key token s held = rw (release_script, held, Dict.beq_refl token) refl

-- While a lock is held, no replica that reaches the server acquires its session, and a replica that
-- has another token for it, or none, does not free it.
pub held_lock-stays :
    (r : LockServer) (session_id : Text) (t token : ℕ) (reachable : Bool)
    (registry : RedisSessionRegistry) (s : r.State)
    → r.get session_id s ≡ some t
    → Dict.get session_id registry.tokens ≢ some t
    → (Redis.try_acquire r session_id token true registry s ≡ (false, registry, s))
      × (r.get session_id (Redis.release r session_id reachable registry s).1 ≡ some t)
unfolding Redis.try_acquire Redis.release
held_lock-stays r session_id t token reachable registry s held foreign = (
  rw (r.set_taken session_id token t s held) refl,
  elim (Option-cases (Dict.get session_id registry.tokens)) [
    | inl none_kept ↦ rw (Redis.release, none_kept) held
    | inr (own, kept) ↦ elim (Bool-cases reachable) [
      | inr down ↦ rw (Redis.release, kept, down) held
      | inl up ↦
          rw
            (
              Redis.release,
              kept,
              up,
              script-other r session_id own t s held
                  (differs own (λ e. foreign (kept ∙ ap some (sym e)))),
            )
            held
    ]
  ],
)
  where
    differs : (own : ℕ) → t ≢ own → (t == own) ≡ false
    differs own n = elim (Bool-cases (t == own)) [
      | inl hit ↦ absurd (n ((nat_beq_iff t own).0 hit))
      | inr miss ↦ miss
    ]

-- A run that is let through while the server is unreachable frees the lock of an earlier run of the
-- same replica when it ends: afterwards a third run of the session is let through, although the
-- first one has not ended.
pub fail_open-frees :
    (r : LockServer) (session_id : Text) (t token next : ℕ) (registry : RedisSessionRegistry)
    (s : r.State)
    → r.get session_id s ≡ some t
    → Dict.get session_id registry.tokens ≡ some t
    → (Redis.try_acquire r session_id token false registry s ≡ (true, registry, s))
      × ((Redis.try_acquire r session_id next true
            (Redis.release r session_id true registry s).0
            (Redis.release r session_id true registry s).1).0
          ≡ true)
unfolding Redis.try_acquire Redis.release
fail_open-frees r session_id t token next registry s held mine = (
  refl,
  rw (Redis.release, mine, script-own r session_id t s held)
      (rw
        (Redis.try_acquire, (r.set_free session_id session_id next (r.delete session_id s) freed).0)
        refl),
)
  where
    freed : r.get session_id (r.delete session_id s) ≡ none
    freed = rw (r.get_deleted session_id session_id s, Dict.beq_refl session_id) refl
