-- ===== src/Sessions/Redis/Tests.antt =====
-- core/security.py: a server that keeps its locks in a dictionary, and the theorems at it.
use langgraph_agent_stack.Prelude.{
  if◌then◌else◌, ◌==◌, is_some, Text, text, ℕ, ◌≡◌, refl, Bool, true, false, none, some, [], ◌∷◌,
  text_eq, nat_eq,
}
use langgraph_agent_stack.Prelude.Dict
use langgraph_agent_stack.Prelude.Dict.{Dict}
use langgraph_agent_stack.Sessions.Redis
use langgraph_agent_stack.Sessions.Redis.{LockServer, RedisSessionRegistry}
use langgraph_agent_stack.Sessions.Redis.Locks.{held_lock-stays, fail_open-frees}

abbrev set_lock : Text → ℕ → Dict Text ℕ → Bool × Dict Text ℕ
set_lock k token s = if is_some (Dict.get k s) then (false, s) else (true, Dict.put k token s)

set_lock-free :
    (k j : Text) (token : ℕ) (s : Dict Text ℕ)
    → Dict.get k s ≡ none
    → ((set_lock k token s).0 ≡ true)
      × (Dict.get j (set_lock k token s).1 ≡ (if k == j then some token else Dict.get j s))
set_lock-free k j token s free = rw free (refl, Dict.get-put k j token s)

set_lock-taken :
    (k : Text) (token t : ℕ) (s : Dict Text ℕ)
    → Dict.get k s ≡ some t
    → set_lock k token s ≡ (false, s)
set_lock-taken k token t s held = rw held refl

abbrev server : LockServer
server = record {
  State = Dict Text ℕ;
  get = λ k s. Dict.get k s;
  set_nx = set_lock;
  delete = λ k s. Dict.remove k s;
  set_free = set_lock-free;
  set_taken = set_lock-taken;
  get_deleted = λ k j s. Dict.get-remove k j s;
}

abbrev locks : Dict Text ℕ
locks = (text "s1", 7) ∷ []

abbrev owner : RedisSessionRegistry
owner = record { tokens = (text "s1", 7) ∷ [] }

abbrev stranger : RedisSessionRegistry
stranger = record { tokens = [] }

held_lock-stays_example :
    (Redis.try_acquire server (text "s1") 8 true stranger locks ≡ (false, stranger, locks))
    × (Dict.get (text "s1") (Redis.release server (text "s1") true stranger locks).1 ≡ some 7)
unfolding Dict.get
held_lock-stays_example = held_lock-stays server (text "s1") 7 8 true stranger locks refl (λ e. cc)

fail_open-frees_example :
    (Redis.try_acquire server (text "s1") 8 false owner locks ≡ (true, owner, locks))
    × ((Redis.try_acquire server
          (text "s1")
          9
          true
          (Redis.release server (text "s1") true owner locks).0
          (Redis.release server (text "s1") true owner locks).1).0
        ≡ true)
unfolding Dict.get
fail_open-frees_example = fail_open-frees server (text "s1") 7 8 9 owner locks refl refl
