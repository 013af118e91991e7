-- ===== src/Sessions.antt =====
-- core/security.py: `InMemorySessionRegistry`, the sessions that have a run in flight. Its lock makes
-- each method one step.
pub mod Redis
use langgraph_agent_stack.Prelude.{
  if◌then◌else◌, ◌==◌, Text, text_beq_iff, ◌≡◌, Bool, true, false, ◌||◌, List, [], ◌∷◌, arith,
  text_eq, nat_eq,
}

pub record InMemorySessionRegistry : Type 0 where
  pub sessions : List Text

abbrev pub init : InMemorySessionRegistry
init = record { sessions = [] }

-- `session_id in self._sessions`
unfoldable pub is_held : Text → List Text → Bool
is_held session_id [] = false
is_held session_id (k ∷ sessions) = k == session_id || is_held session_id sessions

-- `discard`
unfoldable pub discard : Text → List Text → List Text
discard session_id [] = []
discard session_id (k ∷ sessions) =
    let rest = discard session_id sessions in if k == session_id then rest else k ∷ rest

unfoldable pub try_acquire : Text → InMemorySessionRegistry → Bool × InMemorySessionRegistry
unfolding is_held
try_acquire session_id s =
    if is_held session_id s.sessions
    then (false, s)
    else (true, record { sessions = session_id ∷ s.sessions })

unfoldable pub release : Text → InMemorySessionRegistry → InMemorySessionRegistry
unfolding discard
release session_id s = record { sessions = discard session_id s.sessions }

pub is_held-discard :
    (j k : Text) (sessions : List Text)
    → is_held j (discard k sessions) ≡ (if k == j then false else is_held j sessions)
unfolding is_held discard
is_held-discard j k [] = ground arith
is_held-discard j k (i ∷ sessions) =
    ground
      (arith, is_held-discard j k sessions, text_beq_iff k j, text_beq_iff i k, text_beq_iff i j)
