-- ===== src/Agents/Ends.antt =====
-- agents/researcher.py: the last node, and the whole run.
use langgraph_agent_stack.Prelude.{
  is_some, Text, text, Result, ℕ, ◌+◌, ◌*◌, ◌≤◌, max, ◌≡◌, refl, true, Option, none, some,
}
use langgraph_agent_stack.Agents.Rounds.{steps_of, NoLimit}
use langgraph_agent_stack.Agents.Graph.{confidence_of, summary_or_raw, summary_of, Node, run_graph}
use langgraph_agent_stack.Agents.Research.{Services, ResearchState, RunError}
use langgraph_agent_stack.Prelude.Json.{
  Json, null, boolean, number, string, array, object, field_of,
}
use langgraph_agent_stack.Prelude.Int.{ℤ}

-- What the last node does.
abbrev Finished : ℕ → ResearchState → ResearchState → Type 0
Finished max_steps s s' =
    (s'.iterations ≡ s.iterations)
    × (steps_of s' ≡ steps_of s + 1)
    × (steps_of s' ≤ max_steps)
    × (is_some s'.research_result ≡ true)

summary_or_raw-NoLimit :
    (services : Services) (raw : Text) (v : Option Json) (confidence : Option ℤ)
    → NoLimit (summary_or_raw services raw v confidence)
summary_or_raw-NoLimit services raw v none = tt
summary_or_raw-NoLimit services raw none (some z) = tt
summary_or_raw-NoLimit services raw (some (string s)) (some z) = tt
summary_or_raw-NoLimit services raw (some null) (some z) = refl
summary_or_raw-NoLimit services raw (some (boolean b)) (some z) = refl
summary_or_raw-NoLimit services raw (some (number n)) (some z) = refl
summary_or_raw-NoLimit services raw (some (array values)) (some z) = refl
summary_or_raw-NoLimit services raw (some (object entries)) (some z) = refl

pub summary_of-NoLimit :
    (services : Services) (raw : Text) (v : Option Json) → NoLimit (summary_of services raw v)
unfolding summary_of
summary_of-NoLimit services raw none = tt
summary_of-NoLimit services raw (some null) = tt
summary_of-NoLimit services raw (some (boolean b)) = tt
summary_of-NoLimit services raw (some (number n)) = tt
summary_of-NoLimit services raw (some (string s)) = tt
summary_of-NoLimit services raw (some (array values)) = tt
summary_of-NoLimit services raw (some (object entries)) =
    summary_or_raw-NoLimit services raw (field_of (text "summary") entries)
      (confidence_of services (field_of (text "confidence") entries))

module _ (services : Services) (max_iter max_steps : ℕ) where
  -- A finished run made at least one round and no more than the settings allow, within the step
  -- budget, and has a result.
  abbrev pub WithinLimits : ResearchState → Type 0
  WithinLimits s' =
      (1 ≤ s'.iterations)
      × (s'.iterations ≤ max 1 max_iter)
      × (steps_of s' ≡ 2 * s'.iterations + 1)
      × (steps_of s' ≤ max_steps)
      × (is_some s'.research_result ≡ true)

  abbrev run : ℕ → Node → ResearchState → Result RunError ResearchState
  run limit node s = run_graph services max_iter max_steps limit node s
