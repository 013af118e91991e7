-- ===== src/Agents/Rounds.antt =====
-- agents/researcher.py: the research graph comes to its end within the bounds of the settings.
use langgraph_agent_stack.Prelude.{
  ltb, Bool-cases, or_else, take, Text, text, nonempty, Result, ◌>>=◌, Result-cases, ok, err, ℕ,
  ◌+◌, ◌≤◌, ◌≡◌, refl, inl, inr, Bool, true, false, Option, none, some, List, [], ◌∷◌, arith,
}
use langgraph_agent_stack.Retry.Steps.{AgentState, increment_step}
use langgraph_agent_stack.Agents.Graph.{
  stepped, with_step, asked, found_state, research_answered, research_step, node_research,
  verdict_of, can_slice, judged, assessed, assessment_of, assess, node_validate,
}
use langgraph_agent_stack.Agents.Research.{
  Prompt, expansion, Services, ResearchState, RunError, timed_out, model_failed, tool_failed,
  invalid_result, recursion_limit, sub_queries_of, Found, searched_one, search_all,
}
use langgraph_agent_stack.Prelude.Json.{Json, string}

abbrev pub steps_of : ResearchState → ℕ
steps_of s = or_else s.agent.step_count 0

abbrev pub is_limit : RunError → Bool
is_limit recursion_limit = true
is_limit (timed_out e) = false
is_limit (model_failed e) = false
is_limit tool_failed = false
is_limit invalid_result = false

-- What holds of the state that a node returns; no node gives up for LangGraph.
abbrev pub Post : (ResearchState → Type 0) → Result RunError ResearchState → Type 0
Post Q (err e) = is_limit e ≡ false
Post Q (ok s') = Q s'

-- What a node does to the counters, for a node that adds `rounds` iterations.
abbrev pub Counted : ℕ → ℕ → ResearchState → ResearchState → Type 0
Counted max_steps rounds s s' =
    (s'.iterations ≡ s.iterations + rounds)
    × (steps_of s' ≡ steps_of s + 1)
    × (steps_of s' ≤ max_steps)

abbrev pub NoLimit : {A : Type 0} → Result RunError A → Type 0
NoLimit (ok a) = Unit
NoLimit (err e) = is_limit e ≡ false

pub bind-Post :
    {A : Type 0} (Q : ResearchState → Type 0) (r : Result RunError A)
    (f : A → Result RunError ResearchState)
    → NoLimit r
    → ((a : A) → Post Q (f a))
    → Post Q (r >>= f)
bind-Post Q (ok a) f h g = g a
bind-Post Q (err e) f h g = h

pub asked-NoLimit :
    (services : Services) (s : ResearchState) (prompt : Prompt) → NoLimit (asked services s prompt)
asked-NoLimit services s prompt = elim (Result-cases (services.ask (steps_of s) prompt)) [
  | inl (answer, e) ↦ rw (NoLimit, e) tt
  | inr (bad, e) ↦ rw (NoLimit, e) refl
]

searched_one-NoLimit :
    (answer : Option Text) (rest : Result RunError Found)
    → NoLimit rest
    → NoLimit (searched_one answer rest)
searched_one-NoLimit none rest h = refl
searched_one-NoLimit (some answer) (ok found) h = tt
searched_one-NoLimit (some answer) (err e) h = h

pub search_all-NoLimit :
    (web_search : Option (Text → Option Text)) (queries : List Text)
    → NoLimit (search_all web_search queries)
unfolding search_all
search_all-NoLimit none queries = tt
search_all-NoLimit (some web_search) [] = tt
search_all-NoLimit (some web_search) (query ∷ queries) =
    searched_one-NoLimit (web_search query) (search_all (some web_search) queries)
      (search_all-NoLimit (some web_search) queries)

pub with_step-Post :
    (Q : ResearchState → Type 0) (max_steps : ℕ) (s : ResearchState)
    (body : ResearchState → Result RunError ResearchState)
    → ((agent : AgentState)
        → or_else agent.step_count 0 ≡ steps_of s + 1
        → steps_of s + 1 ≤ max_steps
        → Post Q (body (stepped s agent)))
    → Post Q (with_step max_steps s body)
unfolding increment_step
with_step-Post Q max_steps s body h = elim (Bool-cases (ltb max_steps (steps_of s + 1))) [
  | inl over ↦ rw (Post, over) refl
  | inr within ↦
      rw (Post, within)
        (h (record s.agent { step_count = some (steps_of s + 1) }) refl (ground arith))
]

found-Counted :
    (services : Services) (max_steps : ℕ) (s : ResearchState) (agent : AgentState) (answer : Text)
    → or_else agent.step_count 0 ≡ steps_of s + 1
    → steps_of s + 1 ≤ max_steps
    → Post (Counted max_steps 1 s) (research_answered services (stepped s agent) answer)
found-Counted services max_steps s agent answer counted within =
    let queries = take 3 (sub_queries_of services.py_str s.query (services.json_loads answer)) in
    bind-Post (Counted max_steps 1 s) (search_all services.web_search queries)
      (found_state services (stepped s agent)) (search_all-NoLimit services.web_search queries)
      (λ searched. (refl, counted, omega (arith, counted, within)))

pub research-Counted :
    (services : Services) (max_steps : ℕ) (s : ResearchState)
    → Post (Counted max_steps 1 s) (node_research services max_steps s)
unfolding node_research
research-Counted services max_steps s =
    with_step-Post (Counted max_steps 1 s) max_steps s (research_step services)
      (λ agent counted within.
        bind-Post (Counted max_steps 1 s) (asked services (stepped s agent) (expansion s.query))
          (research_answered services (stepped s agent))
          (asked-NoLimit services (stepped s agent) (expansion s.query))
          (λ answer. found-Counted services max_steps s agent answer counted within))

judged-Counted :
    (max_steps : ℕ) (s t : ResearchState) (verdict : Bool × Json)
    → t.iterations ≡ s.iterations
    → steps_of t ≡ steps_of s + 1
    → steps_of s + 1 ≤ max_steps
    → Post (Counted max_steps 0 s) (judged t verdict)
judged-Counted max_steps s t (sufficient, reason) same counted within =
    elim (Bool-cases (can_slice reason)) [
      | inl fits ↦ rw (Post, fits) (omega (arith, same), counted, omega (arith, counted, within))
      | inr bad ↦ rw (Post, bad) refl
    ]

pub validate-Counted :
    (services : Services) (max_steps : ℕ) (s : ResearchState)
    → Post (Counted max_steps 0 s) (node_validate services max_steps s)
unfolding node_validate
validate-Counted services max_steps s =
    with_step-Post (Counted max_steps 0 s) max_steps s (assess services)
      (λ agent counted within. assess-Counted agent counted within)
  where
    assess-Counted :
        (agent : AgentState)
        → or_else agent.step_count 0 ≡ steps_of s + 1
        → steps_of s + 1 ≤ max_steps
        → Post (Counted max_steps 0 s) (assess services (stepped s agent))
    assess-Counted agent counted within = elim (Bool-cases (nonempty s.findings)) [
      | inr none_yet ↦
          rw (Post, none_yet)
            (judged-Counted max_steps s (stepped s agent)
              (false, string (text "No findings retrieved.")) refl counted within)
      | inl some_found ↦
          rw (Post, some_found)
            (bind-Post (Counted max_steps 0 s)
              (asked services (stepped s agent) (assessment_of (stepped s agent)))
              (assessed services (stepped s agent))
              (asked-NoLimit services (stepped s agent) (assessment_of (stepped s agent)))
              (λ answer.
                judged-Counted max_steps s (stepped s agent)
                  (verdict_of (services.json_loads answer)) refl counted within))
    ]
