-- ===== src/Agents/Cited.antt =====
-- agents/researcher.py: what `run_structured` returns.
use langgraph_agent_stack.Prelude.{
  Bool-cases, length, take, Text, is_blank, Result, Result-cases, ok_injective, ok, err, ℕ, zero,
  suc, ◌≤◌, ◌≡◌, refl, inl, inr, Option, none, some, arith,
}
use mathlib.Core.Path.{subst}
use langgraph_agent_stack.Prelude.Int.{ℤ, pos, negsuc}
use langgraph_agent_stack.Validation
use langgraph_agent_stack.Validation.{InputValidator}
use langgraph_agent_stack.Agents.Sources.{
  IsSourced, research-IsSourced, validate-IsSourced, IsCited, HasCited,
}
use langgraph_agent_stack.Agents.Ends.{summary_of-NoLimit}
use langgraph_agent_stack.Agents.Rounds.{Post, bind-Post, asked-NoLimit, with_step-Post}
use langgraph_agent_stack.Agents.Graph.{
  stepped, asked, node_research, node_validate, clamp, summary_of, summarised, write_summary,
  summary_step, node_summarize, Node, research, validate, summarize, route_after_validate, run_node,
  next_node, run_graph, initial_state, Limits, execute, result_or_error, run_structured,
}
use langgraph_agent_stack.Agents.Research.{
  summary, Services, ResearchResult, ResearchState, RunError,
}

abbrev CitedState : Services → ResearchState → Type 0
CitedState services s = HasCited services s.research_result

-- What holds of the state that a run returns.
abbrev Holds : (ResearchState → Type 0) → Result RunError ResearchState → Type 0
Holds Q (err e) = Unit
Holds Q (ok s) = Q s

clamp-le : (one : ℕ) (z : ℤ) → clamp one z ≤ one
clamp-le one (pos n) = omega arith
clamp-le one (negsuc n) = omega arith

module _ (services : Services) (max_iter max_steps : ℕ) where
  summarize-CitedState :
      (s : ResearchState)
      → IsSourced s
      → Post (CitedState services) (node_summarize services max_steps s)
  unfolding node_summarize
  summarize-CitedState s h =
      with_step-Post (CitedState services) max_steps s (summary_step services)
        (λ agent counted within.
          bind-Post (CitedState services)
            (asked services (stepped s agent)
              (summary s.query (length s.findings) (take 10 s.findings)))
            (write_summary services (stepped s agent))
            (asked-NoLimit services (stepped s agent)
              (summary s.query (length s.findings) (take 10 s.findings)))
            (λ answer.
              bind-Post (CitedState services)
                (summary_of services answer (services.json_loads answer))
                (λ written. ok (summarised services (stepped s agent) written))
                (summary_of-NoLimit services answer (services.json_loads answer))
                (λ written. (h.0, h.1, clamp-le services.one written.1))))

  run-CitedState :
      (limit : ℕ) (node : Node) (s : ResearchState)
      → IsSourced s
      → Holds (CitedState services) (run_graph services max_iter max_steps limit node s)
  unfolding run_graph run_node next_node
  run-CitedState zero node s h = tt
  run-CitedState (suc limit) research s h =
      let done = research-IsSourced services max_steps s h in
      elim (Result-cases (node_research services max_steps s)) [
        | inr (e, failed) ↦ rw (Holds, failed) tt
        | inl (s', went) ↦ rw (Holds, went) (run-CitedState limit validate s' (rw went at done))
      ]
  run-CitedState (suc limit) validate s h =
      let done = validate-IsSourced services max_steps s h in
      elim (Result-cases (node_validate services max_steps s)) [
        | inr (e, failed) ↦ rw (Holds, failed) tt
        | inl (s', went) ↦
            rw (Holds, went)
              (run-CitedState limit (route_after_validate max_iter s') s' (rw went at done))
      ]
  run-CitedState (suc limit) summarize s h =
      let done = summarize-CitedState s h in
      elim (Result-cases (node_summarize services max_steps s)) [
        | inr (e, failed) ↦ rw (Holds, failed) tt
        | inl (s', went) ↦ rw (Holds, went) (rw went at done)
      ]

-- Whatever the model, the search and the connector answer, a research result names no source twice,
-- gives no two references the same id, and has a confidence between 0.0 and 1.0.
pub run_structured-IsCited :
    (services : Services) (limits : Limits) (validator : InputValidator) (query : Text)
    (result : ResearchResult)
    → run_structured services limits validator query ≡ ok result
    → IsCited services result
unfolding run_structured execute
run_structured-IsCited services limits validator query result h =
    elim (Bool-cases (is_blank query)) [
      | inl blank ↦ absurd (cc (rw blank at h))
      | inr asked ↦ elim (Result-cases (Validation.validate validator query)) [
        | inr (e, refused) ↦ absurd (cc (rw (asked, refused) at h))
        | inl (clean, passed) ↦
            let cited =
              run-CitedState services limits.max_research_iterations limits.max_step_count
                limits.recursion_limit research (initial_state clean) (tt, tt, refl) in
            elim (Result-cases (
              run_graph services limits.max_research_iterations limits.max_step_count
                limits.recursion_limit research (initial_state clean))) [
                  | inr (e, failed) ↦ absurd (cc (rw (asked, passed, failed) at h))
                  | inl (s, went) ↦
                      by_result s.research_result (rw went at cited) (rw (asked, passed, went) at h)
                ]
      ]
    ]
  where
    by_result :
        (found : Option ResearchResult)
        → HasCited services found
        → result_or_error found ≡ ok result
        → IsCited services result
    by_result none cited e = absurd (cc)
    by_result (some r) cited e = subst (IsCited services) (ok_injective r result e) cited
