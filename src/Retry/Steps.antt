-- ===== src/Retry/Steps.antt =====
-- agents/base_agent.py: `_increment_step`, the step budget that each node of a graph draws on.
use langgraph_agent_stack.Prelude.{
  ltb, leb, if◌then◌else◌, Bool-cases, or_else, Text, Result, ◌>>=◌, is_ok, ok, err, ℕ, zero, suc,
  ◌+◌, ◌≤◌, ◌≡◌, refl, ap, ◌∙◌, inl, inr, Option, some, arith,
}

-- `step_count` may be missing from a state; `status` stands for the keys that are carried along.
pub record AgentState : Type 0 where
  pub step_count : Option ℕ
  pub status : Text

pub data AgentTimeoutError : Type 0 where
  exceeded_max_step_count : ℕ → AgentTimeoutError

unfoldable pub increment_step : ℕ → AgentState → Result AgentTimeoutError AgentState
increment_step max_steps state =
    let new_count = or_else state.step_count 0 + 1 in
    if ltb max_steps new_count
    then err (exceeded_max_step_count max_steps)
    else ok (record state { step_count = some new_count })

-- `n` nodes one after the other
unfoldable pub increment_steps : ℕ → ℕ → AgentState → Result AgentTimeoutError AgentState
unfolding increment_step
increment_steps max_steps zero state = ok state
increment_steps max_steps (suc n) state =
    increment_step max_steps state >>= increment_steps max_steps n

increment_steps-counted :
    (max_steps n c : ℕ) (state : AgentState)
    → or_else state.step_count 0 ≡ c
    → c ≤ max_steps
    → is_ok (increment_steps max_steps n state) ≡ leb (n + c) max_steps
unfolding increment_steps increment_step
increment_steps-counted max_steps zero c state here fits = ground arith
increment_steps-counted max_steps (suc n) c state here fits =
    elim (Bool-cases (ltb max_steps (c + 1))) [
      | inl over ↦ rw (here, over) (ground arith)
      | inr within ↦
          rw (here, within)
            (increment_steps-counted max_steps n (c + 1)
                (record state { step_count = some (c + 1) }) refl (ground arith)
              ∙ ground arith)
    ]

-- From a fresh state, a graph goes through `n` nodes exactly when `n` is at most the step budget: no
-- graph, looping or not, enters more nodes than that.
pub increment_steps-bounded :
    (max_steps n : ℕ) (state : AgentState)
    → or_else state.step_count 0 ≡ 0
    → is_ok (increment_steps max_steps n state) ≡ leb n max_steps
increment_steps-bounded max_steps n state fresh =
    increment_steps-counted max_steps n 0 state fresh (omega arith)
    ∙ ap (λ k. leb k max_steps) (omega arith)
