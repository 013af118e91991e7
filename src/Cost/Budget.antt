-- ===== src/Cost/Budget.antt =====
-- core/cost.py: the budget over many calls, several of which may be under way at once: the guard runs
-- when a call starts and the price is added when it ends.
use langgraph_agent_stack.Prelude.{
  ltb, Bool-cases, Option-cases, length, All, Text, nonempty, Result, Result-cases, ok, err, ℕ,
  zero, suc, ◌+◌, ◌*◌, ◌≤◌, ◌≡◌, refl, ◌∙◌, inl, inr, Bool, true, ◌&&◌, Option, none, some, List,
  [], ◌∷◌, arith,
}
use mathlib.Core.Path.{subst}
use langgraph_agent_stack.Cost.{
  ModelPricing, CostTable, resolve_model_pricing, TokenUsage, CostError, compute_call_cost,
  worst_case, estimate_worst_case_call_cost,
}
use langgraph_agent_stack.Cost.Tracker.{
  CostTracker, estimate_input_tokens, enforce_pre_call_budget, on_start, on_llm_end,
}
use langgraph_agent_stack.Cost.Estimates.{IsWithin, priced-worst_case}

-- One call of the model: what the framework does around it.
pub record LlmCall : Type 0 where
  pub model_id : Text
  pub total_chars : ℕ
  pub max_output_tokens : ℕ
  pub usage : TokenUsage

-- What the framework reports to the tracker, in the order in which it takes the lock: a call starts,
-- or one of those under way ends, counted from the one that started last.
pub data Event : Type 0 where
  starts : LlmCall → Event
  ends : ℕ → Event

-- The tracker with the calls that are under way.
pub record Flight : Type 0 where
  pub tracker : CostTracker
  pub under_way : List LlmCall

abbrev pub taken : LlmCall → Option (LlmCall × List LlmCall) → Option (LlmCall × List LlmCall)
taken c none = none
taken c (some (found, rest)) = some (found, c ∷ rest)

abbrev pub take_at : ℕ → List LlmCall → Option (LlmCall × List LlmCall)
take_at i [] = none
take_at zero (c ∷ calls) = some (c, calls)
take_at (suc i) (c ∷ calls) = taken c (take_at i calls)

-- A call that the guard refuses is not made.
abbrev pub started : LlmCall → Flight → Result CostError (Unit {0}) → Flight
started c f (err e) = f
started c f (ok checked) = record f { under_way = c ∷ f.under_way }

abbrev pub ended : CostTable → Bool → Flight → Option (LlmCall × List LlmCall) → Flight
ended table strict f none = f
ended table strict f (some (c, rest)) = record {
  tracker = (on_llm_end table strict c.usage f.tracker).1;
  under_way = rest;
}

unfoldable pub advance : CostTable → Bool → Event → Flight → Flight
unfolding on_start on_llm_end
advance table strict (starts c) f =
    started c f (on_start table strict c.model_id c.total_chars c.max_output_tokens f.tracker)
advance table strict (ends i) f = ended table strict f (take_at i f.under_way)

unfoldable pub run_events : CostTable → Bool → List Event → Flight → Flight
unfolding advance
run_events table strict [] f = f
run_events table strict (e ∷ events) f = run_events table strict events (advance table strict e f)

-- The call runs the model it names, and stays within its estimate under the price of that model.
pub record IsHonest (table : CostTable) (c : LlmCall) : Type 0 where
  pub named : nonempty c.model_id ≡ true
  pub same_model : c.usage.model_id ≡ c.model_id
  pub within :
      (p : ModelPricing)
      → resolve_model_pricing table c.model_id ≡ some p
      → IsWithin p (estimate_input_tokens c.total_chars) c.max_output_tokens c.usage

-- What a passed guard says of the estimate.
on_start-fits :
    (table : CostTable) (strict : Bool) (c : LlmCall) (budget : ℕ) (s : CostTracker)
    (p : ModelPricing) (u : Unit {0})
    → nonempty c.model_id ≡ true
    → s.budget_usd ≡ some budget
    → resolve_model_pricing table c.model_id ≡ some p
    → on_start table strict c.model_id c.total_chars c.max_output_tokens s ≡ ok u
    → s.total_cost_usd + worst_case p (estimate_input_tokens c.total_chars) c.max_output_tokens
      ≤ budget
unfolding on_start enforce_pre_call_budget estimate_worst_case_call_cost
on_start-fits table strict c budget s p u named limited known passed =
    elim (Bool-cases (
      ltb budget (
        s.total_cost_usd
        + worst_case p (estimate_input_tokens c.total_chars) c.max_output_tokens))) [
          | inl over ↦ absurd (
              cc (
                rw
                  (
                    on_start, named, enforce_pre_call_budget, limited,
                    estimate_worst_case_call_cost, known, over,
                  )
                  at passed))
          | inr fits ↦ ground arith
        ]

-- The estimate that the guard makes for a call; of a model without a price it is 0.
abbrev estimate_for : LlmCall → Option ModelPricing → ℕ
estimate_for c none = 0
estimate_for c (some p) = worst_case p (estimate_input_tokens c.total_chars) c.max_output_tokens

abbrev pub estimate_of : CostTable → LlmCall → ℕ
estimate_of table c = estimate_for c (resolve_model_pricing table c.model_id)

-- A call stays within its estimate, which is at most `most`.
abbrev pub IsModest : CostTable → ℕ → Event → Type 0
IsModest table most (starts c) = IsHonest table c × (estimate_of table c ≤ most)
IsModest table most (ends i) = Unit

-- When a call starts, at most `width` others are under way.
abbrev pub IsNarrow : CostTable → Bool → ℕ → List Event → Flight → Type 0
IsNarrow table strict width [] f = Unit
IsNarrow table strict width (starts c ∷ events) f =
    (length f.under_way ≤ width)
    × IsNarrow table strict width events (advance table strict (starts c) f)
IsNarrow table strict width (ends i ∷ events) f =
    IsNarrow table strict width events (advance table strict (ends i) f)

pair_same :
    (p q : LlmCall × List LlmCall)
    → (let o : Option (LlmCall × List LlmCall) = some p in o ≡ some q)
    → p ≡ q
pair_same p q e = cc

module _ (table : CostTable) (strict : Bool) (budget width most : ℕ) where
  abbrev reserved : List LlmCall → ℕ
  reserved [] = 0
  reserved (c ∷ calls) = estimate_of table c + reserved calls

  abbrev AreModest : List LlmCall → Type 0
  AreModest = All (λ c. IsHonest table c × (estimate_of table c ≤ most))

  -- What is spent, with what is reserved for the calls under way.
  record IsCovered (f : Flight) : Type 0 where
    limited : f.tracker.budget_usd ≡ some budget
    covered : f.tracker.total_cost_usd + reserved f.under_way ≤ budget + width * most
    modest : AreModest f.under_way

  reserved-le :
      (w : ℕ) (calls : List LlmCall)
      → AreModest calls
      → length calls ≤ w
      → reserved calls ≤ w * most
  reserved-le w [] h short = omega arith
  reserved-le zero (c ∷ calls) h short = absurd (omega (arith, short))
  reserved-le (suc w) (c ∷ calls) h short =
      grind (arith, h.0.1, reserved-le w calls h.1 (omega (arith, short)))

  -- The end of a call adds at most what was reserved for it.
  on_llm_end-covered :
      (c : LlmCall) (s : CostTracker)
      → IsHonest table c
      → ((on_llm_end table strict c.usage s).1.budget_usd ≡ s.budget_usd)
        × ((on_llm_end table strict c.usage s).1.total_cost_usd
            ≤ s.total_cost_usd + estimate_of table c)
  unfolding on_llm_end compute_call_cost
  on_llm_end-covered c s honest = elim (Option-cases (resolve_model_pricing table c.model_id)) [
    | inl unknown ↦
        let unknown' : resolve_model_pricing table c.usage.model_id ≡ none =
          rw honest.same_model unknown in
        elim (Bool-cases (strict && nonempty c.usage.model_id)) [
          | inl refuses ↦ rw (on_llm_end, compute_call_cost, unknown', refuses) (refl, omega arith)
          | inr free ↦ rw (on_llm_end, compute_call_cost, unknown', free) (refl, omega arith)
        ]
    | inr (p, known) ↦
        let known' : resolve_model_pricing table c.usage.model_id ≡ some p =
          rw honest.same_model known in
        rw (on_llm_end, compute_call_cost, known', known)
          (
            refl,
            omega (
              arith,
              priced-worst_case p (estimate_input_tokens c.total_chars) c.max_output_tokens c.usage
                  (honest.within p known),
            ),
          )
  ]

  take_at-reserved :
      (i : ℕ) (calls : List LlmCall) (c : LlmCall) (rest : List LlmCall)
      → take_at i calls ≡ some (c, rest)
      → AreModest calls
      → (reserved calls ≡ estimate_of table c + reserved rest) × IsHonest table c × AreModest rest
  take_at-reserved i [] c rest e h = absurd (cc)
  take_at-reserved zero (d ∷ calls) c rest e h =
      subst
        (λ (p : LlmCall × List LlmCall).
          (estimate_of table d + reserved calls ≡ estimate_of table p.0 + reserved p.1)
          × IsHonest table p.0
          × AreModest p.1)
        (pair_same (d, calls) (c, rest) e) (refl, h.0.0, h.1)
  take_at-reserved (suc i) (d ∷ calls) c rest e h = elim (Option-cases (take_at i calls)) [
    | inl none_there ↦ absurd (cc (rw none_there at e))
    | inr ((c', rest'), there) ↦
        let (same, honest, modest) = take_at-reserved i calls c' rest' there h.1 in
        subst
          (λ (p : LlmCall × List LlmCall).
            (estimate_of table d + reserved calls ≡ estimate_of table p.0 + reserved p.1)
            × IsHonest table p.0
            × AreModest p.1)
          (pair_same (c', d ∷ rest') (c, rest) (rw there at e))
          (omega (arith, same), honest, (h.0, modest))
  ]

  ended-IsCovered :
      (i : ℕ) (f : Flight) → IsCovered f → IsCovered (ended table strict f (take_at i f.under_way))
  ended-IsCovered i f h = elim (Option-cases (take_at i f.under_way)) [
    | inl nothing ↦ rw nothing h
    | inr ((c, rest), there) ↦
        let (same, honest, modest) = take_at-reserved i f.under_way c rest there h.modest in
        let (kept, spent) = on_llm_end-covered c f.tracker honest in
        rw there (record {
          limited = kept ∙ h.limited;
          covered = omega (arith, spent, same, h.covered);
          modest = modest;
        })
  ]

  started-IsCovered :
      (c : LlmCall) (f : Flight)
      → IsCovered f
      → IsHonest table c × (estimate_of table c ≤ most)
      → length f.under_way ≤ width
      → IsCovered (
          started c f
            (on_start table strict c.model_id c.total_chars c.max_output_tokens f.tracker))
  started-IsCovered c f h modest narrow =
      elim (Result-cases
        (on_start table strict c.model_id c.total_chars c.max_output_tokens f.tracker)) [
          | inr (e, refused) ↦ rw refused h
          | inl (u, passed) ↦
              rw passed (record {
                limited = h.limited;
                covered = room u passed;
                modest = (modest, h.modest);
              })
        ]
    where
      room :
          (u : Unit {0})
          → on_start table strict c.model_id c.total_chars c.max_output_tokens f.tracker ≡ ok u
          → f.tracker.total_cost_usd + (estimate_of table c + reserved f.under_way)
            ≤ budget + width * most
      room u passed = elim (Option-cases (resolve_model_pricing table c.model_id)) [
        | inl unknown ↦ rw unknown (omega (arith, h.covered))
        | inr (p, known) ↦ rw known (
            omega (
              arith,
              on_start-fits table strict c budget f.tracker p u modest.0.named h.limited known
                  passed,
              reserved-le width f.under_way h.modest narrow,
            ))
      ]

  run_events-IsCovered :
      (events : List Event) (f : Flight)
      → IsCovered f
      → All (IsModest table most) events
      → IsNarrow table strict width events f
      → IsCovered (run_events table strict events f)
  unfolding run_events advance
  run_events-IsCovered [] f h modest narrow = h
  run_events-IsCovered (starts c ∷ events) f h modest narrow =
      run_events-IsCovered events _ (started-IsCovered c f h modest.0 narrow.0) modest.1 narrow.1
  run_events-IsCovered (ends i ∷ events) f h modest narrow =
      run_events-IsCovered events _ (ended-IsCovered i f h) modest.1 narrow

-- When every call stays within its estimate, and no estimate is above `most`, then for calls that
-- start and end in whatever order, at most `width` others being under way when one starts, the spend
-- never passes the budget by more than `width` times `most`: for one call at a time, not at all.
pub run_events-within :
    (table : CostTable) (strict : Bool) (events : List Event) (budget width most : ℕ)
    (s : CostTracker)
    → All (IsModest table most) events
    → IsNarrow table strict width events (record { tracker = s; under_way = [] })
    → s.budget_usd ≡ some budget
    → s.total_cost_usd ≤ budget
    → (run_events table strict events
        (record { tracker = s; under_way = [] })).tracker.total_cost_usd
      ≤ budget + width * most
run_events-within table strict events budget width most s modest narrow limited h =
    let start : IsCovered table strict budget width most (record { tracker = s; under_way = [] }) =
      record { limited = limited; covered = omega (arith, h); modest = tt } in
    let after = run_events-IsCovered table strict budget width most events _ start modest narrow in
    omega (arith, after.covered)
