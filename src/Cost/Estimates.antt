-- ===== src/Cost/Estimates.antt =====
-- core/cost.py: the estimate before a call against its price.
use langgraph_agent_stack.Prelude.{
  if◌then◌else◌, Text, ℕ, ◌+◌, ◌-◌, ◌*◌, ◌≤◌, ◌<◌, ◌≡◌, Bool, true, false, none, arith,
}
use native.Mathlib.Nat.{one-le-mul, mul-le-mul, mul-le-mul_right, add-mul}
use langgraph_agent_stack.Cost.{
  ModelPricing, cache_read_rate, cache_write_rate, TokenUsage, priced, worst_case,
}

-- The usage is within what the estimate was made of, its cached tokens are part of its input, and
-- neither cache reads nor cache writes nor the batch multiplier make it dearer than plain input.
pub record IsWithin (p : ModelPricing) (input_tokens max_output_tokens : ℕ) (u : TokenUsage)
    : Type 0 where
  pub input : u.input_tokens ≤ input_tokens
  pub output : u.output_tokens ≤ max_output_tokens
  pub cached : u.cache_read_tokens + u.cache_write_tokens ≤ u.input_tokens
  pub reads : u.cache_read_tokens * cache_read_rate p ≤ u.cache_read_tokens * (20 * p.input_per_1k)
  pub writes :
      u.cache_write_tokens * cache_write_rate p ≤ u.cache_write_tokens * (20 * p.input_per_1k)
  pub batches : p.batch_multiplier ≤ 1000

-- What the three kinds of input tokens cost, against the plain rate.
inputs-le :
    (billed read write rate read_rate write_rate tokens : ℕ)
    → billed + read + write ≤ tokens
    → read * read_rate ≤ read * rate
    → write * write_rate ≤ write * rate
    → billed * rate + read * read_rate + write * write_rate ≤ tokens * rate
inputs-le billed read write rate read_rate write_rate tokens h r w = omega (
  arith,
  mul-le-mul_right rate h,
  add-mul (billed + read) write rate,
  add-mul billed read rate,
  r,
  w,
)

-- A call that stays within its estimate costs at most the estimate.
pub priced-worst_case :
    (p : ModelPricing) (input_tokens max_output_tokens : ℕ) (u : TokenUsage)
    → IsWithin p input_tokens max_output_tokens u
    → priced p u ≤ worst_case p input_tokens max_output_tokens
unfolding priced worst_case
priced-worst_case p i o u w =
    mul-le-mul
      (omega (
        arith,
        inputs-le (u.input_tokens - u.cache_read_tokens - u.cache_write_tokens) u.cache_read_tokens
            u.cache_write_tokens (20 * p.input_per_1k) (cache_read_rate p) (cache_write_rate p) i
            (omega (arith, w.input, w.cached)) w.reads w.writes,
        mul-le-mul_right (20 * p.output_per_1k) w.output,
      ))
      (multiplier u.batch)
  where
    multiplier : (b : Bool) → (if b then p.batch_multiplier else 1000) ≤ 1000
    multiplier true = w.batches
    multiplier false = omega arith

-- The estimate is no upper bound where input is written to the cache: without a price of its own, a
-- call that writes its whole input to the cache costs more than its estimate, whatever its model.
pub cache_write-dearer :
    (p : ModelPricing) (model_id : Text) (input_tokens : ℕ)
    → p.cache_write_per_1k ≡ none
    → 0 < p.input_per_1k
    → 0 < input_tokens
    → worst_case p input_tokens 0
      < priced p (record {
        model_id = model_id;
        input_tokens = input_tokens;
        output_tokens = 0;
        cache_read_tokens = 0;
        cache_write_tokens = input_tokens;
        batch = false;
      })
unfolding worst_case priced cache_write_rate
cache_write-dearer p model_id n default priced_input some_input =
    rw (cache_write_rate, default) (omega (arith, one-le-mul some_input priced_input))
