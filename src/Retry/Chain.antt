-- ===== src/Retry/Chain.antt =====
-- agents/llm_retry.py: `find_auth_cause`, the walk along the causes of an exception.
use langgraph_agent_stack.Prelude.{
  if◌then◌else◌, take, ℕ, zero, suc, ◌≡◌, refl, Bool, Option, none, some, List, [], ◌∷◌,
}
use langgraph_agent_stack.Retry.{Installed, LlmException, is_auth_llm_error}

-- An exception with its `__cause__` and its `__context__`, or `None`.
pub data Chain : Type 0 where
  nothing : Chain
  raised : LlmException → Chain → Chain → Chain

abbrev pub or_context : Chain → Chain → Chain
or_context nothing context = context
or_context (raised exc c x) context = raised exc c x

-- `max_depth` is the number of rounds of the loop.
unfoldable pub find_auth_cause : Installed → ℕ → Chain → Option LlmException
find_auth_cause packages zero current = none
find_auth_cause packages (suc n) nothing = none
find_auth_cause packages (suc n) (raised exc cause context) =
    let rest = find_auth_cause packages n (or_context cause context) in
    if is_auth_llm_error packages exc then some exc else rest

abbrev or_list : List LlmException → List LlmException → List LlmException
or_list [] rest = rest
or_list (e ∷ es) rest = e ∷ es

-- The exceptions along the causes; a context counts where there is no cause.
abbrev pub causes : Chain → List LlmException
causes nothing = []
causes (raised exc cause context) = exc ∷ or_list (causes cause) (causes context)

abbrev pub first_where : {A : Type 0} → (A → Bool) → List A → Option A
first_where p [] = none
first_where p (a ∷ rest) = if p a then some a else first_where p rest

causes-or_context :
    (cause context : Chain)
    → causes (or_context cause context) ≡ or_list (causes cause) (causes context)
causes-or_context nothing context = refl
causes-or_context (raised exc c x) context = refl

-- The walk finds the first credential failure among the first `n` exceptions along the causes, so
-- that it stops whatever the chain is, and misses none that stands nearer.
pub find_auth_cause-first :
    (packages : Installed) (n : ℕ) (exc : Chain)
    → find_auth_cause packages n exc
      ≡ first_where (is_auth_llm_error packages) (take n (causes exc))
unfolding find_auth_cause
find_auth_cause-first packages zero exc = refl
find_auth_cause-first packages (suc n) nothing = refl
find_auth_cause-first packages (suc n) (raised exc cause context) =
    rw
      (find_auth_cause-first packages n (or_context cause context), causes-or_context cause context)
      refl
