-- ===== src/RateLimit/Window.antt =====
-- core/security.py: what a sliding-window limit promises, over the whole history of the requests
-- that were let through.
use langgraph_agent_stack.Prelude.{
  ltb, leb, if◌then◌else◌, ◌==◌, Bool-cases, All, Text, text_beq_iff, ℕ, ◌+◌, ◌-◌, ◌≤◌, ◌≡◌, refl,
  ◌∙◌, inl, inr, Bool, true, false, ◌&&◌, List, [], ◌∷◌, ◌++◌, arith, text_eq, nat_eq,
}
use mathlib.Core.List.{append-nil, append_assoc}
use mathlib.Core.Path.{subst}
use langgraph_agent_stack.Prelude.Count.{count_if, count_if-append, count_if_mono}

-- The requests that were let through, oldest first.
abbrev pub Log : Type 0
Log = List (Text × ℕ)

-- The times of one client's requests.
abbrev pub stamps : Text → Log → List ℕ
stamps ip [] = []
stamps ip (call ∷ log) = let rest = stamps ip log in if call.0 == ip then call.1 ∷ rest else rest

-- The limit: fewer than `max_requests` of the client's requests lie in the window before `now`.
unfoldable pub admits : ℕ → ℕ → ℕ → List ℕ → Bool
admits max_requests window now ts = ltb (count_if (leb (now - window)) ts) max_requests

-- A limiter that forgets nothing.
unfoldable pub spec_run : ℕ → ℕ → Log → List (Text × ℕ) → List Bool
spec_run max_requests window log [] = []
spec_run max_requests window log (call ∷ calls) =
    let allowed = admits max_requests window call.1 (stamps call.0 log) in
    allowed ∷ spec_run max_requests window (if allowed then log ++ call ∷ [] else log) calls

-- The times at which requests of a client were let through, by the replies.
unfoldable pub allowed_times : Text → List (Text × ℕ) → List Bool → List ℕ
allowed_times ip [] replies = []
allowed_times ip (call ∷ calls) [] = []
allowed_times ip (call ∷ calls) (reply ∷ replies) =
    let rest = allowed_times ip calls replies in
    if reply && (call.0 == ip) then call.1 ∷ rest else rest

-- The times of the calls do not fall, and none lies before `t`.
abbrev pub IsChronological : ℕ → List (Text × ℕ) → Type 0
IsChronological t [] = Unit
IsChronological t (call ∷ calls) = (t ≤ call.1) × IsChronological call.1 calls

abbrev pub in_span : ℕ → ℕ → ℕ → Bool
in_span from window t = leb from t && leb t (from + window)

pub stamps-append :
    (ip : Text) (log log' : Log) → stamps ip (log ++ log') ≡ stamps ip log ++ stamps ip log'
stamps-append ip [] log' = refl
stamps-append ip (call ∷ log) log' = ground (arith, stamps-append ip log log')

pub stamps-below :
    (ip : Text) (t : ℕ) (log : Log)
    → All (λ (c : Text × ℕ). c.1 ≤ t) log
    → All (λ u. u ≤ t) (stamps ip log)
stamps-below ip t [] h = tt
stamps-below ip t (call ∷ log) h = elim (Bool-cases (call.0 == ip)) [
  | inl e ↦ rw e (h.0, stamps-below ip t log h.1)
  | inr e ↦ rw e (stamps-below ip t log h.1)
]

-- Before a request at `now` is let through, a span that holds `now` has room for it.
span_has_room :
    (max_requests window now from : ℕ) (ts : List ℕ)
    → admits max_requests window now ts ≡ true
    → in_span from window now ≡ true
    → count_if (in_span from window) ts + 1 ≤ max_requests
unfolding admits
span_has_room max_requests window now from ts a h =
    ground
      (arith, count_if_mono (in_span from window) (leb (now - window)) ts (λ x e. ground arith))

-- No span of the length of the window holds more than the limit.
abbrev Bounded : ℕ → ℕ → List ℕ → Type 0
Bounded max_requests window ts = (from : ℕ) → count_if (in_span from window) ts ≤ max_requests

Bounded-snoc :
    (max_requests window now : ℕ) (ts : List ℕ)
    → Bounded max_requests window ts
    → admits max_requests window now ts ≡ true
    → Bounded max_requests window (ts ++ now ∷ [])
Bounded-snoc max_requests window now ts h a from = elim (Bool-cases (in_span from window now)) [
  | inl e ↦
      rw (count_if-append (in_span from window) ts (now ∷ []), e)
        (omega (arith, span_has_room max_requests window now from ts a e))
  | inr e ↦ rw (count_if-append (in_span from window) ts (now ∷ []), e) (omega (arith, h from))
]

pub stamps_mine :
    (ip : Text) (call : Text × ℕ) (log : Log)
    → (call.0 == ip) ≡ true
    → stamps ip (log ++ call ∷ []) ≡ stamps ip log ++ call.1 ∷ []
stamps_mine ip call log e = stamps-append ip log (call ∷ []) ∙ rw e

pub stamps_other :
    (ip : Text) (call : Text × ℕ) (log : Log)
    → (call.0 == ip) ≡ false
    → stamps ip (log ++ call ∷ []) ≡ stamps ip log
stamps_other ip call log e = stamps-append ip log (call ∷ []) ∙ rw e (append-nil (stamps ip log))

module _ (max_requests window : ℕ) (ip : Text) where
  spec_run-Bounded :
      (calls : List (Text × ℕ)) (log : Log)
      → Bounded max_requests window (stamps ip log)
      → Bounded max_requests window
          (stamps ip log ++ allowed_times ip calls (spec_run max_requests window log calls))
  unfolding spec_run allowed_times
  spec_run-Bounded [] log h = rw (append-nil (stamps ip log)) h
  spec_run-Bounded (call ∷ calls) log h =
      elim (Bool-cases (admits max_requests window call.1 (stamps call.0 log))) [
        | inr denied ↦ rw denied (spec_run-Bounded calls log h)
        | inl admitted ↦ elim (Bool-cases (call.0 == ip)) [
          | inr other ↦
              rw (admitted, other)
                (let ih =
                    spec_run-Bounded calls (log ++ call ∷ [])
                      (rw (stamps_other ip call log other) h) in
                  rw (stamps_other ip call log other) at ih)
          | inl mine ↦
              rw (admitted, mine)
                (let ih = spec_run-Bounded calls (log ++ call ∷ []) (
                    rw (stamps_mine ip call log mine) (
                      Bounded-snoc max_requests window call.1 (stamps ip log) h (
                        subst (λ k. admits max_requests window call.1 (stamps k log) ≡ true)
                          ((text_beq_iff call.0 ip).0 mine) admitted))) in
                  rw (stamps_mine ip call log mine, append_assoc) at ih)
        ]
      ]

  -- A limiter that forgets nothing never lets more than the limit through in any span.
  pub spec_bounded :
      (calls : List (Text × ℕ)) (from : ℕ)
      → count_if
          (in_span from window)
          (allowed_times ip calls (spec_run max_requests window [] calls))
        ≤ max_requests
  spec_bounded calls = spec_run-Bounded calls [] (λ from. omega arith)
