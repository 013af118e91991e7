-- ===== src/RateLimit/Clients.antt =====
-- core/security.py: what one client of `RateLimiter` sees: `remaining`, the size of its bucket, and
-- that other clients do not touch its allowance.
use langgraph_agent_stack.Prelude.{
  ltb, leb, ◌==◌, Bool-cases, or_else, length, filter, Text, text_beq_refl, text_beq_iff, ℕ, ◌-◌,
  ◌≤◌, ◌≡◌, refl, sym, ap, inl, inr, List, [], ◌∷◌, ◌++◌, arith, text_eq, nat_eq,
}
use langgraph_agent_stack.Prelude.Dict
use mathlib.Core.Path.{subst}
use native.Mathlib.Nat.{le_refl}
use langgraph_agent_stack.Prelude.Count.{count_if, count_if-append}
use langgraph_agent_stack.RateLimit.{RateLimiter, bucket_of, is_allowed, remaining, run}
use langgraph_agent_stack.RateLimit.Sorted.{length-recent}
use langgraph_agent_stack.RateLimit.Window.{
  Log, stamps, admits, spec_run, allowed_times, IsChronological, stamps_mine, stamps_other,
}
use langgraph_agent_stack.RateLimit.Tracks.{Tracks}
use langgraph_agent_stack.RateLimit.Refinement.{
  fresh, fresh-Tracks, reply-admits, allowed-Tracks, denied-Tracks, now_tracks, run-eq-spec_run,
}

-- The time of the last call, or `t` where there is none.
abbrev pub last_time : ℕ → List (Text × ℕ) → ℕ
last_time t [] = t
last_time t (call ∷ calls) = last_time call.1 calls

module _ {max_requests window : ℕ} where
  reached-Tracks :
      (calls : List (Text × ℕ)) {t : ℕ} {log : Log} {s : RateLimiter}
      → IsChronological t calls
      → Tracks max_requests window t log s
      → (log' : Log) × Tracks max_requests window (last_time t calls) log' (run calls s).1
  unfolding run
  reached-Tracks [] {log = log} c h = (log, h)
  reached-Tracks ((ip, now) ∷ calls) {log = log} c h =
      elim (Bool-cases (admits max_requests window now (stamps ip log))) [
        | inl e ↦ reached-Tracks calls c.1 (allowed-Tracks now ip c.0 h e)
        | inr e ↦ reached-Tracks calls c.1 (denied-Tracks now ip c.0 h e)
      ]

  remaining-Tracks :
      {t now : ℕ} {log : Log} {s : RateLimiter} (ip : Text)
      → t ≤ now
      → Tracks max_requests window t log s
      → remaining ip now s ≡ max_requests - count_if (leb (now - window)) (stamps ip log)
  unfolding remaining
  remaining-Tracks {t} {now} {log} {s} ip later h =
      let b = now_tracks now ip later h ip in
      let same = ap length b.same in
      let left = length-recent (now - window) (or_else (Dict.get ip s.buckets) []) in
      let right = length-recent (now - window) (stamps ip log) in
      rw (h.max_requests_same, h.window_same) (rw (← left, same, right))

  next-remaining :
      {t now : ℕ} {log : Log} {s : RateLimiter} (ip : Text)
      → t ≤ now
      → Tracks max_requests window t log s
      → ((is_allowed ip now s).0 ≡ ltb 0 (remaining ip now s))
        × (remaining ip now (is_allowed ip now s).1 ≡ remaining ip now s - 1)
  unfolding admits
  next-remaining {t} {now} {log} {s} ip later h =
      let before = remaining-Tracks ip later h in
      let reply = reply-admits now ip later h in
      elim (Bool-cases (admits max_requests window now (stamps ip log))) [
        | inl e ↦
            let after = remaining-Tracks ip (le_refl now) (allowed-Tracks now ip later h e) in
            let longer = stamps_mine ip (ip, now) log (text_beq_refl ip) in
            let counted = count_if-append (leb (now - window)) (stamps ip log) (now ∷ []) in
            (ground (arith, reply, before), ground (arith, before, after, longer, counted))
        | inr e ↦
            let after = remaining-Tracks ip (le_refl now) (denied-Tracks now ip later h e) in
            (ground (arith, reply, before), ground (arith, before, after))
      ]

-- After any calls in the order of time, at a time that is not before them, `remaining` is positive
-- exactly when the client's next request is let through, and that request lowers it by one; a
-- request that is refused leaves it at 0.
pub remaining_exact :
    (max_requests window : ℕ) (calls : List (Text × ℕ)) (ip : Text) (now : ℕ)
    → IsChronological 0 calls
    → last_time 0 calls ≤ now
    → ((is_allowed ip now (run calls (fresh max_requests window)).1).0
        ≡ ltb 0 (remaining ip now (run calls (fresh max_requests window)).1))
      × (remaining ip now (is_allowed ip now (run calls (fresh max_requests window)).1).1
          ≡ remaining ip now (run calls (fresh max_requests window)).1 - 1)
remaining_exact max_requests window calls ip now c later =
    let (log, h) = reached-Tracks calls c (fresh-Tracks max_requests window) in
    next-remaining ip later h

-- No bucket ever holds more than `max_requests` times, however many requests its client sends.
pub bucket_bounded :
    (max_requests window : ℕ) (calls : List (Text × ℕ)) (ip : Text)
    → IsChronological 0 calls
    → length (bucket_of ip (run calls (fresh max_requests window)).1) ≤ max_requests
unfolding bucket_of
bucket_bounded max_requests window calls ip c =
    let (log, h) = reached-Tracks calls c (fresh-Tracks max_requests window) in (h.at ip).bounded

-- The calls of one client.
abbrev pub calls_of : Text → List (Text × ℕ) → List (Text × ℕ)
calls_of ip = filter (λ (call : Text × ℕ). call.0 == ip)

IsChronological-earlier :
    (a b : ℕ) (calls : List (Text × ℕ)) → a ≤ b → IsChronological b calls → IsChronological a calls
IsChronological-earlier a b [] h c = tt
IsChronological-earlier a b (call ∷ calls) h c = (omega arith, c.1)

IsChronological-calls_of :
    (ip : Text) (t : ℕ) (calls : List (Text × ℕ))
    → IsChronological t calls
    → IsChronological t (calls_of ip calls)
IsChronological-calls_of ip t [] c = tt
IsChronological-calls_of ip t (call ∷ calls) c = elim (Bool-cases (call.0 == ip)) [
  | inl e ↦ rw e (c.0, IsChronological-calls_of ip call.1 calls c.1)
  | inr e ↦ rw e (
      IsChronological-earlier t call.1 (calls_of ip calls) c.0
        (IsChronological-calls_of ip call.1 calls c.1))
]

module _ (max_requests window : ℕ) (ip : Text) where
  spec_run-calls_of :
      (calls : List (Text × ℕ)) (log log' : Log)
      → stamps ip log ≡ stamps ip log'
      → allowed_times ip calls (spec_run max_requests window log calls)
        ≡ allowed_times ip
            (calls_of ip calls)
            (spec_run max_requests window log' (calls_of ip calls))
  unfolding spec_run allowed_times
  spec_run-calls_of [] log log' h = refl
  spec_run-calls_of (call ∷ calls) log log' h = elim (Bool-cases (call.0 == ip)) [
    | inl mine ↦
        let e = (text_beq_iff call.0 ip).0 mine in
        let same : stamps call.0 log ≡ stamps call.0 log' =
          subst (λ k. stamps k log ≡ stamps k log') (sym e) h in
        elim (Bool-cases (admits max_requests window call.1 (stamps call.0 log'))) [
          | inl t ↦
              rw (mine, same, t, mine)
                (ap (◌∷◌ call.1) (
                  spec_run-calls_of calls (log ++ call ∷ []) (log' ++ call ∷ [])
                    (rw (stamps_mine ip call log mine, stamps_mine ip call log' mine, h))))
          | inr t ↦ rw (mine, same, t) (spec_run-calls_of calls log log' h)
        ]
    | inr other ↦ elim (Bool-cases (admits max_requests window call.1 (stamps call.0 log))) [
      | inl t ↦
          rw (other, t)
            (spec_run-calls_of calls (log ++ call ∷ []) log'
              (rw (stamps_other ip call log other) h))
      | inr t ↦ rw (other, t) (spec_run-calls_of calls log log' h)
    ]
  ]

-- The requests of one client that are let through depend on its own requests alone: with those of
-- all other clients left out, the same ones pass.
pub run-calls_of :
    (max_requests window : ℕ) (calls : List (Text × ℕ)) (ip : Text)
    → IsChronological 0 calls
    → allowed_times ip calls (run calls (fresh max_requests window)).0
      ≡ allowed_times ip (calls_of ip calls) (run (calls_of ip calls) (fresh max_requests window)).0
run-calls_of max_requests window calls ip c =
    rw
      (
        run-eq-spec_run max_requests window calls c,
        run-eq-spec_run max_requests window (calls_of ip calls)
            (IsChronological-calls_of ip 0 calls c),
      )
      (spec_run-calls_of max_requests window ip calls [] [] refl)
