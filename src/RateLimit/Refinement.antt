-- ===== src/RateLimit/Refinement.antt =====
-- core/security.py: `RateLimiter` lets through exactly what the limiter that forgets nothing does.
use langgraph_agent_stack.Prelude.{
  leb, ◌==◌, Bool-cases, or_else, length, Text, text_beq_refl, ℕ, ◌+◌, ◌-◌, ◌%◌, ◌≤◌, ◌≡◌, refl,
  sym, ◌∙◌, inl, inr, true, false, not, List, [], ◌∷◌, ◌++◌, arith, text_eq, nat_eq,
}
use mathlib.Core.Path.{subst}
use langgraph_agent_stack.Prelude.Dict
use langgraph_agent_stack.Prelude.Dict.{Dict}
use langgraph_agent_stack.Prelude.Count.{count_if}
use langgraph_agent_stack.RateLimit.{
  RateLimiter, prune, evict_stale, evict_interval, is_allowed, run,
}
use langgraph_agent_stack.RateLimit.Window.{
  Log, stamps, admits, spec_run, IsChronological, stamps_mine, stamps_other, allowed_times, in_span,
  spec_bounded,
}
use langgraph_agent_stack.RateLimit.Tracks.{
  Tracks, AllTrack, BucketTracks-later, BucketTracks-prune, BucketTracks-snoc, full-admits,
  put-AllTrack, evict-AllTrack, evict_stale-IsUnique,
}

module _ {max_requests window t : ℕ} {log : Log} {s : RateLimiter} (now : ℕ) (ip : Text)
    (later : t ≤ now) (h : Tracks max_requests window t log s) where
  abbrev bucket_now : List ℕ
  bucket_now = or_else (Dict.get ip s.buckets) []

  pub now_tracks : AllTrack max_requests window now log s.buckets
  now_tracks k = BucketTracks-later max_requests window now later (h.at k)

  full :
      leb s.max_requests (length (prune (now - s.window) bucket_now))
      ≡ not (admits max_requests window now (stamps ip log))
  full =
      rw (h.max_requests_same, h.window_same) (full-admits max_requests window now (now_tracks ip))

  pub reply-admits : (is_allowed ip now s).0 ≡ admits max_requests window now (stamps ip log)
  unfolding is_allowed
  reply-admits = elim (Bool-cases (admits max_requests window now (stamps ip log))) [
    | inl e ↦ rw (full, e)
    | inr e ↦ rw (full, e)
  ]

  pub denied-Tracks :
      admits max_requests window now (stamps ip log) ≡ false
      → Tracks max_requests window now log (is_allowed ip now s).1
  unfolding is_allowed
  denied-Tracks e =
      rw (full, e)
        (record {
          max_requests_same = h.max_requests_same;
          window_same = h.window_same;
          unique = Dict.put-IsUnique ip (prune (now - s.window) bucket_now) s.buckets h.unique;
          at = rw h.window_same (
              put-AllTrack max_requests window now ip log s.buckets
                (prune (now - window) bucket_now) log now_tracks
                (BucketTracks-prune max_requests window now (now_tracks ip)) (λ k n. refl));
        })

  abbrev added : Dict Text (List ℕ)
  added = Dict.put ip (prune (now - s.window) bucket_now ++ now ∷ []) s.buckets

  added-AllTrack :
      admits max_requests window now (stamps ip log) ≡ true
      → AllTrack max_requests window now (log ++ (ip, now) ∷ []) added
  added-AllTrack e =
      let room : leb max_requests (length (prune (now - window) bucket_now)) ≡ false =
        full-admits max_requests window now (now_tracks ip) ∙ rw e in
      rw h.window_same (
        put-AllTrack max_requests window now ip log s.buckets
          (prune (now - window) bucket_now ++ now ∷ []) (log ++ (ip, now) ∷ []) now_tracks
          (rw (stamps_mine ip (ip, now) log (text_beq_refl ip)) (
            BucketTracks-snoc max_requests window now (ground arith)
              (BucketTracks-prune max_requests window now (now_tracks ip))))
          (λ k n. stamps_other k (ip, now) log n))

  added-IsUnique : Dict.IsUnique added
  added-IsUnique = Dict.put-IsUnique ip _ s.buckets h.unique

  pub allowed-Tracks :
      admits max_requests window now (stamps ip log) ≡ true
      → Tracks max_requests window now (log ++ (ip, now) ∷ []) (is_allowed ip now s).1
  unfolding is_allowed
  allowed-Tracks e = elim (Bool-cases ((s.call_count + 1) % evict_interval == 0)) [
    | inr keep ↦
        rw (full, e, keep)
          (record {
            max_requests_same = h.max_requests_same;
            window_same = h.window_same;
            unique = added-IsUnique;
            at = added-AllTrack e;
          })
    | inl evict ↦
        rw (full, e, evict)
          (record {
            max_requests_same = h.max_requests_same;
            window_same = h.window_same;
            unique = evict_stale-IsUnique (now - s.window) added added-IsUnique;
            at =
                subst
                  (λ (w : ℕ).
                    AllTrack max_requests window now (log ++ (ip, now) ∷ [])
                      (evict_stale (now - w) added))
                  (sym h.window_same)
                  (evict-AllTrack max_requests window now ip (log ++ (ip, now) ∷ []) added
                    added-IsUnique (added-AllTrack e));
          })
  ]

run-Tracks :
    (calls : List (Text × ℕ)) {max_requests window t : ℕ} {log : Log} {s : RateLimiter}
    → IsChronological t calls
    → Tracks max_requests window t log s
    → (run calls s).0 ≡ spec_run max_requests window log calls
unfolding run spec_run
run-Tracks [] c h = refl
run-Tracks ((ip, now) ∷ calls) {max_requests} {window} {t} {log} {s} c h =
    elim (Bool-cases (admits max_requests window now (stamps ip log))) [
      | inl e ↦
          rw (reply-admits now ip c.0 h, e, run-Tracks calls c.1 (allowed-Tracks now ip c.0 h e))
      | inr e ↦
          rw (reply-admits now ip c.0 h, e, run-Tracks calls c.1 (denied-Tracks now ip c.0 h e))
    ]

-- An empty limiter.
abbrev pub fresh : ℕ → ℕ → RateLimiter
fresh max_requests window = record {
  max_requests = max_requests;
  window = window;
  buckets = [];
  call_count = 0;
}

pub fresh-Tracks :
    (max_requests window : ℕ) → Tracks max_requests window 0 [] (fresh max_requests window)
unfolding Dict.get
fresh-Tracks max_requests window = record {
  max_requests_same = refl;
  window_same = refl;
  unique = tt;
  at = λ ip. record { sorted = tt; below = tt; bounded = omega arith; same = refl };
}

-- For calls in the order of time, the limiter's replies are those of a limiter that keeps every
-- request and lets one through when fewer than `max_requests` of its client's earlier ones lie in
-- the window before it: pruning and eviction change no reply.
pub run-eq-spec_run :
    (max_requests window : ℕ) (calls : List (Text × ℕ))
    → IsChronological 0 calls
    → (run calls (fresh max_requests window)).0 ≡ spec_run max_requests window [] calls
run-eq-spec_run max_requests window calls c = run-Tracks calls c (fresh-Tracks max_requests window)

-- For calls in the order of time, no span of the window's length holds more than `max_requests`
-- requests of one client that were let through.
pub run-bounded :
    (max_requests window : ℕ) (calls : List (Text × ℕ)) (ip : Text) (from : ℕ)
    → IsChronological 0 calls
    → count_if
        (in_span from window)
        (allowed_times ip calls (run calls (fresh max_requests window)).0)
      ≤ max_requests
run-bounded max_requests window calls ip from c =
    rw (run-eq-spec_run max_requests window calls c)
      (spec_bounded max_requests window ip calls from)
