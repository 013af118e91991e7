-- ===== src/RateLimit/Redis/Agreement.antt =====
-- core/security.py: `RedisRateLimiter` lets through what `RateLimiter` does.
use langgraph_agent_stack.Prelude.{
  leb, if◌then◌else◌, ◌==◌, Bool-cases, length, filter, All, Text, text_beq_refl, text_beq_iff, ℕ,
  ◌+◌, ◌-◌, ◌≤◌, ◌≡◌, refl, sym, ap, ◌∙◌, inl, inr, Bool, true, false, not, List, [], ◌∷◌, ◌++◌,
  arith, text_eq, nat_eq,
}
use langgraph_agent_stack.RateLimit.Refinement.{fresh, run-eq-spec_run}
use langgraph_agent_stack.RateLimit.{run}
use langgraph_agent_stack.RateLimit.Window.{
  Log, stamps, admits, spec_run, IsChronological, stamps_mine, stamps_other,
}
use langgraph_agent_stack.RateLimit.Redis.{
  is_live, SortedSetServer, RedisRateLimiter, key_of, Call, member_of, script, redis_is_allowed,
  redis_run,
}
use mathlib.Core.Path.{subst}
use langgraph_agent_stack.Prelude.Dict
use langgraph_agent_stack.Prelude.Dict.{Dict}
use langgraph_agent_stack.Prelude.Count.{count_if, count_if-append}

-- The calls as clients with times.
abbrev pub timed : List Call → List (Text × ℕ)
timed [] = []
timed (call ∷ calls) = (call.ip, call.now) ∷ timed calls

-- A limiter whose window is one tick longer than `window`.
abbrev pub one_longer : ℕ → ℕ → RedisRateLimiter
one_longer max_requests window = record { max_requests = max_requests; window = window + 1 }

live_same :
    (window now : ℕ) (entry : Text × ℕ)
    → is_live (window + 1) now entry ≡ leb (now - window) entry.1
live_same window now entry = ground arith

length-filter : (p : Text × ℕ → Bool) (es : Dict Text ℕ) → length (filter p es) ≡ count_if p es
length-filter p [] = refl
length-filter p (entry ∷ es) = ground (arith, length-filter p es)

zero_leb : (n : ℕ) → leb 0 n ≡ true
zero_leb n = ground arith

-- What is removed at a time is not live at a later one.
count_if-filter :
    (window now later : ℕ) (es : Dict Text ℕ)
    → now ≤ later
    → count_if (is_live window later) (filter (is_live window now) es)
      ≡ count_if (is_live window later) es
count_if-filter window now later [] h = refl
count_if-filter window now later (entry ∷ es) h =
    ground (arith, count_if-filter window now later es h)

filter-Lacks :
    (p : Text × ℕ → Bool) (member : Text) (es : Dict Text ℕ)
    → Dict.Lacks member es
    → Dict.Lacks member (filter p es)
filter-Lacks p member [] h = tt
filter-Lacks p member (entry ∷ es) h = elim (Bool-cases (p entry)) [
  | inl kept ↦ rw kept (h.0, filter-Lacks p member es h.1)
  | inr removed ↦ rw removed (filter-Lacks p member es h.1)
]

module _ {ℓ κ} {A : Type ℓ} {P : A → Type κ} where
  All-all : ((a : A) → P a) → (l : List A) → All P l
  All-all f [] = tt
  All-all f (a ∷ l) = (f a, All-all f l)

module _ {ℓ κ μ} {A : Type ℓ} {P : A → Type κ} {Q : A → Type μ} where
  All-map : ((a : A) → P a → Q a) → (l : List A) → All P l → All Q l
  All-map f [] h = tt
  All-map f (a ∷ l) h = (f a h.0, All-map f l h.1)

module _ {ℓ κ μ ν} {A : Type ℓ} {P : A → Type κ} {Q : A → Type μ} {R : A → Type ν} where
  All-zip : ((a : A) → P a → Q a → R a) → (l : List A) → All P l → All Q l → All R l
  All-zip f [] p q = tt
  All-zip f (a ∷ l) p q = (f a p.0 q.0, All-zip f l p.1 q.1)

module _ (r : SortedSetServer) (max_requests window : ℕ) where
  abbrev limiter : RedisRateLimiter
  limiter = one_longer max_requests window

  abbrev pub named : Call → Text
  named = member_of r limiter

  -- No two calls of one client have the same name.
  abbrev pub AreApart : List Call → Type 0
  AreApart [] = Unit
  AreApart (call ∷ calls) =
      All (λ c. (call.ip == c.ip) ≡ true → (named call == named c) ≡ false) calls × AreApart calls

  abbrev IsAbsent : r.State → Call → Type 0
  IsAbsent s c = Dict.Lacks (named c) (r.entries (key_of c.ip) s)

  record SharedTracks (t : ℕ) (log : Log) (calls : List Call) (s : r.State) : Type 0 where
    counted :
        (ip : Text) (now : ℕ)
        → t ≤ now
        → count_if (is_live (window + 1) now) (r.entries (key_of ip) s)
          ≡ count_if (leb (now - window)) (stamps ip log)
    absent : All (IsAbsent s) calls

  module _ {t : ℕ} {log : Log} {calls : List Call} {s : r.State} (call : Call)
      (later : t ≤ call.now) (h : SharedTracks t log (call ∷ calls) s) where
    abbrev entry : Text × ℕ
    entry = (call.ip, call.now)

    abbrev pruned : r.State
    pruned = r.zremrangebyscore (key_of call.ip) (window + 1) call.now s

    abbrev added : r.State
    added = r.expire (key_of call.ip) (r.zadd (key_of call.ip) call.now (named call) pruned)

    pruned-entries :
        (ip : Text)
        → r.entries (key_of ip) pruned ≡ (
            if call.ip == ip
            then filter (is_live (window + 1) call.now) (r.entries (key_of ip) s)
            else r.entries (key_of ip) s)
    pruned-entries ip = r.entries_removed (key_of call.ip) (key_of ip) (window + 1) call.now s

    added-entries :
        (ip : Text)
        → r.entries (key_of ip) added ≡ (
            if call.ip == ip
            then Dict.put (named call) call.now (r.entries (key_of ip) pruned)
            else r.entries (key_of ip) pruned)
    added-entries ip =
        r.entries_expire (key_of call.ip) (key_of ip) _
        ∙ r.entries_added (key_of call.ip) (key_of ip) (named call) call.now pruned

    pruned-counted :
        (ip : Text) (now : ℕ)
        → call.now ≤ now
        → count_if (is_live (window + 1) now) (r.entries (key_of ip) pruned)
          ≡ count_if (leb (now - window)) (stamps ip log)
    pruned-counted ip now after =
        let before = h.counted ip now (omega (arith, later, after)) in
        elim (Bool-cases (call.ip == ip)) [
          | inl mine ↦
              rw (pruned-entries ip, mine)
                (count_if-filter (window + 1) call.now now (r.entries (key_of ip) s) after ∙ before)
          | inr other ↦ rw (pruned-entries ip, other) before
        ]

    pruned-IsAbsent : (c : Call) → IsAbsent s c → IsAbsent pruned c
    pruned-IsAbsent c gone = elim (Bool-cases (call.ip == c.ip)) [
      | inl mine ↦
          rw (pruned-entries c.ip, mine)
            (filter-Lacks (is_live (window + 1) call.now) (named c) (r.entries (key_of c.ip) s)
              gone)
      | inr other ↦ rw (pruned-entries c.ip, other) gone
    ]

    pruned-zcard :
        r.zcard (key_of call.ip) pruned ≡ count_if (leb (call.now - window)) (stamps call.ip log)
    pruned-zcard =
        r.zcard_length (key_of call.ip) pruned
        ∙ ap length (pruned-entries call.ip ∙ rw (text_beq_refl call.ip))
        ∙ length-filter (is_live (window + 1) call.now) (r.entries (key_of call.ip) s)
        ∙ h.counted call.ip call.now later

    added-counted :
        (ip : Text) (now : ℕ)
        → call.now ≤ now
        → count_if (is_live (window + 1) now) (r.entries (key_of ip) added)
          ≡ count_if (leb (now - window)) (stamps ip (log ++ entry ∷ []))
    added-counted ip now after = elim (Bool-cases (call.ip == ip)) [
      | inl mine ↦
          rw
            (
              added-entries ip,
              mine,
              Dict.put_absent (named call) call.now (r.entries (key_of ip) pruned) (
                  Dict.Lacks-get (named call) (r.entries (key_of ip) pruned) (
                    subst (λ k. Dict.Lacks (named call) (r.entries (key_of k) pruned))
                      ((text_beq_iff call.ip ip).0 mine) (pruned-IsAbsent call h.absent.0))),
              stamps_mine ip entry log mine,
              count_if-append (is_live (window + 1) now) (r.entries (key_of ip) pruned)
                  ((named call, call.now) ∷ []),
              count_if-append (leb (now - window)) (stamps ip log) (call.now ∷ []),
              pruned-counted ip now after,
              live_same window now (named call, call.now),
            )
            refl
      | inr other ↦
          rw (added-entries ip, other, stamps_other ip entry log other)
            (pruned-counted ip now after)
    ]

    added-IsAbsent :
        (c : Call)
        → ((call.ip == c.ip) ≡ true → (named call == named c) ≡ false)
        → IsAbsent s c
        → IsAbsent added c
    added-IsAbsent c apart gone = elim (Bool-cases (call.ip == c.ip)) [
      | inl mine ↦
          rw (added-entries c.ip, mine)
            (Dict.put-Lacks (named c) (named call) call.now (r.entries (key_of c.ip) pruned)
              (apart mine) (pruned-IsAbsent c gone))
      | inr other ↦ rw (added-entries c.ip, other) (pruned-IsAbsent c gone)
    ]

    full :
        leb max_requests (r.zcard (key_of call.ip) pruned)
        ≡ not (admits max_requests window call.now (stamps call.ip log))
    unfolding admits
    full = rw pruned-zcard (ground arith)

    denied-SharedTracks : SharedTracks call.now log calls pruned
    denied-SharedTracks = record {
      counted = pruned-counted;
      absent = All-map pruned-IsAbsent calls h.absent.1;
    }

    allowed-SharedTracks :
        All (λ c. (call.ip == c.ip) ≡ true → (named call == named c) ≡ false) calls
        → SharedTracks call.now (log ++ entry ∷ []) calls added
    allowed-SharedTracks apart = record {
      counted = added-counted;
      absent = All-zip added-IsAbsent calls apart h.absent.1;
    }

    reply-denied :
        call.reachable ≡ true
        → admits max_requests window call.now (stamps call.ip log) ≡ false
        → redis_is_allowed r limiter call s ≡ (false, pruned)
    unfolding redis_is_allowed script
    reply-denied reached e = rw (reached, full, e) refl

    reply-allowed :
        call.reachable ≡ true
        → admits max_requests window call.now (stamps call.ip log) ≡ true
        → redis_is_allowed r limiter call s ≡ (true, added)
    unfolding redis_is_allowed script
    reply-allowed reached e =
        rw (reached, full, e, zero_leb (max_requests - r.zcard (key_of call.ip) pruned - 1)) refl

  redis_run-SharedTracks :
      (calls : List Call) {t : ℕ} {log : Log} {s : r.State}
      → IsChronological t (timed calls)
      → All (λ c. c.reachable ≡ true) calls
      → AreApart calls
      → SharedTracks t log calls s
      → (redis_run r limiter calls s).0 ≡ spec_run max_requests window log (timed calls)
  unfolding redis_run spec_run
  redis_run-SharedTracks [] c reached apart h = refl
  redis_run-SharedTracks (call ∷ calls) {t} {log} {s} c reached apart h =
      elim (Bool-cases (admits max_requests window call.now (stamps call.ip log))) [
        | inl e ↦
            rw
              (
                reply-allowed call c.0 h reached.0 e,
                e,
                redis_run-SharedTracks calls c.1 reached.1 apart.1
                    (allowed-SharedTracks call c.0 h apart.0),
              )
              refl
        | inr e ↦
            rw
              (
                reply-denied call c.0 h reached.0 e,
                e,
                redis_run-SharedTracks calls c.1 reached.1 apart.1 (denied-SharedTracks call c.0 h),
              )
              refl
      ]

-- For calls in the order of time that reach a server without requests, no two of one client under
-- one name, the limiter that all replicas share replies exactly as the limiter of one process whose
-- window is one tick shorter: a request that lies a whole window back counts in the one and does
-- not in the other.
pub redis_memory_agree :
    (r : SortedSetServer) (max_requests window : ℕ) (calls : List Call) (s : r.State)
    → ((ip : Text) → r.entries (key_of ip) s ≡ [])
    → IsChronological 0 (timed calls)
    → All (λ c. c.reachable ≡ true) calls
    → AreApart r max_requests window calls
    → (redis_run r (one_longer max_requests window) calls s).0
      ≡ (run (timed calls) (fresh max_requests window)).0
redis_memory_agree r max_requests window calls s empty c reached apart =
    redis_run-SharedTracks r max_requests window calls c reached apart (record {
      counted = λ ip now after. rw (empty ip) refl;
      absent = All-all (λ c. rw (empty c.ip) tt) calls;
    })
    ∙ sym (run-eq-spec_run max_requests window (timed calls) c)
