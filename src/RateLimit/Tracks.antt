-- ===== src/RateLimit/Tracks.antt =====
-- core/security.py: the buckets of `RateLimiter` against the whole history. Pruning and eviction
-- drop only times that no later window can hold.
use langgraph_agent_stack.Prelude.{
  leb, if◌then◌else◌, ◌==◌, Bool-cases, or_else, length, all, All, length-append, length-filter-le,
  Text, text_beq_iff, ℕ, ◌-◌, ◌≤◌, ◌<◌, ◌≡◌, refl, sym, ap, ◌∙◌, inl, inr, false, not, Option, none,
  some, List, [], ◌∷◌, ◌++◌, arith, text_eq, nat_eq,
}
use mathlib.Core.Path.{subst}
use langgraph_agent_stack.Prelude.Dict
use langgraph_agent_stack.Prelude.Dict.{Dict}
use langgraph_agent_stack.RateLimit.{RateLimiter, prune, is_stale, evict_stale}
use langgraph_agent_stack.RateLimit.Sorted.{
  IsSorted, recent, prune-recent, recent_twice, recent-append, length-recent, IsSorted-recent,
  below-recent, IsSorted-snoc, below-snoc, below_later, stale-recent,
}
use langgraph_agent_stack.RateLimit.Window.{Log, stamps, admits}

-- What the eviction leaves of a bucket that is looked up.
abbrev pub survives : ℕ → Option (List ℕ) → Option (List ℕ)
survives cutoff none = none
survives cutoff (some bucket) = if is_stale cutoff bucket then none else some bucket

evict_stale-Lacks :
    (cutoff : ℕ) (k : Text) (d : Dict Text (List ℕ))
    → Dict.Lacks k d
    → Dict.Lacks k (evict_stale cutoff d)
unfolding evict_stale
evict_stale-Lacks cutoff k [] h = h
evict_stale-Lacks cutoff k ((ip, bucket) ∷ d) h = elim (Bool-cases (is_stale cutoff bucket)) [
  | inl e ↦ rw e (evict_stale-Lacks cutoff k d h.1)
  | inr e ↦ rw e (h.0, evict_stale-Lacks cutoff k d h.1)
]

pub evict_stale-IsUnique :
    (cutoff : ℕ) (d : Dict Text (List ℕ)) → Dict.IsUnique d → Dict.IsUnique (evict_stale cutoff d)
unfolding evict_stale
evict_stale-IsUnique cutoff [] h = h
evict_stale-IsUnique cutoff ((ip, bucket) ∷ d) h = elim (Bool-cases (is_stale cutoff bucket)) [
  | inl e ↦ rw e (evict_stale-IsUnique cutoff d h.1)
  | inr e ↦ rw e (evict_stale-Lacks cutoff ip d h.0, evict_stale-IsUnique cutoff d h.1)
]

pub get-evict_stale :
    (cutoff : ℕ) (k : Text) (d : Dict Text (List ℕ))
    → Dict.IsUnique d
    → Dict.get k (evict_stale cutoff d) ≡ survives cutoff (Dict.get k d)
unfolding evict_stale Dict.get
get-evict_stale cutoff k [] h = refl
get-evict_stale cutoff k ((ip, bucket) ∷ d) h = elim (Bool-cases (ip == k)) [
  | inr miss ↦ ground (arith, miss, get-evict_stale cutoff k d h.1)
  | inl hit ↦
      let gone : Dict.get k d ≡ none =
        Dict.Lacks-get k d (subst (λ j. Dict.Lacks j d) ((text_beq_iff ip k).0 hit) h.0) in
      ground (arith, hit, get-evict_stale cutoff k d h.1, gone)
]

-- A bucket against the whole history `ts` of its client, at the time `t`.
pub record BucketTracks (max_requests window t : ℕ) (bucket ts : List ℕ) : Type 0 where
  pub sorted : IsSorted bucket
  pub below : All (λ u. u ≤ t) bucket
  pub bounded : length bucket ≤ max_requests
  pub same : recent (t - window) bucket ≡ recent (t - window) ts

module _ (max_requests window now : ℕ) where
  abbrev cutoff : ℕ
  cutoff = now - window

  pub BucketTracks-later :
      {t : ℕ} {bucket ts : List ℕ}
      → t ≤ now
      → BucketTracks max_requests window t bucket ts
      → BucketTracks max_requests window now bucket ts
  BucketTracks-later {t} {bucket} {ts} h b = record {
    sorted = b.sorted;
    below = below_later t now bucket h b.below;
    bounded = b.bounded;
    same =
        sym (recent_twice (t - window) cutoff bucket (omega arith))
        ∙ ap (recent cutoff) b.same
        ∙ recent_twice (t - window) cutoff ts (omega arith);
  }

  pub BucketTracks-prune :
      {bucket ts : List ℕ}
      → BucketTracks max_requests window now bucket ts
      → BucketTracks max_requests window now (prune cutoff bucket) ts
  BucketTracks-prune {bucket} {ts} b = rw (prune-recent cutoff bucket b.sorted) (record {
    sorted = IsSorted-recent cutoff bucket b.sorted;
    below = below-recent now cutoff bucket b.below;
    bounded = omega (arith, length-filter-le (leb cutoff) bucket, b.bounded);
    same = recent_twice cutoff cutoff bucket (omega arith) ∙ b.same;
  })

  pub BucketTracks-snoc :
      {bucket ts : List ℕ}
      → length bucket < max_requests
      → BucketTracks max_requests window now bucket ts
      → BucketTracks max_requests window now (bucket ++ now ∷ []) (ts ++ now ∷ [])
  BucketTracks-snoc {bucket} {ts} room b = record {
    sorted = IsSorted-snoc bucket now b.sorted b.below;
    below = below-snoc bucket now b.below;
    bounded = omega (arith, length-append bucket (now ∷ []));
    same = rw (recent-append cutoff bucket (now ∷ []), recent-append cutoff ts (now ∷ []), b.same);
  }

  BucketTracks-evict :
      (o : Option (List ℕ)) {ts : List ℕ}
      → BucketTracks max_requests window now (or_else o []) ts
      → BucketTracks max_requests window now (or_else (survives cutoff o) []) ts
  BucketTracks-evict none b = b
  BucketTracks-evict (some bucket) {ts} b = elim (Bool-cases (is_stale cutoff bucket)) [
    | inr fresh ↦ rw fresh b
    | inl stale ↦ rw stale (record {
      sorted = tt;
      below = tt;
      bounded = omega arith;
      same = sym (stale-recent cutoff bucket b.sorted stale) ∙ b.same;
    })
  ]

  -- The pruned bucket is full exactly when the history has no room in the window.
  pub full-admits :
      {bucket ts : List ℕ}
      → BucketTracks max_requests window now bucket ts
      → leb max_requests (length (prune cutoff bucket)) ≡ not (admits max_requests window now ts)
  unfolding admits
  full-admits {bucket} {ts} b =
      rw (prune-recent cutoff bucket b.sorted, b.same, length-recent cutoff ts) (ground arith)

-- The limiter at the time `t` against the log of all that it let through.
pub record Tracks (max_requests window t : ℕ) (log : Log) (s : RateLimiter) : Type 0 where
  pub max_requests_same : s.max_requests ≡ max_requests
  pub window_same : s.window ≡ window
  pub unique : Dict.IsUnique s.buckets
  pub at :
      (ip : Text)
      → BucketTracks max_requests window t (or_else (Dict.get ip s.buckets) []) (stamps ip log)

-- All buckets of a dictionary track the log.
abbrev pub AllTrack : ℕ → ℕ → ℕ → Log → Dict Text (List ℕ) → Type 0
AllTrack max_requests window now log d =
    (ip : Text) → BucketTracks max_requests window now (or_else (Dict.get ip d) []) (stamps ip log)

module _ (max_requests window now : ℕ) (ip : Text) (log : Log) (d : Dict Text (List ℕ)) where
  pub put-AllTrack :
      (bucket : List ℕ) (log' : Log)
      → AllTrack max_requests window now log d
      → BucketTracks max_requests window now bucket (stamps ip log')
      → ((k : Text) → (ip == k) ≡ false → stamps k log' ≡ stamps k log)
      → AllTrack max_requests window now log' (Dict.put ip bucket d)
  put-AllTrack bucket log' all mine others k = elim (Bool-cases (ip == k)) [
    | inl hit ↦
        rw (Dict.get-put ip k bucket d, hit)
          (subst (λ j. BucketTracks max_requests window now bucket (stamps j log'))
            ((text_beq_iff ip k).0 hit) mine)
    | inr miss ↦ rw (Dict.get-put ip k bucket d, miss, others k miss) (all k)
  ]

  pub evict-AllTrack :
      Dict.IsUnique d
      → AllTrack max_requests window now log d
      → AllTrack max_requests window now log (evict_stale (now - window) d)
  evict-AllTrack u all k =
      rw (get-evict_stale (now - window) k d u)
        (BucketTracks-evict max_requests window now (Dict.get k d) (all k))
