-- ===== src/Agents/Sources.antt =====
-- agents/researcher.py: the citations in a research result.
use langgraph_agent_stack.Prelude.{
  ◌==◌, Bool-cases, length, take, mem, Text, text, nonempty, ℕ, ◌+◌, ◌≤◌, ◌≡◌, refl, ap, ◌∙◌, inl,
  inr, Bool, true, false, ◌||◌, Option, none, some, List, [], ◌∷◌, ◌++◌, text_eq, nat_eq,
}
use mathlib.Core.List.{append-nil}
use langgraph_agent_stack.Agents.Rounds.{
  Post, bind-Post, asked-NoLimit, search_all-NoLimit, with_step-Post,
}
use langgraph_agent_stack.Agents.Graph.{
  stepped, asked, add_found, found_state, research_answered, research_step, node_research,
  verdict_of, can_slice, judged, assessed, assessment_of, assess, node_validate,
}
use langgraph_agent_stack.Agents.Research.{
  expansion, Services, ResearchResult, ResearchState, sub_queries_of, Found, search_all, ids_of,
  collect, fetch_connector_records, unique,
}
use langgraph_agent_stack.Agents.{Record, SourceRef, record_to_source_ref}
use langgraph_agent_stack.Prelude.Json.{Json, string}

-- No text stands twice, and none is among `seen`.
abbrev pub AreDistinct : List Text → List Text → Type 0
AreDistinct seen [] = Unit
AreDistinct seen (a ∷ rest) = (mem a seen ≡ false) × AreDistinct (a ∷ seen) rest

unique-AreDistinct : (seen rest : List Text) → AreDistinct seen (unique seen rest)
unfolding unique
unique-AreDistinct seen [] = tt
unique-AreDistinct seen (a ∷ rest) = elim (Bool-cases (mem a seen)) [
  | inl again ↦ rw again (unique-AreDistinct seen rest)
  | inr new ↦ rw new (new, unique-AreDistinct (a ∷ seen) rest)
]

collect-AreDistinct :
    (taken : List Text) (count : ℕ) (records : List Record)
    → AreDistinct taken (ids_of (collect taken count records).refs)
unfolding collect
collect-AreDistinct taken count [] = tt
collect-AreDistinct taken count (rec ∷ records) =
    let id = (record_to_source_ref rec (count + 1)).id in
    elim (Bool-cases (mem id taken)) [
      | inl again ↦ rw again (collect-AreDistinct taken count records)
      | inr new ↦ rw new (new, collect-AreDistinct (id ∷ taken) (count + 1) records)
    ]

AreDistinct-same :
    (seen seen' rest : List Text)
    → ((a : Text) → mem a seen' ≡ mem a seen)
    → AreDistinct seen rest
    → AreDistinct seen' rest
AreDistinct-same seen seen' [] same h = tt
AreDistinct-same seen seen' (a ∷ rest) same h = (
  same a ∙ h.0,
  AreDistinct-same (a ∷ seen) (a ∷ seen') rest (λ b. ap (◌||◌ (b == a)) (same b)) h.1,
)

or_swap : (a b c : Bool) → (a || (b || c)) ≡ (b || (a || c))
or_swap true true c = refl
or_swap true false c = refl
or_swap false true c = refl
or_swap false false c = refl

mem-move : (a b : Text) (xs seen : List Text) → mem b (xs ++ a ∷ seen) ≡ mem b (a ∷ xs ++ seen)
mem-move a b [] seen = refl
mem-move a b (x ∷ xs) seen =
    ap (◌||◌ (b == x)) (mem-move a b xs seen) ∙ or_swap (b == x) (b == a) (mem b (xs ++ seen))

AreDistinct-append :
    (xs ys seen : List Text)
    → AreDistinct seen xs
    → AreDistinct (xs ++ seen) ys
    → AreDistinct seen (xs ++ ys)
AreDistinct-append [] ys seen hx hy = hy
AreDistinct-append (a ∷ xs) ys seen hx hy = (
  hx.0,
  AreDistinct-append xs ys (a ∷ seen) hx.1
      (AreDistinct-same (a ∷ xs ++ seen) (xs ++ a ∷ seen) ys (λ b. mem-move a b xs seen) hy),
)

ids_of-append : (a b : List SourceRef) → ids_of (a ++ b) ≡ ids_of a ++ ids_of b
ids_of-append [] b = refl
ids_of-append (ref ∷ a) b = ap (◌∷◌ ref.id) (ids_of-append a b)

-- What holds between the nodes.
abbrev pub IsSourced : ResearchState → Type 0
IsSourced s =
    AreDistinct [] s.sources × AreDistinct [] (ids_of s.source_refs) × (s.research_result ≡ none)

add_found-IsSourced :
    (s : ResearchState) (searched : Found) (records : List Record)
    → IsSourced s
    → IsSourced
        (add_found s searched (collect (ids_of s.source_refs) (length s.source_refs) records))
add_found-IsSourced s searched records h =
    let fetched = collect (ids_of s.source_refs) (length s.source_refs) records in
    (
      unique-AreDistinct [] (s.sources ++ (searched.sources ++ fetched.sources)),
      rw (ids_of-append s.source_refs fetched.refs) (
          AreDistinct-append (ids_of s.source_refs) (ids_of fetched.refs) [] h.1 (
            rw (append-nil (ids_of s.source_refs))
              (collect-AreDistinct (ids_of s.source_refs) (length s.source_refs) records))),
      h.2,
    )

pub research-IsSourced :
    (services : Services) (max_steps : ℕ) (s : ResearchState)
    → IsSourced s
    → Post IsSourced (node_research services max_steps s)
unfolding node_research
research-IsSourced services max_steps s h =
    with_step-Post IsSourced max_steps s (research_step services) (λ agent counted within.
      bind-Post IsSourced (asked services (stepped s agent) (expansion s.query))
        (research_answered services (stepped s agent))
        (asked-NoLimit services (stepped s agent) (expansion s.query))
        (λ answer.
          bind-Post IsSourced
            (search_all services.web_search
              (take 3 (sub_queries_of services.py_str s.query (services.json_loads answer))))
            (found_state services (stepped s agent))
            (search_all-NoLimit services.web_search
              (take 3 (sub_queries_of services.py_str s.query (services.json_loads answer))))
            (λ searched.
              add_found-IsSourced (stepped s agent) searched
                (fetch_connector_records services.fetch s.query) h)))

judged-IsSourced :
    (s : ResearchState) (verdict : Bool × Json) → IsSourced s → Post IsSourced (judged s verdict)
judged-IsSourced s (sufficient, reason) h = elim (Bool-cases (can_slice reason)) [
  | inl fits ↦ rw (Post, fits) h
  | inr bad ↦ rw (Post, bad) refl
]

assess-IsSourced :
    (services : Services) (s : ResearchState) → IsSourced s → Post IsSourced (assess services s)
assess-IsSourced services s h = elim (Bool-cases (nonempty s.findings)) [
  | inr none_yet ↦
      rw (Post, none_yet) (judged-IsSourced s (false, string (text "No findings retrieved.")) h)
  | inl some_found ↦
      rw (Post, some_found)
        (bind-Post IsSourced (asked services s (assessment_of s)) (assessed services s)
          (asked-NoLimit services s (assessment_of s))
          (λ answer. judged-IsSourced s (verdict_of (services.json_loads answer)) h))
]

pub validate-IsSourced :
    (services : Services) (max_steps : ℕ) (s : ResearchState)
    → IsSourced s
    → Post IsSourced (node_validate services max_steps s)
unfolding node_validate
validate-IsSourced services max_steps s h =
    with_step-Post IsSourced max_steps s (assess services)
      (λ agent counted within. assess-IsSourced services (stepped s agent) h)

-- What the result of a run holds.
abbrev pub IsCited : Services → ResearchResult → Type 0
IsCited services r =
    AreDistinct [] r.sources × AreDistinct [] (ids_of r.source_refs) × (r.confidence ≤ services.one)

abbrev pub HasCited : Services → Option ResearchResult → Type 0
HasCited services none = Unit
HasCited services (some r) = IsCited services r
