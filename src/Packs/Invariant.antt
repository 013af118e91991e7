-- ===== src/Packs/Invariant.antt =====
-- pack_kernel/registry.py: what holds of the registry through any registrations and weight changes.
use langgraph_agent_stack.Prelude.{
  ◌==◌, Bool-cases, is_some, or_else, length, all, Text, ℕ, ◌≤◌, ◌≡◌, refl, inl, inr, Option, none,
  some, List, [], ◌∷◌, arith, text_eq, nat_eq,
}
use mathlib.Core.Path.{subst}
use langgraph_agent_stack.Prelude.Dict
use langgraph_agent_stack.Prelude.Dict.{Dict}
use langgraph_agent_stack.Prelude.Int.{ℤ, pos, negsuc}
use langgraph_agent_stack.Packs.{
  PackClass, PackVersion, Registry, place, register, write_weight, find_version, set_each,
  set_weights,
}
use langgraph_agent_stack.Packs.Versions.{IsDistinct, IsDistinct-place, IsDistinct-write, entry_of}
use langgraph_agent_stack.Packs.Plugins.Kept.{register_cases}

-- A call that changes the registry.
pub data Call : Type 0 where
  add : PackClass → Call
  weigh : Text → List (Text × ℤ) → Call

unfoldable pub step : Call → Registry → Registry
step (add cls) registry = (register cls registry).1
step (weigh pack_id weights) registry = (set_weights pack_id weights registry).1

unfoldable pub run : List Call → Registry → Registry
run [] registry = registry
run (c ∷ calls) registry = run calls (step c registry)

-- The list of a registered pack has a version, and none twice.
abbrev pub IsSound : Option (List PackVersion) → Type 0
IsSound none = Unit
IsSound (some versions) = (1 ≤ length versions) × IsDistinct versions

place-nonempty : (pv : PackVersion) (versions : List PackVersion) → 1 ≤ length (place pv versions)
unfolding place
place-nonempty pv [] = omega arith
place-nonempty pv (existing ∷ versions) = ground arith

write_weight-length :
    (v : Text) (w : ℕ) (versions : List PackVersion)
    → length (write_weight v w versions) ≡ length versions
unfolding write_weight
write_weight-length v w [] = refl
write_weight-length v w (pv ∷ versions) = ground (arith, write_weight-length v w versions)

set_each-IsSound :
    (weights : List (Text × ℤ)) (versions : List PackVersion)
    → IsSound (some versions)
    → IsSound (some (set_each weights versions).1)
unfolding set_each
set_each-IsSound [] versions h = h
set_each-IsSound ((v, negsuc n) ∷ weights) versions h = h
set_each-IsSound ((v, pos w) ∷ weights) versions h =
    elim (Bool-cases (is_some (find_version v versions))) [
      | inr e ↦ rw e h
      | inl e ↦ rw e (
          set_each-IsSound weights (write_weight v w versions)
            (rw (write_weight-length v w versions) h.0, IsDistinct-write v w versions h.1))
    ]

-- Every entry of the registry is sound.
abbrev AllSound : Registry → Type 0
AllSound registry = (pack_id : Text) → IsSound (Dict.get pack_id registry)

put-AllSound :
    (pack_id : Text) (versions : List PackVersion) (registry : Registry)
    → IsSound (some versions)
    → AllSound registry
    → AllSound (Dict.put pack_id versions registry)
put-AllSound pack_id versions registry h all k = elim (Bool-cases (pack_id == k)) [
  | inl hit ↦ rw (Dict.get-put pack_id k versions registry, hit) h
  | inr miss ↦ rw (Dict.get-put pack_id k versions registry, miss) (all k)
]

placed :
    (pv : PackVersion) (o : Option (List PackVersion))
    → IsSound o
    → IsSound (some (place pv (or_else o [])))
placed pv none h = (place-nonempty pv [], IsDistinct-place pv [] tt)
placed pv (some versions) h = (place-nonempty pv versions, IsDistinct-place pv versions h.1)

step-AllSound : (c : Call) (registry : Registry) → AllSound registry → AllSound (step c registry)
unfolding step set_weights
step-AllSound (add cls) registry h = elim (register_cases cls registry) [
  | inl same ↦ rw same h
  | inr put ↦ rw put (
      put-AllSound (or_else cls.pack_id []) _ registry
        (placed (entry_of cls) (Dict.get (or_else cls.pack_id []) registry)
          (h (or_else cls.pack_id [])))
        h)
]
step-AllSound (weigh pack_id weights) registry h = weighed (Dict.get pack_id registry) refl
  where
    weighed :
        (o : Option (List PackVersion))
        → Dict.get pack_id registry ≡ o
        → AllSound (set_weights pack_id weights registry).1
    weighed none e = subst AllSound (rw (e, set_weights)) h
    weighed (some versions) e = subst AllSound (rw (e, set_weights)) (
        put-AllSound pack_id (set_each weights versions).1 registry
          (set_each-IsSound weights versions (rw e at (h pack_id))) h)

run-AllSound :
    (calls : List Call) (registry : Registry) → AllSound registry → AllSound (run calls registry)
unfolding run
run-AllSound [] registry h = h
run-AllSound (c ∷ calls) registry h =
    run-AllSound calls (step c registry) (step-AllSound c registry h)

-- After any registrations and weight changes, refused ones included, every registered pack has at
-- least one version, and no version stands twice in its list.
pub run-IsSound :
    (calls : List Call) (pack_id : Text) (versions : List PackVersion)
    → Dict.get pack_id (run calls []) ≡ some versions
    → (1 ≤ length versions) × IsDistinct versions
run-IsSound calls pack_id versions e =
    rw e at (run-AllSound calls [] (λ k. unfold Dict.get in tt) pack_id)
