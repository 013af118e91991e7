-- ===== src/Packs/Weights.antt =====
-- pack_kernel/registry.py and api/endpoints/packs.py: what `set_weights` writes, and what it leaves
-- behind when it raises.
use langgraph_agent_stack.Prelude.{
  if◌then◌else◌, ◌==◌, Bool-cases, Option-cases, is_some, Text, text_beq_refl, text_beq_iff, ok,
  err, ℕ, ◌≡◌, refl, inl, inr, Option, none, some, List, [], ◌∷◌, arith, text_eq, nat_eq,
}
use mathlib.Core.Path.{subst}
use langgraph_agent_stack.Prelude.Dict
use langgraph_agent_stack.Prelude.Dict.{Dict}
use langgraph_agent_stack.Prelude.Int.{ℤ, pos, negsuc}
use langgraph_agent_stack.Packs.{
  PackVersion, Registry, find_version, write_weight, set_each, set_weights, negative_weight,
}
use langgraph_agent_stack.Packs.Versions.{find_in, version_at}

-- The entry with a new weight.
abbrev pub with_weight : ℕ → Option PackVersion → Option PackVersion
with_weight w none = none
with_weight w (some pv) = some (record pv { weight = w })

pub find_version-write :
    (v version : Text) (w : ℕ) (versions : List PackVersion)
    → find_version version (write_weight v w versions) ≡ (
        if v == version
        then with_weight w (find_version version versions)
        else find_version version versions)
unfolding find_version write_weight
find_version-write v version w [] = ground arith
find_version-write v version w (pv ∷ versions) = ground (
  arith,
  find_version-write v version w versions,
  text_beq_iff pv.version v,
  text_beq_iff pv.version version,
  text_beq_iff v version,
)

-- The weight that the loop leaves for a version: that of its last entry.
abbrev pub assign : List (Text × ℤ) → Text → Option PackVersion → Option PackVersion
assign [] version o = o
assign ((v, negsuc n) ∷ weights) version o = o
assign ((v, pos w) ∷ weights) version o =
    assign weights version (if v == version then with_weight w o else o)

set_each-ok :
    (weights : List (Text × ℤ)) (versions : List PackVersion) (version : Text)
    → (set_each weights versions).0 ≡ ok tt
    → find_version version (set_each weights versions).1
      ≡ assign weights version (find_version version versions)
unfolding set_each
set_each-ok [] versions version h = refl
set_each-ok ((v, negsuc n) ∷ weights) versions version h = refl
set_each-ok ((v, pos w) ∷ weights) versions version h =
    elim (Bool-cases (is_some (find_version v versions))) [
      | inl e ↦
          rw (e, ← find_version-write v version w versions)
            (set_each-ok weights (write_weight v w versions) version (rw e at h))
      | inr e ↦ absurd (cc (rw e at h))
    ]

-- When `set_weights` returns, each version of the pack has the weight that the last entry with its
-- name gives it, or the weight that it had where none does; its class stays, and every other pack
-- stays as it is.
pub set_weights-ok :
    (pack_id other version : Text) (weights : List (Text × ℤ)) (registry : Registry)
    → (set_weights pack_id weights registry).0 ≡ ok tt
    → version_at other version (set_weights pack_id weights registry).1 ≡ (
        if pack_id == other
        then assign weights version (version_at other version registry)
        else version_at other version registry)
unfolding set_weights version_at
set_weights-ok pack_id other version weights registry h =
    elim (Option-cases (Dict.get pack_id registry)) [
      | inl missing ↦ absurd (cc (rw (missing, set_weights) at h))
      | inr (versions, there) ↦
          rw (there, set_weights, Dict.get-put pack_id other (set_each weights versions).1 registry)
            (elim (Bool-cases (pack_id == other)) [
              | inr miss ↦ rw miss
              | inl hit ↦
                  let there' : Dict.get other registry ≡ some versions =
                    subst (λ k. Dict.get k registry ≡ some versions)
                      ((text_beq_iff pack_id other).0 hit) there in
                  rw (hit, there')
                    (unfold find_in in
                      set_each-ok weights versions version (rw (there, set_weights) at h))
            ])
    ]

-- `set_weights` is not atomic: where an entry with a negative weight follows one that is written,
-- the call raises, and the weight that was written stays.
pub set_weights_partial :
    (pack_id v v' : Text) (w n : ℕ) (weights : List (Text × ℤ)) (registry : Registry)
    (pv : PackVersion)
    → version_at pack_id v registry ≡ some pv
    → ((set_weights pack_id ((v, pos w) ∷ (v', negsuc n) ∷ weights) registry).0
        ≡ err negative_weight)
      × (version_at pack_id v
            (set_weights pack_id ((v, pos w) ∷ (v', negsuc n) ∷ weights) registry).1
          ≡ some (record pv { weight = w }))
unfolding set_weights set_each version_at find_in
set_weights_partial pack_id v v' w n weights registry pv h =
    elim (Option-cases (Dict.get pack_id registry)) [
      | inl missing ↦ absurd (cc (rw (missing, find_in) at h))
      | inr (versions, there) ↦
          let there' : find_version v versions ≡ some pv = rw (there, find_in) at h in
          (
            rw (there, set_weights, there'),
            rw (
              there,
              set_weights,
              there',
              Dict.get-put,
              text_beq_refl pack_id,
              find_in,
              find_version-write v v w versions,
              text_beq_refl v,
              there',
            ),
          )
    ]
