-- ===== src/Packs/Endpoint.antt =====
-- api/endpoints/packs.py: the endpoints that list a pack's versions and set one weight.
use langgraph_agent_stack.Prelude.{
  if◌then◌else◌, ◌==◌, Bool-cases, Option-cases, is_some, Text, text_beq_iff, Result, ok, err, ℕ,
  ◌≡◌, refl, inl, inr, ◌&&◌, Option, none, some, List, [], ◌∷◌, map, arith, text_eq, nat_eq,
}
use mathlib.Core.Path.{subst}
use langgraph_agent_stack.Prelude.Dict
use langgraph_agent_stack.Prelude.Dict.{Dict}
use langgraph_agent_stack.Prelude.Int.{ℤ, pos, negsuc}
use langgraph_agent_stack.Packs.{
  PackVersion, RegistryError, Registry, find_version, set_each, set_weights, get_versions,
}
use langgraph_agent_stack.Packs.Versions.{find_in, version_at}
use langgraph_agent_stack.Packs.Weights.{with_weight, find_version-write}

-- `list_pack_versions`: the versions with their weights, or 404.
unfoldable pub list_pack_versions : Text → Registry → Option (List (Text × ℕ))
list_pack_versions pack_id registry = elim (get_versions pack_id registry) [
  | err e ↦ none
  | ok versions ↦ some (map (λ (pv : PackVersion). (pv.version, pv.weight)) versions)
]

-- The `except` clauses: a `KeyError` is a 404, a `ValueError` a 422.
unfoldable pub weight_status : Result RegistryError (Unit {0}) → ℕ
weight_status (ok u) = 200
weight_status (err RegistryError.unknown_pack) = 404
weight_status (err RegistryError.unknown_version) = 404
weight_status (err e) = 422

-- `update_pack_version_weight`; the weight is none where the body has no number.
unfoldable pub update_pack_version_weight : Text → Text → Option ℤ → Registry → ℕ × Registry
unfolding weight_status
update_pack_version_weight pack_id version none registry = (422, registry)
update_pack_version_weight pack_id version (some weight) registry =
    let (r, registry') = set_weights pack_id ((version, weight) ∷ []) registry in
    (weight_status r, registry')

-- The code that a request should get, from what is registered.
abbrev pub weight_code : Option ℤ → Option (List PackVersion) → Text → ℕ
weight_code none o version = 422
weight_code (some w) none version = 404
weight_code (some (negsuc n)) (some versions) version = 422
weight_code (some (pos w)) (some versions) version =
    if is_some (find_version version versions) then 200 else 404

-- The entry that a version should have after the request.
abbrev pub weight_after : Option ℤ → Option PackVersion → Option PackVersion
weight_after none o = o
weight_after (some (negsuc n)) o = o
weight_after (some (pos w)) o = with_weight w o

single :
    (weight : Option ℤ) (version v : Text) (versions : List PackVersion) (w : ℤ)
    → weight ≡ some w
    → (weight_status (set_each ((version, w) ∷ []) versions).0
        ≡ weight_code weight (some versions) version)
      × (find_version v (set_each ((version, w) ∷ []) versions).1 ≡ (
          if version == v
          then weight_after weight (find_version v versions)
          else find_version v versions))
unfolding set_each weight_status
single weight version v versions (negsuc n) e = rw e (refl, ground arith)
single weight version v versions (pos w) e = rw e (
  ground (arith, find_version-write version v w versions, text_beq_iff version v),
  ground (arith, find_version-write version v w versions, text_beq_iff version v),
)

weight_after-none : (weight : Option ℤ) → weight_after weight none ≡ none
weight_after-none none = refl
weight_after-none (some (negsuc n)) = refl
weight_after-none (some (pos w)) = refl

missing_entry :
    (pack_id other version v : Text) (weight : Option ℤ) (registry : Registry)
    → Dict.get pack_id registry ≡ none
    → find_in v (Dict.get other registry) ≡ (
        if pack_id == other && version == v
        then weight_after weight (find_in v (Dict.get other registry))
        else find_in v (Dict.get other registry))
unfolding find_in
missing_entry pack_id other version v weight registry missing =
    elim (Bool-cases (pack_id == other)) [
      | inr miss ↦ rw miss
      | inl hit ↦
          let missing' : Dict.get other registry ≡ none =
            subst (λ k. Dict.get k registry ≡ none) ((text_beq_iff pack_id other).0 hit) missing in
          rw (hit, missing') (ground (arith, weight_after-none weight))
    ]

-- The endpoint answers 200 exactly for a registered version and a weight that is not negative, and
-- sets that weight; 422 for a missing or negative weight, 404 for what is not registered; no other
-- entry of the registry changes, and on an error none does.
pub update_pack_version_weight_lem :
    (pack_id version other v : Text) (weight : Option ℤ) (registry : Registry)
    → ((update_pack_version_weight pack_id version weight registry).0
        ≡ weight_code weight (Dict.get pack_id registry) version)
      × (version_at other v (update_pack_version_weight pack_id version weight registry).1 ≡ (
          if pack_id == other && version == v
          then weight_after weight (version_at other v registry)
          else version_at other v registry))
unfolding update_pack_version_weight set_weights version_at
update_pack_version_weight_lem pack_id version other v none registry = (refl, ground arith)
update_pack_version_weight_lem pack_id version other v (some w) registry =
    elim (Option-cases (Dict.get pack_id registry)) [
      | inl missing ↦ (
        rw (missing, set_weights, weight_status),
        rw (missing, set_weights) (missing_entry pack_id other version v (some w) registry missing),
      )
      | inr (versions, there) ↦
          let (code, entry) = single (some w) version v versions w refl in
          (
            rw (there, set_weights) code,
            rw
                (
                  there,
                  set_weights,
                  Dict.get-put pack_id other (set_each ((version, w) ∷ []) versions).1 registry,
                )
                (elim (Bool-cases (pack_id == other)) [
                  | inr miss ↦ rw miss
                  | inl hit ↦
                      let there' : Dict.get other registry ≡ some versions =
                        subst (λ k. Dict.get k registry ≡ some versions)
                          ((text_beq_iff pack_id other).0 hit) there in
                      rw (hit, there') (unfold find_in in entry)
                ]),
          )
    ]
