-- ===== src/Packs.antt =====
-- pack_kernel/registry.py: `PackRegistry`, the versions of each pack with their traffic weights.
-- A weight is a whole number of thousandths, so that 1.0 is 1000 and sums are exact. A method runs
-- under the class lock, so it is one step; what it raises stands beside the registry that it leaves.
pub mod Selection
pub mod Versions
pub mod Weights
pub mod Endpoint
pub mod Invariant
pub mod Plugins
mod Tests
use langgraph_agent_stack.Prelude.{
  ltb, if◌then◌else◌, ◌==◌, is_some, or_else, Text, text, nonempty, Result, ok, err, ℕ, ◌+◌, Bool,
  true, not, Option, none, some, List, [], ◌∷◌, ◌++◌, map, text_eq, nat_eq,
}
use langgraph_agent_stack.Prelude.Dict
use langgraph_agent_stack.Prelude.Dict.{Dict}
use langgraph_agent_stack.Prelude.Int.{ℤ, pos, negsuc}

-- A pack class: what the registry reads of it. `class_id` tells classes apart; an attribute that is
-- not declared is none.
pub record PackClass : Type 0 where
  pub class_id : ℕ
  pub pack_id : Option Text
  pub name : Option Text
  pub description : Option Text
  pub version : Option Text

pub record PackVersion : Type 0 where
  pub version : Text
  pub pack_cls : PackClass
  pub weight : ℕ

abbrev pub default_weight : ℕ
default_weight = 1000

pub data RegistryError : Type 0 where
  missing_pack_id missing_name missing_description : RegistryError
  unknown_pack unknown_version no_positive_weight negative_weight : RegistryError

abbrev pub Registry : Type 0
Registry = Dict Text (List PackVersion)

-- `not getattr(pack_cls, attr, None)`: missing or empty.
abbrev pub is_missing : Option Text → Bool
is_missing none = true
is_missing (some t) = not (nonempty t)

-- `for i, existing in enumerate(versions): if existing.version == version: versions[i] = pv; break`,
-- with `versions.append(pv)` in the `else` clause.
unfoldable pub place : PackVersion → List PackVersion → List PackVersion
place pv [] = pv ∷ []
place pv (existing ∷ versions) =
    let rest = place pv versions in
    if existing.version == pv.version then pv ∷ versions else existing ∷ rest

unfoldable pub register : PackClass → Registry → Result RegistryError (Unit {0}) × Registry
unfolding place
register cls registry =
    if is_missing cls.pack_id
    then (err missing_pack_id, registry)
    else if is_missing cls.name
    then (err missing_name, registry)
    else if is_missing cls.description
    then (err missing_description, registry)
    else (let pack_id = or_else cls.pack_id [] in
        let pv : PackVersion = record {
          version = or_else cls.version (text "1.0");
          pack_cls = cls;
          weight = default_weight;
        } in
        (ok tt, Dict.put pack_id (place pv (or_else (Dict.get pack_id registry) [])) registry))

-- `for pv in versions: if pv.version == version: return pv.pack_cls`
unfoldable pub find_version : Text → List PackVersion → Option PackVersion
find_version version [] = none
find_version version (pv ∷ versions) =
    if pv.version == version then some pv else find_version version versions

unfoldable pub total_weight : List PackVersion → ℕ
total_weight [] = 0
total_weight (pv ∷ versions) = pv.weight + total_weight versions

-- `versions[-1]`
unfoldable pub last_version : PackVersion → List PackVersion → PackVersion
last_version pv [] = pv
last_version pv (pv' ∷ versions) = last_version pv' versions

-- Python's floats: the addition, `sum`, which need not add up in the same way, the value of a
-- weight, `digest / 0xFFFFFFFF * total`, and the comparison `<=`.
pub record Floats : Type 1 where
  pub Float : Type 0
  pub zero : Float
  pub of_weight : ℕ → Float
  pub plus : Float → Float → Float
  pub sum : List Float → Float
  pub scaled : ℕ → Float → Float
  pub at_most : Float → Float → Bool

abbrev pub cumulative : (floats : Floats) → floats.Float → List ℕ → floats.Float
cumulative floats so_far [] = so_far
cumulative floats so_far (w ∷ weights) =
    cumulative floats (floats.plus so_far (floats.of_weight w)) weights

-- `threshold <= cumulative`, where all the weights are `all_weights` and the loop has added up those
-- of `seen`, for an affinity key whose digest starts with the 32-bit number `digest`.
unfoldable pub float_test : Floats → ℕ → List ℕ → List ℕ → Bool
float_test floats digest all_weights seen =
    floats.at_most (floats.scaled digest (floats.sum (map floats.of_weight all_weights)))
      (cumulative floats floats.zero seen)

abbrev pub weights_of : List PackVersion → List ℕ
weights_of [] = []
weights_of (pv ∷ versions) = pv.weight ∷ weights_of versions

-- The loop of `_select_weighted_pack_version`, with its test.
unfoldable pub sticky_from :
    (List ℕ → List ℕ → Bool) → List ℕ → List ℕ → PackVersion → List PackVersion → PackVersion
sticky_from reaches all_weights seen last [] = last
sticky_from reaches all_weights seen last (pv ∷ versions) =
    let seen' = seen ++ pv.weight ∷ [] in
    let rest = sticky_from reaches all_weights seen' last versions in
    if reaches all_weights seen' then pv else rest

unfoldable pub select_sticky :
    (List ℕ → List ℕ → Bool) → PackVersion → List PackVersion → PackVersion
unfolding sticky_from last_version
select_sticky reaches pv versions =
    sticky_from reaches (weights_of (pv ∷ versions)) [] (last_version pv versions) (pv ∷ versions)

-- `random.choices(versions, weights, k=1)`: the first version whose cumulative weight passes the
-- draw, a number below the total.
unfoldable pub choose_from : ℕ → ℕ → PackVersion → List PackVersion → PackVersion
choose_from draw cumulative first [] = first
choose_from draw cumulative first (pv ∷ versions) =
    let cumulative' = cumulative + pv.weight in
    let rest = choose_from draw cumulative' first versions in
    if ltb draw cumulative' then pv else rest

-- What decides a weighted choice: the test for the digest of the caller's affinity key, or a random
-- draw.
pub data Pick : Type 0 where
  sticky : (List ℕ → List ℕ → Bool) → Pick
  random : ℕ → Pick

-- `if affinity_key:`, with the first 32 bits of its SHA-256 digest, and the draw of `random`.
unfoldable pub pick_for : Floats → (Text → ℕ) → Option Text → ℕ → Pick
unfolding float_test
pick_for floats digest none draw = random draw
pick_for floats digest (some key) draw =
    if nonempty key then sticky (float_test floats (digest key)) else random draw

unfoldable pub select_weighted_pack_version : Pick → PackVersion → List PackVersion → PackVersion
unfolding select_sticky choose_from last_version
select_weighted_pack_version (sticky reaches) pv versions = select_sticky reaches pv versions
select_weighted_pack_version (random draw) pv versions =
    choose_from draw 0 (last_version pv versions) (pv ∷ versions)

-- The end of `get`, where no version is asked for.
unfoldable pub get_weighted : Pick → List PackVersion → Result RegistryError PackVersion
get_weighted pick [] = err no_positive_weight
get_weighted pick (pv ∷ []) = ok pv
get_weighted pick (pv ∷ pv' ∷ versions) =
    if total_weight (pv ∷ pv' ∷ versions) == 0
    then err no_positive_weight
    else ok (select_weighted_pack_version pick pv (pv' ∷ versions))

unfoldable pub found_version : Option PackVersion → Result RegistryError PackVersion
found_version none = err unknown_version
found_version (some pv) = ok pv

-- `get`, with the registry's entry: the caller reads `pack_cls` of it.
unfoldable pub get : Text → Option Text → Pick → Registry → Result RegistryError PackVersion
unfolding get_weighted found_version
get pack_id version pick registry = elim (Dict.get pack_id registry) [
  | none ↦ err unknown_pack
  | some versions ↦ elim version [
    | none ↦ get_weighted pick versions
    | some v ↦ found_version (find_version v versions)
  ]
]

-- `pv.weight = weight` on the first version of that name.
unfoldable pub write_weight : Text → ℕ → List PackVersion → List PackVersion
write_weight version weight [] = []
write_weight version weight (pv ∷ versions) =
    let rest = write_weight version weight versions in
    if pv.version == version then record pv { weight = weight } ∷ versions else pv ∷ rest

-- The loop of `set_weights`: the weights are written one by one, until one is refused.
unfoldable pub set_each :
    List (Text × ℤ) → List PackVersion → Result RegistryError (Unit {0}) × List PackVersion
set_each [] versions = (ok tt, versions)
set_each ((version, negsuc n) ∷ weights) versions = (err negative_weight, versions)
set_each ((version, pos weight) ∷ weights) versions =
    let rest = set_each weights (write_weight version weight versions) in
    if is_some (find_version version versions) then rest else (err unknown_version, versions)

unfoldable pub set_weights :
    Text → List (Text × ℤ) → Registry → Result RegistryError (Unit {0}) × Registry
unfolding set_each
set_weights pack_id weights registry = elim (Dict.get pack_id registry) [
  | none ↦ (err unknown_pack, registry)
  | some versions ↦
      let (r, versions') = set_each weights versions in (r, Dict.put pack_id versions' registry)
]

-- `list_packs`, before it is sorted.
unfoldable pub list_packs : Registry → List Text
list_packs registry = Dict.keys registry

-- `_get_versions`
unfoldable pub get_versions : Text → Registry → Result RegistryError (List PackVersion)
get_versions pack_id registry = elim (Dict.get pack_id registry) [
  | none ↦ err unknown_pack
  | some versions ↦ ok versions
]
