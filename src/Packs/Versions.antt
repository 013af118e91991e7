-- ===== src/Packs/Versions.antt =====
-- pack_kernel/registry.py: the registry as a map from a pack and a version to an entry, and the
-- invariant of the version lists.
use langgraph_agent_stack.Prelude.{
  if◌then◌else◌, ◌==◌, Bool-cases, or_else, All, Text, text, text_beq_iff, ok, ℕ, ◌≡◌, refl, ◌∙◌,
  inl, inr, false, ◌&&◌, Option, none, some, List, [], ◌∷◌, arith, text_eq, nat_eq,
}
use mathlib.Core.Path.{subst}
use langgraph_agent_stack.Prelude.Dict
use langgraph_agent_stack.Prelude.Dict.{Dict}
use langgraph_agent_stack.Packs.{
  PackClass, PackVersion, Registry, is_missing, default_weight, place, register, find_version,
  write_weight,
}

unfoldable pub find_in : Text → Option (List PackVersion) → Option PackVersion
find_in version none = none
find_in version (some versions) = find_version version versions

-- The entry of a version of a pack, if it is registered.
unfoldable pub version_at : Text → Text → Registry → Option PackVersion
unfolding find_in
version_at pack_id version registry = find_in version (Dict.get pack_id registry)

-- The entry that `register` makes of a class.
unfoldable pub entry_of : PackClass → PackVersion
entry_of cls = record {
  version = or_else cls.version (text "1.0");
  pack_cls = cls;
  weight = default_weight;
}

pub find_version-place :
    (pv : PackVersion) (version : Text) (versions : List PackVersion)
    → find_version version (place pv versions)
      ≡ (if pv.version == version then some pv else find_version version versions)
unfolding find_version place
find_version-place pv version [] = refl
find_version-place pv version (existing ∷ versions) = ground (
  arith,
  find_version-place pv version versions,
  text_beq_iff existing.version pv.version,
  text_beq_iff existing.version version,
  text_beq_iff pv.version version,
)

pub find_in-place :
    (pv : PackVersion) (version : Text) (o : Option (List PackVersion))
    → find_version version (place pv (or_else o []))
      ≡ (if pv.version == version then some pv else find_in version o)
unfolding find_in
find_in-place pv version none = find_version-place pv version [] ∙ unfold find_version in refl
find_in-place pv version (some versions) = find_version-place pv version versions

entry_lem :
    (id pack_id version : Text) (pv : PackVersion) (registry : Registry)
    → find_in version
        (Dict.get pack_id (Dict.put id (place pv (or_else (Dict.get id registry) [])) registry))
      ≡ (if id == pack_id && pv.version == version
          then some pv
          else find_in version (Dict.get pack_id registry))
unfolding find_in
entry_lem id pack_id version pv registry =
    rw (Dict.get-put id pack_id (place pv (or_else (Dict.get id registry) [])) registry)
      (elim (Bool-cases (id == pack_id)) [
        | inr miss ↦ rw miss
        | inl hit ↦ rw hit (
            subst
              (λ k. find_version version (place pv (or_else (Dict.get id registry) [])) ≡ (
                if pv.version == version then some pv else find_in version (Dict.get k registry)))
              ((text_beq_iff id pack_id).0 hit) (find_in-place pv version (Dict.get id registry)))
      ])

abbrev pub IsDeclared : PackClass → Type 0
IsDeclared cls =
    (is_missing cls.pack_id ≡ false)
    × (is_missing cls.name ≡ false)
    × (is_missing cls.description ≡ false)

-- A class with a pack id, a name and a description is registered with weight 1.0 under its pack
-- and version; every other version of every pack has the entry that it had.
pub version_at-register :
    (cls : PackClass) (registry : Registry) (pack_id version : Text)
    → IsDeclared cls
    → ((register cls registry).0 ≡ ok tt)
      × (version_at pack_id version (register cls registry).1 ≡ (
          if or_else cls.pack_id [] == pack_id && (entry_of cls).version == version
          then some (entry_of cls)
          else version_at pack_id version registry))
unfolding register version_at entry_of
version_at-register cls registry pack_id version (a, b, c) = (
  rw (a, b, c),
  rw (a, b, c) (entry_lem (or_else cls.pack_id []) pack_id version (entry_of cls) registry),
)

-- No version stands twice in a list.
abbrev pub Unlisted : Text → List PackVersion → Type 0
Unlisted version = All (λ (pv : PackVersion). (pv.version == version) ≡ false)

abbrev pub IsDistinct : List PackVersion → Type 0
IsDistinct [] = Unit
IsDistinct (pv ∷ versions) = Unlisted pv.version versions × IsDistinct versions

Unlisted-place :
    (version : Text) (pv : PackVersion) (versions : List PackVersion)
    → (pv.version == version) ≡ false
    → Unlisted version versions
    → Unlisted version (place pv versions)
unfolding place
Unlisted-place version pv [] n h = (n, tt)
Unlisted-place version pv (existing ∷ versions) n h =
    elim (Bool-cases (existing.version == pv.version)) [
      | inl e ↦ rw e (n, h.1)
      | inr e ↦ rw e (h.0, Unlisted-place version pv versions n h.1)
    ]

pub IsDistinct-place :
    (pv : PackVersion) (versions : List PackVersion)
    → IsDistinct versions
    → IsDistinct (place pv versions)
unfolding place
IsDistinct-place pv [] h = (tt, tt)
IsDistinct-place pv (existing ∷ versions) h = elim (Bool-cases (existing.version == pv.version)) [
  | inl e ↦
      rw e
        (subst (λ v. Unlisted v versions) ((text_beq_iff existing.version pv.version).0 e) h.0, h.1)
  | inr e ↦ rw e (
    Unlisted-place existing.version pv versions (rw (Dict.==-sym pv.version existing.version) e)
        h.0,
    IsDistinct-place pv versions h.1,
  )
]

Unlisted-write :
    (version v : Text) (w : ℕ) (versions : List PackVersion)
    → Unlisted version versions
    → Unlisted version (write_weight v w versions)
unfolding write_weight
Unlisted-write version v w [] h = h
Unlisted-write version v w (pv ∷ versions) h = elim (Bool-cases (pv.version == v)) [
  | inl e ↦ rw e h
  | inr e ↦ rw e (h.0, Unlisted-write version v w versions h.1)
]

pub IsDistinct-write :
    (v : Text) (w : ℕ) (versions : List PackVersion)
    → IsDistinct versions
    → IsDistinct (write_weight v w versions)
unfolding write_weight
IsDistinct-write v w [] h = h
IsDistinct-write v w (pv ∷ versions) h = elim (Bool-cases (pv.version == v)) [
  | inl e ↦ rw e h
  | inr e ↦ rw e (Unlisted-write pv.version v w versions h.0, IsDistinct-write v w versions h.1)
]
