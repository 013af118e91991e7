-- ===== src/Packs/Plugins/Kept.antt =====
-- pack_kernel/plugins.py: the packs that are registered before the plugins stay.
use langgraph_agent_stack.Prelude.{
  if◌then◌else◌, ◌==◌, Bool-cases, is_some, or_else, Text, text_beq_iff, ◌≡◌, refl, ◌∙◌, ◌⊎◌, inl,
  inr, Bool, true, false, not, ◌&&◌, ◌||◌, some, List, [], ◌∷◌, ◌++◌, arith, text_eq, nat_eq,
}
use langgraph_agent_stack.Prelude.Dict
use langgraph_agent_stack.Prelude.Dict.{Dict}
use langgraph_agent_stack.Packs.{PackClass, PackVersion, Registry, is_missing, place, register}
use langgraph_agent_stack.Packs.Versions.{entry_of}
use langgraph_agent_stack.Packs.Plugins.{
  EntryPoint, is_listed, discover_plugin_packs, register_each, register_plugin_packs,
}

is_listed-append :
    (name : Text) (xs ys : List Text)
    → is_listed name (xs ++ ys) ≡ (is_listed name xs || is_listed name ys)
unfolding is_listed
is_listed-append name [] ys = refl
is_listed-append name (x ∷ xs) ys = ground (arith, is_listed-append name xs ys)

is_listed-keys :
    (id : Text) (registry : Registry)
    → is_listed id (Dict.keys registry) ≡ is_some (Dict.get id registry)
unfolding is_listed Dict.get
is_listed-keys id [] = refl
is_listed-keys id ((j, v) ∷ registry) = ground (arith, is_listed-keys id registry)

pub register_cases :
    (cls : PackClass) (registry : Registry)
    → ((register cls registry).1 ≡ registry)
      ⊎ ((register cls registry).1
          ≡ Dict.put
              (or_else cls.pack_id [])
              (place (entry_of cls) (or_else (Dict.get (or_else cls.pack_id []) registry) []))
              registry)
unfolding register entry_of
register_cases cls registry = elim (Bool-cases (is_missing cls.pack_id)) [
  | inl a ↦ inl (rw a)
  | inr a ↦ elim (Bool-cases (is_missing cls.name)) [
    | inl b ↦ inl (rw (a, b))
    | inr b ↦ elim (Bool-cases (is_missing cls.description)) [
      | inl c ↦ inl (rw (a, b, c))
      | inr c ↦ inr (rw (a, b, c))
    ]
  ]
]

get-register_ne :
    (id : Text) (cls : PackClass) (registry : Registry)
    → (or_else cls.pack_id [] == id) ≡ false
    → Dict.get id (register cls registry).1 ≡ Dict.get id registry
get-register_ne id cls registry n = elim (register_cases cls registry) [
  | inl same ↦ rw same
  | inr put ↦ rw (put, Dict.get-put, n)
]

-- `existing` names a pack that no plugin has registered: the pack keeps its versions.
register_each-kept :
    (id : Text) (existing : List Text) (classes : List PackClass) (registered : List Text)
    (registry : Registry)
    → is_listed id existing ≡ true
    → is_listed id registered ≡ false
    → Dict.get id (register_each existing classes registered registry).1 ≡ Dict.get id registry
unfolding register_each
register_each-kept id existing [] registered registry e r = refl
register_each-kept id existing (cls ∷ classes) registered registry e r =
    elim (Bool-cases (or_else cls.pack_id [] == id)) [
      | inl hit ↦
          let same : or_else cls.pack_id [] ≡ id =
            (text_beq_iff (or_else cls.pack_id []) id).0 hit in
          rw (same, e, r) (register_each-kept id existing classes registered registry e r)
      | inr miss ↦
          elim (Bool-cases (
            is_listed (or_else cls.pack_id []) existing
            && not (is_listed (or_else cls.pack_id []) registered))) [
              | inl skipped ↦
                  rw skipped (register_each-kept id existing classes registered registry e r)
              | inr taken ↦
                  rw (taken, ← get-register_ne id cls registry miss)
                    (register_each-kept id existing classes _ (register cls registry).1 e (
                      noted (is_listed (or_else cls.pack_id []) registered) id
                        (or_else cls.pack_id []) registered miss r))
            ]
    ]
  where
    noted :
        (b : Bool) (id new : Text) (registered : List Text)
        → (new == id) ≡ false
        → is_listed id registered ≡ false
        → is_listed id (if b then registered else registered ++ new ∷ []) ≡ false
    noted true id new registered n r = r
    noted false id new registered n r = rw (is_listed-append, r) (unfold is_listed in rw n)

-- Whatever the entry points and the allowlist, a pack that is registered before the plugins keeps
-- its versions, their classes and their weights.
pub register_plugin_packs-kept :
    (enabled : Bool) (allowlist : List Text) (eps : List EntryPoint) (registry : Registry)
    (id : Text) (versions : List PackVersion)
    → Dict.get id registry ≡ some versions
    → Dict.get id (register_plugin_packs enabled allowlist eps registry).1 ≡ some versions
unfolding register_plugin_packs
register_plugin_packs-kept false allowlist eps registry id versions h = h
register_plugin_packs-kept true [] eps registry id versions h = h
register_plugin_packs-kept true (name ∷ names) eps registry id versions h =
    register_each-kept id (Dict.keys registry) (discover_plugin_packs (name ∷ names) eps) []
      registry (is_listed-keys id registry ∙ rw h) (unfold is_listed in refl)
    ∙ h
