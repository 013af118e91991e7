-- ===== src/Packs/Plugins/Trust.antt =====
-- pack_kernel/plugins.py: which plugins get into the registry.
use langgraph_agent_stack.Prelude.{
  ◌==◌, Bool-cases, Option-cases, or_else, All, Text, Result-cases, ok, ◌≡◌, refl, sym, ap, ◌∙◌,
  ◌≢◌, ◌⊎◌, inl, inr, Bool, true, false, not, ◌&&◌, Option, none, some, List, [], ◌∷◌, arith,
  text_eq, nat_eq,
}
use mathlib.Core.Path.{subst}
use langgraph_agent_stack.Prelude.Dict
use langgraph_agent_stack.Prelude.Dict.{Dict}
use langgraph_agent_stack.Packs.{PackClass, PackVersion, Registry, is_missing, register}
use langgraph_agent_stack.Packs.Versions.{version_at, entry_of, IsDeclared, version_at-register}
use langgraph_agent_stack.Packs.Plugins.{
  Candidate, EntryPoint, validate_plugin_pack_class, is_listed, load_allowed, discover_plugin_packs,
  register_each, register_plugin_packs,
}

-- The entry point may give the class: its name is in the allowlist, it imports, and the class is a
-- pack with the four attributes and two strict schemas.
pub record Trusted (allowlist : List Text) (cls : PackClass) (ep : EntryPoint) : Type 0 where
  pub listed : is_listed ep.name allowlist ≡ true
  pub candidate : Candidate
  pub loads : ep.target ≡ some candidate
  pub gives : candidate.cls ≡ cls
  pub is_pack : candidate.is_pack_subclass ≡ true
  pub has_version : is_missing cls.version ≡ false
  pub strict_input : candidate.input_schema ≡ some true
  pub strict_output : candidate.output_schema ≡ some true

abbrev pub FromPlugin : List Text → List EntryPoint → PackClass → Type 0
FromPlugin allowlist [] cls = ⊥
FromPlugin allowlist (ep ∷ eps) cls = Trusted allowlist cls ep ⊎ FromPlugin allowlist eps cls

validate_sound :
    (c : Candidate) (cls : PackClass)
    → validate_plugin_pack_class c ≡ ok cls
    → (c.cls ≡ cls)
      × (c.is_pack_subclass ≡ true)
      × (is_missing cls.version ≡ false)
      × (c.input_schema ≡ some true)
      × (c.output_schema ≡ some true)
      × (is_missing cls.pack_id ≡ false)
      × (is_missing cls.name ≡ false)
      × (is_missing cls.description ≡ false)
unfolding validate_plugin_pack_class
validate_sound c cls h = ground arith

abbrev Sanctioned : List Text → List EntryPoint → PackClass → Type 0
Sanctioned allowlist eps cls = FromPlugin allowlist eps cls × IsDeclared cls

loaded-Trusted :
    (allowlist : List Text) (ep : EntryPoint) (cls : PackClass)
    → load_allowed allowlist ep ≡ some cls
    → Trusted allowlist cls ep × IsDeclared cls
unfolding load_allowed
loaded-Trusted allowlist ep cls h = elim (Bool-cases (is_listed ep.name allowlist)) [
  | inr out ↦ absurd (cc (rw (load_allowed, out) at h))
  | inl listed ↦ elim (Option-cases ep.target) [
    | inl broken ↦ absurd (cc (rw (load_allowed, listed, broken) at h))
    | inr (c, loads) ↦ elim (Result-cases (validate_plugin_pack_class c)) [
      | inr (e, refused) ↦ absurd (cc (rw (load_allowed, listed, loads, refused) at h))
      | inl (given, valid) ↦
          let same : given ≡ cls = some_inj (rw (load_allowed, listed, loads, valid) at h) in
          let v = validate_sound c cls (valid ∙ ap ok same) in
          (
            record {
              listed = listed;
              candidate = c;
              loads = loads;
              gives = v.0;
              is_pack = v.1;
              has_version = v.2;
              strict_input = v.3;
              strict_output = v.4;
            },
            (v.5, v.6, v.7),
          )
    ]
  ]
]
  where
    some_inj : {a b : PackClass} → some a ≡ some b → a ≡ b
    some_inj e = cc

All-weaken :
    (allowlist : List Text) (ep : EntryPoint) (eps : List EntryPoint) (classes : List PackClass)
    → All (Sanctioned allowlist eps) classes
    → All (Sanctioned allowlist (ep ∷ eps)) classes
All-weaken allowlist ep eps [] h = h
All-weaken allowlist ep eps (cls ∷ classes) h =
    ((inr h.0.0, h.0.1), All-weaken allowlist ep eps classes h.1)

discover-Sanctioned :
    (allowlist : List Text) (eps : List EntryPoint)
    → All (Sanctioned allowlist eps) (discover_plugin_packs allowlist eps)
unfolding discover_plugin_packs
discover-Sanctioned allowlist [] = tt
discover-Sanctioned allowlist (ep ∷ eps) =
    let rest = All-weaken allowlist ep eps _ (discover-Sanctioned allowlist eps) in
    elim (Option-cases (load_allowed allowlist ep)) [
      | inl skipped ↦ rw (skipped, discover_plugin_packs) rest
      | inr (cls, taken) ↦
          let (t, d) = loaded-Trusted allowlist ep cls taken in
          rw (taken, discover_plugin_packs) ((inl t, d), rest)
    ]

-- An entry of the registry is one that was there, or one of a sanctioned class.
abbrev Origin : List Text → List EntryPoint → Registry → Text → Text → PackVersion → Type 0
Origin allowlist eps registry id version pv =
    (version_at id version registry ≡ some pv) ⊎ FromPlugin allowlist eps pv.pack_cls

module _ (allowlist : List Text) (eps : List EntryPoint) (id version : Text)
    (pv : PackVersion) where
  Origin-register :
      (cls : PackClass) (registry : Registry)
      → Sanctioned allowlist eps cls
      → Origin allowlist eps (register cls registry).1 id version pv
      → Origin allowlist eps registry id version pv
  unfolding entry_of
  Origin-register cls registry h (inr plugin) = inr plugin
  Origin-register cls registry h (inl there) =
      let (_, at) = version_at-register cls registry id version h.1 in
      elim (Bool-cases (or_else cls.pack_id [] == id && (entry_of cls).version == version)) [
        | inr other ↦ inl (sym (rw other at at) ∙ there)
        | inl mine ↦
            inr (subst (FromPlugin allowlist eps) (class_of cls (sym (rw mine at at) ∙ there)) h.0)
      ]
    where
      class_of : (cls : PackClass) → some (entry_of cls) ≡ some pv → cls ≡ pv.pack_cls
      class_of cls e =
          ap (λ (o : Option PackVersion). elim o [ none ↦ cls | some x ↦ x.pack_cls ]) e

  register_each-Origin :
      (existing : List Text) (classes : List PackClass) (registered : List Text)
      (registry : Registry)
      → All (Sanctioned allowlist eps) classes
      → version_at id version (register_each existing classes registered registry).1 ≡ some pv
      → Origin allowlist eps registry id version pv
  unfolding register_each
  register_each-Origin existing [] registered registry h e = inl e
  register_each-Origin existing (cls ∷ classes) registered registry h e =
      elim (Bool-cases (
        is_listed (or_else cls.pack_id []) existing
        && not (is_listed (or_else cls.pack_id []) registered))) [
          | inl skipped ↦
              register_each-Origin existing classes registered registry h.1 (rw skipped at e)
          | inr taken ↦ Origin-register cls registry h.0 (
              register_each-Origin existing classes _ (register cls registry).1 h.1 (rw taken at e))
        ]

-- An entry that the registry has after the plugins and not before comes from an entry point whose
-- name is in the allowlist and whose class passes the checks; with plugins disabled, or an empty
-- allowlist, there is none.
pub register_plugin_packs-trusted :
    (enabled : Bool) (allowlist : List Text) (eps : List EntryPoint) (registry : Registry)
    (id version : Text) (pv : PackVersion)
    → version_at id version (register_plugin_packs enabled allowlist eps registry).1 ≡ some pv
    → (version_at id version registry ≡ some pv)
      ⊎ ((enabled ≡ true) × (allowlist ≢ []) × FromPlugin allowlist eps pv.pack_cls)
unfolding register_plugin_packs
register_plugin_packs-trusted false allowlist eps registry id version pv h = inl h
register_plugin_packs-trusted true [] eps registry id version pv h = inl h
register_plugin_packs-trusted true (name ∷ names) eps registry id version pv h =
    elim (register_each-Origin (name ∷ names) eps id version pv (Dict.keys registry)
      (discover_plugin_packs (name ∷ names) eps) [] registry
      (discover-Sanctioned (name ∷ names) eps) h) [
        | inl there ↦ inl there
        | inr plugin ↦ inr (refl, λ e. cc, plugin)
      ]
