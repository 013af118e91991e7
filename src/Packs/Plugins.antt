-- ===== src/Packs/Plugins.antt =====
-- pack_kernel/plugins.py: the discovery, the validation and the registration of plugin packs.
pub mod Kept
pub mod Trust
use langgraph_agent_stack.Prelude.{
  if◌then◌else◌, ◌==◌, or_else, Text, nonempty, Result, guard, ok, err, Bool, false, not, ◌&&◌,
  ◌||◌, Option, none, some, List, [], ◌∷◌, ◌++◌, text_eq, nat_eq, ◌>>◌,
}
use langgraph_agent_stack.Prelude.Dict
use langgraph_agent_stack.Prelude.Dict.{Dict}
use langgraph_agent_stack.Packs.{PackClass, Registry, is_missing, register}

-- What an entry point loads: a class with its two schemas, each none where it is no Pydantic model,
-- and else whether it forbids extra fields.
pub record Candidate : Type 0 where
  pub is_pack_subclass : Bool
  pub cls : PackClass
  pub input_schema : Option Bool
  pub output_schema : Option Bool

-- `target` is none where the import fails.
pub record EntryPoint : Type 0 where
  pub name : Text
  pub target : Option Candidate

pub data PluginPackError : Type 0 where
  not_a_pack missing_attribute not_a_model not_strict : PluginPackError

check_schema : Option Bool → Result PluginPackError (Unit {0})
check_schema none = err not_a_model
check_schema (some strict) = guard strict not_strict

unfoldable pub validate_plugin_pack_class : Candidate → Result PluginPackError PackClass
unfolding check_schema
validate_plugin_pack_class c = do
  guard c.is_pack_subclass not_a_pack
  guard (not (is_missing c.cls.pack_id)) missing_attribute
  guard (not (is_missing c.cls.name)) missing_attribute
  guard (not (is_missing c.cls.description)) missing_attribute
  guard (not (is_missing c.cls.version)) missing_attribute
  check_schema c.input_schema
  check_schema c.output_schema
  ok c.cls

-- `ep.name in allowed`
unfoldable pub is_listed : Text → List Text → Bool
is_listed name [] = false
is_listed name (entry ∷ names) = entry == name || is_listed name names

-- The class that an entry point gives: none where it is not in the allowlist, does not import, or
-- is refused.
unfoldable pub load_allowed : List Text → EntryPoint → Option PackClass
load_allowed allowlist ep =
    if is_listed ep.name allowlist
    then elim ep.target [
      | none ↦ none
      | some c ↦ elim (validate_plugin_pack_class c) [ ok cls ↦ some cls | err e ↦ none ]
    ]
    else none

unfoldable pub discover_plugin_packs : List Text → List EntryPoint → List PackClass
unfolding load_allowed
discover_plugin_packs allowlist [] = []
discover_plugin_packs allowlist (ep ∷ eps) =
    let loaded = discover_plugin_packs allowlist eps in
    elim (load_allowed allowlist ep) [ none ↦ loaded | some cls ↦ cls ∷ loaded ]

-- The loop of `register_plugin_packs`; `existing` is the snapshot taken before it.
unfoldable pub register_each :
    List Text → List PackClass → List Text → Registry → List Text × Registry
register_each existing [] registered registry = (registered, registry)
register_each existing (cls ∷ classes) registered registry =
    let pack_id = or_else cls.pack_id [] in
    let skipped = register_each existing classes registered registry in
    let noted = if is_listed pack_id registered then registered else registered ++ pack_id ∷ [] in
    let taken = register_each existing classes noted (register cls registry).1 in
    if is_listed pack_id existing && not (is_listed pack_id registered) then skipped else taken

unfoldable pub register_plugin_packs :
    Bool → List Text → List EntryPoint → Registry → List Text × Registry
unfolding register_each discover_plugin_packs
register_plugin_packs enabled allowlist eps registry =
    if not enabled
    then ([], registry)
    else if not (nonempty allowlist)
    then ([], registry)
    else register_each (Dict.keys registry) (discover_plugin_packs allowlist eps) [] registry
