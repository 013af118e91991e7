-- ===== src/Packs/Tests.antt =====
-- pack_kernel/registry.py, pack_kernel/plugins.py: runs of the registry, and the theorems at
-- concrete packs.
use langgraph_agent_stack.Prelude.{
  leb, length, Text, text, ok, ℕ, ◌+◌, ◌-◌, ◌*◌, ◌/◌, ◌≤◌, ◌≡◌, refl, ◌≢◌, ◌⊎◌, true, none, some,
  List, [], ◌∷◌, text_eq, nat_eq,
}
use langgraph_agent_stack.Prelude.Dict
use langgraph_agent_stack.Packs.{
  PackClass, PackVersion, Registry, register, find_version, total_weight, select_sticky,
  select_weighted_pack_version, Pick, pick_for, get, write_weight, set_weights, Floats, float_test,
}
use langgraph_agent_stack.Packs.Selection
use langgraph_agent_stack.Packs.Versions.{version_at, entry_of, IsDistinct}
use langgraph_agent_stack.Packs.Endpoint.{update_pack_version_weight}
use langgraph_agent_stack.Packs.Invariant
use langgraph_agent_stack.Packs.Plugins.{
  EntryPoint, register_plugin_packs, validate_plugin_pack_class, is_listed,
}
use langgraph_agent_stack.Packs.Plugins.Trust
use langgraph_agent_stack.Packs.Plugins.Kept

program : Unit {0}
unfolding Dict.get Dict.put register find_version total_weight select_weighted_pack_version get
    set_weights write_weight version_at entry_of update_pack_version_weight register_plugin_packs
    validate_plugin_pack_class is_listed Invariant.run Invariant.step pick_for
program = tt

abbrev research : PackClass
research = record {
  class_id = 1;
  pack_id = some (text "research");
  name = some (text "Research");
  description = some (text "d");
  version = none;
}

abbrev canary : PackClass
canary = record research { class_id = 2; version = some (text "2.0") }

abbrev one : Registry
one = (register research []).1

abbrev two : Registry
two = (register canary one).1

abbrev zero_first : PackVersion
zero_first = record (entry_of research) { weight = 0 }

-- Floats without rounding: multiples of 1 / 0xFFFFFFFF of the unit of weights.
abbrev added : List ℕ → ℕ
added [] = 0
added (x ∷ xs) = x + added xs

abbrev exact : Floats
exact = record {
  Float = ℕ;
  zero = 0;
  of_weight = λ w. w * 0xffffffff;
  plus = λ x y. x + y;
  sum = added;
  scaled = λ digest total. digest * (total / 0xffffffff);
  at_most = leb;
}

abbrev key : Text
key = text "tenant"

-- with the first version at weight 0, a digest of 0 still picks it
zero_digest :
    (select_weighted_pack_version
      (pick_for exact (λ k. 0) (some key) 5)
      zero_first
      (entry_of canary ∷ [])).weight
    ≡ 0
unfolding program select_sticky float_test
zero_digest = refl

sticky_digest :
    (select_weighted_pack_version
      (pick_for exact (λ k. 1) (some key) 5)
      zero_first
      (entry_of canary ∷ [])).pack_cls.class_id
    ≡ 2
unfolding program select_sticky float_test
sticky_digest = refl

-- The largest digest, and floats that lose a little when they are added: the fallback is taken.
fallback :
    (select_weighted_pack_version
      (pick_for (record exact { plus = λ x y. x + y - 1 }) (λ k. 0xffffffff) (some key) 5)
      (entry_of research)
      (entry_of canary ∷ [])).pack_cls.class_id
    ≡ 2
unfolding program select_sticky float_test
fallback = refl

get_exact : get (text "research") (some (text "2.0")) (Pick.random 0) two ≡ ok (entry_of canary)
unfolding program
get_exact = refl

get_weights :
    (get (text "research") none (Pick.random 999) two ≡ ok (entry_of research))
    × (get (text "research") none (Pick.random 1000) two ≡ ok (entry_of canary))
unfolding program
get_weights = (refl, refl)

run-IsSound_example :
    (1 ≤ length (entry_of research ∷ entry_of canary ∷ []))
    × IsDistinct (entry_of research ∷ entry_of canary ∷ [])
unfolding program
run-IsSound_example =
    Invariant.run-IsSound (Invariant.add research ∷ Invariant.add canary ∷ []) (text "research")
      (entry_of research ∷ entry_of canary ∷ []) refl

abbrev hijack : EntryPoint
hijack = record {
  name = text "evil";
  target = some (record {
    is_pack_subclass = true;
    cls = record research { class_id = 9; version = some (text "1.0") };
    input_schema = some true;
    output_schema = some true;
  });
}

register_plugin_packs-kept_example :
    Dict.get (text "research") (register_plugin_packs true (text "evil" ∷ []) (hijack ∷ []) one).1
    ≡ some (entry_of research ∷ [])
unfolding program
register_plugin_packs-kept_example =
    Kept.register_plugin_packs-kept true (text "evil" ∷ []) (hijack ∷ []) one (text "research")
      (entry_of research ∷ []) refl

abbrev plugin_entry : PackVersion
plugin_entry = entry_of (record research { class_id = 9; version = some (text "1.0") })

register_plugin_packs-trusted_example :
    (version_at (text "research") (text "1.0") [] ≡ some plugin_entry)
    ⊎ ((true ≡ true)
        × (text "evil" ∷ [] ≢ [])
        × Trust.FromPlugin (text "evil" ∷ []) (hijack ∷ []) plugin_entry.pack_cls)
unfolding program
register_plugin_packs-trusted_example =
    Trust.register_plugin_packs-trusted true (text "evil" ∷ []) (hijack ∷ []) [] (text "research")
      (text "1.0") plugin_entry refl
