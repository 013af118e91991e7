-- ===== src/Packs/Selection.antt =====
-- pack_kernel/registry.py: which version the sticky selection picks.
use langgraph_agent_stack.Prelude.{ℕ, ◌≡◌, ◌⊎◌, Bool, true, false, List, [], ◌∷◌, ◌++◌}
use langgraph_agent_stack.Packs.{PackVersion, weights_of}

-- None of the versions passes the test, after those whose weights are `seen`.
abbrev pub NoneReaches : (List ℕ → List ℕ → Bool) → List ℕ → List ℕ → List PackVersion → Type 0
NoneReaches reaches all_weights seen [] = Unit
NoneReaches reaches all_weights seen (pv ∷ versions) =
    (reaches all_weights (seen ++ pv.weight ∷ []) ≡ false)
    × NoneReaches reaches all_weights (seen ++ pv.weight ∷ []) versions

-- `pv` is the first of the versions that passes the test, or the last of them where none does.
pub record IsFirst (reaches : List ℕ → List ℕ → Bool) (all_weights seen : List ℕ)
    (versions : List PackVersion) (pv : PackVersion) : Type 0 where
  pub before : List PackVersion
  pub after : List PackVersion
  pub split : versions ≡ before ++ pv ∷ after
  pub earlier : NoneReaches reaches all_weights seen before
  pub here :
      (reaches all_weights (seen ++ weights_of (before ++ pv ∷ [])) ≡ true)
      ⊎ ((after ≡ []) × (reaches all_weights (seen ++ weights_of (before ++ pv ∷ [])) ≡ false))
