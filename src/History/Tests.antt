-- ===== src/History/Tests.antt =====
-- core/memory.py: the theorems on the stores at concrete runs.
use langgraph_agent_stack.Prelude.{
  filter, Text, text, is_blank, ok, ℕ, ◌≡◌, refl, some, List, [], ◌∷◌, arith,
}
use langgraph_agent_stack.Prelude.Int.{pos}
use langgraph_agent_stack.History.Listed.{first_of, version_of, get_pack_version-listed}
use langgraph_agent_stack.History.Queries.{list_runs_by_session}
use langgraph_agent_stack.History.{Run, ConversationMemory, is_value, get_pack_version_for_session}

abbrev run_at : Text → Text → ℕ → Run
run_at run_id pack_id t = record {
  run_id = run_id;
  query = text " q ";
  result = text "r";
  session_id = some (text "s1");
  pack_id = some pack_id;
  pack_version = some (text "1.0");
  created_at = t;
}

abbrev memory : ConversationMemory
memory = record {
  rows =
      (text "a", run_at (text "a") (text "p") 5) ∷ (text "b", run_at (text "b") (text "q") 9) ∷ [];
}

listed : list_runs_by_session (text "s1") (pos 1) memory ≡ ok (run_at (text "b") (text "q") 9 ∷ [])
unfolding list_runs_by_session is_blank
listed = refl

get_pack_version-listed_example :
    (listed : List Run) × (list_runs_by_session (text "s1") (pos 50) memory ≡ ok listed)
    × (get_pack_version_for_session (text "s1") (text "p") memory
        ≡ version_of (first_of (filter (λ (r : Run). is_value (text "p") r.pack_id) listed)))
unfolding is_blank
get_pack_version-listed_example =
    get_pack_version-listed (text "s1") (text "p") (pos 50) memory refl refl (omega arith)
