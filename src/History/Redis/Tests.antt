-- ===== src/History/Redis/Tests.antt =====
-- core/memory.py: the theorem on the Redis store at two runs of a session.
use langgraph_agent_stack.Prelude.{
  Text, text, is_blank, ℕ, ◌≡◌, refl, some, List, [], ◌∷◌, arith, text_eq, nat_eq,
}
use langgraph_agent_stack.History.Redis.Replies.{save_both, AreSuccessive, redis_sqlite_agree}
use langgraph_agent_stack.History.Redis.{redis_get_pack_version, redis_get_entry}
use langgraph_agent_stack.History.{
  Run, init, save_run, get_pack_version_for_session, JsonCodec, Entry, run_key, get_entry,
}
use langgraph_agent_stack.History.Redis.Server.{server}
use langgraph_agent_stack.Prelude.Dict
use mathlib.Core.Option

abbrev run_at : Text → Text → ℕ → Run
run_at run_id version t = record {
  run_id = run_id;
  query = text "q";
  result = text "r";
  session_id = some (text "s1");
  pack_id = some (text "p");
  pack_version = some version;
  created_at = t;
}

abbrev runs : List Run
runs = run_at (text "a") (text "1.0") 5 ∷ run_at (text "b") (text "2.0") 9 ∷ []

successive : AreSuccessive runs init
unfolding Dict.get save_run Dict.put is_blank
successive = (refl, tt, refl, (refl, (omega arith, tt), refl, tt))

-- Every text stands for itself.
abbrev codec : JsonCodec
codec = record { Value = Text; loads = λ s. some s; empty_dict = [] }

redis_sqlite_agree_example :
    (redis_get_entry server codec (text "b") (save_both server runs (server.empty, init)).0
      ≡ Option.map
          (λ (entry : Entry codec.Value). record entry { id = run_key entry.run_id })
          (get_entry codec (λ run_id. 7) (text "b") (save_both server runs (server.empty, init)).1))
    × (redis_get_pack_version server
          (text "s1")
          (text "p")
          (save_both server runs (server.empty, init)).0
        ≡ get_pack_version_for_session
            (text "s1")
            (text "p")
            (save_both server runs (server.empty, init)).1)
unfolding is_blank
redis_sqlite_agree_example =
    redis_sqlite_agree server codec (λ run_id. 7) runs (text "b") (text "s1") (text "p") successive
      refl refl refl
