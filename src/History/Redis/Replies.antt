-- ===== src/History/Redis/Replies.antt =====
-- core/memory.py: `RedisRunHistory` and `ConversationMemory` give the same replies after the same
-- calls of `save_run`.
use langgraph_agent_stack.Prelude.{
  ◌==◌, Bool-cases, Option-cases, is_some, All, Text, nonempty, is_blank, ℕ, ◌≡◌, refl, sym, ◌∙◌,
  inl, inr, Bool, true, false, Option, none, some, List, [], ◌∷◌, text_eq, nat_eq,
}
use langgraph_agent_stack.Prelude.Dict
use langgraph_agent_stack.Prelude.Dict.{Dict}
use mathlib.Core.Path.{subst}
use mathlib.Core.Option
use langgraph_agent_stack.History.Redis.Agreement.{
  Top, Mirrors, empty-Mirrors, saved_row, hash_after, session_after, Top-after,
}
use langgraph_agent_stack.History.Redis.Keys.{Colonless}
use langgraph_agent_stack.History.Redis.{
  RunServer, session_key, session_pack_key, value_or_empty, redis_save_run, redis_get_run,
  found_runs, redis_list_runs_by_session, version_of_pack, redis_get_pack_version, redis_get_entry,
}
use langgraph_agent_stack.History.Versions.{Before}
use langgraph_agent_stack.History.Queries.{is_session}
use langgraph_agent_stack.History.{
  Run, ConversationMemory, init, save_run, get_run, is_value, is_run_of, latest,
  get_pack_version_for_session, JsonCodec, row_id, run_key, Entry, decoded, get_entry,
}

none_passes :
    (k : Text) (x : Run) (test : Run → Bool) (rows : Dict Text Run)
    → latest test rows ≡ none
    → Dict.get k rows ≡ some x
    → test x ≡ false
unfolding latest Dict.get
none_passes k x test [] h found = absurd (cc)
none_passes k x test ((j, r) ∷ rows) h found = elim (Bool-cases (test r)) [
  | inl hit ↦ absurd (cc (rw hit at h))
  | inr miss ↦ elim (Bool-cases (j == k)) [
    | inl same ↦ some_fails r x (rw same at found) miss
    | inr other ↦ none_passes k x test rows (rw miss at h) (rw other at found)
  ]
]
  where
    some_fails : (a b : Run) → some a ≡ some b → test a ≡ false → test b ≡ false
    some_fails a b same fails =
        subst (λ (o : Option Run). elim o [ none ↦ Unit | some c ↦ test c ≡ false ]) same fails

nonblank-nonempty : (s : Text) → is_blank s ≡ false → nonempty s ≡ true
unfolding is_blank
nonblank-nonempty [] h = absurd (cc)
nonblank-nonempty (c ∷ s) h = refl

module _ (server : RunServer) where
  no_members :
      (key : Text) (s : server.State) (ids : List Text)
      → ((n : Text) → server.zscore key n s ≡ none)
      → All (λ (n : Text). is_some (server.zscore key n s) ≡ true) ids
      → ids ≡ []
  no_members key s [] none_there h = refl
  no_members key s (n ∷ ids) none_there h = absurd (cc (rw (none_there n) at h.0))

  no_version :
      (session_id pack_id : Text) (s : server.State) (m : ConversationMemory) (ids : List Text)
      → Mirrors server s m
      → latest (is_run_of session_id pack_id) m.rows ≡ none
      → Colonless session_id
      → nonempty session_id ≡ true
      → All (λ (n : Text). is_some (server.zscore (session_key session_id) n s) ≡ true) ids
      → version_of_pack server pack_id (found_runs server ids s) ≡ none
  unfolding found_runs version_of_pack redis_get_run is_run_of is_session
  no_version session_id pack_id s m [] mirror nothing hs fs h = refl
  no_version session_id pack_id s m (n ∷ ids) mirror nothing hs fs h =
      let (x, has, is) = mirror.sessions session_id n hs fs h.0 in
      let other : is_value pack_id x.pack_id ≡ false = rw is at (
        none_passes n x (is_run_of session_id pack_id) m.rows nothing
          (sym (mirror.hashes n) ∙ has)) in
      rw (has, other) (no_version session_id pack_id s m ids mirror nothing hs fs h.1)

  version_agrees :
      (session_id pack_id : Text) (s : server.State) (m : ConversationMemory)
      → Mirrors server s m
      → is_blank session_id ≡ false
      → nonempty pack_id ≡ true
      → Colonless session_id
      → redis_get_pack_version server session_id pack_id s
        ≡ get_pack_version_for_session session_id pack_id m
  unfolding redis_get_pack_version get_pack_version_for_session redis_list_runs_by_session
      redis_get_run
  version_agrees session_id pack_id s m mirror named packed hs =
      let fs = nonblank-nonempty session_id named in
      let key = session_pack_key session_id pack_id in
      elim (Option-cases (latest (is_run_of session_id pack_id) m.rows)) [
        | inl nothing ↦
            let top =
              subst (λ found. Top server key found s) nothing
                (mirror.tops session_id pack_id hs fs packed) in
            rw
              (
                named,
                packed,
                no_members key s (server.zrevrange key 1 s) top (server.zrevrange_members key 1 s),
                named,
                no_version session_id pack_id s m (server.zrevrange (session_key session_id) 50 s)
                    mirror nothing hs fs (server.zrevrange_members (session_key session_id) 50 s),
                get_pack_version_for_session,
                nothing,
              )
              refl
        | inr (newest, found) ↦
            let top =
              subst (λ found. Top server key found s) found
                (mirror.tops session_id pack_id hs fs packed) in
            rw
              (
                named,
                packed,
                server.zrevrange_top key newest.run_id newest.created_at s top.0 top.1,
                top.2,
                get_pack_version_for_session,
                found,
              )
              refl
      ]

  save-Mirrors :
      (r : Run) (s : server.State) (m : ConversationMemory)
      → Mirrors server s m
      → Dict.get r.run_id m.rows ≡ none
      → Before r.created_at m.rows
      → Colonless (value_or_empty r.session_id)
      → Mirrors server (redis_save_run server r s).1 (save_run r m).1
  unfolding redis_save_run save_run
  save-Mirrors r s m mirror fresh older hr = elim (Bool-cases (is_blank r.run_id)) [
    | inl unnamed ↦ rw unnamed mirror
    | inr named ↦ elim (Bool-cases (is_blank r.query)) [
      | inl unasked ↦ rw (named, unasked) mirror
      | inr asked ↦
          rw (named, asked)
            (record {
              hashes = λ k.
                  hash_after server k r s
                  ∙ rw (mirror.hashes k, Dict.get-put r.run_id k (saved_row server r) m.rows) refl;
              tops = λ session_id pack_id hs fs fp.
                  Top-after server session_id pack_id r s m mirror fresh older hr hs fs fp;
              sessions = λ session_id n hs fs h.
                  session_after server session_id n r s m mirror (mirror.hashes r.run_id ∙ fresh) hs
                    fs h;
            })
    ]
  ]

  -- The same runs saved one after the other in both stores.
  abbrev pub save_both :
      List Run → server.State × ConversationMemory → server.State × ConversationMemory
  save_both [] stores = stores
  save_both (r ∷ runs) (s, m) = save_both runs ((redis_save_run server r s).1, (save_run r m).1)

-- Each run has an id of its own, is later than the runs before it, and has no colon in its session.
abbrev pub AreSuccessive : List Run → ConversationMemory → Type 0
AreSuccessive [] m = Unit
AreSuccessive (r ∷ runs) m =
    (Dict.get r.run_id m.rows ≡ none)
    × Before r.created_at m.rows
    × Colonless (value_or_empty r.session_id)
    × AreSuccessive runs (save_run r m).1

save_both-Mirrors :
    (server : RunServer) (runs : List Run) (s : server.State) (m : ConversationMemory)
    → Mirrors server s m
    → AreSuccessive runs m
    → Mirrors server (save_both server runs (s, m)).0 (save_both server runs (s, m)).1
save_both-Mirrors server [] s m mirror h = mirror
save_both-Mirrors server (r ∷ runs) s m mirror h =
    save_both-Mirrors server runs (redis_save_run server r s).1 (save_run r m).1
      (save-Mirrors server r s m mirror h.0 h.1 h.2) h.3

-- After the same runs are saved in a Redis store and in a SQLite store that were empty, refused ones
-- included, each with an id of its own, later than those before it, and without a colon in its
-- session, the two give the same entry for every run, but for its key `id`, which is the row's
-- number in SQLite and the run's id in Redis; and the same version for every pack and every session
-- that is not blank and has no colon.
pub redis_sqlite_agree :
    (server : RunServer) (codec : JsonCodec) (row_ids : Text → ℕ) (runs : List Run)
    (run_id session_id pack_id : Text)
    → AreSuccessive runs init
    → is_blank session_id ≡ false
    → nonempty pack_id ≡ true
    → Colonless session_id
    → (redis_get_entry server codec run_id (save_both server runs (server.empty, init)).0
        ≡ Option.map
            (λ (entry : Entry codec.Value). record entry { id = run_key entry.run_id })
            (get_entry codec row_ids run_id (save_both server runs (server.empty, init)).1))
      × (redis_get_pack_version server session_id pack_id
            (save_both server runs (server.empty, init)).0
          ≡ get_pack_version_for_session session_id pack_id
              (save_both server runs (server.empty, init)).1)
unfolding redis_get_entry get_entry redis_get_run get_run
redis_sqlite_agree server codec row_ids runs run_id session_id pack_id h named packed hs =
    let mirror = save_both-Mirrors server runs server.empty init (empty-Mirrors server) h in
    (
      rw (mirror.hashes run_id)
          (entries (get_run run_id (save_both server runs (server.empty, init)).1)),
      version_agrees server session_id pack_id (save_both server runs (server.empty, init)).0
          (save_both server runs (server.empty, init)).1 mirror named packed hs,
    )
  where
    entries :
        (found : Option Run)
        → Option.map (λ r. decoded codec (run_key r.run_id) r) found
          ≡ Option.map
              (λ (entry : Entry codec.Value). record entry { id = run_key entry.run_id })
              (Option.map (λ r. decoded codec (row_id (row_ids run_id)) r) found)
    entries none = refl
    entries (some r) = refl
