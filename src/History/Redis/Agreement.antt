-- ===== src/History/Redis/Agreement.antt =====
-- core/memory.py: `RedisRunHistory` and `ConversationMemory` answer alike.
use langgraph_agent_stack.Prelude.{
  if◌then◌else◌, ◌==◌, Bool-cases, is_some, Text, text_beq_iff, strip, nonempty, ℕ, ◌<◌, ◌≡◌, refl,
  sym, ap, ◌∙◌, inl, inr, Bool, true, false, ◌&&◌, Option, none, some, arith, text_eq, nat_eq,
}
use langgraph_agent_stack.History.Redis.Indexes.{with_score, pack_score, session_score, hash_kept}
use langgraph_agent_stack.History.Redis.Keys.{Colonless}
use langgraph_agent_stack.History.Redis.{
  RunServer, hash_key, timeline_key, session_key, session_pack_key, value_or_empty, index_session,
}
use langgraph_agent_stack.History.Versions.{
  Before, FoundBefore, latest-FoundBefore, latest-put, latest-skip,
}
use langgraph_agent_stack.History.Queries.{is_session}
use langgraph_agent_stack.History.{Run, ConversationMemory, init, is_run_of, latest}
use langgraph_agent_stack.Prelude.Dict
use mathlib.Core.Path.{subst}

module _ (server : RunServer) where
  -- the member with the highest score in a sorted set, with its hash
  abbrev pub Top : Text → Option Run → server.State → Type 0
  Top key none s = (n : Text) → server.zscore key n s ≡ none
  Top key (some newest) s =
      (server.zscore key newest.run_id s ≡ some newest.created_at)
      × ((n : Text) (u : ℕ)
          → server.zscore key n s ≡ some u
          → (n == newest.run_id) ≡ false
          → u < newest.created_at)
      × (server.hgetall (hash_key newest.run_id) s ≡ some newest)

  -- What the Redis store keeps of the table.
  pub record Mirrors (s : server.State) (m : ConversationMemory) : Type 0 where
    pub hashes : (k : Text) → server.hgetall (hash_key k) s ≡ Dict.get k m.rows
    pub tops :
        (session_id pack_id : Text)
        → Colonless session_id
        → nonempty session_id ≡ true
        → nonempty pack_id ≡ true
        → Top (session_pack_key session_id pack_id) (latest (is_run_of session_id pack_id) m.rows) s
    pub sessions :
        (session_id n : Text)
        → Colonless session_id
        → nonempty session_id ≡ true
        → is_some (server.zscore (session_key session_id) n s) ≡ true
        → (r : Run) × (server.hgetall (hash_key n) s ≡ some r) × (is_session session_id r ≡ true)

  pub empty-Mirrors : Mirrors server.empty init
  unfolding latest Dict.get
  empty-Mirrors = record {
    hashes = λ k. server.hgetall_empty (hash_key k);
    tops = λ session_id pack_id hs fs fp n.
        server.zscore_empty (session_pack_key session_id pack_id) n;
    sessions = λ session_id n hs fs h.
        absurd (cc (rw (server.zscore_empty (session_key session_id) n) at h));
  }

  abbrev pub saved_row : Run → Run
  saved_row r = record r { query = strip r.query }

  abbrev pub prepared : Run → server.State → server.State
  prepared r s =
      server.zadd timeline_key r.run_id r.created_at
        (server.hset (hash_key r.run_id) (saved_row r) s)

  -- the state after a save that is accepted
  abbrev pub after : Run → server.State → server.State
  after r s = index_session server r (prepared r s)

  pub hash_after :
      (k : Text) (r : Run) (s : server.State)
      → server.hgetall (hash_key k) (after r s)
        ≡ (if r.run_id == k then some (saved_row r) else server.hgetall (hash_key k) s)
  hash_after k r s =
      hash_kept server (hash_key k) r (prepared r s)
      ∙ server.hgetall_zadd (hash_key k) timeline_key r.run_id r.created_at
          (server.hset (hash_key r.run_id) (saved_row r) s)
      ∙ server.hgetall_hset (hash_key k) (hash_key r.run_id) (saved_row r) s

  pack_score_prepared :
      (session_id pack_id n : Text) (r : Run) (s : server.State)
      → server.zscore (session_pack_key session_id pack_id) n (prepared r s)
        ≡ server.zscore (session_pack_key session_id pack_id) n s
  pack_score_prepared session_id pack_id n r s =
      server.zscore_zadd (session_pack_key session_id pack_id) n timeline_key r.run_id r.created_at
        (server.hset (hash_key r.run_id) (saved_row r) s)
      ∙ server.zscore_hset (session_pack_key session_id pack_id) n (hash_key r.run_id) (saved_row r)
          s

  session_score_prepared :
      (session_id n : Text) (r : Run) (s : server.State)
      → server.zscore (session_key session_id) n (prepared r s)
        ≡ server.zscore (session_key session_id) n s
  session_score_prepared session_id n r s =
      server.zscore_zadd (session_key session_id) n timeline_key r.run_id r.created_at
        (server.hset (hash_key r.run_id) (saved_row r) s)
      ∙ server.zscore_hset (session_key session_id) n (hash_key r.run_id) (saved_row r) s

  -- another run has another key, where the new one has none yet
  both : (a b : Bool) → (a && b) ≡ true → (a ≡ true) × (b ≡ true)
  both true true h = (refl, refl)
  both true false h = absurd (cc)
  both false b h = absurd (cc)

  is_other :
      (n : Text) (r found : Run) (s : server.State)
      → server.hgetall (hash_key r.run_id) s ≡ none
      → server.hgetall (hash_key n) s ≡ some found
      → (r.run_id == n) ≡ false
  is_other n r found s fresh has = elim (Bool-cases (r.run_id == n)) [
    | inr other ↦ other
    | inl same ↦ absurd (
        cc (
          fresh,
          subst (λ k. server.hgetall (hash_key k) s ≡ some found)
              (sym ((text_beq_iff r.run_id n).0 same)) has,
        ))
  ]

  pub session_after :
      (session_id n : Text) (r : Run) (s : server.State) (m : ConversationMemory)
      → Mirrors s m
      → server.hgetall (hash_key r.run_id) s ≡ none
      → Colonless session_id
      → nonempty session_id ≡ true
      → is_some (server.zscore (session_key session_id) n (after r s)) ≡ true
      → (x : Run) × (server.hgetall (hash_key n) (after r s) ≡ some x)
        × (is_session session_id x ≡ true)
  unfolding is_session
  session_after session_id n r s m mirror fresh hs fs h =
      let scored =
        session_score server session_id n r (prepared r s) hs fs
        ∙ ap (with_score server (is_session session_id r && r.run_id == n) r.created_at)
            (session_score_prepared session_id n r s) in
      elim (Bool-cases (is_session session_id r && r.run_id == n)) [
        | inl hit ↦
            let (is, same) = both (is_session session_id r) (r.run_id == n) hit in
            (saved_row r, hash_after n r s ∙ rw same refl, is)
        | inr miss ↦
            let (x, has, is) = mirror.sessions session_id n hs fs (rw (rw miss at scored) at h) in
            (x, hash_after n r s ∙ rw (is_other n r x s fresh has) has, is)
      ]

  Top-bound :
      (key n : Text) (u t : ℕ) (found : Option Run) (s : server.State)
      → Top key found s
      → FoundBefore t found
      → server.zscore key n s ≡ some u
      → u < t
  Top-bound key n u t none s top older h = absurd (cc (top n, h))
  Top-bound key n u t (some newest) s top older h = elim (Bool-cases (n == newest.run_id)) [
    | inl same ↦
        let at_top =
          subst (λ k. server.zscore key k s ≡ some u) ((text_beq_iff n newest.run_id).0 same) h in
        let equal : newest.created_at ≡ u = cc (top.0, at_top) in omega (arith, equal)
    | inr other ↦ omega (arith, top.1 n u h other)
  ]

  Top-kept :
      (key : Text) (found : Option Run) (s s' : server.State)
      → ((n : Text) → server.zscore key n s' ≡ server.zscore key n s)
      → ((n : Text) (x : Run)
          → server.hgetall (hash_key n) s ≡ some x
          → server.hgetall (hash_key n) s' ≡ some x)
      → Top key found s
      → Top key found s'
  Top-kept key none s s' scores hashes top = λ n. scores n ∙ top n
  Top-kept key (some newest) s s' scores hashes top = (
    scores newest.run_id ∙ top.0,
    λ n u h other. top.1 n u (sym (scores n) ∙ h) other,
    hashes newest.run_id newest top.2,
  )

  hashes_kept :
      (r : Run) (s : server.State)
      → server.hgetall (hash_key r.run_id) s ≡ none
      → (n : Text) (x : Run) → server.hgetall (hash_key n) s ≡ some x
      → server.hgetall (hash_key n) (after r s) ≡ some x
  hashes_kept r s fresh n x has = hash_after n r s ∙ rw (is_other n r x s fresh has) has

  -- the sorted set of a session and a pack, after a save
  score_after :
      (session_id pack_id n : Text) (r : Run) (s : server.State)
      → Colonless (value_or_empty r.session_id)
      → Colonless session_id
      → nonempty session_id ≡ true
      → nonempty pack_id ≡ true
      → server.zscore (session_pack_key session_id pack_id) n (after r s)
        ≡ with_score server
            (is_run_of session_id pack_id r && r.run_id == n)
            r.created_at
            (server.zscore (session_pack_key session_id pack_id) n s)
  score_after session_id pack_id n r s hr hs fs fp =
      pack_score server session_id pack_id n r (prepared r s) hr hs fs fp
      ∙ ap (with_score server (is_run_of session_id pack_id r && r.run_id == n) r.created_at)
          (pack_score_prepared session_id pack_id n r s)

  pub Top-after :
      (session_id pack_id : Text) (r : Run) (s : server.State) (m : ConversationMemory)
      → Mirrors s m
      → Dict.get r.run_id m.rows ≡ none
      → Before r.created_at m.rows
      → Colonless (value_or_empty r.session_id)
      → Colonless session_id
      → nonempty session_id ≡ true
      → nonempty pack_id ≡ true
      → Top
          (session_pack_key session_id pack_id)
          (latest (is_run_of session_id pack_id) (Dict.put r.run_id (saved_row r) m.rows))
          (after r s)
  unfolding is_run_of
  Top-after session_id pack_id r s m mirror fresh older hr hs fs fp =
      let test = is_run_of session_id pack_id in
      let key = session_pack_key session_id pack_id in
      let top = mirror.tops session_id pack_id hs fs fp in
      let scores = λ (n : Text). score_after session_id pack_id n r s hr hs fs fp in
      elim (Bool-cases (is_run_of session_id pack_id r)) [
        | inr miss ↦
            subst (λ found. Top key found (after r s))
              (sym (latest-skip r.run_id (saved_row r) test m.rows miss fresh))
              (Top-kept key (latest test m.rows) s (after r s) (λ n. scores n ∙ rw miss refl)
                (hashes_kept r s (mirror.hashes r.run_id ∙ fresh)) top)
        | inl hit ↦
            subst (λ found. Top key found (after r s))
              (sym (latest-put r.run_id (saved_row r) test m.rows hit older))
              (
                scores r.run_id ∙ rw (hit, Dict.beq_refl r.run_id) refl,
                λ n u h other.
                    Top-bound key n u r.created_at (latest test m.rows) s top
                      (latest-FoundBefore r.created_at test m.rows older)
                      (sym (scores n ∙ rw (hit, Dict.==-sym r.run_id n, other) refl) ∙ h),
                hash_after r.run_id r s ∙ rw (Dict.beq_refl r.run_id) refl,
              )
      ]
