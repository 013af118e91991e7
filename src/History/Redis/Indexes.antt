-- ===== src/History/Redis/Indexes.antt =====
-- core/memory.py: what one `save_run` of `RedisRunHistory` changes in its hashes and sorted sets.
use langgraph_agent_stack.Prelude.{
  if◌then◌else◌, ◌==◌, Bool-cases, Text, nonempty, ℕ, ◌≡◌, refl, ◌∙◌, inl, inr, Bool, true, false,
  ◌&&◌, Option, none, some, [], ◌∷◌, text_eq, nat_eq,
}
use langgraph_agent_stack.History.Redis.Keys.{
  Colonless, session_pack_key-beq, session_key-pack, pack_key-session,
}
use langgraph_agent_stack.History.Redis.{
  RunServer, session_key, session_pack_key, value_or_empty, index_session,
}
use langgraph_agent_stack.History.Queries.{is_session}
use langgraph_agent_stack.History.{Run, is_value, is_run_of}

value-beq :
    (k : Text) (v : Option Text) → nonempty k ≡ true → is_value k v ≡ (value_or_empty v == k)
unfolding is_value
value-beq [] v h = absurd (cc)
value-beq (c ∷ k) none h = refl
value-beq (c ∷ k) (some w) h = refl

empty-beq : (a k : Text) → nonempty a ≡ false → nonempty k ≡ true → (a == k) ≡ false
empty-beq a [] e h = absurd (cc)
empty-beq [] (c ∷ k) e h = refl
empty-beq (b ∷ a) (c ∷ k) e h = absurd (cc)

no_value :
    (k : Text) (v : Option Text)
    → nonempty (value_or_empty v) ≡ false
    → nonempty k ≡ true
    → is_value k v ≡ false
no_value k v e h = value-beq k v h ∙ empty-beq (value_or_empty v) k e h

module _ (server : RunServer) where
  abbrev pub with_score : Bool → ℕ → Option ℕ → Option ℕ
  with_score hit t before = if hit then some t else before

  pub pack_score :
      (session_id pack_id n : Text) (r : Run) (s : server.State)
      → Colonless (value_or_empty r.session_id)
      → Colonless session_id
      → nonempty session_id ≡ true
      → nonempty pack_id ≡ true
      → server.zscore (session_pack_key session_id pack_id) n (index_session server r s)
        ≡ with_score
            (is_run_of session_id pack_id r && r.run_id == n)
            r.created_at
            (server.zscore (session_pack_key session_id pack_id) n s)
  unfolding index_session is_run_of
  pack_score session_id pack_id n r s hr hs fs fp =
      let sid = value_or_empty r.session_id in
      let pid = value_or_empty r.pack_id in
      let key = session_pack_key session_id pack_id in
      let by_session = server.zadd (session_key sid) r.run_id r.created_at s in
      let kept : server.zscore key n by_session ≡ server.zscore key n s =
        server.zscore_zadd key n (session_key sid) r.run_id r.created_at s
        ∙ rw (session_key-pack sid session_id pack_id hr) refl in
      elim (Bool-cases (nonempty sid)) [
        | inr none_given ↦ rw (none_given, no_value session_id r.session_id none_given fs) refl
        | inl given ↦ elim (Bool-cases (nonempty pid)) [
          | inr no_pack ↦
              rw (given, no_pack, no_value pack_id r.pack_id no_pack fp, kept)
                (elim (Bool-cases (is_value session_id r.session_id)) [
                  | inl a ↦ rw a refl
                  | inr b ↦ rw b refl
                ])
          | inl pack ↦
              rw (given, pack)
                (server.zscore_zadd key n (session_pack_key sid pid) r.run_id r.created_at
                    by_session
                  ∙ rw
                      (
                        session_pack_key-beq sid session_id pid pack_id hr hs,
                        value-beq session_id r.session_id fs,
                        value-beq pack_id r.pack_id fp,
                        kept,
                      )
                      refl)
        ]
      ]

  pub session_score :
      (session_id n : Text) (r : Run) (s : server.State)
      → Colonless session_id
      → nonempty session_id ≡ true
      → server.zscore (session_key session_id) n (index_session server r s)
        ≡ with_score
            (is_session session_id r && r.run_id == n)
            r.created_at
            (server.zscore (session_key session_id) n s)
  unfolding index_session is_session
  session_score session_id n r s hs fs =
      let sid = value_or_empty r.session_id in
      let pid = value_or_empty r.pack_id in
      let key = session_key session_id in
      let by_session = server.zadd (session_key sid) r.run_id r.created_at s in
      let added : server.zscore key n by_session
          ≡ with_score (is_value session_id r.session_id && r.run_id == n) r.created_at
              (server.zscore key n s) =
        server.zscore_zadd key n (session_key sid) r.run_id r.created_at s
        ∙ rw (value-beq session_id r.session_id fs) refl in
      elim (Bool-cases (nonempty sid)) [
        | inr none_given ↦ rw (none_given, no_value session_id r.session_id none_given fs) refl
        | inl given ↦ elim (Bool-cases (nonempty pid)) [
          | inr no_pack ↦ rw (given, no_pack) added
          | inl pack ↦
              rw (given, pack)
                (server.zscore_zadd key n (session_pack_key sid pid) r.run_id r.created_at
                    by_session
                  ∙ rw (pack_key-session session_id sid pid hs) added)
        ]
      ]

  pub hash_kept :
      (k : Text) (r : Run) (s : server.State)
      → server.hgetall k (index_session server r s) ≡ server.hgetall k s
  unfolding index_session
  hash_kept k r s =
      let sid = value_or_empty r.session_id in
      let pid = value_or_empty r.pack_id in
      let by_session = server.zadd (session_key sid) r.run_id r.created_at s in
      let kept = server.hgetall_zadd k (session_key sid) r.run_id r.created_at s in
      elim (Bool-cases (nonempty sid)) [
        | inr none_given ↦ rw none_given refl
        | inl given ↦ elim (Bool-cases (nonempty pid)) [
          | inr no_pack ↦ rw (given, no_pack) kept
          | inl pack ↦
              rw (given, pack)
                (server.hgetall_zadd k (session_pack_key sid pid) r.run_id r.created_at by_session
                  ∙ kept)
        ]
      ]
