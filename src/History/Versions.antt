-- ===== src/History/Versions.antt =====
-- core/memory.py: the version that a session gets back.
use langgraph_agent_stack.Prelude.{
  ◌==◌, Bool-cases, Text, strip, is_blank, ℕ, ◌<◌, ◌≡◌, refl, ap, inl, inr, Bool, true, false,
  Option, none, some, [], ◌∷◌, arith, text_eq, nat_eq,
}
use langgraph_agent_stack.Prelude.Dict
use langgraph_agent_stack.Prelude.Dict.{Dict}
use langgraph_agent_stack.History.{
  Run, ConversationMemory, save_run, is_value, is_run_of, newer, latest,
  get_pack_version_for_session,
}

-- Every row is older than the time.
abbrev pub Before : ℕ → Dict Text Run → Type 0
Before t [] = Unit
Before t (entry ∷ rows) = (entry.1.created_at < t) × Before t rows

abbrev pub FoundBefore : ℕ → Option Run → Type 0
FoundBefore t none = Unit
FoundBefore t (some r) = r.created_at < t

newer-FoundBefore :
    (t : ℕ) (r : Run) (found : Option Run)
    → r.created_at < t
    → FoundBefore t found
    → (newer r found).created_at < t
unfolding newer
newer-FoundBefore t r none h f = h
newer-FoundBefore t r (some later) h f = ground arith

pub latest-FoundBefore :
    (t : ℕ) (test : Run → Bool) (rows : Dict Text Run)
    → Before t rows
    → FoundBefore t (latest test rows)
unfolding latest
latest-FoundBefore t test [] h = tt
latest-FoundBefore t test ((k, r) ∷ rows) h = elim (Bool-cases (test r)) [
  | inl hit ↦
      rw hit (newer-FoundBefore t r (latest test rows) h.0 (latest-FoundBefore t test rows h.1))
  | inr miss ↦ rw miss (latest-FoundBefore t test rows h.1)
]

newer-first : (r : Run) (found : Option Run) → FoundBefore r.created_at found → newer r found ≡ r
unfolding newer
newer-first r none h = refl
newer-first r (some later) h = ground arith

newer-last : (r later : Run) → r.created_at < later.created_at → newer r (some later) ≡ later
unfolding newer
newer-last r later h = ground arith

pub latest-put :
    (k : Text) (r : Run) (test : Run → Bool) (rows : Dict Text Run)
    → test r ≡ true
    → Before r.created_at rows
    → latest test (Dict.put k r rows) ≡ some r
unfolding latest Dict.put
latest-put k r test [] p h = rw p (ap some (newer-first r none tt))
latest-put k r test ((j, old) ∷ rows) p h = elim (Bool-cases (j == k)) [
  | inl hit ↦
      rw (hit, p) (ap some (newer-first r _ (latest-FoundBefore r.created_at test rows h.1)))
  | inr miss ↦ elim (Bool-cases (test old)) [
    | inl counts ↦
        rw (miss, counts, latest-put k r test rows p h.1) (ap some (newer-last old r h.0))
    | inr skipped ↦ rw (miss, skipped) (latest-put k r test rows p h.1)
  ]
]

-- A run of a session that is saved later than every row in the table, with a run id and a query
-- that are not blank, fixes the version that the session gets back for its pack.
pub get_pack_version-save_run :
    (r : Run) (session_id pack_id : Text) (s : ConversationMemory)
    → is_blank r.run_id ≡ false
    → is_blank r.query ≡ false
    → r.session_id ≡ some session_id
    → r.pack_id ≡ some pack_id
    → Before r.created_at s.rows
    → get_pack_version_for_session session_id pack_id (save_run r s).1 ≡ r.pack_version
unfolding get_pack_version_for_session save_run is_run_of is_value
get_pack_version-save_run r session_id pack_id s i q hs hp h =
    let saved = record r { query = strip r.query } in
    rw
      (
        i,
        q,
        get_pack_version_for_session,
        latest-put r.run_id saved (is_run_of session_id pack_id) s.rows (matches hs hp) h,
      )
      refl
  where
    matches :
        r.session_id ≡ some session_id
        → r.pack_id ≡ some pack_id
        → is_run_of session_id pack_id (record r { query = strip r.query }) ≡ true
    matches a b = rw (a, b, Dict.beq_refl session_id, Dict.beq_refl pack_id) refl

-- a run that does not pass the test changes nothing at the end of the table
pub latest-skip :
    (k : Text) (r : Run) (test : Run → Bool) (rows : Dict Text Run)
    → test r ≡ false
    → Dict.get k rows ≡ none
    → latest test (Dict.put k r rows) ≡ latest test rows
unfolding latest Dict.put Dict.get
latest-skip k r test [] p h = rw p refl
latest-skip k r test ((j, old) ∷ rows) p h = elim (Bool-cases (j == k)) [
  | inl hit ↦ absurd (cc (rw hit at h))
  | inr miss ↦ rw (miss, latest-skip k r test rows p (rw miss at h)) refl
]
