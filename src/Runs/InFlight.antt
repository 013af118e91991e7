-- ===== src/Runs/InFlight.antt =====
-- api/router_factory.py: a session is held exactly while a run or a stream of it is under way.
use langgraph_agent_stack.Prelude.{
  if◌then◌else◌, ◌==◌, Bool-cases, Text, text_beq_iff, Result, Result-cases, ok, err, ℕ, ◌+◌, ◌-◌,
  ◌≡◌, refl, sym, ap, ◌∙◌, inl, inr, true, Option, none, some, List, [], ◌∷◌, ◌++◌, arith, text_eq,
  nat_eq,
}
use langgraph_agent_stack.Runs.{
  or_none, regulated_pack_allowed, try_session, Service, RunRequest, Refusal, Ticket, check_request,
  acquire_session, start_run, start_stream,
}
use langgraph_agent_stack.Runs.Finish.{
  release_given, Outcome, returned, budget_exceeded, timed_out, authentication_failed, other_error,
  failed, Backends, finish_run, StreamEnd, ended, out_of_time, disconnected, not_built,
  finish_stream,
}
use langgraph_agent_stack.Sessions.{
  InMemorySessionRegistry, is_held, try_acquire, release, is_held-discard,
}
use mathlib.Core.Path.{subst}
use langgraph_agent_stack.Runs.Server.{start_legacy, Server, Step, Reaches, IsIdle}

-- 1 where the ticket belongs to the session.
abbrev pub is_of : Text → Option Text → ℕ
is_of k none = 0
is_of k (some j) = if j == k then 1 else 0

-- How many runs and streams of a session are under way.
abbrev pub holders : Text → List Ticket → ℕ
holders k [] = 0
holders k (t ∷ tickets) = is_of k t.session_id + holders k tickets

abbrev pub of_session : Text → List (Option Text) → ℕ
of_session k [] = 0
of_session k (given ∷ rest) = is_of k given + of_session k rest

-- How many of everything that holds the session: runs and streams, those of the legacy endpoints,
-- and streams that were never read.
abbrev pub all_holders : Text → Server → ℕ
all_holders k s =
    holders k s.in_flight
    + (holders k s.streams
        + (of_session k s.legacy + (of_session k s.legacy_streams + of_session k s.unread)))

abbrev pub held : Text → InMemorySessionRegistry → ℕ
held k r = if is_held k r.sessions then 1 else 0

holders-append :
    (k : Text) (before after : List Ticket)
    → holders k (before ++ after) ≡ holders k before + holders k after
holders-append k [] after = omega arith
holders-append k (t ∷ before) after = omega (arith, holders-append k before after)

of_session-append :
    (k : Text) (before after : List (Option Text))
    → of_session k (before ++ after) ≡ of_session k before + of_session k after
of_session-append k [] after = omega arith
of_session-append k (given ∷ before) after = omega (arith, of_session-append k before after)

-- Every session is held as often as it is under way, or was lost with a stream.
abbrev pub IsExact : Server → Type 0
IsExact s = (k : Text) → all_holders k s ≡ held k s.service.sessions

try_session-held :
    (given : Option Text) (r : InMemorySessionRegistry) (k : Text)
    → (try_session given r).0 ≡ true
    → held k (try_session given r).1 ≡ is_of k given + held k r
unfolding try_session try_acquire is_held
try_session-held none r k h = omega arith
try_session-held (some j) r k h = elim (Bool-cases (is_held j r.sessions)) [
  | inl busy ↦ absurd (cc (rw busy at h))
  | inr free ↦ rw free (ground (arith, text_beq_iff j k))
]

pub ok_inj : (t t' : Ticket) → (let r : Result Refusal Ticket = ok t in r ≡ ok t') → t ≡ t'
ok_inj t t' e = cc

acquire-held :
    (t t' : Ticket) (s : Service) (k : Text)
    → (acquire_session t s).0 ≡ ok t'
    → held k (acquire_session t s).1.sessions ≡ is_of k t'.session_id + held k s.sessions
unfolding acquire_session
acquire-held t t' s k h = elim (Bool-cases (try_session t.session_id s.sessions).0) [
  | inr busy ↦ absurd (cc (rw busy at h))
  | inl free ↦
      subst
        (λ u. held k (acquire_session t s).1.sessions ≡ is_of k u.session_id + held k s.sessions)
        (ok_inj t t' (rw free at h)) (rw free (try_session-held t.session_id s.sessions k free))
]

acquire-refused :
    (t : Ticket) (s : Service) (e : Refusal)
    → (acquire_session t s).0 ≡ err e
    → (acquire_session t s).1 ≡ s
unfolding acquire_session
acquire-refused t s e h = elim (Bool-cases (try_session t.session_id s.sessions).0) [
  | inl free ↦ absurd (cc (rw free at h))
  | inr busy ↦ rw busy refl
]

-- Both handlers end with `acquire_session`, or leave the service as it is.
pub data Acquires (s : Service) : Result Refusal Ticket × Service → Type 0 where
  acquires : (t : Ticket) → Acquires s (acquire_session t s)
  refuses : (e : Refusal) → Acquires s (err e, s)

start_run-Acquires :
    (pack_id : Text) (q : RunRequest) (s : Service) → Acquires s (start_run pack_id q s)
unfolding start_run
start_run-Acquires pack_id q s = elim (Result-cases (check_request pack_id q s)) [
  | inr (e, refused) ↦ rw (start_run, refused) (refuses e)
  | inl (t, checked) ↦
      elim (Bool-cases (regulated_pack_allowed pack_id s.regulated_packs_enabled)) [
        | inl allowed ↦ rw (start_run, checked, allowed) (acquires t)
        | inr disabled ↦ rw (start_run, checked, disabled) (refuses _)
      ]
]

start_stream-Acquires :
    (pack_id : Text) (q : RunRequest) (s : Service) → Acquires s (start_stream pack_id q s)
unfolding start_stream
start_stream-Acquires pack_id q s = elim (Result-cases (check_request pack_id q s)) [
  | inr (e, refused) ↦ rw (start_stream, refused) (refuses e)
  | inl (t, checked) ↦ rw (start_stream, checked) (acquires t)
]

Acquires-held :
    (s : Service) (r : Result Refusal Ticket × Service) (t : Ticket) (k : Text)
    → Acquires s r
    → r.0 ≡ ok t
    → held k r.1.sessions ≡ is_of k t.session_id + held k s.sessions
Acquires-held s r t k (acquires t') h = acquire-held t' t s k h
Acquires-held s r t k (refuses e) h = absurd cc

Acquires-refused :
    (s : Service) (r : Result Refusal Ticket × Service) (e : Refusal)
    → Acquires s r
    → r.0 ≡ err e
    → r.1 ≡ s
Acquires-refused s r e (acquires t) h = acquire-refused t s e h
Acquires-refused s r e (refuses _) h = refl

release_given-held :
    (given : Option Text) (r : InMemorySessionRegistry) (k : Text)
    → held k (release_given given r) ≡ held k r - is_of k given
unfolding release_given release
release_given-held none r k = omega arith
release_given-held (some j) r k = ground (arith, is_held-discard k j r.sessions)

finish_run-sessions :
    (t : Ticket) (o : Outcome) (b : Backends) (s : Service)
    → (finish_run t o b s).1.sessions ≡ release_given t.session_id s.sessions
unfolding finish_run
finish_run-sessions t (returned summary) b s = refl
finish_run-sessions t budget_exceeded b s = refl
finish_run-sessions t timed_out b s = refl
finish_run-sessions t authentication_failed b s = refl
finish_run-sessions t other_error b s = refl
finish_run-sessions t (failed chain) b s = refl

finish_stream-sessions :
    (t : Ticket) (e : StreamEnd) (b : Backends) (s : Service)
    → (finish_stream t e b s).1.sessions ≡ release_given t.session_id s.sessions
unfolding finish_stream
finish_stream-sessions t (ended (returned summary)) b s = refl
finish_stream-sessions t (ended budget_exceeded) b s = refl
finish_stream-sessions t (ended timed_out) b s = refl
finish_stream-sessions t (ended authentication_failed) b s = refl
finish_stream-sessions t (ended other_error) b s = refl
finish_stream-sessions t (ended (failed chain)) b s = refl
finish_stream-sessions t out_of_time b s = refl
finish_stream-sessions t disconnected b s = refl
finish_stream-sessions t not_built b s = refl

-- A ticket leaves and its session is released, `rest` being what else holds it.
left-held :
    (tickets before after : List Ticket) (t : Ticket) (sessions next : InMemorySessionRegistry)
    (k : Text) (rest : ℕ)
    → holders k tickets + rest ≡ held k sessions
    → tickets ≡ before ++ t ∷ after
    → next ≡ release_given t.session_id sessions
    → holders k (before ++ after) + rest ≡ held k next
left-held tickets before after t sessions next k rest exact flying e = rw e (
    omega (
      arith,
      release_given-held t.session_id sessions k,
      holders-append k before after,
      holders-append k before (t ∷ after),
      rw flying at exact,
    ))

freed-held :
    (all_given before after : List (Option Text)) (given : Option Text)
    (sessions : InMemorySessionRegistry) (k : Text) (rest : ℕ)
    → of_session k all_given + rest ≡ held k sessions
    → all_given ≡ before ++ given ∷ after
    → of_session k (before ++ after) + rest ≡ held k (release_given given sessions)
freed-held all_given before after given sessions k rest exact flying = omega (
  arith,
  release_given-held given sessions k,
  of_session-append k before after,
  of_session-append k before (given ∷ after),
  rw flying at exact,
)

-- What a stream that is never read held, it still holds.
lost-held :
    (k : Text) (all_given before after : List (Option Text)) (given : Option Text)
    → all_given ≡ before ++ given ∷ after
    → of_session k all_given ≡ is_of k given + of_session k (before ++ after)
lost-held k all_given before after given e =
    rw e
      (omega (arith, of_session-append k before after, of_session-append k before (given ∷ after)))

-- A ticket enters, of a session that was free.
entered-held :
    (s : Service) (r : Result Refusal Ticket × Service) (t : Ticket) (next : Service) (k : Text)
    → Acquires s r
    → r ≡ (ok t, next)
    → held k next.sessions ≡ is_of k t.session_id + held k s.sessions
entered-held s r t next k acquired e =
    subst (λ p. held k p.1.sessions ≡ is_of k t.session_id + held k s.sessions) e
      (Acquires-held s r t k acquired (ap (λ p. p.0) e))

taken-held :
    (given : Option Text) (sessions next : InMemorySessionRegistry) (k : Text)
    → start_legacy given sessions ≡ (true, next)
    → held k next ≡ is_of k (or_none given) + held k sessions
taken-held given sessions next k h =
    subst (λ p. held k p.1 ≡ is_of k (or_none given) + held k sessions) h
      (try_session-held (or_none given) sessions k (ap (λ p. p.0) h))

refused-IsExact :
    (s : Server) (r : Result Refusal Ticket × Service) (x : Refusal) (next : Service)
    → IsExact s
    → Acquires s.service r
    → r ≡ (err x, next)
    → IsExact (record s { service = next })
refused-IsExact s r x next exact acquired e k =
    let same = Acquires-refused s.service r x acquired (ap (λ p. p.0) e) in
    subst (λ (n : Service). all_holders k s ≡ held k n.sessions) (sym same ∙ ap (λ p. p.1) e)
      (exact k)

Step-IsExact : {s u : Server} → Step s u → IsExact s → IsExact u
Step-IsExact (Step.refused_run s pack_id q e next h) exact =
    refused-IsExact s _ e next exact (start_run-Acquires pack_id q s.service) h
Step-IsExact (Step.started_run s pack_id q t next h) exact = λ k.
    omega
      (arith, exact k, entered-held s.service _ t next k (start_run-Acquires pack_id q s.service) h)
Step-IsExact (Step.refused_stream s pack_id q e next h) exact =
    refused-IsExact s _ e next exact (start_stream-Acquires pack_id q s.service) h
Step-IsExact (Step.started_stream s pack_id q t next h) exact = λ k. omega (
  arith,
  exact k,
  entered-held s.service _ t next k (start_stream-Acquires pack_id q s.service) h,
)
Step-IsExact (Step.finished_run s before after t o b h) exact = λ k.
    left-held s.in_flight before after t s.service.sessions _ k _ (exact k) h
      (finish_run-sessions t o b s.service)
Step-IsExact (Step.finished_stream s before after t e b h) exact = λ k. omega (
  arith,
  left-held s.streams before after t s.service.sessions _ k
      (holders k s.in_flight
        + (of_session k s.legacy + (of_session k s.legacy_streams + of_session k s.unread)))
      (omega (arith, exact k)) h (finish_stream-sessions t e b s.service),
)
Step-IsExact (Step.unread_stream s before after t h) exact = λ k.
    omega
      (arith, holders-append k before after, holders-append k before (t ∷ after), rw h at exact k)
Step-IsExact (Step.started_legacy s given next h) exact =
    λ k. omega (arith, exact k, taken-held given s.service.sessions next k h)
Step-IsExact (Step.finished_legacy s before after given saved h) exact = λ k. omega (
  arith,
  freed-held s.legacy before after given s.service.sessions k
      (holders k s.in_flight
        + (holders k s.streams + (of_session k s.legacy_streams + of_session k s.unread)))
      (omega (arith, exact k)) h,
)
Step-IsExact (Step.started_legacy_stream s given next h) exact =
    λ k. omega (arith, exact k, taken-held given s.service.sessions next k h)
Step-IsExact (Step.finished_legacy_stream s before after given saved h) exact = λ k. omega (
  arith,
  freed-held s.legacy_streams before after given s.service.sessions k
      (holders k s.in_flight
        + (holders k s.streams + (of_session k s.legacy + of_session k s.unread)))
      (omega (arith, exact k)) h,
)
Step-IsExact (Step.unread_legacy_stream s before after given h) exact =
    λ k. omega (arith, exact k, lost-held k s.legacy_streams before after given h)
Step-IsExact (Step.reviewed s call store h) exact = exact
Step-IsExact (Step.configured s registry) exact = exact
Step-IsExact (Step.stopped s) exact = exact

idle-IsExact : (s : Server) → IsIdle s → IsExact s
unfolding is_held
idle-IsExact s idle k =
    rw
      (
        idle.none_in_flight, idle.no_streams, idle.no_legacy, idle.no_legacy_streams,
        idle.none_unread, idle.none_held,
      )
      refl

-- Whatever clients, packs, backends, reviewers and operators do, in whatever order: from a server
-- that is idle, a session is held exactly when one run or stream of it is under way, at the pack
-- endpoints or at /run and /run/stream, or when a stream of it was started and never read; and of
-- these there is only one per session. A session is free again once its run or stream has ended,
-- however it ended; that of a stream whose generator never starts stays held.
pub Reaches-IsExact :
    {s u : Server}
    → Reaches s u
    → IsIdle s
    → (k : Text) → all_holders k u ≡ (if is_held k u.service.sessions.sessions then 1 else 0)
Reaches-IsExact (Reaches.here s) idle = idle-IsExact s idle
Reaches-IsExact (Reaches.then before step) idle = Step-IsExact step (Reaches-IsExact before idle)
