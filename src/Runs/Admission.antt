-- ===== src/Runs/Admission.antt =====
-- api/router_factory.py: which requests are let through.
use langgraph_agent_stack.Prelude.{
  ltb, if◌then◌else◌, Bool-cases, or_else, All, Text, is_ok, Result-cases, ok, err, ◌≡◌, refl, inl,
  inr, Bool, true, false, some, List,
}
use langgraph_agent_stack.Packs.{PackVersion, get_versions}
use langgraph_agent_stack.Runs.{
  try_session, used_version, requested_version, or_none, Service, RunRequest, session_in_flight,
  Ticket, check_request, acquire_session, start_run, start_stream,
}
use mathlib.Core.Path.{subst}
use langgraph_agent_stack.Packs
use langgraph_agent_stack.Policies.{
  is_regulated, regulated_pack_allowed, validate_query_for_pack, validate_pack_body,
  max_query_chars, Field,
}
use langgraph_agent_stack.Policies
use langgraph_agent_stack.Policies.Limits.{
  Within, ValueSafe, validate_query_for_pack-ok, validate_pack_body-ok,
}
use langgraph_agent_stack.Validation.Sanitised.{IsClean}
use langgraph_agent_stack.Runs.Server.{Server, Reaches, IsIdle}
use langgraph_agent_stack.Runs.InFlight.{all_holders, Reaches-IsExact, ok_inj}
use langgraph_agent_stack.Sessions.{is_held, try_acquire}

-- What a ticket promises of its request.
pub record IsAdmitted (pack_id : Text) (q : RunRequest) (s : Service) (t : Ticket) : Type 0 where
  pub up : s.shutting_down ≡ false
  pub same_run : t.run_id ≡ q.run_id
  pub same_pack : t.pack_id ≡ pack_id
  pub same_session : t.session_id ≡ or_none q.session_id
  pub version :
      (pv : PackVersion) × (versions : List PackVersion) × (Packs.get pack_id
          (requested_version pack_id q s)
          q.pick
          s.registry
        ≡ ok pv)
      × (get_versions pack_id s.registry ≡ ok versions)
      × (t.pack_version ≡ used_version pv.pack_cls versions)
  pub body :
      All
        (λ (f : Field).
          ValueSafe
            (or_else (max_query_chars (Policies.get pack_id s.policies)) s.validator.max_length)
            f.max_length
            f.value)
        q.fields
  pub short : Within q.primary_text (max_query_chars (Policies.get pack_id s.policies))
  pub clean : IsClean q.primary_text t.query

abbrev ticket_for : Text → RunRequest → Text → Text → Ticket
ticket_for pack_id q version query = record {
  run_id = q.run_id;
  pack_id = pack_id;
  pack_version = version;
  session_id = or_none q.session_id;
  query = query;
}

admitted :
    (pack_id query : Text) (q : RunRequest) (s : Service) (pv : PackVersion)
    (versions : List PackVersion)
    → s.shutting_down ≡ false
    → Packs.get pack_id (requested_version pack_id q s) q.pick s.registry ≡ ok pv
    → get_versions pack_id s.registry ≡ ok versions
    → validate_pack_body q.fields pack_id s.validator s.policies ≡ ok tt
    → validate_query_for_pack q.primary_text pack_id s.validator s.policies ≡ ok query
    → IsAdmitted pack_id q s (ticket_for pack_id q (used_version pv.pack_cls versions) query)
admitted pack_id query q s pv versions up found listed body checked =
    let safe =
      validate_query_for_pack-ok q.primary_text pack_id query s.validator s.policies checked in
    record {
      up = up;
      same_run = refl;
      same_pack = refl;
      same_session = refl;
      version = (pv, versions, found, listed, refl);
      body = validate_pack_body-ok q.fields pack_id s.validator s.policies body;
      short = safe.0;
      clean = safe.2;
    }

check_request-ok :
    (pack_id : Text) (q : RunRequest) (s : Service) (t : Ticket)
    → check_request pack_id q s ≡ ok t
    → IsAdmitted pack_id q s t
unfolding check_request
check_request-ok pack_id q s t h = elim (Bool-cases s.shutting_down) [
  | inl down ↦ absurd (cc (rw down at h))
  | inr up ↦
      elim (Result-cases (Packs.get pack_id (requested_version pack_id q s) q.pick s.registry)) [
        | inr (e, r) ↦ absurd (cc (rw (up, r) at h))
        | inl (pv, found) ↦ elim (Result-cases (get_versions pack_id s.registry)) [
          | inr (e, r) ↦ absurd (cc (rw (up, found, r) at h))
          | inl (versions, listed) ↦
              elim (Result-cases (validate_pack_body q.fields pack_id s.validator s.policies)) [
                | inr (e, r) ↦ absurd (cc (rw (up, found, listed, r) at h))
                | inl (u, body) ↦
                    elim (Result-cases
                      (validate_query_for_pack q.primary_text pack_id s.validator s.policies)) [
                        | inr (e, r) ↦ absurd (cc (rw (up, found, listed, body, r) at h))
                        | inl (query, checked) ↦
                            subst (IsAdmitted pack_id q s)
                              (ok_inj (ticket_for pack_id q _ query) t
                                (rw (up, found, listed, body, checked) at h))
                              (admitted pack_id query q s pv versions up found listed body checked)
                      ]
              ]
        ]
      ]
]

-- A regulated pack that is not enabled never runs through `run_pack`, whatever the request; whether
-- `stream_pack` lets a request through does not depend on the setting.
pub regulated_only_run :
    (pack_id : Text) (q : RunRequest) (s : Service)
    → is_regulated pack_id ≡ true
    → (b : Bool)
    → (is_ok (start_run pack_id q (record s { regulated_packs_enabled = false })).0 ≡ false)
      × ((start_stream pack_id q (record s { regulated_packs_enabled = b })).0
          ≡ (start_stream pack_id q s).0)
unfolding start_run regulated_pack_allowed start_stream check_request requested_version
    acquire_session
regulated_only_run pack_id q s r b = (
  elim (Result-cases (check_request pack_id q (record s { regulated_packs_enabled = false }))) [
    | inr (e, refused) ↦ rw (start_run, refused) refl
    | inl (t, checked) ↦ rw (start_run, checked, r) refl
  ],
  elim (Result-cases (check_request pack_id q s)) [
    | inr (e, refused) ↦ rw (start_stream, refused) refl
    | inl (t, checked) ↦ elim (Bool-cases (try_session t.session_id s.sessions).0) [
      | inl free ↦ rw (start_stream, checked, free) refl
      | inr busy ↦ rw (start_stream, checked, busy) refl
    ]
  ],
)

acquire_session-ok :
    (t t' : Ticket) (s : Service)
    → (acquire_session t s).0 ≡ ok t'
    → (t ≡ t') × ((try_session t.session_id s.sessions).0 ≡ true)
unfolding acquire_session
acquire_session-ok t t' s h = elim (Bool-cases (try_session t.session_id s.sessions).0) [
  | inr busy ↦ absurd (cc (rw busy at h))
  | inl free ↦ (ok_inj t t' (rw free at h), free)
]

-- A run that is let through runs the version that the registry gives for the version it asks for,
-- has every text that is a value of its body, or stands in a list that is one, within the pack's
-- limits and free of null bytes (texts deeper within a value are not checked), a clean query, a pack that is not a disabled regulated one, and a session, if it has one,
-- that no run held before.
pub start_run-ok :
    (pack_id : Text) (q : RunRequest) (s : Service) (t : Ticket)
    → (start_run pack_id q s).0 ≡ ok t
    → IsAdmitted pack_id q s t
      × (regulated_pack_allowed pack_id s.regulated_packs_enabled ≡ true)
      × ((try_session t.session_id s.sessions).0 ≡ true)
unfolding start_run
start_run-ok pack_id q s t h = elim (Result-cases (check_request pack_id q s)) [
  | inr (e, refused) ↦ absurd (cc (rw (start_run, refused) at h))
  | inl (t', checked) ↦
      elim (Bool-cases (regulated_pack_allowed pack_id s.regulated_packs_enabled)) [
        | inr disabled ↦ absurd (cc (rw (start_run, checked, disabled) at h))
        | inl allowed ↦
            let (same, free) = acquire_session-ok t' t s (rw (start_run, checked, allowed) at h) in
            subst
              (λ (u : Ticket).
                IsAdmitted pack_id q s u
                × (regulated_pack_allowed pack_id s.regulated_packs_enabled ≡ true)
                × ((try_session u.session_id s.sessions).0 ≡ true))
              same (check_request-ok pack_id q s t' checked, allowed, free)
      ]
]

-- In a server that started idle, a request that passes the other guards is refused with 409 exactly
-- when a run or a stream of its session is under way, at the pack endpoints or at /run and
-- /run/stream, or when a stream of its session was started before and never read.
pub start_run-conflict :
    (s u : Server) (pack_id session_id : Text) (q : RunRequest) (t : Ticket)
    → Reaches s u
    → IsIdle s
    → check_request pack_id q u.service ≡ ok t
    → regulated_pack_allowed pack_id u.service.regulated_packs_enabled ≡ true
    → t.session_id ≡ some session_id
    → (start_run pack_id q u.service).0
      ≡ (if ltb 0 (all_holders session_id u) then err session_in_flight else ok t)
unfolding start_run acquire_session try_session try_acquire
start_run-conflict s u pack_id session_id q t reached idle checked allowed given =
    elim (Bool-cases (is_held session_id u.service.sessions.sessions)) [
      | inl busy ↦
          rw
            (
              Reaches-IsExact reached idle session_id,
              busy,
              start_run,
              checked,
              allowed,
              given,
              busy,
            )
            refl
      | inr free ↦
          rw
            (
              Reaches-IsExact reached idle session_id,
              free,
              start_run,
              checked,
              allowed,
              given,
              free,
            )
            refl
    ]
