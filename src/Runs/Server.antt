-- ===== src/Runs/Server.antt =====
-- api/router_factory.py: the requests of many clients, interleaved, with those of /run and
-- /run/stream in api/endpoints/pipeline.py, which take their sessions from the same registry. A
-- server is the service with the runs and streams that are under way.
use langgraph_agent_stack.Prelude.{
  Text, ok, err, ◌≡◌, Bool, true, Option, some, List, [], ◌∷◌, ◌++◌,
}
use langgraph_agent_stack.Packs.{Registry}
use langgraph_agent_stack.History.{ConversationMemory}
use langgraph_agent_stack.Sessions.{InMemorySessionRegistry}
use langgraph_agent_stack.Reviews
use langgraph_agent_stack.Reviews.Memory
use langgraph_agent_stack.Runs.{
  try_session, or_none, Service, RunRequest, Refusal, Ticket, start_run, start_stream,
}
use langgraph_agent_stack.Runs.Finish.{
  Outcome, Backends, release_given, finish_run, StreamEnd, finish_stream,
}

pub record Server : Type 0 where
  pub service : Service
  pub in_flight : List Ticket
  pub streams : List Ticket
  pub legacy : List (Option Text)
  pub legacy_streams : List (Option Text)
  pub unread : List (Option Text)

-- `/run` and `/run/stream`: the session of the body, if it names one, is taken before the pipeline
-- starts and given back in the `finally`.
abbrev pub start_legacy : Option Text → InMemorySessionRegistry → Bool × InMemorySessionRegistry
start_legacy session_id sessions = try_session (or_none session_id) sessions

abbrev pub end_legacy : Option Text → InMemorySessionRegistry → InMemorySessionRegistry
end_legacy held sessions = release_given held sessions

-- What may happen next: a request is refused or let through, a run or a stream that is under way
-- ends, a call of the review endpoints comes in, an operator changes the weights or versions, or
-- the shutdown begins. A run or a stream of the legacy endpoints holds its session, if its body
-- names one, until it ends, and may save itself in the history. A stream whose generator is never
-- started, since its client is gone before the first byte, never comes to its `finally`: it leaves
-- `streams` or `legacy_streams` for `unread`.
pub data Step : Server → Server → Type 0 where
  refused_run :
      (s : Server) (pack_id : Text) (q : RunRequest) (e : Refusal) (next : Service)
      → start_run pack_id q s.service ≡ (err e, next)
      → Step s (record s { service = next })
  started_run :
      (s : Server) (pack_id : Text) (q : RunRequest) (t : Ticket) (next : Service)
      → start_run pack_id q s.service ≡ (ok t, next)
      → Step s (record s { service = next; in_flight = t ∷ s.in_flight })
  refused_stream :
      (s : Server) (pack_id : Text) (q : RunRequest) (e : Refusal) (next : Service)
      → start_stream pack_id q s.service ≡ (err e, next)
      → Step s (record s { service = next })
  started_stream :
      (s : Server) (pack_id : Text) (q : RunRequest) (t : Ticket) (next : Service)
      → start_stream pack_id q s.service ≡ (ok t, next)
      → Step s (record s { service = next; streams = t ∷ s.streams })
  finished_run :
      (s : Server) (before after : List Ticket) (t : Ticket) (o : Outcome) (b : Backends)
      → s.in_flight ≡ before ++ t ∷ after
      → Step s (record s { service = (finish_run t o b s.service).1; in_flight = before ++ after })
  finished_stream :
      (s : Server) (before after : List Ticket) (t : Ticket) (e : StreamEnd) (b : Backends)
      → s.streams ≡ before ++ t ∷ after
      → Step s (record s { service = (finish_stream t e b s.service).1; streams = before ++ after })
  unread_stream :
      (s : Server) (before after : List Ticket) (t : Ticket)
      → s.streams ≡ before ++ t ∷ after
      → Step s (record s { streams = before ++ after; unread = t.session_id ∷ s.unread })
  started_legacy :
      (s : Server) (given : Option Text) (next : InMemorySessionRegistry)
      → start_legacy given s.service.sessions ≡ (true, next)
      → Step s (record s {
        service = record s.service { sessions = next };
        legacy = or_none given ∷ s.legacy;
      })
  finished_legacy :
      (s : Server) (before after : List (Option Text)) (given : Option Text)
      (saved : Option ConversationMemory)
      → s.legacy ≡ before ++ given ∷ after
      → Step s (record s {
        service = record s.service {
          sessions = end_legacy given s.service.sessions;
          shared_memory = saved;
        };
        legacy = before ++ after;
      })
  started_legacy_stream :
      (s : Server) (given : Option Text) (next : InMemorySessionRegistry)
      → start_legacy given s.service.sessions ≡ (true, next)
      → Step s (record s {
        service = record s.service { sessions = next };
        legacy_streams = or_none given ∷ s.legacy_streams;
      })
  finished_legacy_stream :
      (s : Server) (before after : List (Option Text)) (given : Option Text)
      (saved : Option ConversationMemory)
      → s.legacy_streams ≡ before ++ given ∷ after
      → Step s (record s {
        service = record s.service {
          sessions = end_legacy given s.service.sessions;
          shared_memory = saved;
        };
        legacy_streams = before ++ after;
      })
  unread_legacy_stream :
      (s : Server) (before after : List (Option Text)) (given : Option Text)
      → s.legacy_streams ≡ before ++ given ∷ after
      → Step s (record s { legacy_streams = before ++ after; unread = given ∷ s.unread })
  reviewed :
      (s : Server) (call : Reviews.Call) (store : Memory.InMemoryReviewStore)
      → s.service.review_store ≡ some store
      → Step s (record s {
        service = record s.service { review_store = some (Memory.step call store).1 };
      })
  configured :
      (s : Server) (registry : Registry)
      → Step s (record s { service = record s.service { registry = registry } })
  stopped : (s : Server) → Step s (record s { service = record s.service { shutting_down = true } })

pub data Reaches : Server → Server → Type 0 where
  here : (s : Server) → Reaches s s
  then : {s t u : Server} → Reaches s t → Step t u → Reaches s u

-- A server that has just started: no run is under way and no session is held.
pub record IsIdle (s : Server) : Type 0 where
  pub none_in_flight : s.in_flight ≡ []
  pub no_streams : s.streams ≡ []
  pub no_legacy : s.legacy ≡ []
  pub no_legacy_streams : s.legacy_streams ≡ []
  pub none_unread : s.unread ≡ []
  pub none_held : s.service.sessions ≡ record { sessions = [] }
