-- ===== src/Lib.antt =====
-- A model of langgraph-agent-stack: an HTTP service that runs packs of LLM agents, with a queue of
-- human reviews for the outputs of regulated packs.
--
-- The parts and how they interact. A request passes the middlewares, with the rate limiter and the
-- authentication among them; the pack registry picks a version of the pack that it names, weighted
-- or sticky per client; the input validator and the pack's policy check its texts; the pack runs,
-- its agents call the language model with retries and within a budget of steps, and its output is
-- scanned and gets the compliance fields of its policy; the run is saved in the history; a pack
-- whose policy requires it has a pending review queued, which a person decides once. Plugins add
-- packs to the registry when the service starts.
--
--   Reviews      core/review_store.py: the records and the checks of arguments. Reviews/Memory is
--                InMemoryReviewStore, Reviews/Sqlite is SqliteReviewStore (create, get,
--                list_reviews, decide). Reviews/Api is api/endpoints/reviews.py, with the checks of
--                ReviewDecisionRequest of api/models.py.
--   RateLimit    core/security.py: RateLimiter (is_allowed, _evict_stale, remaining);
--                RateLimit/Redis is RedisRateLimiter over a Redis server that is a parameter with
--                laws, and create_rate_limiter.
--   Packs        pack_kernel/registry.py: PackRegistry (register, get, set_weights) and
--                _select_weighted_pack_version. Packs/Plugins is pack_kernel/plugins.py and
--                Packs/Endpoint is api/endpoints/packs.py.
--   Validation   core/security.py: InputValidator.
--   Policies     control_plane (PackPolicy, PolicyRegistry, enforce.py) and
--                domain_packs/common/compliance.py; the disclaimers stand in Policies/Disclaimers.
--   Sessions     core/security.py: InMemorySessionRegistry, behind api/state.py; Sessions/Redis is
--                RedisSessionRegistry over a Redis server that is a parameter with laws.
--   History      core/memory.py: ConversationMemory; History/Queries has its listings,
--                History/Redis is RedisRunHistory over a Redis server that is a parameter with laws,
--                History/Postgres is PostgresRunHistory and create_run_history.
--   Runs         api/router_factory.py: run_pack and stream_pack, each in two steps: Runs has the
--                one before the pack runs, Runs/Finish the one after it. Runs/Server is the relation
--                of what may happen next in a server with any number of runs under way, those
--                of /run and /run/stream (api/endpoints/pipeline.py) among them.
--                find_auth_cause of agents/llm_retry.py.
--   Cost         core/cost.py: resolve_model_pricing, compute_call_cost,
--                estimate_worst_case_call_cost; Cost/Tracker has the callbacks of CostTracker and
--                Cost/Budget the calls of the framework around LLM calls that may overlap.
--   Redaction    core/security.py: sanitize_log_data, applied to what is logged.
--   Access       api/middleware.py in the order of api/app.py (Access/Chain), with the keys of
--                core/config.py (Access/Keys), and of core/security.py the limit on bodies
--                (Access/Body) and the client's address and bucket (Access/Client).
--   Retry        agents/llm_retry.py (Retry, Retry/Chain), and of agents/base_agent.py the call of
--                the model (Retry/Outcome) and the step counter (Retry/Steps).
--   Agents       agents/researcher.py: the nodes of ResearchAgent (Agents/Research) and its graph
--                (Agents/Graph); connectors/base.py (Agents).
--   Guard        domain_packs/common/output_guard.py, and of structured_llm.py beside it the way
--                from the model's answer to the output (Guard/Pack).
--   Outbound     core/security.py: validate_outbound_url and wrap_untrusted_content.
--   Calculator   core/tools.py: the calculator tool and its evaluator.
--   Prelude      Boolean tests, lists, texts, results, JSON, dictionaries in insertion order.
--
-- How state is modelled. A text is a list of code points; `lower` is that of ASCII. A dictionary
-- is an association list in the order of insertion, as Python keeps it. Each store is a record,
-- each method a function from the store to its reply and the next store; an exception is an error
-- value. A method that holds a lock is one step, so that an interleaving of threads is a list of
-- calls. Times are whole numbers of the clock's unit and are arguments, weights are thousandths,
-- budgets whole numbers of a fixed unit. The digest of an affinity key is an argument, a number
-- below 2^32, and so is the draw of `random.choices`; what an entry point of a plugin loads is an
-- argument. Loops are structural recursion on the list that the source iterates over; the depth
-- of find_auth_cause is the source's own bound of 10. The graph of an agent runs on fuel,
-- LangGraph's recursion limit, and Agents/Ends shows how much is enough; the attempts of a
-- retried call are those of tenacity, a parameter with laws. The parameters that stand for a
-- library (ipaddress, hashlib, Starlette, regular expressions, json, a schema, Redis, tenacity)
-- are records that the Tests modules fill with functions. A pack is the outcome that it ends
-- with; a call of a backend after a run is carried out or not, as an argument says. The times of
-- saved runs are arguments too. The floats of the sticky branch of
-- `_select_weighted_pack_version` are a parameter; the draw of its random branch is a whole
-- number below the total weight. Prices are whole numbers too, in a unit that is fine enough for
-- every product of core/cost.py to be exact; the price table is an argument, since an override
-- file may change every entry. The texts that SQLite stores are such that UTF-8 can encode them,
-- and its integer parameters are bounded as the driver bounds them.
--
-- Not modelled: what the legacy endpoints do besides taking their session, the expiry of Redis
-- keys, the events of a stream before its last one, the checkpointers of LangGraph, and the
-- reading of token counts out of the responses of an LLM library. AnalystAgent and the graphs of
-- the packs, the search tool, the HTTP connectors, the legacy pipeline and session endpoints and
-- the evaluation harness are still to come. The providers of models, vector stores,
-- observability, start-up and deployment are left out as I/O or calls of other libraries.
pub mod Prelude
pub mod Reviews
pub mod RateLimit
pub mod Packs
pub mod Validation
pub mod Policies
pub mod Sessions
pub mod History
pub mod Runs
pub mod Cost
pub mod Access
pub mod Redaction
pub mod Retry
pub mod Outbound
pub mod Guard
pub mod Agents
pub mod Calculator
