-- ===== src/Lib.antt =====
-- ProjectNexus: a household of language models behind one hub.
--
-- The hub (nodes/brainstem_4070) takes authenticated requests, runs each turn as retrieve, generate,
-- write back, and keeps the members' presence, inboxes and sessions. The embedder
-- (nodes/embedder_4070) owns the memory rows and their scopes. The cortex that generates text is
-- another machine, where the model manager (nodes/model_manager_4090) stages weights, starts and stops
-- the server of a member and reports its presence to the hub. Both boot from the family registry
-- (core/family.py).
--
-- Files:
-- - Prelude, Py: shared names; Python's dict with str keys (insertion order kept), str methods,
--   and JSON values.
-- - Embedder/Scopes: nodes/embedder_4070/scopes.py. Defs has one definition for each function;
--   Access is about who may read and write which scope, Provenance about promotion and migration.
-- - Embedder/Chunker: nodes/embedder_4070/chunker.py. Split has `_split_on` and `_recursive`, Pack has
--   `_pack` and `chunk_turn`; Lossless, Bound and Cover are about them.
-- - Embedder/Memory: nodes/embedder_4070/server.py and chroma_store.py. Chroma is the collection as an
--   interface with the laws that the service relies on, and the calls of chroma_store.py; Requests,
--   Endpoints and Timeline have the handlers. Log is the abstract memory that they refine, Steps and
--   Refine are about that; Visible is about queries, Stored about writes, Promote about promotions.
--   Shelf is a collection that keeps the laws.
-- - Hub/Family: nodes/brainstem_4070/family_state.py. State has one definition for each method of
--   `FamilyState` (`init` is `__init__`, `flush` is `_flush_locked`); a method that raises returns an
--   `Outcome`, `__init__` a `Start`. Valid is the invariant; Queue, Presence, Durable and Boot are about the methods.
-- - Hub/Sessions: nodes/brainstem_4070/sessions.py, `HubSessionStore`, likewise.
-- - Hub/Auth: nodes/brainstem_4070/auth.py. Token is the header and the token format over a KDF that is a
--   parameter, Store is `TokenStore` and `require_token`, Visits a sequence of requests; Laws, Lifecycle,
--   Minted and Creation are about them.
-- - Hub/Turn: `_run_turn` and `_live_member_turn` of nodes/brainstem_4070/server.py and what they
--   call. Counter is about the turn numbers, Effects about what a turn changes.
-- - Hub/Inbox: `_drain_inbox`, `_build_briefing`, `_spoken_briefing` and the endpoints generate,
--   member_chat, member_presence and member_inbox_message of the same file; Relay has the roster,
--   briefing, household and promotion endpoints. Order, Complete, Numbering, Chat, Privacy and Reach
--   are about them.
-- - Hub/Stm: nodes/brainstem_4070/stm_buffer.py, filter.py, and `stm_write`.
-- - Manager: nodes/model_manager_4090/tiering.py. Tiering has the functions, on directories that hold
--   regular files; Evict is about evictions, Stage about staging.
-- - Manager/Lifecycle: manager.py and server.py of the same directory. Command has `weights_filename`
--   and `_build_command`, Wait has `_wait_healthy`, Load has `load`, `unload` and `status` with their
--   effects in a trace, Endpoints has the handlers; Presence and Sound are about the trace.
-- - Registry: core/family.py. Types has the models with their validators, Load has `load_registry`; Ids
--   and Laws are about them.
-- - Client: clients/cli/nexus_cli.py. Settings has the address, the token and the headers, Errors,
--   Requests and Calls the round trips, Retry `_call_member_with_retry`, Poll `poll_inbox`, Run the
--   commands, Main the choice that `main` makes, Repl the interactive loop; Bounded, Exits and Legacy
--   are about the retries, the polling and the headers.
-- - Bench/Eval: bestofn.py, runner.py, scoring.py and comparison.py of bench/eval. Types has the records
--   over an interface of Python's floats, Select has `_select_candidate`, Aggregate and Run have `run_seed`, Scoring and
--   Bootstrap the statistics, Baseline the runner of one arm, Compare `build_comparison`; Best, Rule
--   and Sound are about the selection and a run.
-- - Each Tests, and Hub/Samples and Embedder/Memory/Shelf: runs at concrete inputs.
--
-- Conventions: the state of the hub is the record `Hub`, which a handler takes and returns, so that
-- what was written before an exception stays written. What the program only calls is the record
-- `World`: the clock, uuid4, the disks, the cortex, the embedder, the concierge. Each is a function of
-- the moment, the number of effects so far, so that two calls may answer differently; every theorem
-- holds for all of them. Floats are their `repr`. Loops are structural recursion (`_recursive` recurses
-- on the list of separators that are left), except the client's retries, for which four rounds are
-- enough, and the polling loops of `_wait_healthy` and `poll_inbox`, which have the timeout in units
-- of the clock plus one as their fuel: the clock advances by one at least in each round, so the
-- deadline comes first. The tokenizer and the embedding model are parameters.
--
-- Not modelled: timings and byte counts of metric records, log lines, HTTP framing, and concurrency
-- between requests (the stores' locks make their methods single steps; the turn counter of a session
-- is read and written by one request at a time here). The components that are not modelled
-- are the probes of the bench, the web client, the NAS service, the first core service and the scripts.
-- Exceptions of Chroma and of the embedding model end a request with status 500 and are left out.
-- `rows` holds the writes that the embedder acknowledged: a row that it stored before a timeout is not
-- among them. A copy of weights whose source vanishes is an `OSError` like any other.
pub mod Bench
pub mod Client
pub mod Embedder
pub mod Hub
pub mod Manager
pub mod Prelude
pub mod Py
pub mod Registry
