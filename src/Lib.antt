-- ===== src/Lib.antt =====
-- SCS, a local code-search service: the durable queue of its ingestion work and the queue's worker,
-- the catalog of the project stores, the gate of the native graph, the local wire protocol, the
-- hybrid search, the orchestrated query, and the registry of the project stores.
--
-- The service indexes repositories. Clients, the file watcher and the command line put jobs into one
-- SQLite table; a worker claims them one at a time for each project store, reports progress, freezes
-- the list of files of a force-full job and acknowledges it batch by batch, and closes the job. A
-- crashed worker leaves a lease behind, which the next worker reclaims.
--
-- Jobs is src/scs/indexing/jobs.py, the class `IngestionJobStore` and its helpers:
--   Jobs.Record   the row `IngestionJob`, its modes and statuses, the payload and the manifest in it
--   Jobs.Payload  `_normalize_payload`, `_mode_rank`, `_merge_payload`
--   Jobs.Manifest `_normalize_force_snapshot_files`, `_force_snapshot`
--   Jobs.Rows     the SQL statements over the table, `get`, `_get_locked`
--   Jobs.Queue    the methods: Enqueue, Claim (`claim_next`, `heartbeat`), Progress
--                 (`update_progress`, `install_force_full_snapshot`,
--                 `acknowledge_force_full_snapshot_files`), Finish (`complete`, `fail_or_retry`,
--                 `mark_cancelled`), Cancel (`request_cancel`, `request_cancel_all`,
--                 `cancellation_requested`), Reclaim (`reclaim_stale_running`), Read (the queries)
--   Jobs.Sound    the invariant of the table; Jobs.Steps the calls as a step relation
--   Jobs.Laws     what each method does; Jobs.Tests and Jobs.ManifestTests runs
-- Runner is the worker, `IngestionJobRunner` of src/scs/indexing/runner.py: Round the end of `run_once`,
-- its last transaction once a job is claimed, Ending its laws, Resume `_force_snapshot_for_job`,
-- Retrying an attempt after one that failed, Tests concrete rounds.
-- Catalog is src/scs/storage/catalog.py and src/scs/storage/models.py, the table that binds each repository
-- root to an isolated store and a generation; a job carries such a binding, so that a late worker
-- cannot publish for a newer generation:
--   Catalog.Record `StoreState`, the validators, `_record_from_row`
--   Catalog.Store  the methods of `ProjectStoreCatalog`
--   Catalog.Orderly, Typing, Registered, Sound  the invariant and its preservation
--   Catalog.Calls, Catalog.Lifetime  any sequence of calls, and what it keeps
--   Catalog.Laws   what each method does; Catalog.Tests concrete runs
-- Gating is src/scs/graph/gating.py, `GraphMutationGate`: Gating.Gate has the gate, the position of each
-- thread and the interleavings as steps, one step for what a thread does between two waits; Sound and
-- Moves the invariant; Safety what follows; Tests a run.
-- Wire is src/scs/wire/framing.py and src/scs/wire/router.py: Framing has `read_frame` and `write_frame` over
-- the bytes of a stream, Frames their laws, Router `Router.method` and `Router.dispatch`, Routing
-- their laws, Tests concrete runs.
-- Search is src/scs/indexing/search.py, `CodeSearchService`:
--   Search.Scores   the floats of scores and distances, as operations with the order that they need
--   Search.Fusion   `_fuse`, `_merge_query_matches`: the pool of candidates, and its ranking
--   Search.Service  `_effective_queries`, `_semantic_candidates`, `_retrieve_query`, `_retrieval_mode`
--   Search.Response the limits, `_rerank_document`, the response; Search.Hybrid `search`
--   Search.Scored   what a ranking promises; Pool and Ranked, that the code keeps it
--   Search.Retrieval, Search.Answers, Search.Fallback  what a search ends in; Search.Tests a search
-- Query is src/scs/orchestration/query.py and src/scs/orchestration/decision.py, `QueryOrchestrator`:
--   Query.Decision      `Playbook`, `RoutingRequest`, `eligible_playbooks`
--   Query.Request       `QueryRequest`, its validation, `MODE_BUDGETS`
--   Query.Evidence      `_objects`, `_node_evidence`, `_append_nodes`, `_evidence_key`
--   Query.Stages        the local function `stage`, over the variables of `query`
--   Query.Projections   what is read of a response; Query.Playbooks `search` and `related`
--   Query.Execution     the other playbooks and the `match`; Query.Orchestrator `query`
--   Query.Runs, Permitted, Bounded, Honest   what a playbook may call, and what an answer says of it;
--                       Query.Tests concrete queries
-- Registry is src/scs/storage/registry.py, `ProjectStoreRegistry`, on the catalog:
--   Registry.World     the home, the open graphs, and actions that may raise or be cut off by a crash
--   Registry.Graphs    the lookups and openings; Registry.Deletion `delete_repository`, `deletion_target`
--   Registry.Recovery  what an action of a deletion leads to; Unregistered, Opening, Phases and Clearing
--                      its parts; Registry.Inversion what an action that finished had met
--   Registry.Crashes, Registry.Bindings  what follows; Registry.Tests a registry with one project
-- Graph has the types of nodes and relationships and the nodes of src/scs/graph/models.py, Value the
-- values that a Python dict holds.
-- Sql holds the statements over a table as a list of rows, with their lemmas.
-- Base holds what the parts share: tests on numbers, lists, texts as lists of code points, sorted
-- sets of texts, and `Outcome`, a value or the exception that was raised.
--
-- How the state corresponds. The table is the list of its rows in the order of insertion; where SQL
-- leaves the order of equal keys open, the earlier row comes first. A method takes the table and
-- answers with the changed table and its value; a method that raises answers with the exception
-- alone, since its transaction is rolled back. `BEGIN IMMEDIATE` makes each call one step. A
-- timestamp is its number of seconds: the order of the ISO texts is the order of the numbers. The
-- clock's readings and the fresh ids of `uuid` are arguments. `INSERT` tests the primary key and the
-- unique index; an `UPDATE` is written without that test, and the invariant shows that it never
-- matters. The payload has the keys that the code reads, and the others as opaque texts. Lease
-- seconds and `max_attempts` are natural numbers; a step requires `max_attempts` to be at least 1,
-- as its callers, which keep the default of 3, do. No definition uses fuel.
--
-- The catalog's state is its file: no home directory, no file, a file without the table, or the table
-- with the largest id that was ever in it. Its methods answer with the new file beside the value or the
-- exception, since opening the file creates it before an update can fail. `AUTOINCREMENT` goes above
-- every earlier id; how far is an argument. `canonicalize_repo_path`, which reads the file system, and
-- SHA-256 are parameters; where it matters, the digests are assumed to be store ids.
--
-- The worker's pipeline, callbacks and event sink are how they end, with a result or an Exception; a
-- round that the cancellation of its task cuts off is left out. The queue may be called by others at
-- any time before the job is closed, so that the read of the status and the last transaction have
-- tables of their own; a failed publication follows the closing at once.
--
-- At the gate a thread that waits is asleep until `notify_all`. On the wire the JSON codec and the
-- handlers are parameters, and a handler is what it returns or raises.
--
-- In a search the graph, the embedding provider and the reranker are calls that answer or raise, and an
-- exception is what the `except` clauses see of it and its message. A fusion score is an element of any
-- type with the operations of Search.Scores; no law of floating-point addition is assumed, so the sums
-- are in the order in which the code adds. The queries of a search run one after another, and the
-- timings of its stages are left out.
--
-- In a query the service routes answer by the calls so far, with a response, an exception, or the end of
-- the time of the whole query; the provider is what it answers within a time. A dict is a list of its
-- fields, and a float other than zero a text; how a value that is no text is printed is a parameter.
-- Milliseconds stand for the seconds of the budgets.
--
-- In the registry a crash comes before a change of the home, never within one; each process starts with
-- no open graph. The home's directories are no links, and opening a graph creates its database.
--
-- Not modelled: schema creation and migration, the quarantine of a corrupt file, connections, file
-- permissions, the JSON encoding, and the parts of the service outside these components.
pub mod Base
pub mod Sql
pub mod Jobs
pub mod Runner
pub mod Catalog
pub mod Gating
pub mod Wire
pub mod Value
pub mod Graph
pub mod Search
pub mod Query
pub mod Registry
