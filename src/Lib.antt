-- ===== src/Lib.antt =====
-- rag_poc: the Python service of a retrieval-augmented generation system, services/rag-service. It takes
-- ingest requests from a Redis stream, indexes documents, reports each attempt on a second stream,
-- and answers questions over the indexed chunks.
--
-- Which file models what (paths from the repository's root):
--   Value, Event, Event/Inbound, Event/Outbound: the two stream events of
--     services/rag-service/src/rag/transport/status_event.py, their parser, constructor and document.
--   Failure, Job: ingest/errors.py and ingest/outcome.py (run_job).
--   Deadline, Watchdog: transport/watchdog.py.
--   Publisher: transport/status_publisher.py.
--   Consumer, Consumer/Entry, Consumer/Recovery, Consumer/Loop: transport/stream_consumer.py: one
--     entry from its fields to its acknowledgement and the held status; reading, claiming and deleting
--     idle consumers; the consumer group and the main loop `run`. Consumer/Evidence, Consumer/Survival,
--     Consumer/Holding and Consumer/Publishing prove its properties, Consumer/Scripted holds concrete runs.
--   Stub: ingest/stub.py. Reset: tools/reset_index.py.
--   Config, Config/Reader, Config/Unknown, Config/Build: core/config_reader.py: the configuration, its
--     durations and timing rules, the typed readers of `_Reader`, the unknown keys, build and load; and
--     ConsumerSettings.from_config. Config/Durations, Config/Timing, Config/Checked, Config/Values and
--     Config/Valid prove what a loaded configuration satisfies, which Config/Ranges states, and where
--     its values come from, which Config/Source states.
--   Startup, Startup/ConsumerMain, Startup/ServerMain: core/startup.py, the settings of core/wiring.py,
--     and the entry points consumer.py and server.py, from the command line to the exit code.
--     Startup/Started, Startup/Refused and Startup/Served prove what is started, and when not.
--   Registry: db/sqlite_manager.py and adapters/sqlite_index_registry.py; Registry/Contract states what is
--     relied on of SQLite, Registry/Transaction and Registry/Refinement prove what the registry promises.
--   Grpc: transport/grpc_server.py. IngestFile: tools/ingest_file.py, and in IngestFile/Accepted that the
--     consumer takes its entries.
--   Index: adapters/qdrant_index.py. Llm: adapters/groq_llm.py. Blob: adapters/minio_blob_store.py.
--   Embedder: adapters/ollama_embedder.py; Embedder/Aligned puts it under the ingest pipeline.
--   Ingest, Ingest/Chunks, Ingest/Names: ingest/service.py, ingest/chunking.py, ports.extension.
--   Query, Query/Passages: query/service.py.
--   Prelude, Exec: shared lists, texts and results; code that changes a state and may raise.
--   Migrations: services/rag-service/src/migration; Migrations/Table and Migrations/Done prove
--     what an exit with 0 means.
--   Leakage: evals/leakage.py.
-- Other paths without services/ are under services/rag-service/src/rag. The consumer calls a processor,
-- which the ingest pipeline implements, and the publisher; both share the events, the failures and the
-- deadline. The gRPC server calls the query service. Both entry points load the configuration, run the
-- startup checks over the adapters and hand the settings on.
--
-- Representation: a text is its list of code points; an exception is a value of `Failure`, and what was
-- changed before a raise stays changed; a time is a natural number of microseconds. Redis, the clock,
-- json, datetime and the clients of SQLite, MinIO, Ollama, Qdrant and Groq are parameters: records of
-- functions on an abstract world, each of which may return or raise anything unless its comment says
-- otherwise. The consumer takes its processor so, and the services their ports; the adapters that fill
-- the ports are modelled over the clients. The consumer, the pipeline, the reset and the entry
-- points keep a list of their acts, the latest first, which the program does not have: the theorems
-- speak of it, no code reads it. In the pipeline and the reset the calls that change something note
-- their acts themselves.
--
-- Bounds and fuel: the loops of `run` and of _ensure_group_until_ready have no bound in the source; they
-- take fuel, and a theorem about every fuel is one about every finite prefix of a run. The loops with a
-- bound in the source (publish attempts, claim pages, recovery jobs) recurse on it. break_tags and
-- batches take the length of their input as fuel, which the proofs show to be enough; the loop of the
-- slow stub takes fuel that its theorem bounds by the time left; the wait of the ingest tool takes fuel,
-- and its theorem holds for every fuel, also where it runs out.
--
-- Not modelled: log lines and what is printed, the text of error messages in events, the parsers, the
-- building of the gRPC server and of the clients, the command lines, evals/run_eval.py, and the
-- center service, which is written in Go.
mod Prelude
pub mod Value
pub mod Event
pub mod Failure
pub mod Exec
pub mod Job
pub mod Deadline
pub mod Publisher
pub mod Consumer
pub mod Ingest
pub mod Watchdog
pub mod Query
pub mod Stub
pub mod Blob
pub mod Embedder
pub mod Config
pub mod Reset
pub mod Startup
pub mod Registry
pub mod Index
pub mod Llm
pub mod Grpc
pub mod IngestFile
pub mod Migrations
pub mod Leakage
