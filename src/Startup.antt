-- ===== src/Startup.antt =====
-- services/rag-service/src/rag/core/startup.py, and how core/wiring.py sets the services up.
pub mod ConsumerMain
pub mod ServerMain
pub mod Checks
pub mod Started
pub mod Refused
pub mod Served
mod Tests
use rag_poc.Prelude.{ℕ, Text, Bool, true, false, ◌==◌, if◌then◌else◌, Result, ok, err}
use rag_poc.Failure.{Failure, dependency_unavailable}
use rag_poc.Config.{Config, Float}
use rag_poc.Ingest.{IngestSettings}
use rag_poc.Query.{QuerySettings}
use rag_poc.Embedder.{OllamaEmbedder, EmbedError, unavailable, model_not_available, raised}

-- StartupError, by its cause
pub data StartupError : Type 0 where
  model_missing embedder_unreachable wrong_dimension collection_missing index_unreachable
        no_api_key :
      StartupError

-- transient
unfoldable pub transient : StartupError → Bool
transient embedder_unreachable = true
transient index_unreachable = true
transient _ = false

-- What a check raises: a StartupError, or another exception.
pub data Refusal : Type 0 where
  startup_error : StartupError → Refusal
  uncaught : Failure → Refusal

-- check_embedding_dim, for what embedder.dimension() came to
unfoldable pub check_embedding_dim : Result EmbedError ℕ → ℕ → Result Refusal (Unit {0})
check_embedding_dim (err (model_not_available m)) expected = err (startup_error model_missing)
check_embedding_dim (err (unavailable d c)) expected = err (startup_error embedder_unreachable)
check_embedding_dim (err (raised e)) expected = err (uncaught e)
check_embedding_dim (ok actual) expected =
    if actual == expected then ok tt else err (startup_error wrong_dimension)

-- check_collection, for what index.collection_exists() came to
unfoldable pub check_collection : Result Failure Bool → Result Refusal (Unit {0})
check_collection (err (dependency_unavailable d)) = err (startup_error index_unreachable)
check_collection (err e) = err (uncaught e)
check_collection (ok true) = ok tt
check_collection (ok false) = err (startup_error collection_missing)

-- wiring.embedder, less its client
abbrev pub embedder : Config → OllamaEmbedder
embedder config = record {
  model = config.rag.embedding_model;
  query_instruction = config.rag.query_instruction;
}

-- the settings of wiring.ingest_service
abbrev pub ingest_settings : Config → IngestSettings
ingest_settings config = record {
  chunk_size = config.rag.chunk_size;
  chunk_overlap = config.rag.chunk_overlap;
  embed_batch_size = config.rag.embed_batch_size;
  max_file_bytes = config.rag.consumer.max_file_bytes;
}

-- the settings of wiring.query_service
abbrev pub query_settings : Config → QuerySettings Float
query_settings config = record {
  top_k = config.rag.top_k;
  min_score = config.rag.min_score;
  max_query_chars = config.rag.max_query_chars;
  max_document_ids = config.rag.max_document_ids;
  system_prompt = config.rag.system_prompt;
}

-- How a server or a consumer that was started ends: it returns, Ctrl-C, another exception, or the
-- process is ended with a code from within it, by the watchdog or by the stub mode crash.
pub data RunEnd : Type 0 where
  returned interrupted : RunEnd
  broke : Failure → RunEnd
  ended : ℕ → RunEnd

-- How the process of an entry point ends: with an exit code, or by an exception that is not caught.
pub data Exit : Type 0 where
  exits : ℕ → Exit
  dies : Failure → Exit

-- the except clauses around the run, where the process gets to them
abbrev pub exit_of : RunEnd → Exit
exit_of returned = exits 0
exit_of interrupted = exits 130
exit_of (broke e) = dies e
exit_of (ended code) = exits code

-- the except clauses around the checks
unfoldable pub refused : Refusal → Exit
unfolding transient
refused (startup_error e) = exits (if transient e then 1 else 2)
refused (uncaught e) = dies e
