-- ===== src/Config/Ranges.antt =====
-- What a valid configuration of services/rag-service/src/rag/core/config_reader.py satisfies.
use rag_poc.Prelude.{ℕ, ◌≤◌, ◌<◌, ◌≡◌, ◌≢◌, true, [], All, mem_text}
use rag_poc.Config.{
  MinioConfig, RagConsumerConfig, RagConfig, RagGrpcConfig, RedisConfig, IngestionConfig, Config,
  check_timing,
}
use rag_poc.Config.Reader.{is_extension}
use rag_poc.Config.Values.{IsFraction}
use rag_poc.Config.Build.{max_int64, max_port, reasoning_efforts}

abbrev pub Within : ℕ → ℕ → ℕ → Type 0
Within minimum maximum n = (minimum ≤ n) × (n ≤ maximum)

pub record IsMinio (c : MinioConfig) : Type 0 where
  pub url : c.url ≢ []
  pub access_key : c.access_key ≢ []
  pub secret_key : c.secret_key ≢ []
  pub ingestion_bucket : c.ingestion_bucket ≢ []

pub record IsConsumer (c : RagConsumerConfig) : Type 0 where
  pub job_timeout : 0 < c.job_timeout
  pub watchdog_grace : 0 < c.watchdog_grace
  pub min_idle : 0 < c.min_idle
  pub recovery_interval : 0 < c.recovery_interval
  pub poison_threshold : Within 1 max_int64 c.poison_threshold
  pub consumer_cleanup_idle : 0 < c.consumer_cleanup_idle
  pub max_file_bytes : Within 1 max_int64 c.max_file_bytes

pub record IsRag (c : RagConfig) : Type 0 where
  pub collection : c.collection ≢ []
  pub embedding_model : c.embedding_model ≢ []
  pub embedding_dim : c.embedding_dim ≤ max_int64
  pub llm_model : c.llm_model ≢ []
  pub top_k : Within 1 max_int64 c.top_k
  pub chunk_size : Within 1 max_int64 c.chunk_size
  pub chunk_overlap : c.chunk_overlap < c.chunk_size
  pub call_timeout : 0 < c.call_timeout
  pub min_score : IsFraction c.min_score
  pub embed_batch_size : Within 1 max_int64 c.embed_batch_size
  pub query_instruction : c.query_instruction ≢ []
  pub reasoning_effort : mem_text c.reasoning_effort reasoning_efforts ≡ true
  pub max_query_chars : Within 1 max_int64 c.max_query_chars
  pub max_document_ids : Within 1 max_int64 c.max_document_ids
  pub system_prompt : c.system_prompt ≢ []

pub record IsRagGrpc (c : RagGrpcConfig) : Type 0 where
  pub port : Within 1 max_port c.port
  pub max_workers : Within 1 max_int64 c.max_workers

pub record IsRedis (c : RedisConfig) : Type 0 where
  pub host : c.host ≢ []
  pub port : Within 1 max_port c.port
  pub stream : c.stream ≢ []
  pub consumer_group : c.consumer_group ≢ []
  pub stream_max_len : Within 1 max_int64 c.stream_max_len
  pub status_stream : c.status_stream ≢ []
  pub status_consumer_group : c.status_consumer_group ≢ []

pub record IsIngestion (c : IngestionConfig) : Type 0 where
  pub max_attempts : Within 1 max_int64 c.max_attempts
  pub allowed_extensions : All (λ t. is_extension t ≡ true) c.allowed_extensions

-- What the whole configuration satisfies: every value is in its range, and the timing rules hold.
pub record IsConfig (c : Config) : Type 0 where
  pub minio : IsMinio c.minio
  pub dir : c.sqlite.dir ≢ []
  pub qdrant_url : c.qdrant.url ≢ []
  pub ollama_url : c.ollama.url ≢ []
  pub rag : IsRag c.rag
  pub consumer : IsConsumer c.rag.consumer
  pub timing : check_timing c.rag.consumer ≡ []
  pub rag_grpc : IsRagGrpc c.rag_grpc
  pub redis : IsRedis c.redis
  pub ingestion : IsIngestion c.ingestion
