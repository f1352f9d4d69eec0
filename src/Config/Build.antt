-- ===== src/Config/Build.antt =====
-- _Reader.build and load of services/rag-service/src/rag/core/config_reader.py. The file that is read
-- and tomllib are a parameter: what they come to.
use rag_poc.Prelude.{
  ℕ, ◌-◌, ◌^◌, Text, str, Bool, ◌||◌, List, [], ◌∷◌, ◌++◌, map, mem_text, if◌then◌else◌, Result, ok,
  err,
}
use rag_poc.Value.{Fields}
use rag_poc.Failure.{Failure}
use rag_poc.Exec.{pure, gets, modify, ◌>>=◌, ◌>>◌}
use rag_poc.Config.{
  MinioConfig, RagConsumerConfig, RagConfig, RagGrpcConfig, RedisConfig, IngestionConfig, Config,
  check_timing,
}
use rag_poc.Config.Reader.{
  Read, Reader, Problem, wrong_timing, read, read_duration, read_fraction, text_of,
  optional_text_of, integer_of, flag_of, choice_of, extensions_of,
}
use rag_poc.Config.Unknown.{unknown_keys}

-- _MAX_INT64
abbrev pub max_int64 : ℕ
max_int64 = 2 ^ 63 - 1

-- _MAX_PORT
abbrev pub max_port : ℕ
max_port = 65535

-- REASONING_EFFORTS
abbrev pub reasoning_efforts : List Text
reasoning_efforts = str "low" ∷ str "medium" ∷ str "high" ∷ []

abbrev pub consumer_path : List Text
consumer_path = str "rag" ∷ str "consumer" ∷ []

-- timing_keys & self.invalid_durations
abbrev pub any_timing_key : List Text → Bool
any_timing_key bad =
    mem_text (str "rag.consumer.job_timeout") bad
    || mem_text (str "rag.consumer.watchdog_grace") bad
    || mem_text (str "rag.consumer.min_idle") bad
    || mem_text (str "rag.consumer.consumer_cleanup_idle") bad

unfoldable pub check_consumer : RagConsumerConfig → Read (Unit {0})
unfolding modify
check_consumer consumer = do
  bad ← gets (λ r. r.invalid_durations)
  if any_timing_key bad
      then pure tt
      else modify
          (λ r. record r { problems = r.problems ++ map wrong_timing (check_timing consumer) })

module _ (raw : Fields) where
  unfoldable pub read_text : Text → Text → Read Text
  read_text table key = read raw (table ∷ []) key text_of

  unfoldable pub read_integer : Text → Text → ℕ → ℕ → Read ℕ
  read_integer table key minimum maximum = read raw (table ∷ []) key (integer_of minimum maximum)

  unfoldable pub read_minio : Read MinioConfig
  unfolding read_text
  read_minio = do
    url ← read_text (str "minio") (str "url")
    access_key ← read_text (str "minio") (str "access_key")
    secret_key ← read_text (str "minio") (str "secret_key")
    upload_bucket ← read raw (str "minio" ∷ []) (str "upload_bucket") optional_text_of
    ingestion_bucket ← read_text (str "minio") (str "ingestion_bucket")
    pure (record {
      url = url;
      access_key = access_key;
      secret_key = secret_key;
      upload_bucket = upload_bucket;
      ingestion_bucket = ingestion_bucket;
    })

  unfoldable pub read_consumer : Read RagConsumerConfig
  read_consumer = do
    job_timeout ← read_duration raw consumer_path (str "job_timeout")
    watchdog_grace ← read_duration raw consumer_path (str "watchdog_grace")
    min_idle ← read_duration raw consumer_path (str "min_idle")
    recovery_interval ← read_duration raw consumer_path (str "recovery_interval")
    poison_threshold ← read raw consumer_path (str "poison_threshold") (integer_of 1 max_int64)
    consumer_cleanup_idle ← read_duration raw consumer_path (str "consumer_cleanup_idle")
    max_file_bytes ← read raw consumer_path (str "max_file_bytes") (integer_of 1 max_int64)
    allow_skip_dim_check ← read raw consumer_path (str "allow_skip_dim_check") flag_of
    pure (record {
      job_timeout = job_timeout;
      watchdog_grace = watchdog_grace;
      min_idle = min_idle;
      recovery_interval = recovery_interval;
      poison_threshold = poison_threshold;
      consumer_cleanup_idle = consumer_cleanup_idle;
      max_file_bytes = max_file_bytes;
      allow_skip_dim_check = allow_skip_dim_check;
    })

  unfoldable pub read_rag : RagConsumerConfig → Read RagConfig
  unfolding read_text read_integer
  read_rag consumer = do
    chunk_size ← read_integer (str "rag") (str "chunk_size") 1 max_int64
    collection ← read_text (str "rag") (str "collection")
    embedding_model ← read_text (str "rag") (str "embedding_model")
    embedding_dim ← read_integer (str "rag") (str "embedding_dim") 0 max_int64
    llm_model ← read_text (str "rag") (str "llm_model")
    top_k ← read_integer (str "rag") (str "top_k") 1 max_int64
    chunk_overlap ← read_integer (str "rag") (str "chunk_overlap") 0 (chunk_size - 1)
    call_timeout ← read_duration raw (str "rag" ∷ []) (str "call_timeout")
    min_score ← read_fraction raw (str "rag" ∷ []) (str "min_score")
    embed_batch_size ← read_integer (str "rag") (str "embed_batch_size") 1 max_int64
    query_instruction ← read_text (str "rag") (str "query_instruction")
    reasoning_effort ←
        read raw (str "rag" ∷ []) (str "reasoning_effort") (choice_of reasoning_efforts)
    max_query_chars ← read_integer (str "rag") (str "max_query_chars") 1 max_int64
    max_document_ids ← read_integer (str "rag") (str "max_document_ids") 1 max_int64
    system_prompt ← read_text (str "rag") (str "system_prompt")
    pure (record {
      collection = collection;
      embedding_model = embedding_model;
      embedding_dim = embedding_dim;
      llm_model = llm_model;
      top_k = top_k;
      chunk_size = chunk_size;
      chunk_overlap = chunk_overlap;
      call_timeout = call_timeout;
      min_score = min_score;
      embed_batch_size = embed_batch_size;
      query_instruction = query_instruction;
      reasoning_effort = reasoning_effort;
      max_query_chars = max_query_chars;
      max_document_ids = max_document_ids;
      system_prompt = system_prompt;
      consumer = consumer;
    })

  unfoldable pub read_rag_grpc : Read RagGrpcConfig
  unfolding read_integer
  read_rag_grpc = do
    port ← read_integer (str "rag_grpc") (str "port") 1 max_port
    max_workers ← read_integer (str "rag_grpc") (str "max_workers") 1 max_int64
    pure (record { port = port; max_workers = max_workers })

  unfoldable pub read_redis : Read RedisConfig
  unfolding read_text read_integer
  read_redis = do
    host ← read_text (str "redis") (str "host")
    port ← read_integer (str "redis") (str "port") 1 max_port
    stream ← read_text (str "redis") (str "stream")
    consumer_group ← read_text (str "redis") (str "consumer_group")
    stream_max_len ← read_integer (str "redis") (str "stream_max_len") 1 max_int64
    status_stream ← read_text (str "redis") (str "status_stream")
    status_consumer_group ← read_text (str "redis") (str "status_consumer_group")
    pure (record {
      host = host;
      port = port;
      stream = stream;
      consumer_group = consumer_group;
      stream_max_len = stream_max_len;
      status_stream = status_stream;
      status_consumer_group = status_consumer_group;
    })

  unfoldable pub read_ingestion : Read IngestionConfig
  unfolding read_integer
  read_ingestion = do
    max_attempts ← read_integer (str "ingestion") (str "max_attempts") 1 max_int64
    allowed_extensions ← read raw (str "ingestion" ∷ []) (str "allowed_extensions") extensions_of
    pure (record { max_attempts = max_attempts; allowed_extensions = allowed_extensions })

  -- build
  unfoldable pub build : Read Config
  build = do
    minio ← read_minio
    dir ← read_text (str "sqlite") (str "dir")
    qdrant_url ← read_text (str "qdrant") (str "url")
    ollama_url ← read_text (str "ollama") (str "url")
    consumer ← read_consumer
    rag ← read_rag consumer
    rag_grpc ← read_rag_grpc
    redis ← read_redis
    ingestion ← read_ingestion
    check_consumer consumer
    pure (record {
      minio = minio;
      sqlite = record { dir = dir };
      qdrant = record { url = qdrant_url };
      ollama = record { url = ollama_url };
      rag = rag;
      rag_grpc = rag_grpc;
      redis = redis;
      ingestion = ingestion;
      unknown_keys = unknown_keys raw;
    })

-- How the file comes to no document: an OSError, a TOMLDecodeError, or another exception.
pub data Unread : Type 0 where
  os_error toml_error : Unread
  other : Failure → Unread

-- ConfigError
pub data ConfigError : Type 0 where
  unreadable not_toml : ConfigError
  invalid : List Problem → ConfigError

-- How load ends without a configuration: by a ConfigError, or by what a reader raised.
pub data LoadError : Type 0 where
  config_error : ConfigError → LoadError
  raised : Failure → LoadError

abbrev pub finish_load : Result Failure Config → List Problem → Result LoadError Config
finish_load (err e) problems = err (raised e)
finish_load (ok config) [] = ok config
finish_load (ok config) (p ∷ ps) = err (config_error (invalid (p ∷ ps)))

abbrev pub new_reader : Reader
new_reader = record { problems = []; invalid_durations = [] }

-- load
unfoldable pub load : Result Unread Fields → Result LoadError Config
load (err os_error) = err (config_error unreadable)
load (err toml_error) = err (config_error not_toml)
load (err (other e)) = err (raised e)
load (ok raw) = let (r, s) = build raw new_reader in finish_load r s.problems
