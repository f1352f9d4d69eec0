-- ===== src/Config/Source.antt =====
-- Where the values of a configuration that services/rag-service/src/rag/core/config_reader.py has read
-- come from: each is the value of its own key in its own table of the document.
use rag_poc.Prelude.{ℕ, Text, str, ◌≡◌, ◌≢◌, ◌⊎◌, Bool, false, Option, none, some, List, [], ◌∷◌}
use rag_poc.Value.{Value, int, float, bool, text, array, Items, nil, cons, Fields, lookup, pos}
use rag_poc.Config.{
  Float, parse_duration, MinioConfig, RagConsumerConfig, RagConfig, RagGrpcConfig, RedisConfig,
  IngestionConfig, Config,
}
use rag_poc.Config.Reader.{table}

-- The value of a key of a document is this text, this integer, or a duration of this length.
abbrev pub IsTextOf : Option Value → Text → Type 0
IsTextOf v s = v ≡ some (text s)

abbrev pub IsIntegerOf : Option Value → ℕ → Type 0
IsIntegerOf v n = v ≡ some (int (pos n))

abbrev pub IsDurationOf : Option Value → ℕ → Type 0
IsDurationOf v d = (x : Value) × (v ≡ some x) × (parse_duration x ≡ some d)

-- A missing key stands for the empty text, or for false.
abbrev pub IsOptionalOf : Option Value → Text → Type 0
IsOptionalOf v s = (v ≡ some (text s)) ⊎ ((v ≡ none) × (s ≡ []))

abbrev pub IsFlagOf : Option Value → Bool → Type 0
IsFlagOf v b = (v ≡ some (bool b)) ⊎ ((v ≡ none) × (b ≡ false))

-- A float, or an integer.
abbrev pub IsNumberOf : Option Value → Float → Type 0
IsNumberOf v f =
    (v ≡ some (float f.mantissa f.shift)) ⊎ ((v ≡ some (int f.mantissa)) × (f.shift ≡ 0))

abbrev pub items_of : List Text → Items
items_of [] = nil
items_of (t ∷ ts) = cons (text t) (items_of ts)

-- A list of these texts, of at least one.
abbrev pub IsListOf : Option Value → List Text → Type 0
IsListOf v ts = (v ≡ some (array (items_of ts))) × (ts ≢ [])

module _ (raw : Fields) where
  abbrev pub value_at : List Text → Text → Option Value
  value_at path key = lookup key (table raw path)

  pub record MinioFrom (c : MinioConfig) : Type 0 where
    pub url : IsTextOf (value_at (str "minio" ∷ []) (str "url")) c.url
    pub access_key : IsTextOf (value_at (str "minio" ∷ []) (str "access_key")) c.access_key
    pub secret_key : IsTextOf (value_at (str "minio" ∷ []) (str "secret_key")) c.secret_key
    pub upload_bucket :
        IsOptionalOf (value_at (str "minio" ∷ []) (str "upload_bucket")) c.upload_bucket
    pub ingestion_bucket :
        IsTextOf (value_at (str "minio" ∷ []) (str "ingestion_bucket")) c.ingestion_bucket

  pub record ConsumerFrom (c : RagConsumerConfig) : Type 0 where
    pub job_timeout :
        IsDurationOf (value_at (str "rag" ∷ str "consumer" ∷ []) (str "job_timeout")) c.job_timeout
    pub watchdog_grace :
        IsDurationOf
          (value_at (str "rag" ∷ str "consumer" ∷ []) (str "watchdog_grace"))
          c.watchdog_grace
    pub min_idle :
        IsDurationOf (value_at (str "rag" ∷ str "consumer" ∷ []) (str "min_idle")) c.min_idle
    pub recovery_interval :
        IsDurationOf
          (value_at (str "rag" ∷ str "consumer" ∷ []) (str "recovery_interval"))
          c.recovery_interval
    pub poison_threshold :
        IsIntegerOf
          (value_at (str "rag" ∷ str "consumer" ∷ []) (str "poison_threshold"))
          c.poison_threshold
    pub consumer_cleanup_idle :
        IsDurationOf
          (value_at (str "rag" ∷ str "consumer" ∷ []) (str "consumer_cleanup_idle"))
          c.consumer_cleanup_idle
    pub max_file_bytes :
        IsIntegerOf
          (value_at (str "rag" ∷ str "consumer" ∷ []) (str "max_file_bytes"))
          c.max_file_bytes
    pub allow_skip_dim_check :
        IsFlagOf
          (value_at (str "rag" ∷ str "consumer" ∷ []) (str "allow_skip_dim_check"))
          c.allow_skip_dim_check

  pub record RagFrom (c : RagConfig) : Type 0 where
    pub chunk_size : IsIntegerOf (value_at (str "rag" ∷ []) (str "chunk_size")) c.chunk_size
    pub collection : IsTextOf (value_at (str "rag" ∷ []) (str "collection")) c.collection
    pub embedding_model :
        IsTextOf (value_at (str "rag" ∷ []) (str "embedding_model")) c.embedding_model
    pub embedding_dim :
        IsIntegerOf (value_at (str "rag" ∷ []) (str "embedding_dim")) c.embedding_dim
    pub llm_model : IsTextOf (value_at (str "rag" ∷ []) (str "llm_model")) c.llm_model
    pub top_k : IsIntegerOf (value_at (str "rag" ∷ []) (str "top_k")) c.top_k
    pub chunk_overlap :
        IsIntegerOf (value_at (str "rag" ∷ []) (str "chunk_overlap")) c.chunk_overlap
    pub call_timeout : IsDurationOf (value_at (str "rag" ∷ []) (str "call_timeout")) c.call_timeout
    pub min_score : IsNumberOf (value_at (str "rag" ∷ []) (str "min_score")) c.min_score
    pub embed_batch_size :
        IsIntegerOf (value_at (str "rag" ∷ []) (str "embed_batch_size")) c.embed_batch_size
    pub query_instruction :
        IsTextOf (value_at (str "rag" ∷ []) (str "query_instruction")) c.query_instruction
    pub reasoning_effort :
        IsTextOf (value_at (str "rag" ∷ []) (str "reasoning_effort")) c.reasoning_effort
    pub max_query_chars :
        IsIntegerOf (value_at (str "rag" ∷ []) (str "max_query_chars")) c.max_query_chars
    pub max_document_ids :
        IsIntegerOf (value_at (str "rag" ∷ []) (str "max_document_ids")) c.max_document_ids
    pub system_prompt : IsTextOf (value_at (str "rag" ∷ []) (str "system_prompt")) c.system_prompt

  pub record RagGrpcFrom (c : RagGrpcConfig) : Type 0 where
    pub port : IsIntegerOf (value_at (str "rag_grpc" ∷ []) (str "port")) c.port
    pub max_workers : IsIntegerOf (value_at (str "rag_grpc" ∷ []) (str "max_workers")) c.max_workers

  pub record RedisFrom (c : RedisConfig) : Type 0 where
    pub host : IsTextOf (value_at (str "redis" ∷ []) (str "host")) c.host
    pub port : IsIntegerOf (value_at (str "redis" ∷ []) (str "port")) c.port
    pub stream : IsTextOf (value_at (str "redis" ∷ []) (str "stream")) c.stream
    pub consumer_group :
        IsTextOf (value_at (str "redis" ∷ []) (str "consumer_group")) c.consumer_group
    pub stream_max_len :
        IsIntegerOf (value_at (str "redis" ∷ []) (str "stream_max_len")) c.stream_max_len
    pub status_stream : IsTextOf (value_at (str "redis" ∷ []) (str "status_stream")) c.status_stream
    pub status_consumer_group :
        IsTextOf (value_at (str "redis" ∷ []) (str "status_consumer_group")) c.status_consumer_group

  pub record IngestionFrom (c : IngestionConfig) : Type 0 where
    pub max_attempts :
        IsIntegerOf (value_at (str "ingestion" ∷ []) (str "max_attempts")) c.max_attempts
    pub allowed_extensions :
        IsListOf (value_at (str "ingestion" ∷ []) (str "allowed_extensions")) c.allowed_extensions

  -- So all of its values, and those of the tables with a single key.
  pub record IsReadFrom (c : Config) : Type 0 where
    pub minio : MinioFrom c.minio
    pub dir : IsTextOf (value_at (str "sqlite" ∷ []) (str "dir")) c.sqlite.dir
    pub qdrant_url : IsTextOf (value_at (str "qdrant" ∷ []) (str "url")) c.qdrant.url
    pub ollama_url : IsTextOf (value_at (str "ollama" ∷ []) (str "url")) c.ollama.url
    pub rag : RagFrom c.rag
    pub consumer : ConsumerFrom c.rag.consumer
    pub rag_grpc : RagGrpcFrom c.rag_grpc
    pub redis : RedisFrom c.redis
    pub ingestion : IngestionFrom c.ingestion
