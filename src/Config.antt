-- ===== src/Config.antt =====
-- The configuration of services/rag-service/src/rag/core/config_reader.py, its durations and timing
-- rules, and the settings that transport/stream_consumer.py takes from it. Times are in microseconds.
-- An integer of the configuration is a natural number: every minimum is at least 0.
pub mod Durations
pub mod Timing
pub mod Reader
pub mod Unknown
pub mod Build
pub mod Checked
pub mod Values
pub mod Ranges
pub mod Source
pub mod Valid
pub mod Tests
use rag_poc.Prelude.{
  ℕ, zero, suc, ◌+◌, ◌-◌, ◌*◌, Text, str, Bool, true, false, ◌&&◌, ◌||◌, Option, none, some, List,
  [], ◌∷◌, ◌++◌, leb, ◌==◌, if◌then◌else◌,
}
use Prim.Native.Nat.{max}
use rag_poc.Value.{Value, text, ℤ}
use rag_poc.Consumer.{Settings}

abbrev pub second : ℕ
second = 1000000

-- _UNIT_SECONDS, for the units of _DURATION
unfoldable pub unit_seconds : ℕ → Option ℕ
unit_seconds c =
    if c == b's'
    then some 1
    else if c == b'm'
    then some 60
    else if c == b'h'
    then some 3600
    else none

unfoldable pub is_digit : ℕ → Bool
is_digit c = leb b'0' c && leb c b'9'

-- What the pattern accepts after its first digit, with n digits left: the seconds of the whole, for
-- the number read so far.
unfoldable pub rest_of_duration : ℕ → ℕ → Text → Option ℕ
unfolding unit_seconds is_digit
rest_of_duration n number [] = none
rest_of_duration n number (c ∷ []) = elim (unit_seconds c) [
  | some u ↦ some (number * u)
  | none ↦ none
]
rest_of_duration zero number (c ∷ (d ∷ t)) = none
rest_of_duration (suc n) number (c ∷ (d ∷ t)) =
    let rest = rest_of_duration n (number * 10 + (c - b'0')) (d ∷ t) in
    if is_digit c then rest else none

-- the match of _DURATION and the number of seconds
unfoldable pub duration_seconds : Text → Option ℕ
unfolding rest_of_duration
duration_seconds [] = none
duration_seconds (c ∷ t) = if is_digit c then rest_of_duration 5 (c - b'0') t else none

-- parse_duration; none is the ConfigError
unfoldable pub parse_duration : Value → Option ℕ
unfolding duration_seconds
parse_duration (text t) = elim (duration_seconds t) [ some n ↦ some (n * second) | none ↦ none ]
parse_duration _ = none

pub record MinioConfig : Type 0 where
  pub url : Text
  pub access_key : Text
  pub secret_key : Text
  pub upload_bucket : Text
  pub ingestion_bucket : Text

pub record SqliteConfig : Type 0 where
  pub dir : Text

pub record QdrantConfig : Type 0 where
  pub url : Text

pub record OllamaConfig : Type 0 where
  pub url : Text

pub record RagConsumerConfig : Type 0 where
  pub job_timeout : ℕ
  pub watchdog_grace : ℕ
  pub min_idle : ℕ
  pub recovery_interval : ℕ
  pub poison_threshold : ℕ
  pub consumer_cleanup_idle : ℕ
  pub max_file_bytes : ℕ
  pub allow_skip_dim_check : Bool

-- The float m / 2^k.
pub record Float : Type 0 where
  pub mantissa : ℤ
  pub shift : ℕ

pub record RagConfig : Type 0 where
  pub collection : Text
  pub embedding_model : Text
  pub embedding_dim : ℕ
  pub llm_model : Text
  pub top_k : ℕ
  pub chunk_size : ℕ
  pub chunk_overlap : ℕ
  pub call_timeout : ℕ
  pub min_score : Float
  pub embed_batch_size : ℕ
  pub query_instruction : Text
  pub reasoning_effort : Text
  pub max_query_chars : ℕ
  pub max_document_ids : ℕ
  pub system_prompt : Text
  pub consumer : RagConsumerConfig

pub record RagGrpcConfig : Type 0 where
  pub port : ℕ
  pub max_workers : ℕ

pub record RedisConfig : Type 0 where
  pub host : Text
  pub port : ℕ
  pub stream : Text
  pub consumer_group : Text
  pub stream_max_len : ℕ
  pub status_stream : Text
  pub status_consumer_group : Text

pub record IngestionConfig : Type 0 where
  pub max_attempts : ℕ
  pub allowed_extensions : List Text

pub record Config : Type 0 where
  pub minio : MinioConfig
  pub sqlite : SqliteConfig
  pub qdrant : QdrantConfig
  pub ollama : OllamaConfig
  pub rag : RagConfig
  pub rag_grpc : RagGrpcConfig
  pub redis : RedisConfig
  pub ingestion : IngestionConfig
  pub unknown_keys : List Text

pub data TimingProblem : Type 0 where
  min_idle_too_short cleanup_idle_too_short : TimingProblem

-- _check_timing: the problems it adds
unfoldable pub check_timing : RagConsumerConfig → List TimingProblem
check_timing c =
    (if leb c.min_idle (c.job_timeout + c.watchdog_grace) then min_idle_too_short ∷ [] else [])
    ++ (if leb c.consumer_cleanup_idle c.job_timeout then cleanup_idle_too_short ∷ [] else [])

-- socket_timeout_for
unfoldable pub socket_timeout_for : ℕ → ℕ → ℕ
socket_timeout_for call_timeout read_block = max call_timeout (read_block + 5 * second)

-- ConsumerSettings.from_config, with the defaults of the other fields
unfoldable pub from_config : Config → Settings
unfolding socket_timeout_for
from_config config = record {
  min_idle = config.rag.consumer.min_idle;
  recovery_interval = config.rag.consumer.recovery_interval;
  poison_threshold = config.rag.consumer.poison_threshold;
  cleanup_idle = config.rag.consumer.consumer_cleanup_idle;
  job_timeout = config.rag.consumer.job_timeout;
  read_block = 2 * second;
  retry_delay = second;
  publish_attempts = 3;
  call_timeout = config.rag.call_timeout + socket_timeout_for config.rag.call_timeout (2 * second);
  max_recovery_jobs = 10;
}
