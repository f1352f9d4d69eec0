-- ===== src/Config/Tests.antt =====
-- The durations and the timing rules of services/rag-service/src/rag/core/config_reader.py at concrete
-- values.
use rag_poc.Prelude.{
  ℕ, ◌*◌, ◌+◌, ◌<◌, str, ◌≡◌, refl, some, [], ◌∷◌, ok, err, true, text_eq, mem_text, join,
}
use rag_poc.Value.{
  text, int, bool, float, array, object, nil, cons, Fields, end, field, lookup, pos,
}
use rag_poc.Config.{
  parse_duration, check_timing, from_config, second, duration_seconds, rest_of_duration, is_digit,
  unit_seconds, Config,
}
use rag_poc.Config.Durations.{IsDuration, parse_duration_exact}
use rag_poc.Config.Timing.{HasMargin, from_config-HasMargin}
use rag_poc.Config.Reader.{
  wrong_value, too_small, read, read_duration, read_fraction, table, fail, keep_name, fraction_from,
  is_fraction, overflows, text_of, optional_text_of, integer_of, flag_of, choice_of, duration_of,
  extensions_of, extensions_of_items, is_extension,
}
use rag_poc.Config.Unknown.{unknown_keys, walk, known_keys, known_at, leaves, leaves_then}
use rag_poc.Config.Build.{
  load, config_error, invalid, build, read_minio, read_consumer, read_rag, read_rag_grpc,
  read_redis, read_ingestion, check_consumer, read_text, read_integer,
}
use rag_poc.Exec.{pure, raise, gets, modify, ◌>>=◌}
use rag_poc.Config.Valid.{IsLoaded, load-IsConfig}

parsed : parse_duration (text (str "15m")) ≡ some 900000000
unfolding parse_duration duration_seconds rest_of_duration is_digit unit_seconds
parsed = refl

parse_duration_exact_example :
    (seconds : ℕ) × IsDuration (str "15m") seconds × (900000000 ≡ seconds * second)
parse_duration_exact_example = (parse_duration_exact (str "15m") 900000000).0 parsed

abbrev consumer_table : Fields
consumer_table = field (str "job_timeout") (text (str "10m")) (
    field (str "watchdog_grace") (text (str "1m")) (
      field (str "min_idle") (text (str "15m")) (
        field (str "recovery_interval") (text (str "1m")) (
          field (str "poison_threshold") (int (pos 3)) (
            field (str "consumer_cleanup_idle") (text (str "1h")) (
              field (str "max_file_bytes") (int (pos 1000))
                (field (str "allow_skip_dim_check") (bool true) end)))))))

abbrev rag_table : Fields
rag_table = field (str "collection") (text (str "docs")) (
    field (str "embedding_model") (text (str "qwen")) (
      field (str "embedding_dim") (int (pos 4)) (
        field (str "llm_model") (text (str "llama")) (
          field (str "top_k") (int (pos 5)) (
            field (str "chunk_size") (int (pos 100)) (
              field (str "chunk_overlap") (int (pos 10)) (
                field (str "call_timeout") (text (str "60s")) (
                  field (str "min_score") (float (pos 1) 1) (
                    field (str "embed_batch_size") (int (pos 8)) (
                      field (str "query_instruction") (text (str "find")) (
                        field (str "reasoning_effort") (text (str "low")) (
                          field (str "max_query_chars") (int (pos 100)) (
                            field (str "max_document_ids") (int (pos 10)) (
                              field (str "system_prompt") (text (str "answer"))
                                (field (str "consumer") (object consumer_table) end)))))))))))))))

abbrev redis_table : Fields
redis_table = field (str "host") (text (str "redis")) (
    field (str "port") (int (pos 6379)) (
      field (str "stream") (text (str "jobs")) (
        field (str "consumer_group") (text (str "rag")) (
          field (str "stream_max_len") (int (pos 1000)) (
            field (str "status_stream") (text (str "status"))
              (field (str "status_consumer_group") (text (str "center")) end))))))

-- A whole document, with the ingestion table given.
abbrev pub document : Fields → Fields
document ingestion =
    field (str "minio")
      (object (
        field (str "url") (text (str "m")) (
          field (str "access_key") (text (str "a")) (
            field (str "secret_key") (text (str "s"))
              (field (str "ingestion_bucket") (text (str "b")) end)))))
      (field (str "sqlite") (object (field (str "dir") (text (str "data")) end)) (
        field (str "qdrant") (object (field (str "url") (text (str "q")) end)) (
          field (str "ollama") (object (field (str "url") (text (str "o")) end)) (
            field (str "rag_grpc")
              (object (
                field (str "port") (int (pos 50051))
                  (field (str "max_workers") (int (pos 10)) end)))
              (field (str "rag") (object rag_table) (
                field (str "redis") (object redis_table) (
                  field (str "ingestion") (object ingestion)
                    (field (str "extra") (int (pos 1)) end))))))))

abbrev pub ingestion_table : ℕ → Fields
ingestion_table attempts =
    field (str "max_attempts") (int (pos attempts))
      (field (str "allowed_extensions") (array (cons (text (str ".txt")) nil)) end)

abbrev pub sample : Config
sample = record {
  minio = record {
    url = str "m";
    access_key = str "a";
    secret_key = str "s";
    upload_bucket = [];
    ingestion_bucket = str "b";
  };
  sqlite = record { dir = str "data" };
  qdrant = record { url = str "q" };
  ollama = record { url = str "o" };
  rag = record {
    collection = str "docs";
    embedding_model = str "qwen";
    embedding_dim = 4;
    llm_model = str "llama";
    top_k = 5;
    chunk_size = 100;
    chunk_overlap = 10;
    call_timeout = 60000000;
    min_score = record { mantissa = pos 1; shift = 1 };
    embed_batch_size = 8;
    query_instruction = str "find";
    reasoning_effort = str "low";
    max_query_chars = 100;
    max_document_ids = 10;
    system_prompt = str "answer";
    consumer = record {
      job_timeout = 600000000;
      watchdog_grace = 60000000;
      min_idle = 900000000;
      recovery_interval = 60000000;
      poison_threshold = 3;
      consumer_cleanup_idle = 3600000000;
      max_file_bytes = 1000;
      allow_skip_dim_check = true;
    };
  };
  rag_grpc = record { port = 50051; max_workers = 10 };
  redis = record {
    host = str "redis";
    port = 6379;
    stream = str "jobs";
    consumer_group = str "rag";
    stream_max_len = 1000;
    status_stream = str "status";
    status_consumer_group = str "center";
  };
  ingestion = record { max_attempts = 3; allowed_extensions = str ".txt" ∷ [] };
  unknown_keys = str "extra" ∷ [];
}

no_problems : check_timing sample.rag.consumer ≡ []
unfolding check_timing
no_problems = refl

from_config-HasMargin_example :
    HasMargin 60000000 (from_config sample)
    × (60000000 + (from_config sample).read_block < (from_config sample).call_timeout)
from_config-HasMargin_example = from_config-HasMargin sample no_problems

pub loaded : load (ok (document (ingestion_table 3))) ≡ ok sample
unfolding load build read_minio read_consumer read_rag read_rag_grpc read_redis read_ingestion
    check_consumer read_text read_integer read read_duration read_fraction table fail keep_name
    fraction_from is_fraction overflows text_of optional_text_of integer_of flag_of choice_of
    duration_of extensions_of extensions_of_items is_extension parse_duration duration_seconds
    rest_of_duration is_digit unit_seconds check_timing unknown_keys walk known_keys known_at leaves
    leaves_then lookup text_eq mem_text join pure raise gets modify ◌>>=◌
loaded = refl

rejected :
    load (ok (document (ingestion_table 0)))
    ≡ err (
        config_error
          (invalid (wrong_value (str "ingestion" ∷ []) (str "max_attempts") (too_small 1) ∷ [])))
unfolding load build read_minio read_consumer read_rag read_rag_grpc read_redis read_ingestion
    check_consumer read_text read_integer read read_duration read_fraction table fail keep_name
    fraction_from is_fraction overflows text_of optional_text_of integer_of flag_of choice_of
    duration_of extensions_of extensions_of_items is_extension parse_duration duration_seconds
    rest_of_duration is_digit unit_seconds check_timing unknown_keys walk known_keys known_at leaves
    leaves_then lookup text_eq mem_text join pure raise gets modify ◌>>=◌
rejected = refl

load-IsConfig_example : IsLoaded (document (ingestion_table 3)) sample
load-IsConfig_example = load-IsConfig (document (ingestion_table 3)) sample loaded
