-- ===== src/Config/Valid.antt =====
-- What a configuration that load of services/rag-service/src/rag/core/config_reader.py returns
-- satisfies.
use rag_poc.Prelude.{arith, ℕ, ◌-◌, ◌≤◌, ◌<◌, Text, ◌≡◌, ◌≢◌, refl, List, [], ◌∷◌, Result, ok, err}
use rag_poc.Value.{Fields}
use rag_poc.Failure.{Failure}
use rag_poc.Config.{RagConsumerConfig, Config}
use rag_poc.Config.Reader.{Reader, Problem}
use rag_poc.Config.Checked.{Checked, Holds, Checked-pure, Checked-bind, check_consumer-Checked}
use rag_poc.Config.Values.{
  read-Checked, read_duration-Checked, read_fraction-Checked, text_of-Accepts,
  optional_text_of-Accepts, flag_of-Accepts, integer_of-Accepts, choice_of-Accepts,
  extensions_of-Accepts,
}
use rag_poc.Config.Build.{
  max_int64, max_port, reasoning_efforts, read_text, read_integer, read_minio, read_consumer,
  read_rag, read_rag_grpc, read_redis, read_ingestion, build, finish_load, new_reader, load,
}
use rag_poc.Config.Source.{
  IsTextOf, IsIntegerOf, value_at, MinioFrom, ConsumerFrom, RagFrom, RagGrpcFrom, RedisFrom,
  IngestionFrom, IsReadFrom,
}
use rag_poc.Config.Unknown.{unknown_keys}
use rag_poc.Config.Ranges.{
  Within, IsMinio, IsConsumer, IsRag, IsRagGrpc, IsRedis, IsIngestion, IsConfig,
}

pred_bound : (a b : ℕ) → 1 ≤ b → a ≤ b - 1 → a < b
pred_bound a b positive h = omega arith

-- What a configuration that was read without a problem satisfies: every value is in its range and is
-- that of its key in the document, and the unknown keys are those of the document.
pub record IsLoaded (raw : Fields) (c : Config) : Type 0 where
  pub valid : IsConfig c
  pub source : IsReadFrom raw c
  pub unknown : c.unknown_keys ≡ unknown_keys raw

module _ (raw : Fields) where
  read_text-Checked :
      (t key : Text)
      → Checked (λ s. (s ≢ []) × IsTextOf (value_at raw (t ∷ []) key) s) (read_text raw t key)
  unfolding read_text
  read_text-Checked t key = read-Checked raw (t ∷ []) key _ text_of-Accepts

  read_integer-Checked :
      (t key : Text) (minimum maximum : ℕ)
      → Checked
          (λ n. Within minimum maximum n × IsIntegerOf (value_at raw (t ∷ []) key) n)
          (read_integer raw t key minimum maximum)
  unfolding read_integer
  read_integer-Checked t key minimum maximum =
      read-Checked raw (t ∷ []) key _ (integer_of-Accepts minimum maximum)

  read_minio-Checked : Checked (λ c. IsMinio c × MinioFrom raw c) (read_minio raw)
  unfolding read_minio
  read_minio-Checked = Checked-bind _ _ (read_text-Checked _ _) λ url.
      Checked-bind _ _ (read_text-Checked _ _) λ access_key.
        Checked-bind _ _ (read_text-Checked _ _) λ secret_key.
          Checked-bind _ _ (read-Checked raw _ _ _ optional_text_of-Accepts) λ upload_bucket.
            Checked-bind _ _ (read_text-Checked _ _) λ ingestion_bucket.
              Checked-pure _ (λ p5 p4 p3 p2 p1. (
                record {
                  url = p1.0;
                  access_key = p2.0;
                  secret_key = p3.0;
                  ingestion_bucket = p5.0;
                },
                record {
                  url = p1.1;
                  access_key = p2.1;
                  secret_key = p3.1;
                  upload_bucket = p4;
                  ingestion_bucket = p5.1;
                },
              ))

  read_consumer-Checked : Checked (λ c. IsConsumer c × ConsumerFrom raw c) (read_consumer raw)
  unfolding read_consumer
  read_consumer-Checked = Checked-bind _ _ (read_duration-Checked raw _ _) λ job_timeout.
      Checked-bind _ _ (read_duration-Checked raw _ _) λ watchdog_grace.
        Checked-bind _ _ (read_duration-Checked raw _ _) λ min_idle.
          Checked-bind _ _ (read_duration-Checked raw _ _) λ recovery_interval.
            Checked-bind _ _ (read-Checked raw _ _ _ (integer_of-Accepts 1 max_int64))
              λ poison_threshold.
                Checked-bind _ _ (read_duration-Checked raw _ _) λ consumer_cleanup_idle.
                  Checked-bind _ _ (read-Checked raw _ _ _ (integer_of-Accepts 1 max_int64))
                    λ max_file_bytes.
                      Checked-bind _ _ (read-Checked raw _ _ _ flag_of-Accepts)
                        λ allow_skip_dim_check. Checked-pure _ (λ p8 p7 p6 p5 p4 p3 p2 p1. (
                          record {
                            job_timeout = p1.0;
                            watchdog_grace = p2.0;
                            min_idle = p3.0;
                            recovery_interval = p4.0;
                            poison_threshold = p5.0;
                            consumer_cleanup_idle = p6.0;
                            max_file_bytes = p7.0;
                          },
                          record {
                            job_timeout = p1.1;
                            watchdog_grace = p2.1;
                            min_idle = p3.1;
                            recovery_interval = p4.1;
                            poison_threshold = p5.1;
                            consumer_cleanup_idle = p6.1;
                            max_file_bytes = p7.1;
                            allow_skip_dim_check = p8;
                          },
                        ))

  read_rag-Checked :
      (consumer : RagConsumerConfig)
      → Checked (λ c. (IsRag c × RagFrom raw c) × (c.consumer ≡ consumer)) (read_rag raw consumer)
  unfolding read_rag
  read_rag-Checked consumer = Checked-bind _ _ (read_integer-Checked _ _ 1 max_int64) λ chunk_size.
      Checked-bind _ _ (read_text-Checked _ _) λ collection.
        Checked-bind _ _ (read_text-Checked _ _) λ embedding_model.
          Checked-bind _ _ (read_integer-Checked _ _ 0 max_int64) λ embedding_dim.
            Checked-bind _ _ (read_text-Checked _ _) λ llm_model.
              Checked-bind _ _ (read_integer-Checked _ _ 1 max_int64) λ top_k.
                Checked-bind _ _ (read_integer-Checked _ _ 0 (chunk_size - 1)) λ chunk_overlap.
                  Checked-bind _ _ (read_duration-Checked raw _ _) λ call_timeout.
                    Checked-bind _ _ (read_fraction-Checked raw _ _) λ min_score.
                      Checked-bind _ _ (read_integer-Checked _ _ 1 max_int64) λ embed_batch_size.
                        Checked-bind _ _ (read_text-Checked _ _) λ query_instruction.
                          Checked-bind _ _
                            (read-Checked raw _ _ _ (choice_of-Accepts reasoning_efforts))
                            λ reasoning_effort.
                              Checked-bind _ _ (read_integer-Checked _ _ 1 max_int64)
                                λ max_query_chars.
                                  Checked-bind _ _ (read_integer-Checked _ _ 1 max_int64)
                                    λ max_document_ids.
                                      Checked-bind _ _ (read_text-Checked _ _) λ system_prompt.
                                        Checked-pure _
                                          (λ p15 p14 p13 p12 p11 p10 p9 p8 p7 p6 p5 p4 p3 p2 p1. (
                                            (
                                              record {
                                                chunk_size = p1.0;
                                                collection = p2.0;
                                                embedding_model = p3.0;
                                                embedding_dim = p4.0.1;
                                                llm_model = p5.0;
                                                top_k = p6.0;
                                                chunk_overlap = pred_bound _ _ p1.0.0 p7.0.1;
                                                call_timeout = p8.0;
                                                min_score = p9.0;
                                                embed_batch_size = p10.0;
                                                query_instruction = p11.0;
                                                reasoning_effort = p12.0;
                                                max_query_chars = p13.0;
                                                max_document_ids = p14.0;
                                                system_prompt = p15.0;
                                              },
                                              record {
                                                chunk_size = p1.1;
                                                collection = p2.1;
                                                embedding_model = p3.1;
                                                embedding_dim = p4.1;
                                                llm_model = p5.1;
                                                top_k = p6.1;
                                                chunk_overlap = p7.1;
                                                call_timeout = p8.1;
                                                min_score = p9.1;
                                                embed_batch_size = p10.1;
                                                query_instruction = p11.1;
                                                reasoning_effort = p12.1;
                                                max_query_chars = p13.1;
                                                max_document_ids = p14.1;
                                                system_prompt = p15.1;
                                              },
                                            ),
                                            refl,
                                          ))

  read_rag_grpc-Checked : Checked (λ c. IsRagGrpc c × RagGrpcFrom raw c) (read_rag_grpc raw)
  unfolding read_rag_grpc
  read_rag_grpc-Checked = Checked-bind _ _ (read_integer-Checked _ _ 1 max_port) λ port.
      Checked-bind _ _ (read_integer-Checked _ _ 1 max_int64) λ max_workers.
        Checked-pure _ (λ p2 p1.
          (record { port = p1.0; max_workers = p2.0 }, record { port = p1.1; max_workers = p2.1 }))

  read_redis-Checked : Checked (λ c. IsRedis c × RedisFrom raw c) (read_redis raw)
  unfolding read_redis
  read_redis-Checked = Checked-bind _ _ (read_text-Checked _ _) λ host.
      Checked-bind _ _ (read_integer-Checked _ _ 1 max_port) λ port.
        Checked-bind _ _ (read_text-Checked _ _) λ stream.
          Checked-bind _ _ (read_text-Checked _ _) λ consumer_group.
            Checked-bind _ _ (read_integer-Checked _ _ 1 max_int64) λ stream_max_len.
              Checked-bind _ _ (read_text-Checked _ _) λ status_stream.
                Checked-bind _ _ (read_text-Checked _ _) λ status_consumer_group.
                  Checked-pure _ (λ p7 p6 p5 p4 p3 p2 p1. (
                    record {
                      host = p1.0;
                      port = p2.0;
                      stream = p3.0;
                      consumer_group = p4.0;
                      stream_max_len = p5.0;
                      status_stream = p6.0;
                      status_consumer_group = p7.0;
                    },
                    record {
                      host = p1.1;
                      port = p2.1;
                      stream = p3.1;
                      consumer_group = p4.1;
                      stream_max_len = p5.1;
                      status_stream = p6.1;
                      status_consumer_group = p7.1;
                    },
                  ))

  read_ingestion-Checked : Checked (λ c. IsIngestion c × IngestionFrom raw c) (read_ingestion raw)
  unfolding read_ingestion
  read_ingestion-Checked = Checked-bind _ _ (read_integer-Checked _ _ 1 max_int64) λ max_attempts.
      Checked-bind _ _ (read-Checked raw _ _ _ extensions_of-Accepts) λ allowed_extensions.
        Checked-pure _ (λ p2 p1. (
          record { max_attempts = p1.0; allowed_extensions = p2.0 },
          record { max_attempts = p1.1; allowed_extensions = p2.1 },
        ))

  build-Checked : Checked (IsLoaded raw) (build raw)
  unfolding build
  build-Checked = Checked-bind _ _ read_minio-Checked λ minio.
      Checked-bind _ _ (read_text-Checked _ _) λ dir.
        Checked-bind _ _ (read_text-Checked _ _) λ qdrant_url.
          Checked-bind _ _ (read_text-Checked _ _) λ ollama_url.
            Checked-bind _ _ read_consumer-Checked λ consumer.
              Checked-bind _ _ (read_rag-Checked consumer) λ rag.
                Checked-bind _ _ read_rag_grpc-Checked λ rag_grpc.
                  Checked-bind _ _ read_redis-Checked λ redis.
                    Checked-bind _ _ read_ingestion-Checked λ ingestion.
                      Checked-bind _ _ (check_consumer-Checked consumer) λ u.
                        Checked-pure _ (λ p10 p9 p8 p7 (is_rag, same) p5 p4 p3 p2 p1. record {
                          valid = record {
                            minio = p1.0;
                            dir = p2.0;
                            qdrant_url = p3.0;
                            ollama_url = p4.0;
                            rag = is_rag.0;
                            consumer = rw same p5.0;
                            timing = rw same p10;
                            rag_grpc = p7.0;
                            redis = p8.0;
                            ingestion = p9.0;
                          };
                          source = record {
                            minio = p1.1;
                            dir = p2.1;
                            qdrant_url = p3.1;
                            ollama_url = p4.1;
                            rag = is_rag.1;
                            consumer = rw same p5.1;
                            rag_grpc = p7.1;
                            redis = p8.1;
                            ingestion = p9.1;
                          };
                          unknown = refl;
                        })

-- finish_load returns a configuration only from a build that returned it without a problem.
finish_load-ok_inv :
    (raw : Fields) (config : Config) (r : Result Failure Config) (s : Reader)
    → Holds (IsLoaded raw) r new_reader s
    → finish_load r s.problems ≡ ok config
    → IsLoaded raw config
finish_load-ok_inv raw config (err e) s h e_ok = absurd (cc e_ok)
finish_load-ok_inv raw config (ok c) s (noted, h) e_ok = of_problems s.problems refl e_ok
  where
    of_problems :
        (ps : List Problem)
        → s.problems ≡ ps
        → finish_load (ok c) ps ≡ ok config
        → IsLoaded raw config
    of_problems [] none_left g = let same : config ≡ c = cc g in rw same (h none_left).1
    of_problems (p ∷ ps) some_left g = absurd (cc g)

-- In a configuration that load returns every value is in its range, the timing rules hold, and every
-- value is the one that the document has for its key: a text, an integer, a number, a valid duration,
-- or a list of at least one extension; only upload_bucket and allow_skip_dim_check may be missing, and
-- then they are empty and off. Its unknown keys are those of the document. So load returns nothing
-- from a document that has a value of a wrong kind or out of its range, or that lacks another value.
pub load-IsConfig :
    (raw : Fields) (config : Config) → load (ok raw) ≡ ok config → IsLoaded raw config
unfolding load
load-IsConfig raw config h =
    finish_load-ok_inv raw config (build raw new_reader).0 (build raw new_reader).1
      ((build-Checked raw).at new_reader (λ none_left. refl)) h
