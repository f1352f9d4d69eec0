-- ===== src/Config/Unknown.antt =====
-- The keys that services/rag-service/src/rag/core/config_reader.py does not read.
use rag_poc.Prelude.{
  Text, str, Option, none, some, List, [], ◌∷◌, ◌++◌, text_eq, mem_text, if◌then◌else◌,
}
use rag_poc.Value.{object, Fields, field, end}

-- _KNOWN: a leaf, or a table of keys.
mutual
  pub data Known : Type 0 where
    leaf : Known
    nested : KnownKeys → Known

  pub data KnownKeys : Type 0 where
    no_more : KnownKeys
    key : Text → Known → KnownKeys → KnownKeys

unfoldable pub known_at : Text → Option KnownKeys → Option Known
known_at k none = none
known_at k (some no_more) = none
known_at k (some (key j n rest)) = if text_eq j k then some n else known_at k (some rest)

-- What walk does with a key whose value is a table, by what is known of the key: the keys that are
-- known below it, or none where the value is not looked into.
abbrev below : Option Known → Option (Option KnownKeys)
below none = some none
below (some leaf) = none
below (some (nested keys)) = some (some keys)

-- walk
unfoldable pub walk : Option KnownKeys → Text → Fields → List Text
unfolding known_at
walk known prefix end = []
walk known prefix (field k (object f) rest) =
    let inside = λ (keys : Option KnownKeys). walk keys (prefix ++ (k ++ str ".")) f in
    elim (below (known_at k known)) [ none ↦ [] | some keys ↦ inside keys ]
    ++ walk known prefix rest
walk known prefix (field k v rest) =
    elim (known_at k known) [ none ↦ (prefix ++ k) ∷ [] | some n ↦ [] ] ++ walk known prefix rest

-- _leaves
unfoldable pub leaves : List Text → KnownKeys
leaves [] = no_more
leaves (t ∷ ts) = key t leaf (leaves ts)

-- {**_leaves(...), "consumer": ...}
unfoldable pub leaves_then : List Text → KnownKeys → KnownKeys
leaves_then [] keys = keys
leaves_then (t ∷ ts) keys = key t leaf (leaves_then ts keys)

-- _KNOWN
unfoldable pub known_keys : KnownKeys
unfolding leaves leaves_then
known_keys =
    key (str "minio")
      (nested (
        leaves (
          str "url"
          ∷ str "access_key"
          ∷ str "secret_key"
          ∷ str "upload_bucket"
          ∷ str "ingestion_bucket"
          ∷ [])))
      (key (str "sqlite") (nested (leaves (str "dir" ∷ []))) (
        key (str "qdrant") (nested (leaves (str "url" ∷ []))) (
          key (str "ollama") (nested (leaves (str "url" ∷ []))) (
            key (str "rag_grpc") (nested (leaves (str "port" ∷ str "max_workers" ∷ []))) (
              key (str "rag")
                (nested (
                  leaves_then
                    (str "collection"
                      ∷ str "embedding_model"
                      ∷ str "embedding_dim"
                      ∷ str "llm_model"
                      ∷ str "top_k"
                      ∷ str "chunk_size"
                      ∷ str "chunk_overlap"
                      ∷ str "call_timeout"
                      ∷ str "min_score"
                      ∷ str "embed_batch_size"
                      ∷ str "query_instruction"
                      ∷ str "reasoning_effort"
                      ∷ str "max_query_chars"
                      ∷ str "max_document_ids"
                      ∷ str "system_prompt"
                      ∷ [])
                    (key (str "consumer")
                      (nested (
                        leaves (
                          str "job_timeout"
                          ∷ str "watchdog_grace"
                          ∷ str "min_idle"
                          ∷ str "recovery_interval"
                          ∷ str "poison_threshold"
                          ∷ str "consumer_cleanup_idle"
                          ∷ str "max_file_bytes"
                          ∷ str "allow_skip_dim_check"
                          ∷ [])))
                      no_more)))
                (key (str "redis")
                  (nested (
                    leaves (
                      str "host"
                      ∷ str "port"
                      ∷ str "stream"
                      ∷ str "consumer_group"
                      ∷ str "stream_max_len"
                      ∷ str "status_stream"
                      ∷ str "status_consumer_group"
                      ∷ [])))
                  (key (str "ingestion")
                    (nested (leaves (str "max_attempts" ∷ str "allowed_extensions" ∷ [])))
                    no_more)))))))

-- _FOREIGN_TABLES
abbrev foreign_tables : List Text
foreign_tables = str "go" ∷ []

abbrev not_listed : Option Known → Text → List Text
not_listed none name = name ∷ []
not_listed (some n) name = []

-- _unknown_keys
unfoldable pub unknown_keys : Fields → List Text
unfolding walk known_keys
unknown_keys end = []
unknown_keys (field name (object f) rest) =
    (if mem_text name foreign_tables
      then []
      else walk (some known_keys) [] (field name (object f) end))
    ++ unknown_keys rest
unknown_keys (field name v rest) =
    (if mem_text name foreign_tables then [] else not_listed (known_at name (some known_keys)) name)
    ++ unknown_keys rest
