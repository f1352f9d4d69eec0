-- ===== src/Startup/Tests.antt =====
-- The entry point of services/rag-service/src/rag/consumer.py with scripted clients.
use rag_poc.Prelude.{
  ℕ, ◌+◌, ◌<◌, ◌≡◌, ◌⊎◌, refl, inl, Text, str, Bool, true, Option, none, some, [], ◌∷◌, In, text_eq,
  map, Result, ok, err,
}
use rag_poc.Failure.{Failure, dependency_unavailable}
use rag_poc.Config.{Config}
use rag_poc.Config.Build.{load}
use rag_poc.Config.Timing.{HasMargin}
use rag_poc.Config.Ranges.{IsConfig}
use rag_poc.Config.Tests.{document, ingestion_table, sample, loaded}
use rag_poc.Embedder
use rag_poc.Embedder.{dimension, counted, as_missing_model}
use rag_poc.Startup.{
  returned, dies, check_collection, check_embedding_dim, ingest_settings, refused, transient,
}
use rag_poc.Startup.ConsumerMain.{
  Arguments, real, Start, Environment, started, resolve_mode, start_of, after_collection,
  real_processor, start, with_config, with_mode, main,
}
use rag_poc.Startup.ServerMain
use rag_poc.Startup.Served.{ServedWith, served_only_if}
use rag_poc.Startup.Started.{Cleared, started_only_if}
use rag_poc.Startup.Refused.{HasStatus1, CannotReach, unavailable_only_if}

abbrev no_arguments : Arguments
no_arguments = record { config = none; mode = none }

-- The model answers with vectors of four numbers.
abbrev environment : Result Failure Bool → Environment
environment found = record {
  World = ℕ;
  Number = ℕ;
  arguments = ok no_arguments;
  stub_mode = some [];
  skip_dim_check = none;
  document = λ path. ok (document (ingestion_table 3));
  collection_exists = λ name w. (found, w + 1);
  client = record { embed = λ model texts w. (ok (map (λ t. 1 ∷ 2 ∷ 3 ∷ 4 ∷ []) texts), w + 1) };
  run = λ st w. (returned, w);
}

abbrev sample_start : Start
sample_start = start_of sample (real (ingest_settings sample))

sample_started : In (started sample_start) (main (environment (ok true)) 0).1.log
unfolding main with_mode resolve_mode text_eq with_config real_processor after_collection start
    check_collection check_embedding_dim dimension Embedder.embed counted as_missing_model start_of
sample_started = rw loaded (inl refl)

started_only_if_example :
    (arguments : Arguments) × ((environment (ok true)).arguments ≡ ok arguments)
    × (config : Config) × (load ((environment (ok true)).document arguments.config) ≡ ok config)
    × IsConfig config
    × (sample_start ≡ start_of config sample_start.processor)
    × Cleared (environment (ok true)) 0 config sample_start.processor
    × HasMargin config.rag.consumer.watchdog_grace sample_start.settings
    × (sample_start.limit < sample_start.settings.min_idle)
started_only_if_example = started_only_if (environment (ok true)) 0 sample_start sample_started

abbrev index_down : Environment
index_down = environment (err (dependency_unavailable (str "qdrant: down")))

index_down_status : HasStatus1 index_down (main index_down 0).0
unfolding main with_mode resolve_mode text_eq with_config real_processor after_collection
    check_collection refused transient
index_down_status = rw loaded refl

unavailable_only_if_example :
    ((st : Start) × In (started st) (main index_down 0).1.log)
    ⊎ ((e : Failure) × ((main index_down 0).0 ≡ dies e))
    ⊎ CannotReach index_down 0 no_arguments
unavailable_only_if_example = unavailable_only_if index_down 0 no_arguments refl index_down_status

abbrev server : ServerMain.Environment
server = record {
  World = ℕ;
  Number = ℕ;
  arguments = ok none;
  api_key = str "key";
  document = λ path. ok (document (ingestion_table 3));
  collection_exists = λ name w. (ok true, w + 1);
  client = record { embed = λ model texts w. (ok (map (λ t. 1 ∷ 2 ∷ 3 ∷ 4 ∷ []) texts), w + 1) };
  run = λ sv w. (returned, w);
}

sample_served : In (ServerMain.serving_of sample) (ServerMain.main server 0).1.served
unfolding ServerMain.main ServerMain.check_key text_eq check_collection check_embedding_dim
    dimension Embedder.embed counted as_missing_model
sample_served = rw loaded (inl refl)

served_only_if_example :
    (path : Option Text) × (server.arguments ≡ ok path)
    × ServedWith server 0 (ServerMain.serving_of sample) path
served_only_if_example = served_only_if server 0 (ServerMain.serving_of sample) sample_served
