-- ===== src/Startup/ConsumerMain.antt =====
-- services/rag-service/src/rag/consumer.py. The command line, the environment, the file of the
-- configuration, the third-party clients and the run of the consumer are parameters; building the
-- clients does not raise.
use rag_poc.Prelude.{
  ℕ, ◌+◌, Text, str, Bool, false, ◌&&◌, Option, none, some, List, [], ◌∷◌, text_eq, if◌then◌else◌,
  Result, ok, err,
}
use rag_poc.Value.{Fields}
use rag_poc.Failure.{Failure}
use rag_poc.Config.{Config, from_config}
use rag_poc.Config.Build.{Unread, LoadError, config_error, raised, load}
use rag_poc.Consumer.{Settings}
use rag_poc.Ingest.{IngestSettings}
use rag_poc.Embedder.{Client, dimension}
use rag_poc.Stub.{Mode}
use rag_poc.Startup.{
  Refusal, RunEnd, Exit, exits, dies, exit_of, refused, check_collection, check_embedding_dim,
  embedder, ingest_settings,
}

-- The parsed command line.
pub record Arguments : Type 0 where
  pub config : Option Text
  pub mode : Option Text

pub data Processor : Type 0 where
  stub : Mode → Processor
  real : IngestSettings → Processor

-- What the consumer is built with: its settings, the stream and the length of its publisher, its
-- processor and the limit of its watchdog.
pub record Start : Type 0 where
  pub settings : Settings
  pub status_stream : Text
  pub stream_max_len : ℕ
  pub processor : Processor
  pub limit : ℕ

pub record Environment : Type 1 where
  pub World : Type 0
  pub Number : Type 0
  -- what argparse returns, or the code of its SystemExit
  pub arguments : Result ℕ Arguments
  pub stub_mode : Option Text
  pub skip_dim_check : Option Text
  pub document : Option Text → Result Unread Fields
  pub collection_exists : Text → World → Result Failure Bool × World
  pub client : Client World Number
  pub run : Start → World → RunEnd × World

-- What is done, for the statements about it: the program keeps no such record.
pub data Act : Type 0 where
  checked_collection probed : Act
  started : Start → Act

pub record State (W : Type 0) : Type 0 where
  pub world : W
  pub log : List Act

-- Mode(raw)
unfoldable pub mode_of : Text → Option Mode
mode_of raw =
    if text_eq raw (str "indexed")
    then some Mode.indexed
    else if text_eq raw (str "failed-retryable")
    then some Mode.failed_retryable
    else if text_eq raw (str "failed-permanent")
    then some Mode.failed_permanent
    else if text_eq raw (str "crash")
    then some Mode.crash
    else if text_eq raw (str "slow")
    then some Mode.slow
    else if text_eq raw (str "hang")
    then some Mode.hang
    else none

abbrev named : Text → Result (Unit {0}) (Option Mode)
named raw = elim (mode_of raw) [ none ↦ err tt | some mode ↦ ok (some mode) ]

-- _resolve_mode; an error is the _InvalidMode
unfoldable pub resolve_mode : Option Text → Option Text → Result (Unit {0}) (Option Mode)
unfolding mode_of
resolve_mode (some flag) stub_mode = named flag
resolve_mode none none = ok none
resolve_mode none (some raw) = if text_eq raw [] then ok none else named raw

-- os.environ.get("RAG_SKIP_DIM_CHECK") == "1"
abbrev is_one : Option Text → Bool
is_one none = false
is_one (some t) = text_eq t (str "1")

-- the arguments of StreamConsumer
unfoldable pub start_of : Config → Processor → Start
start_of config processor = record {
  settings = from_config config;
  status_stream = config.redis.status_stream;
  stream_max_len = config.redis.stream_max_len;
  processor = processor;
  limit = config.rag.consumer.job_timeout + config.rag.consumer.watchdog_grace;
}

module _ (env : Environment) where
  open env use {World}

  abbrev pub skips : Config → Bool
  skips config = is_one env.skip_dim_check && config.rag.consumer.allow_skip_dim_check

  abbrev pub after_probe :
      Config → Result Refusal (Unit {0}) → State World → Result Refusal Processor × State World
  after_probe config (err e) s = (err e, s)
  after_probe config (ok u) s = (ok (real (ingest_settings config)), s)

  unfoldable pub after_collection :
      Config → Result Refusal (Unit {0}) → State World → Result Refusal Processor × State World
  after_collection config (err e) s = (err e, s)
  after_collection config (ok u) s =
      let (d, w) = dimension env.client (embedder config) s.world in
      if skips config
      then (ok (real (ingest_settings config)), s)
      else after_probe config (check_embedding_dim d config.rag.embedding_dim)
          (record { world = w; log = probed ∷ s.log })

  -- _real_processor
  unfoldable pub real_processor : Config → State World → Result Refusal Processor × State World
  unfolding after_collection
  real_processor config s =
      let (r, w) = env.collection_exists config.rag.collection s.world in
      after_collection config (check_collection r)
        (record { world = w; log = checked_collection ∷ s.log })

  unfoldable pub start : Config → Processor → State World → Exit × State World
  start config processor s =
      let (e, w) = env.run (start_of config processor) s.world in
      (exit_of e, record { world = w; log = started (start_of config processor) ∷ s.log })

  abbrev pub with_processor : Config → Result Refusal Processor → State World → Exit × State World
  with_processor config (err e) s = (refused e, s)
  with_processor config (ok processor) s = start config processor s

  unfoldable pub with_config :
      Option Mode → Result LoadError Config → State World → Exit × State World
  unfolding start real_processor
  with_config mode (err (config_error e)) s = (exits 2, s)
  with_config mode (err (raised e)) s = (dies e, s)
  with_config (some mode) (ok config) s = start config (stub mode) s
  with_config none (ok config) s =
      let (r, s') = real_processor config s in with_processor config r s'

  unfoldable pub with_mode :
      Option Text → Result (Unit {0}) (Option Mode) → State World → Exit × State World
  unfolding with_config
  with_mode path (err u) s = (exits 2, s)
  with_mode path (ok mode) s = with_config mode (load (env.document path)) s

  abbrev pub with_arguments : Result ℕ Arguments → State World → Exit × State World
  with_arguments (err code) s = (exits code, s)
  with_arguments (ok arguments) s =
      with_mode arguments.config (resolve_mode arguments.mode env.stub_mode) s

  -- main
  unfoldable pub main : World → Exit × State World
  unfolding with_mode
  main w = with_arguments env.arguments (record { world = w; log = [] })
