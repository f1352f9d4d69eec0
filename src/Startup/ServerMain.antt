-- ===== src/Startup/ServerMain.antt =====
-- services/rag-service/src/rag/server.py. The command line, the environment, the file of the
-- configuration, the third-party clients and the gRPC server are parameters; building the clients
-- does not raise.
use rag_poc.Prelude.{ℕ, Text, Bool, Option, List, [], ◌∷◌, text_eq, if◌then◌else◌, Result, ok, err}
use rag_poc.Value.{Fields}
use rag_poc.Failure.{Failure}
use rag_poc.Config.{Config, Float}
use rag_poc.Config.Build.{Unread, LoadError, config_error, raised, load}
use rag_poc.Query.{QuerySettings}
use rag_poc.Embedder.{Client, dimension}
use rag_poc.Startup.{
  Refusal, startup_error, no_api_key, RunEnd, Exit, exits, dies, exit_of, refused, check_collection,
  check_embedding_dim, embedder, query_settings,
}

-- What is served: the settings of the query service, the port and the number of workers.
pub record Serving : Type 0 where
  pub settings : QuerySettings Float
  pub port : ℕ
  pub max_workers : ℕ

pub record Environment : Type 1 where
  pub World : Type 0
  pub Number : Type 0
  pub arguments : Result ℕ (Option Text)
  pub api_key : Text
  pub document : Option Text → Result Unread Fields
  pub collection_exists : Text → World → Result Failure Bool × World
  pub client : Client World Number
  -- serve, then wait_for_termination
  pub run : Serving → World → RunEnd × World

unfoldable pub serving_of : Config → Serving
serving_of config = record {
  settings = query_settings config;
  port = config.rag_grpc.port;
  max_workers = config.rag_grpc.max_workers;
}

-- The world at the end, and what was served.
pub record State (W : Type 0) : Type 0 where
  pub world : W
  pub served : List Serving

-- the test of wiring.llm on GROQ_API_KEY
unfoldable pub check_key : Text → Result Refusal (Unit {0})
check_key api_key = if text_eq api_key [] then err (startup_error no_api_key) else ok tt

module _ (env : Environment) where
  open env use {World}

  abbrev pub after_probe : Result Refusal (Unit {0}) → Config → World → Exit × State World
  after_probe (err e) config w = (refused e, record { world = w; served = [] })
  after_probe (ok u) config w =
      let (e, w') = env.run (serving_of config) w in
      (exit_of e, record { world = w'; served = serving_of config ∷ [] })

  abbrev pub after_collection : Result Refusal (Unit {0}) → Config → World → Exit × State World
  after_collection (err e) config w = (refused e, record { world = w; served = [] })
  after_collection (ok u) config w =
      let (d, w') = dimension env.client (embedder config) w in
      after_probe (check_embedding_dim d config.rag.embedding_dim) config w'

  abbrev pub after_key : Result Refusal (Unit {0}) → Config → World → Exit × State World
  after_key (err e) config w = (refused e, record { world = w; served = [] })
  after_key (ok u) config w =
      let (r, w') = env.collection_exists config.rag.collection w in
      after_collection (check_collection r) config w'

  abbrev pub with_config : Result LoadError Config → World → Exit × State World
  with_config (err (config_error e)) w = (exits 2, record { world = w; served = [] })
  with_config (err (raised e)) w = (dies e, record { world = w; served = [] })
  with_config (ok config) w = after_key (check_key env.api_key) config w

  abbrev pub with_arguments : Result ℕ (Option Text) → World → Exit × State World
  with_arguments (err code) w = (exits code, record { world = w; served = [] })
  with_arguments (ok path) w = with_config (load (env.document path)) w

  -- main
  unfoldable pub main : World → Exit × State World
  main w = with_arguments env.arguments w
