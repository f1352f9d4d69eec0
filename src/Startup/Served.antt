-- ===== src/Startup/Served.antt =====
-- What is known of a query service that services/rag-service/src/rag/server.py serves.
use rag_poc.Prelude.{
  ℕ, Text, ◌≡◌, ◌≢◌, refl, Bool, true, Bool-cases, inl, inr, Option, [], In, text_eq, text_eq_iff,
  Result, ok, err,
}
use rag_poc.Failure.{Failure}
use rag_poc.Config.{Config}
use rag_poc.Config.Build.{LoadError, config_error, raised, load}
use rag_poc.Config.Ranges.{IsConfig}
use rag_poc.Embedder.{EmbedError, dimension}
use rag_poc.Startup.{Refusal, check_collection, check_embedding_dim, embedder}
use rag_poc.Startup.ServerMain.{
  Serving, Environment, serving_of, check_key, after_probe, after_collection, after_key,
  with_config, with_arguments, main,
}
use rag_poc.Startup.Checks.{check_collection-ok_inv, check_embedding_dim-ok_inv, load-ok_inv}

check_key-ok_inv : (key : Text) (u : Unit {0}) → check_key key ≡ ok u → key ≢ []
unfolding check_key
check_key-ok_inv key u h = elim (Bool-cases (text_eq key [])) [
  | inl e ↦ absurd (cc (rw e at h))
  | inr e ↦ λ is_empty. absurd (cc (e, (text_eq_iff key []).1 is_empty))
]

module _ (env : Environment) where
  open env use {World}

  module _ (sv : Serving) (config : Config) where
    -- The collection exists and the model's output size is the configured one.
    abbrev pub IsChecked : World → Type 0
    IsChecked w =
        let (found, w') = env.collection_exists config.rag.collection w in
        (found ≡ ok true)
        × ((dimension env.client (embedder config) w').0 ≡ ok config.rag.embedding_dim)

    after_probe-In_inv :
        (d : Result EmbedError ℕ) (r : Result Refusal (Unit {0})) (w : World)
        → check_embedding_dim d config.rag.embedding_dim ≡ r
        → In sv (after_probe env r config w).1.served
        → (d ≡ ok config.rag.embedding_dim) × (sv ≡ serving_of config)
    after_probe-In_inv d (err e) w same m = absurd m
    after_probe-In_inv d (ok u) w same (inl is_it) = (check_embedding_dim-ok_inv d _ u same, is_it)
    after_probe-In_inv d (ok u) w same (inr m) = absurd m

    after_collection-In_inv :
        (found : Result Failure Bool) (r : Result Refusal (Unit {0})) (w : World)
        → check_collection found ≡ r
        → In sv (after_collection env r config w).1.served
        → (found ≡ ok true)
          × ((dimension env.client (embedder config) w).0 ≡ ok config.rag.embedding_dim)
          × (sv ≡ serving_of config)
    after_collection-In_inv found (err e) w same m = absurd m
    after_collection-In_inv found (ok u) w same m =
        let (sized, is_it) =
          after_probe-In_inv (dimension env.client (embedder config) w).0 _
            (dimension env.client (embedder config) w).1 refl m in
        (check_collection-ok_inv found u same, sized, is_it)

    after_key-In_inv :
        (r : Result Refusal (Unit {0})) (w : World)
        → check_key env.api_key ≡ r
        → In sv (after_key env r config w).1.served
        → (env.api_key ≢ []) × IsChecked w × (sv ≡ serving_of config)
    after_key-In_inv (err e) w same m = absurd m
    after_key-In_inv (ok u) w same m =
        let (found, sized, is_it) =
          after_collection-In_inv (env.collection_exists config.rag.collection w).0 _
            (env.collection_exists config.rag.collection w).1 refl m in
        (check_key-ok_inv env.api_key u same, (found, sized), is_it)

  -- What is known of a service that is served at all.
  abbrev pub ServedWith : World → Serving → Option Text → Type 0
  ServedWith w sv path =
      (config : Config) × (load (env.document path) ≡ ok config)
      × IsConfig config
      × (sv ≡ serving_of config)
      × (env.api_key ≢ [])
      × IsChecked sv config w

  with_config-In_inv :
      (sv : Serving) (path : Option Text) (r : Result LoadError Config) (w : World)
      → load (env.document path) ≡ r
      → In sv (with_config env r w).1.served
      → ServedWith w sv path
  with_config-In_inv sv path (err (config_error e)) w loaded m = absurd m
  with_config-In_inv sv path (err (raised e)) w loaded m = absurd m
  with_config-In_inv sv path (ok config) w loaded m =
      let (key, checked, is_it) = after_key-In_inv sv config _ w refl m in
      (config, loaded, load-ok_inv (env.document path) config loaded, is_it, key, checked)

  -- A query service is served only after a command line that was accepted, with a valid
  -- configuration that was loaded and a key of the LLM, on a collection that exists and with a model
  -- of the configured output size; its settings and its port are those of the configuration.
  pub served_only_if :
      (w : World) (sv : Serving)
      → In sv (main env w).1.served
      → (path : Option Text) × (env.arguments ≡ ok path) × ServedWith w sv path
  unfolding main
  served_only_if w sv m = of_arguments env.arguments refl m
    where
      of_arguments :
          (r : Result ℕ (Option Text))
          → env.arguments ≡ r
          → In sv (with_arguments env r w).1.served
          → (path : Option Text) × (env.arguments ≡ ok path) × ServedWith w sv path
      of_arguments (err code) parsed g = absurd g
      of_arguments (ok path) parsed g = (path, parsed, with_config-In_inv sv path _ w refl g)
