-- ===== src/Startup/Started.antt =====
-- What is known of a consumer that services/rag-service/src/rag/consumer.py starts.
use rag_poc.Prelude.{
  ℕ, ◌+◌, ◌<◌, ◌≡◌, ◌⊎◌, inl, inr, refl, sym, subst, ap, Bool, true, Bool-cases, Option, none, some,
  List, [], ◌∷◌, In, Result, ok, err,
}
use rag_poc.Failure.{Failure}
use rag_poc.Config.{Config, from_config}
use rag_poc.Config.Build.{LoadError, config_error, raised, load}
use rag_poc.Config.Timing.{HasMargin, from_config-HasMargin}
use rag_poc.Config.Ranges.{IsConfig}
use rag_poc.Embedder.{EmbedError, dimension}
use rag_poc.Stub.{Mode}
use rag_poc.Startup.{Refusal, check_collection, check_embedding_dim, embedder, ingest_settings}
use rag_poc.Startup.ConsumerMain.{
  Arguments, Processor, stub, real, Start, Environment, Act, checked_collection, probed, started,
  State, resolve_mode, start_of, skips, after_probe, after_collection, real_processor, start,
  with_processor, with_config, with_mode, with_arguments, main,
}
use rag_poc.Startup.Checks.{
  check_collection-ok_inv, check_embedding_dim-ok_inv, load-ok_inv, idle_later,
}

-- Nothing was started.
abbrev pub Quiet : List Act → Type 0
Quiet [] = Unit
Quiet (started st ∷ log) = ⊥
Quiet (_ ∷ log) = Quiet log

pub Quiet-or_started : (log : List Act) → Quiet log ⊎ ((st : Start) × In (started st) log)
Quiet-or_started [] = inl tt
Quiet-or_started (started st ∷ log) = inr (st, inl refl)
Quiet-or_started (checked_collection ∷ log) = elim (Quiet-or_started log) [
  | inl q ↦ inl q
  | inr (st, m) ↦ inr (st, inr m)
]
Quiet-or_started (probed ∷ log) = elim (Quiet-or_started log) [
  | inl q ↦ inl q
  | inr (st, m) ↦ inr (st, inr m)
]

Quiet-not_In : (st : Start) (log : List Act) → Quiet log → In (started st) log → ⊥
Quiet-not_In st [] q m = absurd m
Quiet-not_In st (started st' ∷ log) q m = absurd q
Quiet-not_In st (checked_collection ∷ log) q (inl e) = absurd (cc e)
Quiet-not_In st (checked_collection ∷ log) q (inr m) = Quiet-not_In st log q m
Quiet-not_In st (probed ∷ log) q (inl e) = absurd (cc e)
Quiet-not_In st (probed ∷ log) q (inr m) = Quiet-not_In st log q m

module _ (env : Environment) where
  open env use {World}

  -- What was found out before a processor is used: the mode of a stub was asked for; for the real
  -- service, the collection exists, and the model's output size is the configured one unless that
  -- check is switched off both in the environment and in the configuration.
  abbrev pub Cleared : World → Config → Processor → Type 0
  Cleared w config (stub mode) =
      (arguments : Arguments) × (env.arguments ≡ ok arguments)
      × (resolve_mode arguments.mode env.stub_mode ≡ ok (some mode))
  Cleared w config (real settings) =
      let (found, w') = env.collection_exists config.rag.collection w in
      (found ≡ ok true)
      × ((skips env config ≡ true)
          ⊎ ((dimension env.client (embedder config) w').0 ≡ ok config.rag.embedding_dim))
      × (settings ≡ ingest_settings config)

  after_probe-Quiet :
      (config : Config) (r : Result Refusal (Unit {0})) (s : State World)
      → Quiet s.log
      → Quiet (after_probe env config r s).1.log
  after_probe-Quiet config (err e) s q = q
  after_probe-Quiet config (ok u) s q = q

  after_collection-Quiet :
      (config : Config) (r : Result Refusal (Unit {0})) (s : State World)
      → Quiet s.log
      → Quiet (after_collection env config r s).1.log
  unfolding after_collection
  after_collection-Quiet config (err e) s q = q
  after_collection-Quiet config (ok u) s q = elim (Bool-cases (skips env config)) [
    | inl e ↦ rw e q
    | inr e ↦
        let (d, w) = dimension env.client (embedder config) s.world in
        rw e (
          after_probe-Quiet config (check_embedding_dim d config.rag.embedding_dim)
            (record { world = w; log = probed ∷ s.log }) q)
  ]

  pub real_processor-Quiet :
      (config : Config) (s : State World) → Quiet s.log → Quiet (real_processor env config s).1.log
  unfolding real_processor
  real_processor-Quiet config s q =
      let (r, w) = env.collection_exists config.rag.collection s.world in
      after_collection-Quiet config (check_collection r)
        (record { world = w; log = checked_collection ∷ s.log }) q

  after_probe-ok_inv :
      (config : Config) (d : Result EmbedError ℕ) (s : State World) (p : Processor)
      → (after_probe env config (check_embedding_dim d config.rag.embedding_dim) s).0 ≡ ok p
      → (d ≡ ok config.rag.embedding_dim) × (p ≡ real (ingest_settings config))
  after_probe-ok_inv config d s p h = of_check _ refl h
    where
      of_check :
          (r : Result Refusal (Unit {0}))
          → check_embedding_dim d config.rag.embedding_dim ≡ r
          → (after_probe env config r s).0 ≡ ok p
          → (d ≡ ok config.rag.embedding_dim) × (p ≡ real (ingest_settings config))
      of_check (err e) same g = absurd (cc g)
      of_check (ok u) same g = (check_embedding_dim-ok_inv d _ u same, cc g)

  after_collection-ok_inv :
      (config : Config) (u : Unit {0}) (s : State World) (p : Processor)
      → (after_collection env config (ok u) s).0 ≡ ok p
      → ((skips env config ≡ true)
          ⊎ ((dimension env.client (embedder config) s.world).0 ≡ ok config.rag.embedding_dim))
        × (p ≡ real (ingest_settings config))
  unfolding after_collection
  after_collection-ok_inv config u s p h = elim (Bool-cases (skips env config)) [
    | inl e ↦ (inl e, cc (rw e at h))
    | inr e ↦
        let (same, is_real) = after_probe-ok_inv config _ _ p (rw e at h) in (inr same, is_real)
  ]

  real_processor-ok_inv :
      (config : Config) (s : State World) (p : Processor)
      → (real_processor env config s).0 ≡ ok p
      → Cleared s.world config p
  unfolding real_processor
  real_processor-ok_inv config s p h = of_check _ refl h
    where
      found : Result Failure Bool
      found = (env.collection_exists config.rag.collection s.world).0

      of_check :
          (r : Result Refusal (Unit {0}))
          → check_collection found ≡ r
          → (after_collection env config r (record {
            world = (env.collection_exists config.rag.collection s.world).1;
            log = checked_collection ∷ s.log;
          })).0
            ≡ ok p
          → Cleared s.world config p
      of_check (err e) same g = absurd (cc g)
      of_check (ok u) same g =
          let (sized, is_real) = after_collection-ok_inv config u _ p g in
          subst (Cleared s.world config) (sym is_real)
            (check_collection-ok_inv _ u same, sized, refl)

  -- A consumer that was started: it is built from a valid configuration that was loaded, and from a
  -- processor that was cleared.
  pub record IsStarted (w : World) (st : Start) : Type 0 where
    pub arguments : Arguments
    pub parsed : env.arguments ≡ ok arguments
    pub config : Config
    pub loaded : load (env.document arguments.config) ≡ ok config
    pub built : st ≡ start_of config st.processor
    pub cleared : Cleared w config st.processor

  start-In_inv :
      (config : Config) (p : Processor) (s : State World) (st : Start)
      → Quiet s.log
      → In (started st) (start env config p s).1.log
      → st ≡ start_of config p
  unfolding start
  start-In_inv config p s st q (inl e) = cc e
  start-In_inv config p s st q (inr m) = absurd (Quiet-not_In st s.log q m)

  module _ (w : World) (arguments : Arguments) (parsed : env.arguments ≡ ok arguments) where
    abbrev new_state : State World
    new_state = record { world = w; log = [] }

    processed :
        (config : Config) (mode : Option Mode)
        → load (env.document arguments.config) ≡ ok config
        → resolve_mode arguments.mode env.stub_mode ≡ ok mode
        → (st : Start) → In (started st) (with_config env mode (ok config) new_state).1.log
        → IsStarted w st
    unfolding with_config start_of
    processed config (some mode) loaded resolved st m =
        let built = start-In_inv config (stub mode) new_state st tt m in
        let is_stub : st.processor ≡ stub mode = ap (λ x. x.processor) built in
        record {
          arguments = arguments;
          parsed = parsed;
          config = config;
          loaded = loaded;
          built = subst (λ p. st ≡ start_of config p) (sym is_stub) built;
          cleared = subst (Cleared w config) (sym is_stub) (arguments, parsed, resolved);
        }
    processed config none loaded resolved st m = of_processor _ refl m
      where
        of_processor :
            (r : Result Refusal Processor)
            → (real_processor env config new_state).0 ≡ r
            → In
                (started st)
                (with_processor env config r (real_processor env config new_state).1).1.log
            → IsStarted w st
        of_processor (err e) same g =
            absurd (Quiet-not_In st _ (real_processor-Quiet config new_state tt) g)
        of_processor (ok p) same g =
            let built =
              start-In_inv config p (real_processor env config new_state).1 st
                (real_processor-Quiet config new_state tt) g in
            let is_p : st.processor ≡ p = ap (λ x. x.processor) built in
            record {
              arguments = arguments;
              parsed = parsed;
              config = config;
              loaded = loaded;
              built = subst (λ q. st ≡ start_of config q) (sym is_p) built;
              cleared =
                  subst (Cleared w config) (sym is_p)
                    (real_processor-ok_inv config new_state p same);
            }

    with_config-IsStarted :
        (mode : Option Mode) (r : Result LoadError Config)
        → load (env.document arguments.config) ≡ r
        → resolve_mode arguments.mode env.stub_mode ≡ ok mode
        → (st : Start) → In (started st) (with_config env mode r new_state).1.log
        → IsStarted w st
    unfolding with_config
    with_config-IsStarted mode (err (config_error e)) loaded resolved st m = absurd m
    with_config-IsStarted mode (err (raised e)) loaded resolved st m = absurd m
    with_config-IsStarted mode (ok config) loaded resolved st m =
        processed config mode loaded resolved st m

    with_mode-IsStarted :
        (r : Result (Unit {0}) (Option Mode))
        → resolve_mode arguments.mode env.stub_mode ≡ r
        → (st : Start) → In (started st) (with_mode env arguments.config r new_state).1.log
        → IsStarted w st
    unfolding with_mode
    with_mode-IsStarted (err u) resolved st m = absurd m
    with_mode-IsStarted (ok mode) resolved st m =
        with_config-IsStarted mode (load (env.document arguments.config)) refl resolved st m

  main-IsStarted : (w : World) (st : Start) → In (started st) (main env w).1.log → IsStarted w st
  unfolding main
  main-IsStarted w st m = of_arguments env.arguments refl m
    where
      of_arguments :
          (r : Result ℕ Arguments)
          → env.arguments ≡ r
          → In (started st) (with_arguments env r (record { world = w; log = [] })).1.log
          → IsStarted w st
      of_arguments (err code) parsed g = absurd g
      of_arguments (ok arguments) parsed g = with_mode-IsStarted w arguments parsed _ refl st g

  -- A consumer that main starts is built from the configuration that load returned for the path of the
  -- accepted command line and that is valid, and runs a processor that was cleared. Its settings leave the margins of the timing rules: a job
  -- that is killed by the watchdog, whose limit is the time for a job and the grace, is dead before
  -- its entry can be reclaimed.
  pub started_only_if :
      (w : World) (st : Start)
      → In (started st) (main env w).1.log
      → (arguments : Arguments) × (env.arguments ≡ ok arguments)
        × (config : Config) × (load (env.document arguments.config) ≡ ok config)
        × IsConfig config
        × (st ≡ start_of config st.processor)
        × Cleared w config st.processor
        × HasMargin config.rag.consumer.watchdog_grace st.settings
        × (st.limit < st.settings.min_idle)
  unfolding start_of from_config
  started_only_if w st m =
      let s = main-IsStarted w st m in
      let valid = load-ok_inv (env.document s.arguments.config) s.config s.loaded in
      let c = s.config.rag.consumer in
      let margins = (from_config-HasMargin s.config valid.timing).0 in
      let settings : st.settings ≡ from_config s.config = ap (λ x. x.settings) s.built in
      let limit : st.limit ≡ c.job_timeout + c.watchdog_grace = ap (λ x. x.limit) s.built in
      let later : c.job_timeout + c.watchdog_grace < c.min_idle = idle_later s.config margins in
      (
        s.arguments,
        s.parsed,
        s.config,
        s.loaded,
        valid,
        s.built,
        s.cleared,
        subst (HasMargin c.watchdog_grace) (sym settings) margins,
        rw (limit, settings) later,
      )
