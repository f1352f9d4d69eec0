-- ===== src/Startup/Refused.antt =====
-- The exit status 1 of services/rag-service/src/rag/consumer.py, after which the container is started
-- again.
use rag_poc.Prelude.{
  ℕ, Text, ◌≡◌, ◌⊎◌, inl, inr, refl, sym, ap, ◌∙◌, In, Bool, true, false, ◌==◌, Bool-cases, Option,
  none, some, [], ◌∷◌, Result, ok, err,
}
use rag_poc.Failure.{Failure, dependency_unavailable}
use rag_poc.Config.{Config}
use rag_poc.Config.Build.{LoadError, config_error, raised, load}
use rag_poc.Embedder
use rag_poc.Embedder.{EmbedError, unavailable, model_not_available, dimension}
use rag_poc.Embedder.{ClientError}
use rag_poc.Stub.{Mode}
use rag_poc.Startup.{
  Refusal, startup_error, uncaught, transient, refused, Exit, exits, dies, model_missing,
  wrong_dimension, collection_missing, check_collection, check_embedding_dim, embedder,
}
use rag_poc.Startup.ConsumerMain.{
  Arguments, Start, Environment, started, checked_collection, probed, State, resolve_mode, skips,
  after_probe, after_collection, real_processor, start, with_processor, with_config, with_mode,
  main,
}
use rag_poc.Startup.Checks.{check_collection-ok_inv}
use rag_poc.Startup.Started.{Quiet, Quiet-or_started}

-- The checks that were refused for a dependency that cannot be reached.
check_collection-unreachable_inv :
    (r : Result Failure Bool) (e : Refusal)
    → check_collection r ≡ err e
    → refused e ≡ exits 1
    → (d : Text) × (r ≡ err (dependency_unavailable d))
unfolding check_collection refused transient
check_collection-unreachable_inv (ok true) e h x = absurd (cc h)
check_collection-unreachable_inv (ok false) (startup_error collection_missing) h x = absurd (cc x)
check_collection-unreachable_inv (ok false) _ h x = absurd (cc h)
check_collection-unreachable_inv (err (dependency_unavailable d)) e h x = (d, refl)
check_collection-unreachable_inv (err f) (uncaught g) h x = absurd (cc x)
check_collection-unreachable_inv (err _) (startup_error s) h x = absurd (cc h)

check_embedding_dim-unreachable_inv :
    (r : Result EmbedError ℕ) (expected : ℕ) (e : Refusal)
    → check_embedding_dim r expected ≡ err e
    → refused e ≡ exits 1
    → (d : Text) × (c : Option ClientError) × (r ≡ err (unavailable d c))
unfolding check_embedding_dim refused transient
check_embedding_dim-unreachable_inv (err (unavailable d c)) expected e h x = (d, c, refl)
check_embedding_dim-unreachable_inv (err (model_not_available m)) expected
      (startup_error model_missing) h x =
    absurd (cc x)
check_embedding_dim-unreachable_inv (err (model_not_available m)) expected _ h x = absurd (cc h)
check_embedding_dim-unreachable_inv (err (Embedder.raised f)) expected (uncaught g) h x =
    absurd (cc x)
check_embedding_dim-unreachable_inv (err (Embedder.raised f)) expected (startup_error s) h x =
    absurd (cc h)
check_embedding_dim-unreachable_inv (ok actual) expected e h x =
    elim (Bool-cases (actual == expected)) [
      | inl same ↦ absurd (cc (rw same at h))
      | inr other ↦
          let is_wrong : startup_error wrong_dimension ≡ e = cc (rw other at h) in
          absurd (cc (rw (sym is_wrong) at x))
    ]

module _ (env : Environment) where
  open env use {World}

  -- The vector index, or after it the embedder, reports that it cannot be reached.
  abbrev pub Unreachable : World → Config → Type 0
  Unreachable w config =
      let (found, w') = env.collection_exists config.rag.collection w in
      ((d : Text) × (found ≡ err (dependency_unavailable d)))
      ⊎ ((found ≡ ok true)
          × (skips env config ≡ false)
          × (d : Text) × (c : Option ClientError) × ((dimension env.client (embedder config) w').0
              ≡ err (unavailable d c)))

  after_probe-exit_1_inv :
      (config : Config) (d : Result EmbedError ℕ) (s : State World)
      → let (r, s') = after_probe env config (check_embedding_dim d config.rag.embedding_dim) s in
        let (e, t) = with_processor env config r s' in
        e ≡ exits 1
        → Quiet t.log
        → (t : Text) × (c : Option ClientError) × (d ≡ err (unavailable t c))
  unfolding start
  after_probe-exit_1_inv config d s h quiet = of_check _ refl h quiet
    where
      of_check :
          (q : Result Refusal (Unit {0}))
          → check_embedding_dim d config.rag.embedding_dim ≡ q
          → let (r, s') = after_probe env config q s in
            let (e, t) = with_processor env config r s' in
            e ≡ exits 1
            → Quiet t.log
            → (t : Text) × (c : Option ClientError) × (d ≡ err (unavailable t c))
      of_check (err e) same g quiet = check_embedding_dim-unreachable_inv d _ e same g
      of_check (ok u) same g quiet = absurd quiet

  real_processor-exit_1_inv :
      (config : Config) (s : State World)
      → let (r, s') = real_processor env config s in
        let (e, t) = with_processor env config r s' in
        e ≡ exits 1 → Quiet t.log → Unreachable s.world config
  unfolding real_processor start
  real_processor-exit_1_inv config s h quiet = of_check _ refl h quiet
    where
      found : Result Failure Bool
      found = (env.collection_exists config.rag.collection s.world).0

      after : State World
      after = record {
        world = (env.collection_exists config.rag.collection s.world).1;
        log = checked_collection ∷ s.log;
      }

      probed_after : State World
      probed_after = record {
        world = (dimension env.client (embedder config) after.world).1;
        log = probed ∷ after.log;
      }

      of_check :
          (q : Result Refusal (Unit {0}))
          → check_collection found ≡ q
          → let (r, s') = after_collection env config q after in
            let (e, t) = with_processor env config r s' in
            e ≡ exits 1 → Quiet t.log → Unreachable s.world config
      of_check (err e) same g quiet = inl (check_collection-unreachable_inv found e same g)
      of_check (ok u) same g quiet = elim (Bool-cases (skips env config)) [
        | inl e ↦ absurd (rw (e, after_collection) at quiet)
        | inr e ↦
            let (t, c, failed) =
              after_probe-exit_1_inv config (dimension env.client (embedder config) after.world).0
                probed_after (rw (e, after_collection) at g) (rw (e, after_collection) at quiet) in
            inr (check_collection-ok_inv found u same, e, t, c, failed)
      ]

  with_config-exit_1_inv :
      (mode : Option Mode) (r : Result LoadError Config) (s : State World)
      → let (e, t) = with_config env mode r s in
        e ≡ exits 1
        → Quiet t.log
        → (config : Config) × (r ≡ ok config) × (mode ≡ none) × Unreachable s.world config
  unfolding with_config start
  with_config-exit_1_inv mode (err (config_error e)) s h quiet = absurd (cc h)
  with_config-exit_1_inv mode (err (raised e)) s h quiet = absurd (cc h)
  with_config-exit_1_inv (some mode) (ok config) s h quiet = absurd quiet
  with_config-exit_1_inv none (ok config) s h quiet =
      (config, refl, refl, real_processor-exit_1_inv config s h quiet)

  with_mode-exit_1_inv :
      (path : Option Text) (r : Result (Unit {0}) (Option Mode)) (s : State World)
      → let (e, t) = with_mode env path r s in
        e ≡ exits 1
        → Quiet t.log
        → (config : Config) × (load (env.document path) ≡ ok config)
          × (r ≡ ok none)
          × Unreachable s.world config
  unfolding with_mode
  with_mode-exit_1_inv path (err u) s h quiet = absurd (cc h)
  with_mode-exit_1_inv path (ok mode) s h quiet =
      let (config, loaded, is_none, unreachable) = with_config-exit_1_inv mode _ s h quiet in
      (config, loaded, cc is_none, unreachable)

  -- The process ends so that its status is 1: CPython gives it to an exception that is not caught.
  abbrev pub HasStatus1 : Exit → Type 0
  HasStatus1 (exits code) = code ≡ 1
  HasStatus1 (dies e) = Unit

  -- No stub mode was asked for, the configuration is right, and a dependency that the checks call for
  -- cannot be reached.
  abbrev pub CannotReach : World → Arguments → Type 0
  CannotReach w arguments =
      (config : Config) × (load (env.document arguments.config) ≡ ok config)
      × (resolve_mode arguments.mode env.stub_mode ≡ ok none)
      × Unreachable w config

  -- After a command line that was accepted, the process ends with the status 1 only in three ways: a
  -- consumer was started, an exception was not caught, or no stub mode was asked for, the
  -- configuration is right, and a dependency that the checks call for cannot be reached: the vector
  -- index, or after it the embedder.
  pub unavailable_only_if :
      (w : World) (arguments : Arguments)
      → env.arguments ≡ ok arguments
      → HasStatus1 (main env w).0
      → ((st : Start) × In (started st) (main env w).1.log)
        ⊎ ((e : Failure) × ((main env w).0 ≡ dies e))
        ⊎ CannotReach w arguments
  unfolding main
  unavailable_only_if w arguments parsed h = elim (Quiet-or_started (main env w).1.log) [
    | inr was_started ↦ inl was_started
    | inl quiet ↦ of_exit (main env w).0 refl h quiet
  ]
    where
      of_exit :
          (e : Exit)
          → (main env w).0 ≡ e
          → HasStatus1 e
          → Quiet (main env w).1.log
          → ((st : Start) × In (started st) (main env w).1.log)
            ⊎ ((e : Failure) × ((main env w).0 ≡ dies e))
            ⊎ CannotReach w arguments
      of_exit (dies e) same is_1 quiet = inr (inl (e, same))
      of_exit (exits code) same is_1 quiet = inr (
          inr (
            with_mode-exit_1_inv arguments.config (resolve_mode arguments.mode env.stub_mode)
              (record { world = w; log = [] }) (rw parsed at (same ∙ ap exits is_1))
              (rw parsed at quiet)))
