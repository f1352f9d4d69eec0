-- ===== src/Consumer/Evidence/Loop.antt =====
-- The main loop keeps the consumer's invariant, so whatever it did was justified.
use rag_poc.Prelude.{
  ℕ, zero, suc, ◌<◌, Text, ◌≡◌, ◌≢◌, ◌⊎◌, In, Result, ok, err, Bool, true, false, Option, none,
  some, List, [], ◌∷◌, ◌++◌,
}
use rag_poc.Failure.{Failure}
use rag_poc.Exec.{Exec, pure}
use rag_poc.Exec.Triple.{Ends, Triple-if}
use rag_poc.Event.Inbound.{IngestEvent}
use rag_poc.Event.Outbound.{StatusEvent}
use rag_poc.Consumer.{
  Env, Settings, State, Act, ConsumerInfo, acked, ran, tried, published, listed, deleted, ms,
}
use rag_poc.Consumer.Loop.{
  stopped, waiting, again, ensure_group, try_group, until_ready, back_off, guarded, is_held,
  retry_turn, read_turn, recover_turn, turn, turns, run,
}
use rag_poc.Consumer.Evidence.{Good, Evidence, IsJustified, Keeps, IsHopeless, Reports, MayRun}
use rag_poc.Consumer.Evidence.Rules.{consumer_rules, Keeps-ask, Keeps-pure, Keeps-bind}
use rag_poc.Consumer.Evidence.Handle.{retry_held-Keeps}
use rag_poc.Consumer.Evidence.Claimed.{read_once-Keeps}
use rag_poc.Consumer.Evidence.Recovery.{recover_once-Keeps}

module _ (env : Env) (settings : Settings) (name : Text) where
  open env use {World}

  try_group-Keeps : Keeps env settings name [] (try_group env settings)
  unfolding try_group ensure_group
  try_group-Keeps = search consumer_rules

  until_ready-Keeps : (fuel : ℕ) → Keeps env settings name [] (until_ready env settings fuel)
  unfolding until_ready
  until_ready-Keeps zero = Keeps-pure env settings name [] none
  until_ready-Keeps (suc fuel) =
      Keeps-bind env settings name [] _ _ (Keeps-ask env settings name [] _) λ stop.
        Triple-if stop _ _ (λ _. Keeps-pure env settings name [] _)
          λ _. Keeps-bind env settings name [] _ _ try_group-Keeps λ ready.
            Triple-if ready _ _ (λ _. Keeps-pure env settings name [] _)
              λ _. Keeps-bind env settings name [] _ _ (Keeps-ask env settings name [] _) λ waited.
                Triple-if waited _ _ (λ _. until_ready-Keeps fuel)
                  (λ _. Keeps-pure env settings name [] _)

  group_again :
      (ready : Option Bool)
      → Keeps env settings name [] (elim ready [ none ↦ pure false | some r ↦ pure true ])
  group_again none = Keeps-pure env settings name [] false
  group_again (some r) = Keeps-pure env settings name [] true

  guarded-Keeps :
      (fuel : ℕ) (step : Exec (State World) (Unit {0}))
      → Keeps env settings name [] step
      → Keeps env settings name [] (guarded env settings fuel step)
  unfolding guarded back_off
  guarded-Keeps fuel step k = search (consumer_rules, until_ready-Keeps, group_again) depth 12

  retry_turn-Keeps :
      (fuel next : ℕ) → Keeps env settings name [] (retry_turn env settings name fuel next)
  unfolding retry_turn is_held
  retry_turn-Keeps fuel next = search (consumer_rules, guarded-Keeps, retry_held-Keeps) depth 12

  read_turn-Keeps :
      (fuel next : ℕ) → Keeps env settings name [] (read_turn env settings name fuel next)
  unfolding read_turn
  read_turn-Keeps fuel next = search (consumer_rules, guarded-Keeps, read_once-Keeps) depth 12

  recover_turn-Keeps : (fuel : ℕ) → Keeps env settings name [] (recover_turn env settings name fuel)
  unfolding recover_turn is_held
  recover_turn-Keeps fuel =
      search (consumer_rules, guarded-Keeps, recover_once-Keeps, read_turn-Keeps) depth 12

  turn-Keeps : (fuel next : ℕ) → Keeps env settings name [] (turn env settings name fuel next)
  unfolding turn is_held
  turn-Keeps fuel next =
      search (consumer_rules, retry_turn-Keeps, read_turn-Keeps, recover_turn-Keeps) depth 12

  turns-Keeps : (fuel next : ℕ) → Keeps env settings name [] (turns env settings name fuel next)
  unfolding turns
  turns-Keeps zero next = Keeps-pure env settings name [] false
  turns-Keeps (suc fuel) next = Keeps-bind env settings name [] _ _ (turn-Keeps fuel next) elim [
    | stopped ↦ Keeps-pure env settings name [] true
    | waiting ↦ Keeps-pure env settings name [] false
    | again next' ↦ turns-Keeps fuel next'
  ]

  run-Keeps : (fuel : ℕ) → Keeps env settings name [] (run env settings name fuel)
  unfolding run
  run-Keeps fuel = Keeps-bind env settings name [] _ _ (until_ready-Keeps fuel) elim [
    | none ↦ Keeps-pure env settings name [] false
    | some r ↦ Triple-if r _ _ (λ _. turns-Keeps fuel 0) (λ _. Keeps-pure env settings name [] true)
  ]

  -- A consumer that has just been made.
  abbrev pub start : World → State World
  start w = record { world = w; held = none; held_failures = 0; log = [] }

  IsJustified-end :
      (r : Result Failure Bool) (s : State World)
      → Ends (Good env settings name []) (λ b. Good env settings name []) r s
      → IsJustified env settings name s.log
  IsJustified-end (ok b) s g = g.justified
  IsJustified-end (err e) s g = g.justified

  -- Whatever the environment does and however long it runs, each act of the consumer is justified
  -- by the acts before it.
  run-IsJustified :
      (fuel : ℕ) (w : World)
      → IsJustified env settings name (run env settings name fuel (start w)).1.log
  run-IsJustified fuel w =
      IsJustified-end _ _
        ((run-Keeps fuel).at (start w) (record { justified = tt; held_reports = tt; known = tt }))

  Evidence-at :
      (a : Act) (later earlier : List Act)
      → IsJustified env settings name (later ++ a ∷ earlier)
      → Evidence env settings name a earlier
  Evidence-at a [] earlier j = j.0
  Evidence-at a (b ∷ later) earlier j = Evidence-at a later earlier j.1

  module _ (fuel : ℕ) (w : World) (later earlier : List Act) where
    abbrev log : List Act
    log = (run env settings name fuel (start w)).1.log

    at : (a : Act) → log ≡ later ++ a ∷ earlier → Evidence env settings name a earlier
    at a e = Evidence-at a later earlier (rw (← e) (run-IsJustified fuel w))

    -- At any point of any run, an entry is acknowledged only if its fields can never be decoded to
    -- an event, or if before that a status was published that echoes the hash and the attempt number
    -- of the entry's event, and whose cause is a run of the job or a delivery count over the
    -- threshold.
    pub acked_only_if_reported :
        (id : Text)
        → log ≡ later ++ acked id ∷ earlier
        → IsHopeless env settings name id earlier
          ⊎ ((status : StatusEvent) × Reports env settings name id status earlier
              × In (published status) earlier)
    acked_only_if_reported id e = at (acked id) e

    -- At any point of any run, the processor is called only on the event of an entry that was read
    -- as new, or that was claimed and then found pending under this consumer's own name with a
    -- delivery count of at most the poison threshold.
    pub ran_only_if_allowed :
        (event : IngestEvent)
        → log ≡ later ++ ran event ∷ earlier
        → (id : Text) × MayRun env settings name id event earlier
    ran_only_if_allowed event e = at (ran event) e

    -- At any point of any run, a status event is sent only for a delivered entry, with the hash and
    -- the attempt number of its event, after its job ran, or as a permanent POISON_MESSAGE failure of
    -- an entry that was delivered more often than the threshold.
    pub tried_only_with_cause :
        (status : StatusEvent)
        → log ≡ later ++ tried status ∷ earlier
        → (id : Text) × Reports env settings name id status earlier
    tried_only_with_cause status e = at (tried status) e

    -- At any point of any run, a consumer is deleted only after Redis listed it under that name with
    -- nothing pending and idle for longer than the cleanup threshold, and it is never this consumer.
    pub deleted_only_if_idle :
        (consumer : Text)
        → log ≡ later ++ deleted consumer ∷ earlier
        → (c : ConsumerInfo) × In (listed c) earlier
          × (c.name ≡ consumer)
          × (consumer ≢ name)
          × (c.pending ≡ 0)
          × (ms settings.cleanup_idle < c.idle)
    deleted_only_if_idle consumer e = at (deleted consumer) e
