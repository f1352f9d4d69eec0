-- ===== src/Consumer/Loop.antt =====
-- services/rag-service/src/rag/transport/stream_consumer.py: the consumer group and the main loop.
-- The two `while` loops take fuel; none means that it ran out and the loop goes on.
use rag_poc.Prelude.{
  ℕ, zero, suc, ◌+◌, Text, Bool, true, false, Option, none, some, leb, if◌then◌else◌,
}
use rag_poc.Failure.{is_redis, is_no_group, is_busy_group}
use rag_poc.Exec.{Exec, pure, raise, gets, catch, ◌>>=◌, ◌>>◌}
use rag_poc.Consumer.{Env, Settings, State, call, ask}
use rag_poc.Consumer.Entry.{retry_held}
use rag_poc.Consumer.Recovery.{read_once, recover_once}

-- What one turn of the loop came to: the stop event, a wait that outlasts the fuel, or another turn
-- with the time of the next recovery.
pub data Turn : Type 0 where
  stopped waiting : Turn
  again : ℕ → Turn

module _ (env : Env) (settings : Settings) where
  open env use {World}

  -- ensure_group
  unfoldable pub ensure_group : Exec (State World) (Unit {0})
  ensure_group = catch (call env.xgroup_create) (λ e. if is_busy_group e then pure tt else raise e)

  -- one try of _ensure_group_until_ready: whether the group is there
  unfoldable pub try_group : Exec (State World) Bool
  try_group = catch (do ensure_group; pure true) (λ e. if is_redis e then pure false else raise e)

  -- _ensure_group_until_ready
  unfoldable pub until_ready : ℕ → Exec (State World) (Option Bool)
  until_ready zero = pure none
  until_ready (suc fuel) = do
    stop ← ask env.stopped
    if stop then pure (some false) else (do
      ready ← try_group
      if ready then pure (some true) else (do
        waited ← ask (env.sleep settings.retry_delay)
        if waited then until_ready fuel else pure (some false)))

  unfoldable pub back_off : Exec (State World) Bool
  back_off = do ask (env.sleep settings.retry_delay); pure true

  -- _guarded: false means that the fuel ran out while the group was created again. A RedisError and
  -- any other exception are logged in two ways and handled alike.
  unfoldable pub guarded : ℕ → Exec (State World) (Unit {0}) → Exec (State World) Bool
  guarded fuel step =
      catch (do step; pure true)
        (λ e.
          if is_no_group e
          then (do ready ← until_ready fuel; elim ready [ none ↦ pure false | some r ↦ pure true ])
          else back_off)

  unfoldable pub is_held : Exec (State World) Bool
  is_held = gets (λ s. elim s.held [ none ↦ false | some h ↦ true ])

module _ (env : Env) (settings : Settings) (name : Text) where
  open env use {World}

  unfoldable pub retry_turn : ℕ → ℕ → Exec (State World) Turn
  retry_turn fuel next_recovery = do
    finished ← guarded env settings fuel (do retry_held env settings; pure tt)
    if finished
        then (do
          still ← is_held env settings
          if still then (do ask (env.sleep settings.retry_delay); pure tt) else pure tt
          pure (again next_recovery))
        else pure waiting

  unfoldable pub read_turn : ℕ → ℕ → Exec (State World) Turn
  read_turn fuel next_recovery = do
    finished ← guarded env settings fuel (read_once env settings)
    if finished then pure (again next_recovery) else pure waiting

  unfoldable pub recover_turn : ℕ → Exec (State World) Turn
  recover_turn fuel = do
    finished ← guarded env settings fuel (recover_once env settings name)
    if finished
        then (do
          now ← ask env.clock
          let next_recovery = now + settings.recovery_interval
          still ← is_held env settings
          if still then pure (again next_recovery) else read_turn fuel next_recovery)
        else pure waiting

  -- one turn of the loop of `run`
  unfoldable pub turn : ℕ → ℕ → Exec (State World) Turn
  turn fuel next_recovery = do
    stop ← ask env.stopped
    if stop then pure stopped else (do
      held ← is_held env settings
      if held then retry_turn fuel next_recovery else (do
        now ← ask env.clock
        if leb next_recovery now then recover_turn fuel else read_turn fuel next_recovery))

  -- The turns of `run`: false means that the fuel ran out.
  unfoldable pub turns : ℕ → ℕ → Exec (State World) Bool
  turns zero next_recovery = pure false
  turns (suc fuel) next_recovery = do
    t ← turn fuel next_recovery
    elim t [ stopped ↦ pure true | waiting ↦ pure false | again next ↦ turns fuel next ]

  -- run
  unfoldable pub run : ℕ → Exec (State World) Bool
  run fuel = do
    ready ← until_ready env settings fuel
    elim ready [ none ↦ pure false | some r ↦ if r then turns fuel 0 else pure true ]
