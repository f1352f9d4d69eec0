-- ===== src/Consumer/Entry.antt =====
-- services/rag-service/src/rag/transport/stream_consumer.py: one entry, from its fields to the
-- acknowledgement, and the held status.
use rag_poc.Prelude.{
  ℕ, zero, suc, ◌+◌, ◌*◌, Text, str, Bool, true, false, Option, none, some, ◌++◌, text_eq, decimal,
  ltb, length, if◌then◌else◌, Result, ok, err,
}
use rag_poc.Value.{Value, Fields, text, bytes, lookup}
use rag_poc.Failure.{invalid_event, other_error, is_redis}
use rag_poc.Exec.{Exec, pure, raise, gets, catch, ◌>>=◌, ◌>>◌}
use rag_poc.Event.{InvalidEvent, poison_message}
use rag_poc.Event.Inbound.{IngestEvent, parse}
use rag_poc.Event.Outbound.{StatusEvent, Identity, make_indexed, make_failed}
use rag_poc.Job.{Outcome, run_job}
use rag_poc.Deadline
use rag_poc.Publisher
use rag_poc.Consumer.{
  Env, Settings, State, ran, armed, disarmed, tried, published, acked, renewed, note, set_held,
  call, ask,
}

abbrev pub max_payload_bytes : ℕ
max_payload_bytes = 1024 * 1024

-- A payload that is text or bytes and not too long is parsed.
unfoldable pub or_none : {A : Type 0} → Result InvalidEvent A → Option A
or_none (ok a) = some a
or_none (err e) = none

module _ (env : Env) where
  open env use {World}

  unfoldable pub parse_raw : Value → Text → Option IngestEvent
  unfolding or_none parse
  parse_raw raw content =
      if ltb max_payload_bytes (length content)
      then none
      else or_none (parse env.loads env.from_iso raw)

  unfoldable pub parse_payload : Option Value → Option IngestEvent
  unfolding parse_raw
  parse_payload (some (text t)) = parse_raw (text t) t
  parse_payload (some (bytes b)) = parse_raw (bytes b) b
  parse_payload _ = none

  unfoldable pub is_ingest_type : Option Value → Bool
  is_ingest_type (some (text t)) = text_eq t (str "IngestionRequest")
  is_ingest_type _ = false

  -- The event of an entry's fields, or none for an entry that can never be processed: the tests of
  -- `_parse`.
  unfoldable pub decode : Option Fields → Option IngestEvent
  unfolding parse_payload is_ingest_type
  decode none = none
  decode (some fields) =
      if is_ingest_type (lookup (str "event_type") fields)
      then parse_payload (lookup (str "payload") fields)
      else none

  -- try: … except RedisError: log
  unfoldable pub ignore_redis : Exec (State World) (Unit {0}) → Exec (State World) (Unit {0})
  ignore_redis m = catch m (λ e. if is_redis e then pure tt else raise e)

  -- _ack
  unfoldable pub ack : Text → Exec (State World) (Unit {0})
  ack id = do note (acked id); ignore_redis (call (env.xack id))

  -- _parse
  unfoldable pub parse_entry : Text → Option Fields → Exec (State World) (Option IngestEvent)
  parse_entry id fields = elim (decode fields) [
    | some event ↦ pure (some event)
    | none ↦ do ack id; pure none
  ]

  -- One XADD: true if it went through, false at a RedisError.
  unfoldable pub try_publish : StatusEvent → Exec (State World) Bool
  try_publish status =
      catch
        (do
          note (tried status)
          call (Publisher.publish env.wire env.publisher status)
          note (published status)
          pure true)
        (λ e. if is_redis e then pure false else raise e)

  -- StatusEvent(...) with its defaults; InvalidEventError is raised.
  unfoldable pub build :
      (Identity → Result InvalidEvent StatusEvent) → Exec (State World) StatusEvent
  build make = do
    identity ← ask env.identity
    elim (make identity) [ ok s ↦ pure s | err e ↦ raise (invalid_event e) ]

  -- _status_for
  unfoldable pub status_for : IngestEvent → Outcome → Exec (State World) StatusEvent
  unfolding build
  status_for event (Outcome.indexed chunk_count) =
      build (make_indexed event.hash event.attempts chunk_count)
  status_for event (Outcome.failed retryable reason detail) =
      build (make_failed event.hash event.attempts retryable reason detail)

module _ (env : Env) (settings : Settings) where
  open env use {World}

  -- What stands between two attempts: the retry delay, and time for one more whole call.
  unfoldable pub may_retry : ℕ → Exec (State World) Bool
  may_retry reclaimable_at = do
    waited ← ask (env.sleep settings.retry_delay)
    if waited
        then (do now ← ask env.clock; pure (ltb (now + settings.call_timeout) reclaimable_at))
        else pure false

  -- the loop of _publish, by the attempts left
  unfoldable pub publish_attempts : StatusEvent → ℕ → ℕ → Exec (State World) Bool
  publish_attempts status reclaimable_at zero = pure false
  publish_attempts status reclaimable_at (suc zero) = try_publish env status
  publish_attempts status reclaimable_at (suc (suc left)) = do
    sent ← try_publish env status
    if sent then pure true else (do
      more ← may_retry reclaimable_at
      if more then publish_attempts status reclaimable_at (suc left) else pure false)

  -- _publish
  unfoldable pub publish : StatusEvent → ℕ → Exec (State World) Bool
  publish status started =
      publish_attempts status (started + settings.min_idle) settings.publish_attempts

  -- _finish
  unfoldable pub finish : Text → StatusEvent → ℕ → Exec (State World) Bool
  finish id status started = do
    sent ← publish status started
    if sent then (do ack env id; pure true) else (do set_held (some (id, status)) 0; pure false)

  -- the job itself, between arming and disarming the watchdog; run_job never raises, so the
  -- `finally` is the plain sequence
  unfoldable pub guarded_job : IngestEvent → ℕ → Exec (State World) Outcome
  guarded_job event now = do
    note armed
    ask (λ w. (tt, env.arm w))
    note (ran event)
    outcome ← run_job (call (env.process event (Deadline.after now settings.job_timeout)))
    note disarmed
    ask (λ w. (tt, env.disarm w))
    pure outcome

  -- _handle
  unfoldable pub handle : Text → IngestEvent → Exec (State World) Bool
  handle id event = do
    started ← ask env.clock
    now ← ask env.clock
    outcome ← guarded_job event now
    status ← status_for env event outcome
    finish id status started

  -- _renew: best effort, every exception is ignored
  unfoldable pub renew : Text → Exec (State World) (Unit {0})
  renew id = do note (renewed id); catch (call (env.xclaim id)) (λ e. pure tt)

  unfoldable pub retry : Text → StatusEvent → Exec (State World) Bool
  retry id status = do
    renew id
    sent ← try_publish env status
    if sent then (do set_held none 0; ack env id; pure true) else (do
      failures ← gets (λ s. s.held_failures)
      set_held (some (id, status)) (failures + 1)
      pure false)

  -- _retry_held
  unfoldable pub retry_held : Exec (State World) Bool
  unfolding retry
  retry_held = do
    held ← gets (λ s. s.held)
    elim held [
      | none ↦ raise (other_error (str "AssertionError"))
      | some (id, status) ↦ retry id status
    ]

  -- _report_poison
  unfoldable pub report_poison : Text → IngestEvent → ℕ → Exec (State World) Bool
  unfolding decimal
  report_poison id event deliveries = do
    status ← build env (
        make_failed event.hash event.attempts false poison_message (
          some (
            str "delivered "
            ++ (decimal deliveries
                ++ (str " times, threshold " ++ decimal settings.poison_threshold)))))
    started ← ask env.clock
    finish id status started
