-- ===== src/Stub.antt =====
-- services/rag-service/src/rag/ingest/stub.py: the stand-in for the ingest service. The clock, the
-- sleep, exit_fn and the wait for the event `hang` are the parameter `Ports`.
pub mod Timeout
use rag_poc.Prelude.{ℕ, zero, suc, str, Bool, true, false, Option, none, some, Result, ok, err}
use rag_poc.Event.{Reason}
use rag_poc.Failure.{Failure, other_error}
use rag_poc.Job.{Outcome}
use rag_poc.Deadline
use rag_poc.Deadline.{Deadline}

pub data Mode : Type 0 where
  indexed failed_retryable failed_permanent crash slow hang : Mode

-- exit_fn and the wait return only in tests: the process ends, or waits for ever.
pub record Ports : Type 1 where
  pub World : Type 0
  pub clock : World → ℕ × World
  pub sleep : ℕ → World → World
  pub exit : World → World
  pub wait : World → World

module _ (ports : Ports) where
  open ports use {World}

  -- What a run comes to: none when the fuel ran out in the loop of the mode slow.
  abbrev pub Run : Type 0
  Run = Option (Result Failure Outcome × World)

  abbrev pub after_check : Result Failure (Unit {0}) → World → Run → Run
  after_check (ok u) w more = more
  after_check (err e) w more = some (err e, w)

  -- while True: deadline.check(); sleep(step)
  unfoldable pub slow_loop : ℕ → ℕ → Deadline → World → Run
  unfolding Deadline.check
  slow_loop zero step deadline w = none
  slow_loop (suc fuel) step deadline w =
      let (now, w') = ports.clock w in
      after_check (Deadline.check deadline now w').0 w'
        (slow_loop fuel step deadline (ports.sleep step w'))

  -- StubProcessor.process
  unfoldable pub process : ℕ → Mode → ℕ → Deadline → World → Run
  unfolding slow_loop
  process fuel Mode.indexed step deadline w = some (ok (Outcome.indexed (some 0)), w)
  process fuel Mode.failed_retryable step deadline w =
      some (ok (Outcome.failed true Reason.internal (some (str "stub failed-retryable"))), w)
  process fuel Mode.failed_permanent step deadline w =
      some (ok (Outcome.failed false Reason.corrupt_file (some (str "stub failed-permanent"))), w)
  process fuel Mode.crash step deadline w =
      some (err (other_error (str "RuntimeError")), ports.exit w)
  process fuel Mode.slow step deadline w = slow_loop fuel step deadline w
  process fuel Mode.hang step deadline w =
      some (err (other_error (str "RuntimeError")), ports.wait w)
