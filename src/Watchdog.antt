-- ===== src/Watchdog.antt =====
-- The Watchdog of services/rag-service/src/rag/transport/watchdog.py. Its lock makes each of arm, disarm
-- and the test of _fire one step; what _fire does after the test is a step of its own.
pub mod Race
mod Tests
use rag_poc.Prelude.{
  ℕ, ◌+◌, str, Bool, true, false, Option, none, some, List, [], ◌∷◌, ◌==◌, if◌then◌else◌, Result,
  ok, err,
}
use rag_poc.Failure.{Failure, other_error}

-- A timer is known by the generation that it was started with. `started` are all the timers ever
-- started: cancelling one does nothing once its callback has begun, so any of them may still fire.
-- `passed` are those whose callback has passed the test of _fire, which puts it past any disarm.
-- `exited` is set when exit_fn has been called.
pub record Watchdog : Type 0 where
  pub timeout : ℕ
  pub timer : Option ℕ
  pub generation : ℕ
  pub started : List ℕ
  pub passed : List ℕ
  pub exited : Bool

-- Watchdog(timeout), in microseconds
unfoldable pub make : ℕ → Result Failure Watchdog
make timeout =
    if timeout == 0
    then err (other_error (str "ValueError"))
    else ok (record {
      timeout = timeout;
      timer = none;
      generation = 0;
      started = [];
      passed = [];
      exited = false;
    })

unfoldable pub arm : Watchdog → Watchdog
arm w =
    let g = w.generation + 1 in record w { timer = some g; generation = g; started = g ∷ w.started }

unfoldable pub disarm : Watchdog → Watchdog
disarm w = record w { timer = none; generation = w.generation + 1 }

-- _fire(generation), with the lock
unfoldable pub fire : ℕ → Watchdog → Watchdog
fire g w = if g == w.generation then record w { passed = g ∷ w.passed } else w

-- what _fire does after the lock, where the test passed: exit_fn(1), whether or not the message was
-- written
unfoldable pub exit : Watchdog → Watchdog
exit w = record w { exited = true }
