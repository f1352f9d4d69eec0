-- ===== src/Stub/Timeout.antt =====
-- The mode slow of services/rag-service/src/rag/ingest/stub.py ends by the deadline.
mod Tests
use rag_poc.Prelude.{
  ℕ, zero, suc, ◌+◌, ◌≤◌, str, ◌≡◌, refl, inl, inr, Bool-cases, Bool, true, false, Option, none,
  some, leb, leb→gt, arith, Result, ok, err, if◌then◌else◌,
}
use rag_poc.Event.{Reason}
use rag_poc.Failure.{Failure, transient_error}
use rag_poc.Exec.{raise, pure}
use rag_poc.Job.{Outcome, classify}
use rag_poc.Deadline
use rag_poc.Deadline.{Deadline, expired}
use rag_poc.Stub.{Ports, Mode, slow_loop, process, after_check}

-- The monotonic clock: it does not go back when it is read, and a sleep lasts at least as asked.
pub record Ticks (ports : Ports) : Type 0 where
  pub reading : (w : ports.World) → (ports.clock w).0 ≤ (ports.clock (ports.clock w).1).0
  pub sleeping :
      (d : ℕ) (w : ports.World) → (ports.clock w).0 + d ≤ (ports.clock (ports.sleep d w)).0

abbrev pub timeout : Failure
timeout = transient_error Reason.job_timeout (some (str "job deadline passed"))

module _ (ports : Ports) (ticks : Ticks ports) where
  open ports use {World}

  slow_loop_ends :
      (fuel step : ℕ) (deadline : Deadline) (w : World)
      → 1 ≤ step
      → deadline.expires_at ≤ (ports.clock w).0 + fuel
      → (w' : World) × (slow_loop ports (suc fuel) step deadline w ≡ some (err timeout, w'))
  unfolding slow_loop Deadline.check expired raise pure
  slow_loop_ends zero step deadline w s h =
      elim (Bool-cases (leb deadline.expires_at (ports.clock w).0)) [
        | inl e ↦ rw e (_, refl)
        | inr e ↦ absurd (omega (arith, leb→gt _ _ e))
      ]
  slow_loop_ends (suc fuel) step deadline w s h =
      let w' = (ports.clock w).1 in
      let later : deadline.expires_at ≤ (ports.clock (ports.sleep step w')).0 + fuel =
        omega (arith, ticks.reading w, ticks.sleeping step w') in
      elim (Bool-cases (leb deadline.expires_at (ports.clock w).0)) [
        | inl e ↦ rw e (_, refl)
        | inr e ↦ rw e (slow_loop_ends fuel step deadline (ports.sleep step w') s later)
      ]

  -- On a monotonic clock and with a positive step, the mode slow ends: after at most as many checks
  -- as there are microseconds to the deadline, and one, it raises the timeout, which run_job reports
  -- as a retryable JOB_TIMEOUT.
  pub slow_times_out :
      (fuel step : ℕ) (deadline : Deadline) (w : World)
      → 1 ≤ step
      → deadline.expires_at ≤ (ports.clock w).0 + fuel
      → (w' : World) × (e : Failure) × (process ports (suc fuel) Mode.slow step deadline w
          ≡ some (err e, w'))
        × (classify e ≡ Outcome.failed true Reason.job_timeout (some (str "job deadline passed")))
  unfolding process classify
  slow_times_out fuel step deadline w s h =
      let (w', e) = slow_loop_ends fuel step deadline w s h in (w', timeout, e, refl)
