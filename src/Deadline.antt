-- ===== src/Deadline.antt =====
-- The Deadline of services/rag-service/src/rag/transport/watchdog.py. Times are in microseconds, and
-- a reading of the clock is an argument.
use rag_poc.Prelude.{ℕ, ◌+◌, ◌-◌, str, Bool, some, leb, if◌then◌else◌}
use rag_poc.Event.{Reason}
use rag_poc.Failure.{transient_error}
use rag_poc.Exec.{Exec, pure, raise}

pub record Deadline : Type 0 where
  pub expires_at : ℕ

-- Deadline.after
unfoldable pub after : ℕ → ℕ → Deadline
after now duration = record { expires_at = now + duration }

-- max(0.0, expires_at - now): subtraction on ℕ stops at 0
unfoldable pub remaining : Deadline → ℕ → ℕ
remaining d now = d.expires_at - now

unfoldable pub expired : Deadline → ℕ → Bool
expired d now = leb d.expires_at now

unfoldable pub check : {S : Type 0} → Deadline → ℕ → Exec S (Unit {0})
unfolding expired
check d now =
    if expired d now
    then raise (transient_error Reason.job_timeout (some (str "job deadline passed")))
    else pure tt
