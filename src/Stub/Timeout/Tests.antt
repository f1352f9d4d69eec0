-- ===== src/Stub/Timeout/Tests.antt =====
-- A slow job of services/rag-service/src/rag/ingest/stub.py on a concrete clock.
use rag_poc.Prelude.{ℕ, ◌+◌, str, ◌≡◌, some, true, arith, err}
use rag_poc.Event.{Reason}
use rag_poc.Failure.{Failure}
use rag_poc.Job.{Outcome, classify}
use rag_poc.Deadline.{Deadline}
use rag_poc.Stub.{Ports, Mode, process}
use rag_poc.Stub.Timeout.{Ticks, slow_times_out}

-- The world is the time.
abbrev counting : Ports
counting = record {
  World = ℕ;
  clock = λ w. (w, w);
  sleep = λ d w. w + d;
  exit = λ w. w;
  wait = λ w. w;
}

counting-Ticks : Ticks counting
counting-Ticks = record { reading = λ w. omega arith; sleeping = λ d w. omega arith }

abbrev soon : Deadline
soon = record { expires_at = 9 }

slow_times_out_example :
    (w : ℕ) × (e : Failure) × (process counting 6 Mode.slow 2 soon 4 ≡ some (err e, w))
    × (classify e ≡ Outcome.failed true Reason.job_timeout (some (str "job deadline passed")))
slow_times_out_example =
    slow_times_out counting counting-Ticks 5 2 soon 4 (omega arith) (omega arith)
