-- ===== src/Job.antt =====
-- services/rag-service/src/rag/ingest/outcome.py and ingest/errors.py: what one attempt ends in, and
-- the one place that classifies a failure.
use rag_poc.Prelude.{ℕ, Text, str, Bool, true, false, Option, some}
use rag_poc.Event.{Reason, internal}
use rag_poc.Failure.{
  Failure, permanent_error, transient_error, ingest_error, redis_error, dependency_unavailable,
  invalid_event, invalid_query, query_unavailable, other_error,
}
use rag_poc.Exec.{Exec, pure, catch}

pub data Outcome : Type 0 where
  indexed : Option ℕ → Outcome
  failed : Bool → Reason → Option Text → Outcome

-- type(exc).__name__, which the last handler of run_job reports
abbrev pub type_name : Failure → Text
type_name (redis_error k n) = n
type_name (permanent_error r d) = str "PermanentError"
type_name (transient_error r d) = str "TransientError"
type_name (ingest_error r d) = str "IngestError"
type_name (dependency_unavailable s) = str "DependencyUnavailable"
type_name (invalid_event e) = str "InvalidEventError"
type_name (invalid_query t) = str "InvalidQuery"
type_name (query_unavailable t) = str "QueryUnavailable"
type_name (other_error n) = n

-- the except clauses of run_job, in order
unfoldable pub classify : Failure → Outcome
classify (permanent_error reason detail) = failed false reason detail
classify (transient_error reason detail) = failed true reason detail
classify (ingest_error reason detail) = failed true reason detail
classify e = failed true internal (some (type_name e))

module _ {S : Type 0} where
  unfoldable pub run_job : Exec S Outcome → Exec S Outcome
  unfolding classify
  run_job process = catch process (λ e. pure (classify e))
