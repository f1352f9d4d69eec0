-- ===== src/Failure.antt =====
-- The exceptions that services/rag-service/src/rag raises and catches, as one data type.
use rag_poc.Prelude.{Text, Bool, true, false, Option}
use rag_poc.Event.{Reason, InvalidEvent}

-- What the program reads off an error of the Redis client: whether it is a reply that names an
-- existing group (BUSYGROUP) or a missing one (NOGROUP).
pub data RedisKind : Type 0 where
  connection busy_group no_group : RedisKind

pub data Failure : Type 0 where
  -- a RedisError, with its type's name
  redis_error : RedisKind → Text → Failure
  permanent_error : Reason → Option Text → Failure
  transient_error : Reason → Option Text → Failure
  ingest_error : Reason → Option Text → Failure
  -- with str(exc)
  dependency_unavailable : Text → Failure
  invalid_event : InvalidEvent → Failure
  invalid_query : Text → Failure
  query_unavailable : Text → Failure
  -- any other subclass of Exception, with its type's name
  other_error : Text → Failure

-- isinstance(exc, RedisError)
abbrev pub is_redis : Failure → Bool
is_redis (redis_error k n) = true
is_redis _ = false

-- _is_no_group
abbrev pub is_no_group : Failure → Bool
is_no_group (redis_error no_group n) = true
is_no_group _ = false

-- isinstance(exc, ResponseError) and "BUSYGROUP" in str(exc)
abbrev pub is_busy_group : Failure → Bool
is_busy_group (redis_error busy_group n) = true
is_busy_group _ = false
