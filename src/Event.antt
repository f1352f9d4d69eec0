-- ===== src/Event.antt =====
-- services/rag-service/src/rag/transport/status_event.py: the two stream events, their errors and
-- the enumerations.
pub mod Inbound
pub mod Outbound
mod Tests
use rag_poc.Prelude.{
  ℕ, ◌-◌, ◌^◌, Text, str, Option, none, some, text_eq, leb, if◌then◌else◌, Result, ok, err,
}
use rag_poc.Value.{Value, int, pos}

abbrev pub schema_version : ℕ
schema_version = 1

abbrev pub max_integer : ℕ
max_integer = 2 ^ 31 - 1

abbrev pub max_detail_length : ℕ
max_detail_length = 500

-- InvalidEventError, with its message's field and complaint
pub data InvalidEvent : Type 0 where
  not_json not_object : InvalidEvent
  required : Text → InvalidEvent
  empty_text : Text → InvalidEvent
  not_unicode : Text → InvalidEvent
  bad_version bad_size bad_attempts : InvalidEvent
  bad_created_at not_a_date : InvalidEvent
  unknown_status unknown_reason : InvalidEvent
  not_aware not_utc : InvalidEvent
  bad_retryable bad_detail bad_chunk_count : InvalidEvent
  retryable_required reason_required : InvalidEvent

pub data Status : Type 0 where
  indexed failed : Status

pub data Reason : Type 0 where
  unsupported_type empty_text corrupt_file dependency_unavailable job_timeout poison_message
        internal :
      Reason

abbrev pub status_value : Status → Text
status_value indexed = str "INDEXED"
status_value failed = str "FAILED"

abbrev pub reason_value : Reason → Text
reason_value Reason.unsupported_type = str "UNSUPPORTED_TYPE"
reason_value Reason.empty_text = str "EMPTY_TEXT"
reason_value Reason.corrupt_file = str "CORRUPT_FILE"
reason_value Reason.dependency_unavailable = str "DEPENDENCY_UNAVAILABLE"
reason_value Reason.job_timeout = str "JOB_TIMEOUT"
reason_value Reason.poison_message = str "POISON_MESSAGE"
reason_value Reason.internal = str "INTERNAL"

-- Status(value)
unfoldable pub status_of : Text → Option Status
status_of t =
    if text_eq t (str "INDEXED")
    then some indexed
    else if text_eq t (str "FAILED")
    then some failed
    else none

-- Reason(value)
unfoldable pub reason_of : Text → Option Reason
reason_of t =
    if text_eq t (str "UNSUPPORTED_TYPE")
    then some Reason.unsupported_type
    else if text_eq t (str "EMPTY_TEXT")
    then some Reason.empty_text
    else if text_eq t (str "CORRUPT_FILE")
    then some Reason.corrupt_file
    else if text_eq t (str "DEPENDENCY_UNAVAILABLE")
    then some Reason.dependency_unavailable
    else if text_eq t (str "JOB_TIMEOUT")
    then some Reason.job_timeout
    else if text_eq t (str "POISON_MESSAGE")
    then some Reason.poison_message
    else if text_eq t (str "INTERNAL")
    then some Reason.internal
    else none

-- `_is_int(value) and 0 <= value <= MAX_INTEGER`: the number, if it is one in range. A bool is
-- another constructor.
unfoldable pub in_range : Value → Option ℕ
in_range (int (pos n)) = if leb n max_integer then some n else none
in_range _ = none

-- `raise e` where there is no value
abbrev pub or_fail {ℓ} : {A : Type ℓ} → Option A → InvalidEvent → Result InvalidEvent A
or_fail none e = err e
or_fail (some a) e = ok a

-- _check_attempts
unfoldable pub check_attempts : Value → Result InvalidEvent ℕ
unfolding in_range
check_attempts v = or_fail (in_range v) bad_attempts
