-- ===== src/Consumer/Scripted.antt =====
-- A scripted environment for StreamConsumer: the replies that are still to come, as data. It shows
-- that the statements about the consumer apply to runs that read, claim, publish and delete.
pub mod Runs
use rag_poc.Prelude.{
  ℕ, zero, suc, ◌+◌, Text, str, Bool, true, false, Option, none, some, List, [], ◌∷◌, text_eq,
  if◌then◌else◌, ok, err,
}
use rag_poc.Value.{Value, int, text, object, Fields, field, end, pos, utc}
use rag_poc.Failure.{redis_error, connection}
use rag_poc.Exec.{Exec}
use rag_poc.Event.{Status}
use rag_poc.Event.Outbound.{Identity, StatusEvent}
use rag_poc.Event.Inbound.{IngestEvent}
use rag_poc.Job.{Outcome}
use rag_poc.Publisher.{Wire}
use rag_poc.Consumer.{Env, Settings, RawEntry, ClaimPage, ConsumerInfo}

pub record Script : Type 0 where
  pub time : ℕ
  -- turns before the stop event
  pub turns_left : ℕ
  pub inbox : List RawEntry
  pub pending : List RawEntry
  pub deliveries : ℕ
  pub consumers : List ConsumerInfo
  -- how many times XADD is refused
  pub refusals : ℕ

abbrev document : Value
document = object (
    field (str "schema_version") (int (pos 1)) (
      field (str "size") (int (pos 5)) (
        field (str "id") (text (str "i")) (
          field (str "hash") (text (str "h")) (
            field (str "filename") (text (str "a.txt")) (
              field (str "bucket_path") (text (str "p")) (
                field (str "attempts") (int (pos 2))
                  (field (str "created_at") (text (str "2026-01-02T03:04:05Z")) end))))))))

abbrev pub good_fields : Option Fields
good_fields = some (
    field (str "event_type") (text (str "IngestionRequest"))
      (field (str "payload") (text (str "good")) end))

abbrev pub event : IngestEvent
event = record {
  id = str "i";
  hash = str "h";
  filename = str "a.txt";
  bucket_path = str "p";
  size = 5;
  attempts = 2;
  created_at = utc 0;
  schema_version = 1;
}

abbrev loads_script : Value → Option Value
loads_script (text t) = if text_eq t (str "good") then some document else none
loads_script _ = none

abbrev stop_script : Script → Bool × Script
stop_script s = elim s.turns_left [
  | zero ↦ (true, s)
  | suc n ↦ (false, record s { turns_left = n })
]

abbrev read_script : ℕ → Exec Script (List (Text × List RawEntry))
read_script block s = elim s.inbox [
  | [] ↦ (ok [], s)
  | e ∷ rest ↦ (ok ((str "docs", e ∷ []) ∷ []), record s { inbox = rest })
]

abbrev claim_script : ℕ → Text → Exec Script ClaimPage
claim_script idle cursor s = elim s.pending [
  | [] ↦ (ok (record { next_cursor = str "0-0"; entries = [] }), s)
  | e ∷ rest ↦
      (ok (record { next_cursor = str "0-0"; entries = e ∷ [] }), record s { pending = rest })
]

abbrev xadd_script : Text → List (Text × Text) → ℕ → Exec Script Text
xadd_script stream fields maxlen s = elim s.refusals [
  | zero ↦ (ok (str "1-0"), s)
  | suc n ↦ (err (redis_error connection (str "ConnectionError")), record s { refusals = n })
]

abbrev pub scripted : Env
scripted = record {
  World = Script;
  clock = λ s. (s.time, record s { time = s.time + 1 });
  sleep = λ d s. (true, record s { time = s.time + d });
  stopped = stop_script;
  identity = λ s. (record { id = str "u"; now = 0 }, s);
  arm = λ s. s;
  disarm = λ s. s;
  process = λ e d s. (ok (Outcome.indexed (some 3)), s);
  xgroup_create = λ s. (ok tt, s);
  xreadgroup = read_script;
  xautoclaim = claim_script;
  xpending_range = λ id s. (ok ((s.deliveries, str "me") ∷ []), s);
  xinfo_consumers = λ s. (ok s.consumers, s);
  xgroup_delconsumer = λ n s. (ok tt, s);
  xack = λ id s. (ok tt, s);
  xclaim = λ id s. (ok tt, s);
  publisher = record { stream = str "status"; maxlen = 10 };
  wire = record { format_timestamp = λ t. str "t"; dumps = λ d. str "{}"; xadd = xadd_script };
  loads = loads_script;
  from_iso = λ t. some (utc 0);
}

-- Times in microseconds: one second of delay, ten seconds of min_idle.
abbrev pub settings : Settings
settings = record {
  min_idle = 10000000;
  recovery_interval = 60000000;
  poison_threshold = 3;
  cleanup_idle = 1000000;
  job_timeout = 5000000;
  read_block = 2000000;
  retry_delay = 1000000;
  publish_attempts = 3;
  call_timeout = 1000000;
  max_recovery_jobs = 10;
}

abbrev pub me : Text
me = str "me"

-- One new entry and then the stop.
abbrev pub one_new : Script
one_new = record {
  time = 0;
  turns_left = 3;
  inbox = (str "7-0", good_fields) ∷ [];
  pending = [];
  deliveries = 1;
  consumers = [];
  refusals = 0;
}

abbrev pub gone : ConsumerInfo
gone = record { name = str "gone"; pending = 0; idle = 2000 }

-- A consumer that is gone, idle for two seconds, and nothing to read.
abbrev pub idle_other : Script
idle_other = record {
  time = 0;
  turns_left = 2;
  inbox = [];
  pending = [];
  deliveries = 1;
  consumers = gone ∷ [];
  refusals = 0;
}

-- The status that the scripted job ends in.
abbrev pub report : StatusEvent
report = record {
  hash = str "h";
  status = Status.indexed;
  attempts = 2;
  retryable = none;
  reason = none;
  detail = none;
  chunk_count = some 3;
  id = str "u";
  created_at = 0;
}
