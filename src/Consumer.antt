-- ===== src/Consumer.antt =====
-- services/rag-service/src/rag/transport/stream_consumer.py: the settings, the state and the calls
-- of StreamConsumer. Redis, the clock, the processor and the watchdog are the parameter `Env`. Times
-- are in microseconds.
pub mod Entry
pub mod Recovery
pub mod Loop
pub mod Survival
pub mod Holding
pub mod Publishing
pub mod Evidence
mod Scripted
use rag_poc.Prelude.{ℕ, ◌/◌, Text, Bool, Option, none, some, List, [], ◌∷◌}
use rag_poc.Value.{Value, Fields, Moment}
use rag_poc.Exec.{Exec, pure, ◌>>=◌, ◌>>◌, modify}
use rag_poc.Event.Inbound.{IngestEvent}
use rag_poc.Event.Outbound.{StatusEvent, Identity}
use rag_poc.Job.{Outcome}
use rag_poc.Deadline.{Deadline}
use rag_poc.Publisher.{Publisher, Wire}

-- ConsumerSettings, less the names of the stream and of the group, which every call carries.
pub record Settings : Type 0 where
  pub min_idle : ℕ
  pub recovery_interval : ℕ
  pub poison_threshold : ℕ
  pub cleanup_idle : ℕ
  pub job_timeout : ℕ
  pub read_block : ℕ
  pub retry_delay : ℕ
  pub publish_attempts : ℕ
  pub call_timeout : ℕ
  pub max_recovery_jobs : ℕ

-- _ms: int(delta.total_seconds() * 1000)
unfoldable pub ms : ℕ → ℕ
ms delta = delta / 1000

-- An entry's id and its fields; XAUTOCLAIM gives no fields for an entry that is gone.
abbrev pub RawEntry : Type 0
RawEntry = Text × Option Fields

-- One reply of XAUTOCLAIM. Its list of deleted ids is only logged.
pub record ClaimPage : Type 0 where
  pub next_cursor : Text
  pub entries : List RawEntry

-- One row of XINFO CONSUMERS; idle is in milliseconds.
pub record ConsumerInfo : Type 0 where
  pub name : Text
  pub pending : ℕ
  pub idle : ℕ

-- Everything outside the consumer. Each call may raise anything; the clock, the sleep (true when
-- the full wait happened), the stop event and the identity of a new status event do not raise.
pub record Env : Type 1 where
  pub World : Type 0
  pub clock : World → ℕ × World
  pub sleep : ℕ → World → Bool × World
  pub stopped : World → Bool × World
  pub identity : World → Identity × World
  pub arm : World → World
  pub disarm : World → World
  pub process : IngestEvent → Deadline → Exec World Outcome
  pub xgroup_create : Exec World (Unit {0})
  pub xreadgroup : ℕ → Exec World (List (Text × List RawEntry))
  pub xautoclaim : ℕ → Text → Exec World ClaimPage
  pub xpending_range : Text → Exec World (List (ℕ × Text))
  pub xinfo_consumers : Exec World (List ConsumerInfo)
  pub xgroup_delconsumer : Text → Exec World (Unit {0})
  pub xack : Text → Exec World (Unit {0})
  pub xclaim : Text → Exec World (Unit {0})
  pub publisher : Publisher
  pub wire : Wire World
  pub loads : Value → Option Value
  pub from_iso : Text → Option Moment

pub data Source : Type 0 where
  new reclaimed : Source

-- What the consumer did or learned, for the statements about it: the program keeps no such record.
pub data Act : Type 0 where
  -- an entry came by XREADGROUP or by XAUTOCLAIM
  delivered : Source → Text → Option Fields → Act
  -- XPENDING gave an entry's number of deliveries and its owner
  counted : Text → ℕ → Text → Act
  -- the processor was called, and the watchdog armed and disarmed
  ran : IngestEvent → Act
  armed disarmed : Act
  -- an XADD of a status event began, and one succeeded
  tried : StatusEvent → Act
  published : StatusEvent → Act
  -- an XACK and an XCLAIM began
  acked : Text → Act
  renewed : Text → Act
  -- XINFO CONSUMERS listed a consumer, and an XGROUP DELCONSUMER began
  listed : ConsumerInfo → Act
  deleted : Text → Act

-- The fields of StreamConsumer that change, the world, and the acts so far, the latest first.
pub record State (W : Type 0) : Type 0 where
  pub world : W
  pub held : Option (Text × StatusEvent)
  pub held_failures : ℕ
  pub log : List Act

module _ {W : Type 0} where
  unfoldable pub note : Act → Exec (State W) (Unit {0})
  unfolding modify
  note a = modify (λ s. record s { log = a ∷ s.log })

  unfoldable pub set_held : Option (Text × StatusEvent) → ℕ → Exec (State W) (Unit {0})
  unfolding modify
  set_held h n = modify (λ s. record s { held = h; held_failures = n })

  -- A call of the environment changes the world only.
  unfoldable pub call : {A : Type 0} → Exec W A → Exec (State W) A
  call m s = let (r, w) = m s.world in (r, record s { world = w })

  unfoldable pub ask : {A : Type 0} → (W → A × W) → Exec (State W) A
  unfolding pure
  ask f s = let (a, w) = f s.world in pure a (record s { world = w })
