-- ===== src/Consumer/Evidence.antt =====
-- What justifies each act of the consumer of
-- services/rag-service/src/rag/transport/stream_consumer.py, said on the acts before it.
pub mod Rules
pub mod Entry
pub mod Handle
pub mod Claimed
pub mod Recovery
pub mod Loop
use rag_poc.Prelude.{
  ℕ, ◌≤◌, ◌<◌, Text, ◌≡◌, ◌≢◌, ◌⊎◌, inl, inr, false, Option, none, some, List, [], ◌∷◌, ◌++◌, In,
  All, All-map,
}
use rag_poc.Value.{Fields}
use rag_poc.Exec.{Exec}
use rag_poc.Exec.Triple.{Triple}
use rag_poc.Event.{poison_message}
use rag_poc.Event.Inbound.{IngestEvent}
use rag_poc.Event.Outbound.{StatusEvent}
use rag_poc.Consumer.{
  Env, Settings, State, Act, Source, new, reclaimed, ConsumerInfo, delivered, counted, ran, armed,
  disarmed, tried, published, acked, renewed, listed, deleted, ms,
}
use rag_poc.Consumer.Entry.{decode}

module _ (env : Env) (settings : Settings) (name : Text) where
  open env use {World}

  -- The entry was delivered, and its fields are those of the event.
  pub record IsEntryOf (id : Text) (event : IngestEvent) (log : List Act) : Type 0 where
    pub source : Source
    pub fields : Option Fields
    pub came : In (delivered source id fields) log
    pub decodes : decode env fields ≡ some event

  -- The entry was read as new, or it was claimed, still pending under this consumer, and delivered
  -- at most `poison_threshold` times.
  pub record MayRun (id : Text) (event : IngestEvent) (log : List Act) : Type 0 where
    pub fields : Option Fields
    pub decodes : decode env fields ≡ some event
    pub came :
        In (delivered new id fields) log
        ⊎ (In (delivered reclaimed id fields) log
            × ((n : ℕ) × In (counted id n name) log × (n ≤ settings.poison_threshold)))

  -- The entry was found pending under this consumer, delivered more than `poison_threshold` times.
  pub record IsPoison (id : Text) (log : List Act) : Type 0 where
    pub deliveries : ℕ
    pub count : In (counted id deliveries name) log
    pub over : settings.poison_threshold < deliveries

  -- The status reports the event of a delivered entry: it echoes hash and attempts, and either the
  -- job ran or the entry is poison and the status says so.
  pub record Reports (id : Text) (status : StatusEvent) (log : List Act) : Type 0 where
    pub event : IngestEvent
    pub entry : IsEntryOf id event log
    pub hash : status.hash ≡ event.hash
    pub attempts : status.attempts ≡ event.attempts
    pub cause :
        In (ran event) log
        ⊎ (IsPoison id log
            × (status.reason ≡ some poison_message)
            × (status.retryable ≡ some false))

  -- The entry can never be processed.
  pub record IsHopeless (id : Text) (log : List Act) : Type 0 where
    pub source : Source
    pub fields : Option Fields
    pub came : In (delivered source id fields) log
    pub fails : decode env fields ≡ none

  -- What must have happened before an act.
  abbrev pub Evidence : Act → List Act → Type 0
  Evidence (ran event) log = (id : Text) × MayRun id event log
  Evidence (tried status) log = (id : Text) × Reports id status log
  Evidence (published status) log = In (tried status) log
  Evidence (acked id) log =
      IsHopeless id log
      ⊎ ((status : StatusEvent) × Reports id status log × In (published status) log)
  Evidence (renewed id) log = (status : StatusEvent) × Reports id status log
  Evidence (deleted consumer) log =
      (c : ConsumerInfo) × In (listed c) log
      × (c.name ≡ consumer)
      × (consumer ≢ name)
      × (c.pending ≡ 0)
      × (ms settings.cleanup_idle < c.idle)
  Evidence _ log = Unit

  -- Every act of the log is justified by the acts before it.
  abbrev pub IsJustified : List Act → Type 0
  IsJustified [] = Unit
  IsJustified (a ∷ log) = Evidence a log × IsJustified log

  -- A held status is one that the consumer may publish, for the entry it is held with.
  abbrev pub HeldReports : Option (Text × StatusEvent) → List Act → Type 0
  HeldReports none log = Unit
  HeldReports (some (id, status)) log = Reports id status log

  abbrev pub Known : List Act → List Act → Type 0
  Known facts log = All (λ a. In a log) facts

  -- The invariant, with facts that are known of the log.
  pub record Good (facts : List Act) (s : State World) : Type 0 where
    pub justified : IsJustified s.log
    pub held_reports : HeldReports s.held s.log
    pub known : Known facts s.log

  module _ (a : Act) where
    IsEntryOf-cons :
        {id : Text} {event : IngestEvent} {log : List Act}
        → IsEntryOf id event log
        → IsEntryOf id event (a ∷ log)
    IsEntryOf-cons e = record {
      source = e.source;
      fields = e.fields;
      came = inr e.came;
      decodes = e.decodes;
    }

    IsPoison-cons : {id : Text} {log : List Act} → IsPoison id log → IsPoison id (a ∷ log)
    IsPoison-cons p = record { deliveries = p.deliveries; count = inr p.count; over = p.over }

    pub Reports-cons :
        {id : Text} {status : StatusEvent} {log : List Act}
        → Reports id status log
        → Reports id status (a ∷ log)
    Reports-cons {id} {status} {log} r = record {
      event = r.event;
      entry = IsEntryOf-cons r.entry;
      hash = r.hash;
      attempts = r.attempts;
      cause = elim r.cause [ inl m ↦ inl (inr m) | inr (p, q, f) ↦ inr (IsPoison-cons p, q, f) ];
    }

    pub HeldReports-cons :
        (held : Option (Text × StatusEvent)) (log : List Act)
        → HeldReports held log
        → HeldReports held (a ∷ log)
    HeldReports-cons none log h = tt
    HeldReports-cons (some (id, status)) log h = Reports-cons h

    pub Known-cons : (facts : List Act) (log : List Act) → Known facts log → Known facts (a ∷ log)
    Known-cons facts log = All-map _ _ (λ b m. inr m) facts

  -- A program that keeps the invariant and what is known, learns `more` of the log, and returns a
  -- value with F.
  abbrev pub Learns :
      {A : Type 0} → List Act → Exec (State World) A → (A → List Act) → (A → Type 0) → Type 0
  Learns facts m more F = Triple (Good facts) m (λ a s. Good (more a ++ facts) s × F a)

  abbrev pub Keeps : {A : Type 0} → List Act → Exec (State World) A → Type 0
  Keeps facts m = Triple (Good facts) m (λ a. Good facts)
