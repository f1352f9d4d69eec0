-- ===== src/Consumer/Evidence/Entry.antt =====
-- One entry, from its fields to the acknowledgement, keeps the consumer's invariant.
use rag_poc.Prelude.{
  ℕ, zero, suc, Text, ◌≡◌, inl, inr, Bool, true, false, Option, none, some, List, [], ◌∷◌, In,
  All-In, if◌then◌else◌, Option-cases,
}
use rag_poc.Value.{Fields}
use rag_poc.Failure.{Failure, is_redis}
use rag_poc.Exec.{Exec, pure, raise}
use rag_poc.Exec.Triple.{Triple-catch, Triple-if, Triple-raise}
use rag_poc.Event.Inbound.{IngestEvent}
use rag_poc.Event.Outbound.{StatusEvent}
use rag_poc.Consumer.{Env, Settings, State, Act, Source, delivered, tried, published, acked}
use rag_poc.Consumer.Entry.{
  decode, ignore_redis, ack, parse_entry, try_publish, may_retry, publish_attempts, publish, finish,
}
use rag_poc.Consumer.Evidence.{Evidence, Reports, Known, Learns, Keeps}
use rag_poc.Consumer.Evidence.Rules.{
  consumer_rules, Keeps-note, Keeps-set_held, Keeps-call, Keeps-pure, Keeps-bind, Learns-bind,
  Learns-then, Learns-nothing, Learns-pure, step_then, note_then,
}

abbrev pub sent_fact : StatusEvent → Bool → List Act
sent_fact status b = if b then published status ∷ [] else []

module _ (env : Env) (settings : Settings) (name : Text) where
  open env use {World}

  pub ignore_redis-Keeps :
      (facts : List Act) (m : Exec (State World) (Unit {0}))
      → Keeps env settings name facts m
      → Keeps env settings name facts (ignore_redis env m)
  unfolding ignore_redis
  ignore_redis-Keeps facts m k = search consumer_rules

  pub ack-Keeps :
      (facts : List Act) (id : Text)
      → ((log : List Act)
          → Known env settings name facts log
          → Evidence env settings name (acked id) log)
      → Keeps env settings name facts (ack env id)
  unfolding ack
  ack-Keeps facts id justify =
      Learns-bind env settings name facts (λ _. acked id ∷ []) (λ _. Unit) _ _
        (Keeps-note env settings name facts (acked id) justify)
        (λ _ _. ignore_redis-Keeps (acked id ∷ facts) _ (Keeps-call env settings name _ _))

  -- The event that _parse returns is that of the fields.
  abbrev pub Decoded : Option Fields → Option IngestEvent → Type 0
  Decoded fields none = Unit
  Decoded fields (some event) = decode env fields ≡ some event

  pub parse_entry-Learns :
      (facts : List Act) (source : Source) (id : Text) (fields : Option Fields)
      → In (delivered source id fields) facts
      → Learns env settings name facts (parse_entry env id fields) (λ _. []) (Decoded fields)
  unfolding parse_entry
  parse_entry-Learns facts source id fields came = elim (Option-cases (decode env fields)) [
    | inr (event, e) ↦
        rw (e, parse_entry)
          (Learns-pure env settings name facts (λ _. []) (Decoded fields) (some event) (λ log k. k)
            e)
    | inl e ↦
        rw (e, parse_entry)
          (Learns-then env settings name facts (λ _. []) (λ _. Unit) (λ _. []) (Decoded fields) _ _
            (Learns-nothing env settings name facts _ (
              ack-Keeps facts id (λ log k. inl (record {
                source = source;
                fields = fields;
                came = All-In _ _ facts k came;
                fails = e;
              }))))
            (λ _ _.
              Learns-pure env settings name facts (λ _. []) (Decoded fields) none (λ log k. k) tt))
  ]

  -- A RedisError ends an attempt with false, and the rest is raised again.
  no_answer-Learns :
      (facts : List Act) (status : StatusEvent) (e : Failure)
      → Learns env settings name facts
          (if is_redis e then pure false else raise e)
          (sent_fact status)
          (λ _. Unit)
  no_answer-Learns facts status e =
      Triple-if (is_redis e) _ _
        (λ _.
          Learns-pure env settings name facts (sent_fact status) (λ _. Unit) false (λ log k. k) tt)
        (λ _. Triple-raise e)

  pub try_publish-Learns :
      (facts : List Act) (status : StatusEvent)
      → ((log : List Act)
          → Known env settings name facts log
          → Evidence env settings name (tried status) log)
      → Learns env settings name facts (try_publish env status) (sent_fact status) (λ _. Unit)
  unfolding try_publish
  try_publish-Learns facts status justify =
      Triple-catch _ _
        (note_then env settings name facts (sent_fact status) (λ _. Unit) (tried status) _ justify
          (step_then env settings name (tried status ∷ facts) (sent_fact status) (λ _. Unit) _ _
            (Keeps-call env settings name _ _)
            λ _.
              note_then env settings name (tried status ∷ facts) (sent_fact status) (λ _. Unit)
                (published status) _ (λ log k. k.0)
                (Learns-pure env settings name (published status ∷ tried status ∷ facts)
                  (sent_fact status) (λ _. Unit) true (λ log k. (k.0, k)) tt)))
        (no_answer-Learns facts status)

  pub may_retry-Keeps :
      (facts : List Act) (t : ℕ) → Keeps env settings name facts (may_retry env settings t)
  unfolding may_retry
  may_retry-Keeps facts t = search consumer_rules

  publish_attempts-Learns :
      (facts : List Act) (status : StatusEvent) (t left : ℕ)
      → ((log : List Act)
          → Known env settings name facts log
          → Evidence env settings name (tried status) log)
      → Learns env settings name facts
          (publish_attempts env settings status t left)
          (sent_fact status)
          (λ _. Unit)
  unfolding publish_attempts
  publish_attempts-Learns facts status t zero justify =
      Learns-pure env settings name facts (sent_fact status) (λ _. Unit) false (λ log k. k) tt
  publish_attempts-Learns facts status t (suc zero) justify =
      try_publish-Learns facts status justify
  publish_attempts-Learns facts status t (suc (suc left)) justify =
      Learns-then env settings name facts (sent_fact status) (λ _. Unit) (sent_fact status)
        (λ _. Unit) _ _ (try_publish-Learns facts status justify)
        elim [
          | true ↦ λ _.
              Learns-pure env settings name (published status ∷ facts) (sent_fact status)
                (λ _. Unit) true (λ log k. (k.0, k)) tt
          | false ↦ λ _.
              Learns-then env settings name facts (λ _. []) (λ _. Unit) (sent_fact status)
                (λ _. Unit) _ _ (Learns-nothing env settings name facts _ (may_retry-Keeps facts t))
                λ more _.
                  Triple-if more _ _
                    (λ _. publish_attempts-Learns facts status t (suc left) justify)
                    (λ _.
                      Learns-pure env settings name facts (sent_fact status) (λ _. Unit) false
                        (λ log k. k) tt)
        ]

  -- An entry is acknowledged only behind its published status; otherwise the status is held.
  pub finish-Keeps :
      (facts : List Act) (id : Text) (status : StatusEvent) (started : ℕ)
      → ((log : List Act)
          → Known env settings name facts log
          → Reports env settings name id status log)
      → Keeps env settings name facts (finish env settings id status started)
  unfolding finish publish
  finish-Keeps facts id status started reports =
      Learns-bind env settings name facts (sent_fact status) (λ _. Unit) _ _
        (publish_attempts-Learns facts status _ _ (λ log k. (id, reports log k)))
        elim [
          | true ↦ λ _.
              Keeps-bind env settings name (published status ∷ facts) _ _
                (ack-Keeps (published status ∷ facts) id
                  (λ log k. inr (status, reports log k.1, k.0)))
                (λ _. Keeps-pure env settings name _ true)
          | false ↦ λ _.
              Keeps-bind env settings name facts _ _
                (Keeps-set_held env settings name facts (some (id, status)) 0 reports)
                (λ _. Keeps-pure env settings name _ false)
        ]
