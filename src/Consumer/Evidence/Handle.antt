-- ===== src/Consumer/Evidence/Handle.antt =====
-- Running one entry's job, reporting poison and retrying the held status keep the consumer's
-- invariant.
use rag_poc.Prelude.{
  ℕ, Text, ◌≡◌, refl, inl, inr, true, false, Option, none, some, List, [], ◌∷◌, In, Result, ok, err,
}
use rag_poc.Failure.{invalid_event}
use rag_poc.Exec.{Exec, pure, raise, ◌>>=◌}
use rag_poc.Exec.Triple.{Triple-raise, Ends, Ends-weaken}
use rag_poc.Event.{InvalidEvent, poison_message}
use rag_poc.Event.Inbound.{IngestEvent}
use rag_poc.Event.Outbound.{StatusEvent, Identity}
use rag_poc.Event.Outbound.Factories.{make_indexed-echo, make_failed-echo}
use rag_poc.Job.{Outcome, run_job}
use rag_poc.Consumer.{
  Env, Settings, State, Act, new, reclaimed, delivered, counted, ran, armed, disarmed, published,
  renewed,
}
use rag_poc.Consumer.Entry.{
  build, status_for, guarded_job, handle, renew, retry, retry_held, report_poison,
}
use rag_poc.Consumer.Evidence.{
  Good, Evidence, Reports, MayRun, IsPoison, IsEntryOf, Known, Learns, Keeps,
}
use rag_poc.Consumer.Evidence.Rules.{
  consumer_rules, Keeps-set_held, Keeps-ask, Keeps-pure, Keeps-gets, Keeps-bind, Learns-bind,
  Learns-then, Learns-nothing, Learns-pure, step_then, note_then, note_bind,
}
use rag_poc.Consumer.Evidence.Entry.{sent_fact, ack-Keeps, try_publish-Learns, finish-Keeps}
use rag_poc.Consumer.Evidence.Rules.{Good-drop}

module _ (env : Env) (settings : Settings) (name : Text) where
  open env use {World}

  -- What the factory gave, for some identity.
  abbrev Built : (Identity → Result InvalidEvent StatusEvent) → StatusEvent → Type 0
  Built make s = (i : Identity) × (make i ≡ ok s)

  built :
      (facts : List Act) (make : Identity → Result InvalidEvent StatusEvent) (i : Identity)
      (r : Result InvalidEvent StatusEvent)
      → make i ≡ r
      → Learns env settings name facts
          (elim r [ ok s ↦ pure s | err e ↦ raise (invalid_event e) ])
          (λ _. [])
          (Built make)
  built facts make i (ok s) e =
      Learns-pure env settings name facts (λ _. []) (Built make) s (λ log k. k) (i, e)
  built facts make i (err x) e = Triple-raise (invalid_event x)

  build-Learns :
      (facts : List Act) (make : Identity → Result InvalidEvent StatusEvent)
      → Learns env settings name facts (build env make) (λ _. []) (Built make)
  unfolding build
  build-Learns facts make =
      Learns-then env settings name facts (λ _. []) (λ _. Unit) (λ _. []) (Built make) _ _
        (Learns-nothing env settings name facts _ (Keeps-ask env settings name facts _))
        (λ i _. built facts make i (make i) refl)

  abbrev Echoes : IngestEvent → StatusEvent → Type 0
  Echoes event s = (s.hash ≡ event.hash) × (s.attempts ≡ event.attempts)

  Learns-weaken :
      {A : Type 0} (facts : List Act) (more : A → List Act) (F G : A → Type 0)
      (m : Exec (State World) A)
      → ((a : A) → F a → G a)
      → Learns env settings name facts m more F
      → Learns env settings name facts m more G
  Learns-weaken facts more F G m h t = record {
    at = λ s g. Ends-weaken (m s).0 (m s).1 (λ u p. p) (λ a u p. (p.0, h a p.1)) (t.at s g);
  }

  -- The status of an outcome echoes hash and attempts of the event.
  pub status_for-Learns :
      (facts : List Act) (event : IngestEvent) (outcome : Outcome)
      → Learns env settings name facts (status_for env event outcome) (λ _. []) (Echoes event)
  unfolding status_for
  status_for-Learns facts event (Outcome.indexed chunk_count) =
      Learns-weaken facts (λ _. []) (Built _) (Echoes event) _
        (λ s b. make_indexed-echo event.hash event.attempts b.0 s chunk_count b.1)
        (build-Learns facts _)
  status_for-Learns facts event (Outcome.failed retryable reason detail) =
      Learns-weaken facts (λ _. []) (Built _) (Echoes event) _
        (λ s b.
          let (h, a, _, _) =
            make_failed-echo event.hash event.attempts b.0 s retryable reason detail b.1 in
          (h, a))
        (build-Learns facts _)

  IsEntryOf-run :
      {id : Text} {event : IngestEvent} {log : List Act}
      → MayRun env settings name id event log
      → IsEntryOf env settings name id event log
  IsEntryOf-run m = elim m.came [
    | inl c ↦ record { source = new; fields = m.fields; came = c; decodes = m.decodes }
    | inr (c, p) ↦ record { source = reclaimed; fields = m.fields; came = c; decodes = m.decodes }
  ]

  guarded_job-Learns :
      (facts : List Act) (id : Text) (event : IngestEvent) (now : ℕ)
      → ((log : List Act)
          → Known env settings name facts log
          → MayRun env settings name id event log)
      → Learns env settings name facts
          (guarded_job env settings event now)
          (λ _. ran event ∷ [])
          (λ _. Unit)
  unfolding guarded_job run_job
  guarded_job-Learns facts id event now may_run =
      note_then env settings name facts (λ _. ran event ∷ []) (λ _. Unit) armed _ (λ log k. tt)
        (step_then env settings name (armed ∷ facts) (λ _. ran event ∷ []) (λ _. Unit) _ _
          (Keeps-ask env settings name _ _)
          λ _.
            note_then env settings name (armed ∷ facts) (λ _. ran event ∷ []) (λ _. Unit)
              (ran event) _ (λ log k. (id, may_run log k.1))
              (step_then env settings name (ran event ∷ armed ∷ facts) (λ _. ran event ∷ [])
                (λ _. Unit) _ _ (search (consumer_rules))
                λ outcome.
                  note_then env settings name (ran event ∷ armed ∷ facts) (λ _. ran event ∷ [])
                    (λ _. Unit) disarmed _ (λ log k. tt)
                    (step_then env settings name (disarmed ∷ ran event ∷ armed ∷ facts)
                      (λ _. ran event ∷ []) (λ _. Unit) _ _ (Keeps-ask env settings name _ _)
                      λ _.
                        Learns-pure env settings name (disarmed ∷ ran event ∷ armed ∷ facts)
                          (λ _. ran event ∷ []) (λ _. Unit) outcome (λ log k. (k.1.0, k)) tt)))

  pub handle-Keeps :
      (facts : List Act) (id : Text) (event : IngestEvent)
      → ((log : List Act)
          → Known env settings name facts log
          → MayRun env settings name id event log)
      → Keeps env settings name facts (handle env settings id event)
  unfolding handle
  handle-Keeps facts id event may_run =
      Keeps-bind env settings name facts _ _ (Keeps-ask env settings name facts _) λ started.
        Keeps-bind env settings name facts _ _ (Keeps-ask env settings name facts _) λ now.
          Learns-bind env settings name facts (λ _. ran event ∷ []) (λ _. Unit) _ _
            (guarded_job-Learns facts id event now may_run)
            λ outcome _.
              Learns-bind env settings name (ran event ∷ facts) (λ _. []) (Echoes event) _ _
                (status_for-Learns (ran event ∷ facts) event outcome)
                λ status echo.
                  finish-Keeps env settings name (ran event ∷ facts) id status started (λ log k.
                    record {
                      event = event;
                      entry = IsEntryOf-run (may_run log k.1);
                      hash = echo.0;
                      attempts = echo.1;
                      cause = inl k.0;
                    })

  pub report_poison-Keeps :
      (facts : List Act) (id : Text) (event : IngestEvent) (deliveries : ℕ)
      → ((log : List Act)
          → Known env settings name facts log
          → IsEntryOf env settings name id event log × IsPoison env settings name id log)
      → Keeps env settings name facts (report_poison env settings id event deliveries)
  unfolding report_poison
  report_poison-Keeps facts id event deliveries poison =
      Learns-bind env settings name facts (λ _. []) (Built _) _ _ (build-Learns facts _)
        λ status b.
          Keeps-bind env settings name facts _ _ (Keeps-ask env settings name facts _) λ started.
            finish-Keeps env settings name facts id status started (λ log k.
              let (h, a, r, f) =
                make_failed-echo event.hash event.attempts b.0 status false poison_message _ b.1 in
              record {
                event = event;
                entry = (poison log k).0;
                hash = h;
                attempts = a;
                cause = inr ((poison log k).1, r, f);
              })

  renew-Keeps :
      (facts : List Act) (id : Text)
      → ((log : List Act)
          → Known env settings name facts log
          → Evidence env settings name (renewed id) log)
      → Keeps env settings name facts (renew env settings id)
  unfolding renew
  renew-Keeps facts id justify =
      note_bind env settings name facts (renewed id) _ justify (search (consumer_rules))

  retry-Keeps :
      (facts : List Act) (id : Text) (status : StatusEvent)
      → ((log : List Act)
          → Known env settings name facts log
          → Reports env settings name id status log)
      → Keeps env settings name facts (retry env settings id status)
  unfolding retry
  retry-Keeps facts id status reports =
      Keeps-bind env settings name facts _ _
        (renew-Keeps facts id (λ log k. (status, reports log k)))
        λ _.
          Learns-bind env settings name facts (sent_fact status) (λ _. Unit) _ _
            (try_publish-Learns env settings name facts status (λ log k. (id, reports log k)))
            elim [
              | true ↦ λ _.
                  Keeps-bind env settings name _ _ _
                    (Keeps-set_held env settings name (published status ∷ facts) none 0
                      (λ log k. tt))
                    λ _.
                      Keeps-bind env settings name _ _ _
                        (ack-Keeps env settings name (published status ∷ facts) id
                          (λ log k. inr (status, reports log k.1, k.0)))
                        (λ _. Keeps-pure env settings name _ true)
              | false ↦ λ _.
                  Keeps-bind env settings name facts _ _ (Keeps-gets env settings name facts _)
                    λ failures.
                      Keeps-bind env settings name facts _ _
                        (Keeps-set_held env settings name facts (some (id, status)) _ reports)
                        (λ _. Keeps-pure env settings name _ false)
            ]

  -- What a status that may be published rests on, as acts of the log.
  retry-Ends :
      (facts : List Act) (id : Text) (status : StatusEvent) (s : State World)
      → Good env settings name facts s
      → Reports env settings name id status s.log
      → Ends
          (Good env settings name facts)
          (λ b. Good env settings name facts)
          (retry env settings id status s).0
          (retry env settings id status s).1
  retry-Ends facts id status s g r = elim r.cause [
    | inl ran_it ↦
        Ends-weaken (retry env settings id status s).0 (retry env settings id status s).1
          (Good-drop env settings name (came ∷ ran r.event ∷ []) facts)
          (λ b. Good-drop env settings name (came ∷ ran r.event ∷ []) facts)
          ((retry-Keeps (came ∷ ran r.event ∷ facts) id status (λ log k. record {
            event = r.event;
            entry = entry log k.0;
            hash = r.hash;
            attempts = r.attempts;
            cause = inl k.1.0;
          })).at
            s
            (record {
              justified = g.justified;
              held_reports = g.held_reports;
              known = (r.entry.came, (ran_it, g.known));
            }))
    | inr (p, reason, retryable) ↦
        Ends-weaken (retry env settings id status s).0 (retry env settings id status s).1
          (Good-drop env settings name (came ∷ counted id p.deliveries name ∷ []) facts)
          (λ b. Good-drop env settings name (came ∷ counted id p.deliveries name ∷ []) facts)
          ((retry-Keeps (came ∷ counted id p.deliveries name ∷ facts) id status (λ log k. record {
            event = r.event;
            entry = entry log k.0;
            hash = r.hash;
            attempts = r.attempts;
            cause = inr (
              record { deliveries = p.deliveries; count = k.1.0; over = p.over },
              reason,
              retryable,
            );
          })).at
            s
            (record {
              justified = g.justified;
              held_reports = g.held_reports;
              known = (r.entry.came, (p.count, g.known));
            }))
  ]
    where
      came : Act
      came = delivered r.entry.source id r.entry.fields

      entry : (log : List Act) → In came log → IsEntryOf env settings name id r.event log
      entry log c = record {
        source = r.entry.source;
        fields = r.entry.fields;
        came = c;
        decodes = r.entry.decodes;
      }

  abbrev state : World → Option (Text × StatusEvent) → ℕ → List Act → State World
  state w held failures log = record { world = w; held = held; held_failures = failures; log = log }

  held_turn :
      (facts : List Act) (w : World) (held : Option (Text × StatusEvent)) (n : ℕ) (log : List Act)
      → Good env settings name facts (state w held n log)
      → Ends
          (Good env settings name facts)
          (λ b. Good env settings name facts)
          (retry_held env settings (state w held n log)).0
          (retry_held env settings (state w held n log)).1
  unfolding retry_held ◌>>=◌
  held_turn facts w none n log g = g
  held_turn facts w (some (id, status)) n log g = retry-Ends facts id status _ g g.held_reports

  -- The held status is one that the consumer may publish, so a retry keeps the invariant.
  pub retry_held-Keeps :
      (facts : List Act) → Keeps env settings name facts (retry_held env settings)
  retry_held-Keeps facts = record {
    at = λ s g. held_turn facts s.world s.held s.held_failures s.log g;
  }
