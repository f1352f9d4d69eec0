-- ===== src/Consumer/Holding.antt =====
-- While a status is held, services/rag-service/src/rag/transport/stream_consumer.py reads nothing,
-- claims nothing and runs no job: it retries the held status.
use rag_poc.Prelude.{
  ℕ, zero, suc, Text, ◌≡◌, refl, ap, ◌∙◌, ◌⊎◌, inl, inr, Bool-cases, Bool, true, false, Option,
  none, some, List, ◌∷◌, arith, if◌then◌else◌, Result, ok, err,
}
use rag_poc.Failure.{Failure, is_redis, is_no_group}
use rag_poc.Exec.{Exec, pure, raise, gets, catch, handle, continue, ◌>>=◌, ◌>>◌}
use rag_poc.Event.Outbound.{StatusEvent}
use rag_poc.Publisher
use rag_poc.Consumer.{
  Env, Settings, State, Act, tried, published, acked, renewed, note, set_held, call, ask,
}
use rag_poc.Consumer.Entry.{ignore_redis, ack, try_publish, renew, retry, retry_held}
use rag_poc.Consumer.Loop.{
  stopped, ensure_group, try_group, until_ready, back_off, guarded, is_held, retry_turn, turn,
}

-- A value at the end of a program does not change where it stops.
then_pure : {S A B : Type 0} (m : Exec S A) (b : B) (s : S) → ((m >>= λ _. pure b) s).1 ≡ (m s).1
unfolding ◌>>=◌
then_pure {S} {A} m b s = end (m s).0 (m s).1
  where
    end : (r : Result Failure A) (t : S) → (continue r (λ _. pure b) t).1 ≡ t
    end (ok a) t = refl
    end (err e) t = refl

module _ (env : Env) (settings : Settings) where
  open env use {World}

  -- One retry, seen in the acts and in the held status: the entry was renewed and the status sent,
  -- and it is either still held, or published, acknowledged and held no more.
  pub data Retried (id : Text) (status : StatusEvent) (log : List Act) (t : State World)
      : Type 0 where
    refused :
        t.log ≡ tried status ∷ renewed id ∷ log
        → t.held ≡ some (id, status)
        → Retried id status log t
    went_through :
        t.log ≡ acked id ∷ published status ∷ tried status ∷ renewed id ∷ log
        → t.held ≡ none
        → Retried id status log t

  abbrev pub state : World → Option (Text × StatusEvent) → ℕ → List Act → State World
  state w held n log = record { world = w; held = held; held_failures = n; log = log }

  -- The state after an acknowledgement or a renewal, whatever Redis answers.
  pub ack-state :
      (id : Text) (w : World) (held : Option (Text × StatusEvent)) (n : ℕ) (log : List Act)
      → (ack env id (state w held n log)).1 ≡ state (env.xack id w).1 held n (acked id ∷ log)
  unfolding ack ignore_redis note call catch ◌>>=◌
  ack-state id w held n log = ground arith

  renew-state :
      (id : Text) (w : World) (held : Option (Text × StatusEvent)) (n : ℕ) (log : List Act)
      → renew env settings id (state w held n log)
        ≡ (ok tt, state (env.xclaim id w).1 held n (renewed id ∷ log))
  unfolding renew note call catch ◌>>=◌
  renew-state id w held n log = ground arith

  -- An XADD of the status: its reply decides.
  abbrev pub send : StatusEvent → World → Result Failure Text × World
  send status = Publisher.publish env.wire env.publisher status

  pub try_publish-ok :
      (status : StatusEvent) (w : World) (held : Option (Text × StatusEvent)) (n : ℕ)
      (log : List Act) (x : Text)
      → (send status w).0 ≡ ok x
      → try_publish env status (state w held n log)
        ≡ (ok true, state (send status w).1 held n (published status ∷ tried status ∷ log))
  unfolding try_publish note call catch ◌>>=◌
  try_publish-ok status w held n log x e = rw e

  pub try_publish-err :
      (status : StatusEvent) (w : World) (held : Option (Text × StatusEvent)) (n : ℕ)
      (log : List Act) (x : Failure)
      → (send status w).0 ≡ err x
      → try_publish env status (state w held n log) ≡ (
        if is_redis x then ok false else err x,
        state (send status w).1 held n (tried status ∷ log),
      )
  unfolding try_publish note call catch ◌>>=◌
  try_publish-err status w held n log x e = rw e (ground arith)

  retried :
      (id : Text) (status : StatusEvent) (w : World) (n : ℕ) (log : List Act)
      (r : Result Failure Text)
      → (send status (env.xclaim id w).1).0 ≡ r
      → Retried id status log (retry env settings id status (state w (some (id, status)) n log)).1
  unfolding retry ◌>>=◌ set_held
  retried id status w n log (ok x) e =
      rw (renew-state id w _ n log, try_publish-ok status _ _ n _ x e, then_pure (ack env id) true)
        (rw (ack-state id _ none 0 _) (went_through refl refl))
  retried id status w n log (err x) e = elim (Bool-cases (is_redis x)) [
    | inl r ↦
        rw (renew-state id w _ n log, try_publish-err status _ _ n _ x e, r) (refused refl refl)
    | inr r ↦
        rw (renew-state id w _ n log, try_publish-err status _ _ n _ x e, r) (refused refl refl)
  ]

  -- Code that neither acts nor changes the held status.
  record Quiet {A : Type 0} (m : Exec (State World) A) : Type 0 where
    log : (s : State World) → (m s).1.log ≡ s.log
    held : (s : State World) → (m s).1.held ≡ s.held

  Quiet-pure : {A : Type 0} (a : A) → Quiet (pure a)
  unfolding pure
  Quiet-pure a = record { log = λ s. refl; held = λ s. refl }

  Quiet-raise : {A : Type 0} (e : Failure) → Quiet (raise {A = A} e)
  unfolding raise
  Quiet-raise e = record { log = λ s. refl; held = λ s. refl }

  Quiet-call : {A : Type 0} (m : Exec World A) → Quiet (call m)
  unfolding call
  Quiet-call m = record { log = λ s. refl; held = λ s. refl }

  Quiet-ask : {A : Type 0} (f : World → A × World) → Quiet (ask f)
  unfolding ask
  Quiet-ask f = record { log = λ s. refl; held = λ s. refl }

  Quiet-gets : {A : Type 0} (f : State World → A) → Quiet (gets f)
  unfolding gets
  Quiet-gets f = record { log = λ s. refl; held = λ s. refl }

  Quiet-if :
      {A : Type 0} (b : Bool) (m n : Exec (State World) A)
      → Quiet m
      → Quiet n
      → Quiet (if b then m else n)
  Quiet-if true m n qm qn = qm
  Quiet-if false m n qm qn = qn

  continue-log :
      {A B : Type 0} (r : Result Failure A) (f : A → Exec (State World) B) (s : State World)
      → ((a : A) → Quiet (f a))
      → ((continue r f s).1.log ≡ s.log) × ((continue r f s).1.held ≡ s.held)
  continue-log (ok a) f s q = ((q a).log s, (q a).held s)
  continue-log (err e) f s q = (refl, refl)

  Quiet-bind :
      {A B : Type 0} (m : Exec (State World) A) (f : A → Exec (State World) B)
      → Quiet m
      → ((a : A) → Quiet (f a))
      → Quiet (m >>= f)
  unfolding ◌>>=◌
  Quiet-bind m f qm qf = record {
    log = λ s. (continue-log (m s).0 f (m s).1 qf).0 ∙ qm.log s;
    held = λ s. (continue-log (m s).0 f (m s).1 qf).1 ∙ qm.held s;
  }

  handle-log :
      {A : Type 0} (r : Result Failure A) (h : Failure → Exec (State World) A) (s : State World)
      → ((e : Failure) → Quiet (h e))
      → ((handle r h s).1.log ≡ s.log) × ((handle r h s).1.held ≡ s.held)
  handle-log (ok a) h s q = (refl, refl)
  handle-log (err e) h s q = ((q e).log s, (q e).held s)

  Quiet-catch :
      {A : Type 0} (m : Exec (State World) A) (h : Failure → Exec (State World) A)
      → Quiet m
      → ((e : Failure) → Quiet (h e))
      → Quiet (catch m h)
  unfolding catch
  Quiet-catch m h qm qh = record {
    log = λ s. (handle-log (m s).0 h (m s).1 qh).0 ∙ qm.log s;
    held = λ s. (handle-log (m s).0 h (m s).1 qh).1 ∙ qm.held s;
  }

  ruleset quiet_rules = (
    Quiet-pure, Quiet-raise, Quiet-call, Quiet-ask, Quiet-gets, Quiet-if, Quiet-bind, Quiet-catch,
  )

  Quiet-group_again :
      (ready : Option Bool) → Quiet (elim ready [ none ↦ pure false | some r ↦ pure true ])
  Quiet-group_again none = Quiet-pure false
  Quiet-group_again (some r) = Quiet-pure true

  Quiet-try_group : Quiet (try_group env settings)
  unfolding try_group ensure_group
  Quiet-try_group = search quiet_rules depth 12

  Quiet-until_ready : (fuel : ℕ) → Quiet (until_ready env settings fuel)
  unfolding until_ready
  Quiet-until_ready zero = Quiet-pure none
  Quiet-until_ready (suc fuel) = Quiet-bind _ _ (Quiet-ask _) λ stop.
      Quiet-if stop _ _ (Quiet-pure _) (
        Quiet-bind _ _ Quiet-try_group λ ready. Quiet-if ready _ _ (Quiet-pure _) (
          Quiet-bind _ _ (Quiet-ask _)
            λ waited. Quiet-if waited _ _ (Quiet-until_ready fuel) (Quiet-pure _)))

  Quiet-recover :
      (fuel : ℕ) (e : Failure)
      → Quiet (
          if is_no_group e
          then (do
            ready ← until_ready env settings fuel
            elim ready [ none ↦ pure false | some r ↦ pure true ])
          else back_off env settings)
  unfolding back_off
  Quiet-recover fuel e = search (quiet_rules, Quiet-until_ready, Quiet-group_again) depth 12

  -- Two states that agree in the acts and in the held status.
  record Agrees (t s : State World) : Type 0 where
    log : t.log ≡ s.log
    held : t.held ≡ s.held

  guarded-Agrees :
      (fuel : ℕ) (step : Exec (State World) (Unit {0})) (s : State World)
      → Agrees (guarded env settings fuel step s).1 (step s).1
  unfolding guarded catch
  guarded-Agrees fuel step s =
      let m : Exec (State World) Bool = (do step; pure true) in
      let same : (m s).1 ≡ (step s).1 = then_pure step true s in
      let (l, h) = handle-log (m s).0 _ (m s).1 (Quiet-recover fuel) in
      record { log = l ∙ ap (λ t. t.log) same; held = h ∙ ap (λ t. t.held) same }

  Retried-Agrees :
      (id : Text) (status : StatusEvent) (log : List Act) (t s : State World)
      → Agrees t s
      → Retried id status log s
      → Retried id status log t
  Retried-Agrees id status log t s a (refused p q) = refused (a.log ∙ p) (a.held ∙ q)
  Retried-Agrees id status log t s a (went_through p q) = went_through (a.log ∙ p) (a.held ∙ q)

  retry_held-Retried :
      (id : Text) (status : StatusEvent) (w : World) (n : ℕ) (log : List Act)
      → Retried id status log
          ((do retry_held env settings; pure tt) (state w (some (id, status)) n log)).1
  unfolding retry_held gets ◌>>=◌
  retry_held-Retried id status w n log =
      rw (then_pure (retry env settings id status) tt (state w (some (id, status)) n log))
        (retried id status w n log (send status (env.xclaim id w).1).0 refl)

  bind-Agrees :
      {A B : Type 0} (m : Exec (State World) A) (f : A → Exec (State World) B) (s : State World)
      → ((a : A) → Quiet (f a))
      → Agrees ((m >>= f) s).1 (m s).1
  unfolding ◌>>=◌
  bind-Agrees m f s q =
      let (l, h) = continue-log (m s).0 f (m s).1 q in record { log = l; held = h }

  retry_turn-Retried :
      (name : Text) (fuel next : ℕ) (id : Text) (status : StatusEvent) (w : World) (n : ℕ)
      (log : List Act)
      → Retried id status log
          (retry_turn env settings name fuel next (state w (some (id, status)) n log)).1
  unfolding retry_turn is_held
  retry_turn-Retried name fuel next id status w n log =
      Retried-Agrees id status log _ _
        (bind-Agrees _ _ (state w (some (id, status)) n log)
          λ finished. search quiet_rules depth 12)
        (Retried-Agrees id status log _ _
          (guarded-Agrees fuel _ (state w (some (id, status)) n log))
          (retry_held-Retried id status w n log))

  -- From any state that holds a status, a turn of the main loop either stops at the stop event and
  -- changes neither the acts nor the held status, or renews the claim of the entry and sends that
  -- status once, and nothing else: it reads nothing, claims nothing and runs no job. If the status
  -- went through, the entry's acknowledgement is started and it is no longer held; if not, it
  -- stays held.
  pub turn_of_held :
      (name : Text) (fuel next : ℕ) (id : Text) (status : StatusEvent) (w : World) (n : ℕ)
      (log : List Act)
      → let s = state w (some (id, status)) n log in
        let t = turn env settings name fuel next s in
        ((t.0 ≡ ok stopped) × (t.1.log ≡ log) × (t.1.held ≡ some (id, status)))
        ⊎ Retried id status log t.1
  unfolding turn is_held ask gets pure ◌>>=◌
  turn_of_held name fuel next id status w n log = elim (Bool-cases (env.stopped w).0) [
    | inl e ↦ inl (rw e (refl, refl, refl))
    | inr e ↦ inr (rw e (retry_turn-Retried name fuel next id status _ n log))
  ]
