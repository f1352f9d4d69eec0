-- ===== src/Consumer/Publishing.antt =====
-- The attempts to publish a status, and what services/rag-service/src/rag/transport/stream_consumer.py
-- does with an entry when they end.
use rag_poc.Prelude.{
  ℕ, zero, suc, ◌≤◌, ◌<◌, Text, ◌≡◌, ◌≢◌, refl, ap, ◌∙◌, ◌⊎◌, inl, inr, Bool-cases, Bool, true,
  false, Option, some, ◌+◌, ltb, ltb→lt, ltb→ge, List, ◌∷◌, arith, if◌then◌else◌, Result, ok, err,
}
use rag_poc.Failure.{Failure, is_redis}
use rag_poc.Exec.{pure, continue, ◌>>=◌, ◌>>◌}
use rag_poc.Event.Outbound.{StatusEvent}
use rag_poc.Consumer.{Env, Settings, State, Act, tried, published, acked, set_held, ask}
use rag_poc.Consumer.Entry.{ack, may_retry, publish_attempts, publish, finish}
use rag_poc.Consumer.Holding.{state, send, try_publish-ok, try_publish-err, ack-state}

module _ (env : Env) (settings : Settings) (status : StatusEvent) where
  open env use {World}

  -- The acts after k attempts on top of the acts of log.
  abbrev pub tries : ℕ → List Act → List Act
  tries zero log = log
  tries (suc k) log = tries k (tried status ∷ log)

  -- Between two attempts: the retry delay was slept through, and a whole call still ends before the
  -- entry becomes reclaimable.
  abbrev pub MayRetry : ℕ → World → World → Type 0
  MayRetry at w v =
      let (waited, w1) = env.sleep settings.retry_delay w in
      let (now, w2) = env.clock w1 in
      (waited ≡ true) × (now + settings.call_timeout < at) × (v ≡ w2)

  -- One of these fails.
  abbrev pub MustStop : ℕ → World → Type 0
  MustStop at w =
      let (waited, w1) = env.sleep settings.retry_delay w in
      (waited ≡ false) ⊎ (at ≤ (env.clock w1).0 + settings.call_timeout)

  -- k attempts, each refused by Redis and followed by the wait for the next one, lead to v.
  pub data Refused (at : ℕ) (v : World) : ℕ → World → Type 0 where
    none_yet : Refused at v 0 v
    one_refused :
        {k : ℕ} {w u : World} (e : Failure)
        → (send env settings status w).0 ≡ err e
        → is_redis e ≡ true
        → MayRetry at (send env settings status w).1 u
        → Refused at v k u
        → Refused at v (suc k) w

  -- Of at most n attempts the first k were refused, and the next one, from the world v.
  pub record Attempt (n at : ℕ) (w : World) (k : ℕ) (v : World) : Type 0 where
    pub allowed : k < n
    pub before : Refused at v k w

  -- So the next one went through.
  abbrev pub Through : ℕ → ℕ → World → ℕ → Type 0
  Through n at w k =
      (v : World) × Attempt n at w k v × (x : Text) × ((send env settings status v).0 ≡ ok x)

  -- So it raised what is no RedisError.
  abbrev pub Broken : ℕ → ℕ → World → ℕ → Failure → Type 0
  Broken n at w k e =
      (v : World) × Attempt n at w k v
      × ((send env settings status v).0 ≡ err e)
      × (is_redis e ≡ false)

  -- So it was refused too, and was the last one that is allowed, or there was no waiting for another.
  abbrev pub Exhausted : ℕ → ℕ → World → ℕ → Type 0
  Exhausted n at w k =
      (v : World) × Attempt n at w k v
      × (e : Failure) × ((send env settings status v).0 ≡ err e)
      × (is_redis e ≡ true)
      × ((suc k ≡ n) ⊎ MustStop at (send env settings status v).1)

  -- How at most n attempts end: without one being allowed; with k refused and then one that was
  -- refused too; with one that went through; or with one that raised another error.
  pub data Sent (n at : ℕ) (w : World) (held : Option (Text × StatusEvent)) (log : List Act)
      : Result Failure Bool → State World → Type 0 where
    not_tried :
        {t : State World} → n ≡ 0 → t.log ≡ log → t.held ≡ held → Sent n at w held log (ok false) t
    gave_up :
        {t : State World} (k : ℕ)
        → Exhausted n at w k
        → t.log ≡ tries (suc k) log
        → t.held ≡ held
        → Sent n at w held log (ok false) t
    went :
        {t : State World} (k : ℕ)
        → Through n at w k
        → t.log ≡ published status ∷ tries (suc k) log
        → t.held ≡ held
        → Sent n at w held log (ok true) t
    raised :
        {t : State World} (k : ℕ) (e : Failure)
        → Broken n at w k e
        → t.log ≡ tries (suc k) log
        → t.held ≡ held
        → Sent n at w held log (err e) t

  module _ (n at : ℕ) {w u : World} {e : Failure} (failed : (send env settings status w).0 ≡ err e)
      (redis : is_redis e ≡ true) (wait : MayRetry at (send env settings status w).1 u) where
    next_attempt : {k : ℕ} {v : World} → Attempt n at u k v → Attempt (suc n) at w (suc k) v
    next_attempt a = record {
      allowed = omega (arith, a.allowed);
      before = one_refused e failed redis wait a.before;
    }

    one_more :
        (held : Option (Text × StatusEvent)) (log : List Act) (r : Result Failure Bool)
        (t : State World)
        → 1 ≤ n
        → Sent n at u held (tried status ∷ log) r t
        → Sent (suc n) at w held log r t
    one_more held log _ t l (not_tried z p q) = absurd (omega (arith, z, l))
    one_more held log _ t l (gave_up k (v, a, f, b, c, inl same) p q) =
        gave_up (suc k) (v, next_attempt a, f, b, c, inl (ap suc same)) p q
    one_more held log _ t l (gave_up k (v, a, f, b, c, inr stop) p q) =
        gave_up (suc k) (v, next_attempt a, f, b, c, inr stop) p q
    one_more held log _ t l (went k (v, a, x, b) p q) = went (suc k) (v, next_attempt a, x, b) p q
    one_more held log _ t l (raised k f (v, a, b, c) p q) =
        raised (suc k) f (v, next_attempt a, b, c) p q

  -- The first attempt.
  first : (n at : ℕ) (w : World) → Attempt (suc n) at w 0 w
  first n at w = record { allowed = omega arith; before = none_yet }

  may_retry-state :
      (at : ℕ) (w : World) (held : Option (Text × StatusEvent)) (f : ℕ) (log : List Act)
      → (b : Bool) × (w' : World) × (may_retry env settings at (state env settings w held f log)
          ≡ (ok b, state env settings w' held f log))
        × (((b ≡ true) × MayRetry at w w') ⊎ ((b ≡ false) × MustStop at w))
  unfolding may_retry ask pure ◌>>=◌
  may_retry-state at w held f log =
      let (waited, w1) = env.sleep settings.retry_delay w in
      let (now, w2) = env.clock w1 in
      elim (Bool-cases waited) [
        | inr e ↦ (false, w1, rw e refl, inr (refl, inl e))
        | inl e ↦ elim (Bool-cases (ltb (now + settings.call_timeout) at)) [
          | inl y ↦ (true, w2, rw (e, y) refl, inl (refl, (e, ltb→lt _ _ y, refl)))
          | inr y ↦ (false, w2, rw (e, y) refl, inr (refl, inr (ltb→ge _ _ y)))
        ]
      ]

  -- What follows a refused attempt that is not the last one, given what the attempts that are left
  -- come to.
  again :
      (n at : ℕ) (b : Bool) (held : Option (Text × StatusEvent)) (f : ℕ) (log : List Act)
      (w u : World) (x : Failure)
      → (send env settings status w).0 ≡ err x
      → is_redis x ≡ true
      → ((b ≡ true) × MayRetry at (send env settings status w).1 u)
        ⊎ ((b ≡ false) × MustStop at (send env settings status w).1)
      → (let t =
            publish_attempts env settings status at
              (suc n)
              (state env settings u held f (tried status ∷ log)) in
          Sent (suc n) at u held (tried status ∷ log) t.0 t.1)
      → let t =
          (if b then publish_attempts env settings status at (suc n) else pure false)
            (state env settings u held f (tried status ∷ log)) in
        Sent (suc (suc n)) at w held log t.0 t.1
  unfolding pure
  again n at false held f log w u x e y (inl (b, m)) h = absurd (cc b)
  again n at true held f log w u x e y (inr (b, m)) h = absurd (cc b)
  again n at false held f log w u x e y (inr (b, stop)) h =
      gave_up 0 (w, first (suc n) at w, x, e, y, inr stop) refl refl
  again n at true held f log w u x e y (inl (b, wait)) h =
      one_more (suc n) at e y wait held log _ _ (omega arith) h

  attempts-Sent :
      (n at : ℕ) (w : World) (held : Option (Text × StatusEvent)) (f : ℕ) (log : List Act)
      (r : Result Failure Text)
      → (send env settings status w).0 ≡ r
      → let t = publish_attempts env settings status at n (state env settings w held f log) in
        Sent n at w held log t.0 t.1
  unfolding publish_attempts ◌>>=◌ pure
  attempts-Sent zero at w held f log r e = not_tried refl refl refl
  attempts-Sent (suc zero) at w held f log (ok x) e =
      rw (try_publish-ok env settings status w held f log x e)
        (went 0 (w, first 0 at w, x, e) refl refl)
  attempts-Sent (suc zero) at w held f log (err x) e = elim (Bool-cases (is_redis x)) [
    | inl y ↦
        rw (try_publish-err env settings status w held f log x e, y)
          (gave_up 0 (w, first 0 at w, x, e, y, inl refl) refl refl)
    | inr y ↦
        rw (try_publish-err env settings status w held f log x e, y)
          (raised 0 x (w, first 0 at w, e, y) refl refl)
  ]
  attempts-Sent (suc (suc n)) at w held f log (ok x) e =
      rw (try_publish-ok env settings status w held f log x e)
        (went 0 (w, first (suc n) at w, x, e) refl refl)
  attempts-Sent (suc (suc n)) at w held f log (err x) e = elim (Bool-cases (is_redis x)) [
    | inr y ↦
        rw (try_publish-err env settings status w held f log x e, y)
          (raised 0 x (w, first (suc n) at w, e, y) refl refl)
    | inl y ↦
        let w1 = (send env settings status w).1 in
        let (b, w2, m, why) = may_retry-state at w1 held f (tried status ∷ log) in
        rw (try_publish-err env settings status w held f log x e, y, m)
          (again n at b held f log w w2 x e y why
            (attempts-Sent (suc n) at w2 held f (tried status ∷ log) _ refl))
  ]

  -- What _finish leaves behind, by how its attempts end.
  pub data Account (id : Text) (n at : ℕ) (w : World) (held : Option (Text × StatusEvent))
      (log : List Act) : Result Failure Bool → State World → Type 0 where
    -- published and acknowledged; the acknowledgement may have raised
    reported :
        {r : Result Failure Bool} {t : State World} (k : ℕ)
        → Through n at w k
        → r ≢ ok false
        → t.log ≡ acked id ∷ published status ∷ tries (suc k) log
        → t.held ≡ held
        → Account id n at w held log r t
    -- refused each time, not acknowledged, and held
    kept :
        {t : State World} (k : ℕ)
        → Exhausted n at w k
        → t.log ≡ tries (suc k) log
        → t.held ≡ some (id, status)
        → t.held_failures ≡ 0
        → Account id n at w held log (ok false) t
    -- no attempt is allowed by the settings: held
    unattempted :
        {t : State World}
        → n ≡ 0
        → t.log ≡ log
        → t.held ≡ some (id, status)
        → t.held_failures ≡ 0
        → Account id n at w held log (ok false) t
    -- an attempt raised what is no RedisError
    interrupted :
        {t : State World} (k : ℕ) (e : Failure)
        → Broken n at w k e
        → t.log ≡ tries (suc k) log
        → t.held ≡ held
        → Account id n at w held log (err e) t

  acknowledged :
      (id : Text) (n at k : ℕ) (w : World) (held : Option (Text × StatusEvent)) (log : List Act)
      (r : Result Failure (Unit {0})) (u : State World)
      → Through n at w k
      → u.log ≡ acked id ∷ published status ∷ tries (suc k) log
      → u.held ≡ held
      → let t = continue r (λ _. pure true) u in Account id n at w held log t.0 t.1
  unfolding pure
  acknowledged id n at k w held log (ok a) u l p q = reported k l (λ e. cc e) p q
  acknowledged id n at k w held log (err e) u l p q = reported k l (λ e. cc e) p q

  concluded :
      (id : Text) (n at : ℕ) (w : World) (held : Option (Text × StatusEvent)) (log : List Act)
      (r : Result Failure Bool) (t : State World)
      → Sent n at w held log r t
      → let u =
          continue r
            (λ sent.
              if sent
              then (do ack env id; pure true)
              else (do set_held (some (id, status)) 0; pure false))
            t in
        Account id n at w held log u.0 u.1
  unfolding set_held pure ◌>>=◌
  concluded id n at w held log _ t (not_tried z p q) = unattempted z p refl refl
  concluded id n at w held log _ t (gave_up k l p q) = kept k l p refl refl
  concluded id n at w held log _ t (raised k e l p q) = interrupted k e l p q
  concluded id n at w held log _ t (went k l p q) =
      let a = ack-state env settings id t.world t.held t.held_failures t.log in
      acknowledged id n at k w held log (ack env id t).0 (ack env id t).1 l
        (ap (λ u. u.log) a ∙ ap (λ l. acked id ∷ l) p) (ap (λ u. u.held) a ∙ q)

  -- The status of an entry is sent in a row of at most publish_attempts attempts: each one before the
  -- last was refused by Redis, and between it and the next the retry delay was slept through and a
  -- whole call still fitted before the entry becomes reclaimable. If the last one went through,
  -- nothing is sent again, the entry's acknowledgement is started and the held status is as before.
  -- If the last one was refused too, and it was the publish_attempts-th or one of the two conditions
  -- for another failed, the status is held with its entry and the entry is not acknowledged. If it
  -- raised another error than a RedisError, that error is raised, and nothing is acknowledged or held.
  pub finish-Account :
      (id : Text) (started : ℕ) (w : World) (held : Option (Text × StatusEvent)) (f : ℕ)
      (log : List Act)
      → let t = finish env settings id status started (state env settings w held f log) in
        Account id settings.publish_attempts (started + settings.min_idle) w held log t.0 t.1
  unfolding finish publish ◌>>=◌
  finish-Account id started w held f log =
      concluded id settings.publish_attempts (started + settings.min_idle) w held log _ _
        (attempts-Sent settings.publish_attempts (started + settings.min_idle) w held f log _ refl)
