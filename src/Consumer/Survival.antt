-- ===== src/Consumer/Survival.antt =====
-- The main loop of services/rag-service/src/rag/transport/stream_consumer.py never raises.
use rag_poc.Prelude.{
  ℕ, zero, suc, Text, ◌≡◌, refl, ap, inl, inr, Bool-cases, Bool, true, false, Option, none, some,
  if◌then◌else◌, Result, ok, err,
}
use rag_poc.Failure.{Failure, is_redis, is_no_group, is_busy_group}
use rag_poc.Exec.{Exec, pure, catch, ◌>>=◌}
use rag_poc.Exec.Returns.{
  Returns, returns_rules, Returns-pure, Returns-bind, Returns-if, Returns-catch,
}
use rag_poc.Consumer.{Env, Settings, State, call, ask}
use rag_poc.Consumer.Loop.{
  stopped, waiting, again, ensure_group, try_group, until_ready, back_off, guarded, is_held,
  retry_turn, read_turn, recover_turn, turn, turns, run,
}

-- The client's XGROUP CREATE fails with a RedisError only.
pub record RaisesRedisOnly {W : Type 0} (m : Exec W (Unit {0})) : Type 0 where
  pub redis : (w : W) (e : Failure) → (m w).0 ≡ err e → is_redis e ≡ true

module _ (env : Env) (settings : Settings) (name : Text)
    (client : RaisesRedisOnly env.xgroup_create) where
  open env use {World}

  ask-Returns : {A : Type 0} (f : World → A × World) → Returns (ask f)
  unfolding ask
  ask-Returns f = record { at = λ s. ((f s.world).0, refl) }

  group_reply :
      (r : Result Failure (Unit {0})) (s : State World) (w : World)
      → (env.xgroup_create s.world) ≡ (r, w)
      → (b : Bool) × ((try_group env settings s).0 ≡ ok b)
  unfolding try_group ensure_group call catch ◌>>=◌
  group_reply (ok u) s w e = rw e (true, refl)
  group_reply (err x) s w e =
      let redis : is_redis x ≡ true = client.redis s.world x (ap (λ p. p.0) e) in
      elim (Bool-cases (is_busy_group x)) [
        | inl busy ↦ (true, rw (e, busy))
        | inr other ↦ (false, rw (e, other, redis))
      ]

  try_group-Returns : Returns (try_group env settings)
  try_group-Returns = record {
    at = λ s. group_reply (env.xgroup_create s.world).0 s (env.xgroup_create s.world).1 refl;
  }

  until_ready-Returns : (fuel : ℕ) → Returns (until_ready env settings fuel)
  unfolding until_ready
  until_ready-Returns zero = Returns-pure none
  until_ready-Returns (suc fuel) = Returns-bind _ _ (ask-Returns _) λ stop.
      Returns-if stop _ _ (Returns-pure _) (
        Returns-bind _ _ try_group-Returns λ ready. Returns-if ready _ _ (Returns-pure _) (
          Returns-bind _ _ (ask-Returns _)
            λ waited. Returns-if waited _ _ (until_ready-Returns fuel) (Returns-pure _)))

  group_again :
      (ready : Option Bool)
      → Returns {S = State World} (elim ready [ none ↦ pure false | some r ↦ pure true ])
  group_again none = Returns-pure false
  group_again (some r) = Returns-pure true

  -- A step that raises anything at all is logged, and the loop goes on.
  guarded-Returns :
      (fuel : ℕ) (step : Exec (State World) (Unit {0})) → Returns (guarded env settings fuel step)
  unfolding guarded back_off
  guarded-Returns fuel step = Returns-catch _ _ λ e.
      Returns-if (is_no_group e) _ _ (Returns-bind _ _ (until_ready-Returns fuel) group_again)
        (Returns-bind _ _ (ask-Returns _) (λ _. Returns-pure true))

  retry_turn-Returns : (fuel next : ℕ) → Returns (retry_turn env settings name fuel next)
  unfolding retry_turn is_held
  retry_turn-Returns fuel next = search (returns_rules, guarded-Returns, ask-Returns) depth 12

  read_turn-Returns : (fuel next : ℕ) → Returns (read_turn env settings name fuel next)
  unfolding read_turn
  read_turn-Returns fuel next = search (returns_rules, guarded-Returns) depth 12

  recover_turn-Returns : (fuel : ℕ) → Returns (recover_turn env settings name fuel)
  unfolding recover_turn is_held
  recover_turn-Returns fuel =
      search (returns_rules, guarded-Returns, ask-Returns, read_turn-Returns) depth 12

  turn-Returns : (fuel next : ℕ) → Returns (turn env settings name fuel next)
  unfolding turn is_held
  turn-Returns fuel next =
      search
        (returns_rules, ask-Returns, retry_turn-Returns, read_turn-Returns, recover_turn-Returns)
        depth 12

  turns-Returns : (fuel next : ℕ) → Returns (turns env settings name fuel next)
  unfolding turns
  turns-Returns zero next = Returns-pure false
  turns-Returns (suc fuel) next = Returns-bind _ _ (turn-Returns fuel next) elim [
    | stopped ↦ Returns-pure true
    | waiting ↦ Returns-pure false
    | again next' ↦ turns-Returns fuel next'
  ]

  -- If XGROUP CREATE fails with RedisErrors only, the consumer never ends by an exception, whatever
  -- else Redis, the processor and the entries of the stream do, and from any state: after any number
  -- of turns it has stopped (true) or is still running (false).
  pub run_never_raises :
      (fuel : ℕ) (s : State World) → (b : Bool) × ((run env settings name fuel s).0 ≡ ok b)
  unfolding run
  run_never_raises fuel = (Returns-bind _ _ (until_ready-Returns fuel) turns_or_stop).at
    where
      turns_or_stop :
          (ready : Option Bool)
          → Returns {S = State World} (elim ready [
            | none ↦ pure false
            | some r ↦ if r then turns env settings name fuel 0 else pure true
          ])
      turns_or_stop none = Returns-pure false
      turns_or_stop (some r) = Returns-if r _ _ (turns-Returns fuel 0) (Returns-pure true)
