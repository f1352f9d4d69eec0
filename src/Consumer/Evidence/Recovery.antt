-- ===== src/Consumer/Evidence/Recovery.antt =====
-- The recovery pass and the deletion of idle consumers keep the consumer's invariant.
use rag_poc.Prelude.{
  ℕ, zero, suc, ◌<◌, Text, ◌≡◌, ◌≢◌, refl, inl, false, Option, none, some, List, [], ◌∷◌, arith,
  text_eq_iff,
}
use rag_poc.Failure.{Failure}
use rag_poc.Exec.{pure, raise}
use rag_poc.Exec.Triple.{Triple-if}
use rag_poc.Consumer.{Env, Settings, Act, ConsumerInfo, reclaimed, delivered, listed, deleted, ms}
use rag_poc.Consumer.Recovery.{
  claim_one, claim_and_process, stays, cleanup, cleanup_consumers, recover_once,
}
use rag_poc.Consumer.Evidence.{Keeps}
use rag_poc.Consumer.Evidence.Rules.{
  Keeps-call, Keeps-pure, Keeps-raise, Keeps-catch, Keeps-bind, Learns-bind, note_bind,
}
use rag_poc.Consumer.Evidence.Entry.{ignore_redis-Keeps}
use rag_poc.Consumer.Evidence.Claimed.{claimed_fact, claim_page-Learns, process_claimed-Keeps}

module _ (env : Env) (settings : Settings) (name : Text) where
  open env use {World}

  claim_and_process-Keeps :
      (facts : List Act) (jobs : ℕ)
      → Keeps env settings name facts (claim_and_process env settings name jobs)
  unfolding claim_and_process claim_one
  claim_and_process-Keeps facts zero = Keeps-pure env settings name facts tt
  claim_and_process-Keeps facts (suc jobs) =
      Learns-bind env settings name facts (claimed_fact env settings name) (λ _. Unit) _ _
        (claim_page-Learns env settings name facts _ _)
        elim [
          | none ↦ λ _. Keeps-pure env settings name facts tt
          | some (id, fields) ↦ λ _.
              Keeps-bind env settings name (delivered reclaimed id fields ∷ facts) _ _
                (process_claimed-Keeps env settings name _ id fields (inl refl))
                λ go_on.
                  Triple-if go_on _ _
                    (λ _. claim_and_process-Keeps (delivered reclaimed id fields ∷ facts) jobs)
                    (λ _. Keeps-pure env settings name _ tt)
        ]

  -- A consumer that is not kept is another one, has nothing pending and was idle for too long.
  not-stays :
      (c : ConsumerInfo)
      → stays env settings name c ≡ false
      → (c.name ≢ name) × (c.pending ≡ 0) × (ms settings.cleanup_idle < c.idle)
  unfolding stays
  not-stays c h = ground (arith, text_eq_iff c.name name)

  cleanup-Keeps :
      (facts : List Act) (consumers : List ConsumerInfo)
      → Keeps env settings name facts (cleanup env settings name consumers)
  unfolding cleanup
  cleanup-Keeps facts [] = Keeps-pure env settings name facts tt
  cleanup-Keeps facts (c ∷ rest) =
      note_bind env settings name facts (listed c) _ (λ log k. tt)
        (Keeps-bind env settings name (listed c ∷ facts) _ _
          (Triple-if (stays env settings name c) _ _ (λ _. Keeps-pure env settings name _ tt)
            λ gone.
              let (other, nothing_pending, idle) = not-stays c gone in
              note_bind env settings name (listed c ∷ facts) (deleted c.name) _
                (λ log k. (c, k.0, refl, other, nothing_pending, idle))
                (Keeps-call env settings name _ _))
          (λ _. cleanup-Keeps (listed c ∷ facts) rest))

  cleanup_consumers-Keeps :
      (facts : List Act) → Keeps env settings name facts (cleanup_consumers env settings name)
  unfolding cleanup_consumers
  cleanup_consumers-Keeps facts = ignore_redis-Keeps env settings name facts _ (
      Keeps-bind env settings name facts _ _ (Keeps-call env settings name facts _)
        (cleanup-Keeps facts))

  pub recover_once-Keeps :
      (facts : List Act) → Keeps env settings name facts (recover_once env settings name)
  unfolding recover_once
  recover_once-Keeps facts =
      Keeps-bind env settings name facts _ _
        (Keeps-catch env settings name facts _ _
          (Keeps-bind env settings name facts _ _ (claim_and_process-Keeps facts _)
            (λ _. Keeps-pure env settings name facts none))
          (λ e. Keeps-pure env settings name facts (some e)))
        λ claim_error.
          Keeps-bind env settings name facts _ _ (cleanup_consumers-Keeps facts)
            λ _. ends claim_error
    where
      ends :
          (claim_error : Option Failure)
          → Keeps env settings name facts (elim claim_error [ none ↦ pure tt | some e ↦ raise e ])
      ends none = Keeps-pure env settings name facts tt
      ends (some e) = Keeps-raise env settings name facts e
