-- ===== src/IngestFile/Log.antt =====
-- What services/rag-service/src/rag/tools/ingest_file.py adds to the stream.
use rag_poc.Prelude.{
  ℕ, zero, suc, Text, ◌≡◌, ◌⊎◌, inl, inr, refl, ◌∙◌, subst, Bool, true, false, Option, none, some,
  ◌∷◌, ltb, if◌then◌else◌, Result, ok, err,
}
use rag_poc.Value.{Fields}
use rag_poc.Failure.{Failure}
use rag_poc.Exec.{Exec, pure, modify, continue, ◌>>=◌}
use rag_poc.IngestFile.{
  Environment, added, State, entry_of, call, ask, last_status_id, scan, wait_until, wait_for, note,
  publish,
}

module _ (env : Environment) where
  open env use {World}

  -- Code that adds nothing, and code that adds one entry or nothing.
  pub record Quiet {A : Type 0} (m : Exec (State World) A) : Type 0 where
    pub at : (s : State World) → (m s).1.log ≡ s.log

  pub record Adds (fields : Fields) {A : Type 0} (m : Exec (State World) A) : Type 0 where
    pub at : (s : State World) → ((m s).1.log ≡ s.log) ⊎ ((m s).1.log ≡ (added fields ∷ s.log))

  module _ {A B : Type 0} where
    continue-log :
        (r : Result Failure A) (f : A → Exec (State World) B) (s : State World)
        → ((a : A) → Quiet (f a))
        → (continue r f s).1.log ≡ s.log
    continue-log (ok a) f s k = (k a).at s
    continue-log (err e) f s k = refl

    Quiet-bind :
        (m : Exec (State World) A) (f : A → Exec (State World) B)
        → Quiet m
        → ((a : A) → Quiet (f a))
        → Quiet (m >>= f)
    unfolding ◌>>=◌
    Quiet-bind m f q k = record { at = λ s. continue-log (m s).0 f (m s).1 k ∙ q.at s }

    continue-Adds :
        (fields : Fields) (r : Result Failure A) (f : A → Exec (State World) B) (s : State World)
        → ((a : A) → Adds fields (f a))
        → ((continue r f s).1.log ≡ s.log) ⊎ ((continue r f s).1.log ≡ (added fields ∷ s.log))
    continue-Adds fields (ok a) f s k = (k a).at s
    continue-Adds fields (err e) f s k = inl refl

    Adds-bind :
        (fields : Fields) (m : Exec (State World) A) (f : A → Exec (State World) B)
        → Quiet m
        → ((a : A) → Adds fields (f a))
        → Adds fields (m >>= f)
    unfolding ◌>>=◌
    Adds-bind fields m f q k = record {
      at = λ s.
          subst (λ log. ((m >>= f) s).1.log ≡ log ⊎ ((m >>= f) s).1.log ≡ (added fields ∷ log))
            (q.at s) (continue-Adds fields (m s).0 f (m s).1 k);
    }

  Quiet-pure : {A : Type 0} (a : A) → Quiet (pure a)
  unfolding pure
  Quiet-pure a = record { at = λ s. refl }

  Quiet-call : {A : Type 0} (m : Exec World A) → Quiet (call env m)
  unfolding call
  Quiet-call m = record { at = λ s. refl }

  Quiet-ask : {A : Type 0} (f : World → A × World) → Quiet (ask env f)
  unfolding ask pure
  Quiet-ask f = record { at = λ s. refl }

  Quiet-if :
      {A : Type 0} (b : Bool) (m n : Exec (State World) A)
      → Quiet m
      → Quiet n
      → Quiet (if b then m else n)
  Quiet-if true m n qm qn = qm
  Quiet-if false m n qm qn = qn

  found_or-Quiet :
      (found : Option ℕ) (m : Exec (State World) (Option ℕ))
      → Quiet m
      → Quiet (elim found [ some code ↦ pure (some code) | none ↦ m ])
  found_or-Quiet (some code) m q = Quiet-pure (some code)
  found_or-Quiet none m q = q

  wait_until-Quiet :
      (fuel deadline : ℕ) (digest last : Text) → Quiet (wait_until env fuel deadline digest last)
  unfolding wait_until
  wait_until-Quiet zero deadline digest last = Quiet-pure none
  wait_until-Quiet (suc fuel) deadline digest last = Quiet-bind _ _ (Quiet-ask env.clock) λ now.
      Quiet-if (ltb now deadline) _ _
        (Quiet-bind _ _ (Quiet-call (env.xread last)) λ streams.
          found_or-Quiet (scan env digest last streams).0 _
            (wait_until-Quiet fuel deadline digest (scan env digest last streams).1))
        (Quiet-pure (some 3))

  wait_for-Quiet :
      (fuel : ℕ) (after digest : Text) (seconds : ℕ)
      → Quiet (wait_for env fuel after digest seconds)
  unfolding wait_for
  wait_for-Quiet fuel after digest seconds =
      Quiet-bind _ _ (Quiet-ask env.clock) λ now. wait_until-Quiet fuel _ digest after

  waiting-Quiet :
      (fuel : ℕ) (wait : Option ℕ) (after digest : Text)
      → Quiet {A = Option ℕ} (elim wait [
        | none ↦ pure (some 0)
        | some seconds ↦ wait_for env fuel after digest seconds
      ])
  waiting-Quiet fuel none after digest = Quiet-pure (some 0)
  waiting-Quiet fuel (some seconds) after digest = wait_for-Quiet fuel after digest seconds

  pub publish-Adds :
      (fuel : ℕ) (wait : Option ℕ) (digest payload : Text)
      → Adds (entry_of payload) (publish env fuel wait digest payload)
  unfolding publish last_status_id note modify ◌>>=◌
  publish-Adds fuel wait digest payload =
      Adds-bind _ _ _ (Quiet-bind _ _ (Quiet-call env.newest_status) λ es. Quiet-pure _) λ after.
        Adds-bind _ _ _ (Quiet-call (env.xadd (entry_of payload))) λ u. record {
          at = λ s. inr (
              (waiting-Quiet fuel wait after digest).at
                (record s { log = added (entry_of payload) ∷ s.log }));
        }
