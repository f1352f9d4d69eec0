-- ===== src/Registry/Transaction.antt =====
-- A transaction of services/rag-service/src/rag/db/sqlite_manager.py: all or nothing.
use rag_poc.Prelude.{◌≡◌, inl, inr, refl, ◌∙◌, ap, true, false, List, Result, ok, err}
use rag_poc.Failure.{Failure}
use rag_poc.Exec.{Exec, raise, modify, catch, handle, continue, ◌>>=◌, ◌>>◌}
use rag_poc.Exec.Triple.{Ends}
use rag_poc.Registry.{
  Row, Sqlite, Managed, is_err, after_exit, lift, enter, then_close, exit, block, with_manager,
}
use rag_poc.Registry.Contract.{Does, IsTransactional, Ended}

-- From a state with P, a normal end gives Q, and a raise gives E.
record Leads {S A : Type 0} (E P : S → Type 0) (m : Exec S A) (Q : A → S → Type 0) : Type 0 where
  at : (s : S) → P s → Ends E Q (m s).0 (m s).1

module _ {S A B : Type 0} {E : S → Type 0} {Q : A → S → Type 0} {R : B → S → Type 0} where
  continue-Ends :
      (r : Result Failure A) (f : A → Exec S B) (s : S)
      → Ends E Q r s
      → ((a : A) → Leads E (Q a) (f a) R)
      → Ends E R (continue r f s).0 (continue r f s).1
  continue-Ends (err e) f s p k = p
  continue-Ends (ok a) f s p k = (k a).at s p

  Leads-bind :
      {P : S → Type 0} (m : Exec S A) (f : A → Exec S B)
      → Leads E P m Q
      → ((a : A) → Leads E (Q a) (f a) R)
      → Leads E P (m >>= f) R
  unfolding ◌>>=◌
  Leads-bind m f tm tf = record { at = λ s p. continue-Ends (m s).0 f (m s).1 (tm.at s p) tf }

module _ {S A : Type 0} {E : S → Type 0} {Q : A → S → Type 0} where
  handle-Ends :
      (r : Result Failure A) (h : Failure → Exec S A) (s : S)
      → Ends E Q r s
      → ((e : Failure) → Leads E E (h e) Q)
      → Ends E Q (handle r h s).0 (handle r h s).1
  handle-Ends (ok a) h s p k = p
  handle-Ends (err e) h s p k = (k e).at s p

  Leads-catch :
      {P : S → Type 0} (m : Exec S A) (h : Failure → Exec S A)
      → Leads E P m Q
      → ((e : Failure) → Leads E E (h e) Q)
      → Leads E P (catch m h) Q
  unfolding catch
  Leads-catch m h tm th = record {
    at = λ s p. let (r, s') = m s in handle-Ends r h s' (tm.at s p) th;
  }

  Leads-raise : (e : Failure) → Leads E E (raise e) Q
  unfolding raise
  Leads-raise e = record { at = λ s p. p }

module _ (sqlite : Sqlite) (rows seen : sqlite.World → List Row)
    (law : IsTransactional sqlite rows seen) (rs : List Row) where
  open sqlite use {World}

  -- The committed rows are rs.
  abbrev At : World → Type 0
  At w = rows w ≡ rs

  -- They are, and the connection sees ss.
  abbrev Sees : List Row → World → Type 0
  Sees ss w = (rows w ≡ rs) × (seen w ≡ ss)

  Leads-Does :
      {A : Type 0} (m : Exec World A) (answer : List Row → A) (change : List Row → List Row)
      (ss : List Row)
      → Does rows seen m answer change
      → Leads At (Sees ss) m (λ a w. (a ≡ answer ss) × Sees (change ss) w)
  Leads-Does {A} m answer change ss does = record { at = λ w p. of_result w p (m w).0 refl }
    where
      of_result :
          (w : World)
          → Sees ss w
          → (r : Result Failure A) → (m w).0 ≡ r
          → Ends At (λ a w'. (a ≡ answer ss) × Sees (change ss) w') r (m w).1
      of_result w (at, sees) (err e) same = does.kept w ∙ at
      of_result w (at, sees) (ok a) same = (
        does.answered w a same ∙ ap answer sees,
        (does.kept w ∙ at, does.changed w a same ∙ ap change sees),
      )

  Leads-lift :
      {A : Type 0} {E P : World → Type 0} {Q : A → World → Type 0} (m : Exec World A)
      → Leads E P m Q
      → Leads (λ s. E s.world) (λ s. P s.world) (lift sqlite m) (λ a s. Q a s.world)
  unfolding lift
  Leads-lift {A} {E} {P} {Q} m t = record {
    at = λ s p. lifted (m s.world).0 s (m s.world).1 (t.at s.world p);
  }
    where
      lifted :
          (r : Result Failure A) (s : Managed World) (w : World)
          → Ends E Q r w
          → Ends (λ s'. E s'.world) (λ a s'. Q a s'.world) r (record s { world = w })
      lifted (ok a) s w h = h
      lifted (err e) s w h = h

  Leads-kept :
      {A : Type 0} (m : Exec World A)
      → ((w : World) → rows (m w).1 ≡ rows w)
      → Leads At At m (λ a. At)
  Leads-kept {A} m kept = record { at = λ w p. of_result (m w).0 (m w).1 (kept w ∙ p) }
    where
      of_result : (r : Result Failure A) (w : World) → At w → Ends At (λ a. At) r w
      of_result (ok a) w p = p
      of_result (err e) w p = p

  connect-Leads : Leads At At sqlite.connect (λ u. Sees rs)
  connect-Leads = record { at = λ w p. of_result w p (sqlite.connect w).0 refl }
    where
      of_result :
          (w : World)
          → At w
          → (r : Result Failure (Unit {0})) → (sqlite.connect w).0 ≡ r
          → Ends At (λ u. Sees rs) r (sqlite.connect w).1
      of_result w p (err e) same = law.connect w ∙ p
      of_result w p (ok u) same = (law.connect w ∙ p, law.connected w u same ∙ p)

  pragmas-Leads : Leads At (Sees rs) (sqlite.journal_mode >> sqlite.busy_timeout) (λ u. Sees rs)
  pragmas-Leads = Leads-bind _ _ (Leads-Does _ _ _ rs law.journal_mode) λ u. record {
    at =
        λ w p. weaken (sqlite.busy_timeout w).0 _ ((Leads-Does _ _ _ rs law.busy_timeout).at w p.1);
  }
    where
      weaken :
          (r : Result Failure (Unit {0})) (w : World)
          → Ends At (λ u w. (u ≡ tt) × Sees rs w) r w
          → Ends At (λ u. Sees rs) r w
      weaken (ok u) w h = h.1
      weaken (err e) w h = h

  -- The connection of a manager that was entered sees the committed rows.
  Entered : Managed World → Type 0
  Entered s = (s.is_open ≡ true) × Sees rs s.world

  enter-Ends :
      (w : World)
      → At w
      → let (r, s) = enter sqlite (record { is_open = false; world = w }) in
        Ends (λ s. At s.world) (λ u. Entered) r s
  unfolding enter Entered modify
  enter-Ends w p =
      (Leads-bind {P = λ s. At s.world} _ _
          (Leads-lift sqlite.mkdir (Leads-kept sqlite.mkdir law.mkdir))
          λ u. Leads-bind _ _ (Leads-lift sqlite.connect connect-Leads) λ u1.
            Leads-bind _ _
              (Leads-catch _ _ (Leads-lift _ pragmas-Leads) λ e.
                Leads-bind _ _ (Leads-lift sqlite.close (Leads-kept sqlite.close law.close))
                  λ u3. Leads-raise e)
              λ u2. record { at = λ s sees. (refl, sees) }).at
        (record { is_open = false; world = w }) p

  -- Closing keeps the rows, and the exception of a failed transaction.
  then_close-rows :
      (m : Exec World (Unit {0})) (w : World) → rows (then_close sqlite m w).1 ≡ rows (m w).1
  unfolding then_close
  then_close-rows m w = law.close (m w).1

  after_exit-ok_inv :
      {A : Type 0} (c : Result Failure (Unit {0})) (b : Result Failure A) (a : A)
      → after_exit c b ≡ ok a
      → b ≡ ok a
  after_exit-ok_inv (err e) b a h = absurd (cc h)
  after_exit-ok_inv (ok u) b a h = h

  module _ {A : Type 0} (answer : List Row → A) (change : List Row → List Row) where
    -- The end of a block that returned a.
    commit-Ended :
        (a : A) (w : World)
        → a ≡ answer rs
        → Sees (change rs) w
        → let (x, w') = then_close sqlite sqlite.commit w in
          Ended answer change rs (after_exit x (ok a)) (rows w')
    unfolding then_close
    commit-Ended a w is_answer (at, sees) =
        of_results (sqlite.commit w).0 refl (sqlite.close (sqlite.commit w).1).0
      where
        after_close : rows (sqlite.close (sqlite.commit w).1).1 ≡ rows (sqlite.commit w).1
        after_close = law.close (sqlite.commit w).1

        of_results :
            (r : Result Failure (Unit {0}))
            → (sqlite.commit w).0 ≡ r
            → (c : Result Failure (Unit {0}))
            → Ended answer change rs
                (after_exit (after_exit c r) (ok a))
                (rows (sqlite.close (sqlite.commit w).1).1)
        of_results (ok u) same (ok v) = (is_answer, after_close ∙ law.committed w u same ∙ sees)
        of_results (ok u) same (err e) = inr (after_close ∙ law.committed w u same ∙ sees)
        of_results (err e) same (ok v) = inl (after_close ∙ law.not_committed w e same ∙ at)
        of_results (err e) same (err f) = inl (after_close ∙ law.not_committed w e same ∙ at)

    rollback-Ended :
        (e : Failure) (w : World)
        → At w
        → let (x, w') = then_close sqlite sqlite.rollback w in
          Ended answer change rs (after_exit {A = A} x (err e)) (rows w')
    rollback-Ended e w at = of_result _
      where
        kept : rows (then_close sqlite sqlite.rollback w).1 ≡ rs
        kept = then_close-rows sqlite.rollback w ∙ law.rollback w ∙ at

        of_result :
            (x : Result Failure (Unit {0}))
            → Ended answer change rs
                (after_exit {A = A} x (err e))
                (rows (then_close sqlite sqlite.rollback w).1)
        of_result (ok u) = inl kept
        of_result (err f) = inl kept

    block-Ended :
        (body : Exec World A)
        → Does rows seen body answer change
        → (r : Result Failure (Unit {0})) (s : Managed World)
        → Ends (λ t. At t.world) (λ u. Entered) r s
        → let (b, w) = block sqlite body r s in Ended answer change rs b (rows w)
    unfolding Entered exit lift
    block-Ended body does (err e) s p = inl p
    block-Ended body does (ok u) s (is_open, sees) =
        of_body (body s.world).0 (body s.world).1
          ((Leads-Does body answer change rs does).at s.world sees)
      where
        of_body :
            (b : Result Failure A) (w : World)
            → Ends At (λ a w. (a ≡ answer rs) × Sees (change rs) w) b w
            → let (x, s') = exit sqlite (is_err b) (record s { world = w }) in
              Ended answer change rs (after_exit x b) (rows s'.world)
        of_body (ok a) w (is_answer, at) = rw is_open (commit-Ended a w is_answer at)
        of_body (err e) w at = rw is_open (rollback-Ended e w at)

    pub with_manager-Ended :
        (body : Exec World A) (w : World)
        → Does rows seen body answer change
        → At w
        → let (b, w') = with_manager sqlite body w in Ended answer change rs b (rows w')
    unfolding with_manager
    with_manager-Ended body w does p = block-Ended body does _ _ (enter-Ends w p)
