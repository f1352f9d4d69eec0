-- ===== src/Migrations/Table.antt =====
-- What services/rag-service/src/migration/sqlite_create_table_v1.py has done where it returns, within
-- the transaction of services/rag-service/src/rag/db/sqlite_manager.py.
use rag_poc.Prelude.{
  Text, ◌≡◌, ◌⊎◌, inl, inr, refl, ◌&&◌, Bool, true, false, not, Bool-cases, List, [], ◌∷◌, all,
  mem_text, str, if◌then◌else◌, Result, ok, err,
}
use rag_poc.Failure.{Failure, other_error}
use rag_poc.Exec.{Exec, raise, modify, catch, handle, ◌>>=◌, ◌>>◌}
use rag_poc.Exec.Inversion.{bind-eq-ok}
use rag_poc.Registry.{
  Sqlite, Managed, is_err, after_exit, lift, enter, then_close, exit, block, with_manager,
}
use rag_poc.Migrations.{Environment, columns, is_old_schema, indexed_documents_table, create_tables}

after_exit-ok_inv :
    {A : Type 0} (x : Result Failure (Unit {0})) (r : Result Failure A) (a : A)
    → after_exit x r ≡ ok a
    → (x ≡ ok tt) × (r ≡ ok a)
after_exit-ok_inv (ok u) r a h = (refl, h)
after_exit-ok_inv (err e) r a h = absurd (cc h)

module _ (sqlite : Sqlite) where
  open sqlite use {World}

  -- The worlds on the way to an open connection.
  abbrev pub before_connect : World → World
  before_connect w = (sqlite.mkdir w).1

  abbrev pub before_journal : World → World
  before_journal w = (sqlite.connect (before_connect w)).1

  abbrev pub before_timeout : World → World
  before_timeout w = (sqlite.journal_mode (before_journal w)).1

  abbrev pub opened : World → World
  opened w = (sqlite.busy_timeout (before_timeout w)).1

  -- The calls that open the connection all succeeded.
  pub record IsOpened (w : World) : Type 0 where
    pub mkdir : (sqlite.mkdir w).0 ≡ ok tt
    pub connect : (sqlite.connect (before_connect w)).0 ≡ ok tt
    pub journal_mode : (sqlite.journal_mode (before_journal w)).0 ≡ ok tt
    pub busy_timeout : (sqlite.busy_timeout (before_timeout w)).0 ≡ ok tt

  -- After the last statement the transaction was committed and the connection closed.
  pub record IsCommitted (w : World) : Type 0 where
    pub commit : (sqlite.commit w).0 ≡ ok tt
    pub close : (sqlite.close (sqlite.commit w).1).0 ≡ ok tt

  abbrev manager : World → Managed World
  manager w = record { is_open = false; world = w }

  closing-eq-ok :
      (m : Exec World (Unit {0})) (s : Managed World) (u : Unit {0})
      → (catch (lift sqlite m) (λ e. do lift sqlite sqlite.close; raise e) s).0 ≡ ok u
      → (m s.world).0 ≡ ok tt
  unfolding catch lift raise
  closing-eq-ok m s u h = of_result (m s.world).0 _ h
    where
      of_result :
          (r : Result Failure (Unit {0})) (t : Managed World)
          → (handle r (λ e. do lift sqlite sqlite.close; raise e) t).0 ≡ ok u
          → r ≡ ok tt
      of_result (ok a) t g = refl
      of_result (err e) t g =
          let (a, closed, g1) =
            bind-eq-ok {A = Unit {0}} {B = Unit {0}} (lift sqlite sqlite.close) (λ _. raise e) t u
              g in
          absurd (cc g1)

  enter-IsOpened : (w : World) (u : Unit {0}) → (enter sqlite (manager w)).0 ≡ ok u → IsOpened w
  unfolding enter lift
  enter-IsOpened w u h =
      let (u1, e1, h1) = bind-eq-ok (lift sqlite sqlite.mkdir) _ (manager w) u h in
      let (u2, e2, h2) = bind-eq-ok (lift sqlite sqlite.connect) _ _ u h1 in
      let (u3, e3, h3) = bind-eq-ok _ _ _ u h2 in
      let both = closing-eq-ok (sqlite.journal_mode >> sqlite.busy_timeout) _ u3 e3 in
      let (u4, e4, h4) = bind-eq-ok sqlite.journal_mode _ _ tt both in
      record { mkdir = e1; connect = e2; journal_mode = e4; busy_timeout = h4 }

  enter-opened :
      (w : World)
      → IsOpened w
      → enter sqlite (manager w) ≡ (ok tt, record { is_open = true; world = opened w })
  unfolding enter lift catch modify ◌>>=◌
  enter-opened w o = rw (o.mkdir, o.connect, o.journal_mode, o.busy_timeout) refl

  block-ok_inv :
      {A : Type 0} (body : Exec World A) (r : Result Failure (Unit {0})) (s : Managed World) (a : A)
      → (block sqlite body r s).0 ≡ ok a
      → r ≡ ok tt
  block-ok_inv body (ok u) s a h = refl
  block-ok_inv body (err e) s a h = absurd (cc h)

  exit-IsCommitted :
      {A : Type 0} (r : Result Failure A) (w : World) (a : A)
      → after_exit (exit sqlite (is_err r) (record { is_open = true; world = w })).0 r ≡ ok a
      → (r ≡ ok a) × IsCommitted w
  unfolding exit lift then_close
  exit-IsCommitted (err e) w a h = absurd (cc (after_exit-ok_inv _ (err e) a h).1)
  exit-IsCommitted (ok b) w a h =
      let (x, same) = after_exit-ok_inv _ (ok b) a h in
      let (close, commit) = after_exit-ok_inv _ _ tt x in
      (same, record { commit = commit; close = close })

  -- A with statement that returned: its block returned on an open connection, and was committed.
  pub with_manager-ok_inv :
      {A : Type 0} (body : Exec World A) (w : World) (a : A)
      → (with_manager sqlite body w).0 ≡ ok a
      → IsOpened w × ((body (opened w)).0 ≡ ok a) × IsCommitted (body (opened w)).1
  unfolding with_manager
  with_manager-ok_inv body w a h =
      let entered = block-ok_inv body (enter sqlite (manager w)).0 _ a h in
      let is_opened = enter-IsOpened w tt entered in
      let (returned, committed) =
        exit-IsCommitted (body (opened w)).0 (body (opened w)).1 a
          (rw (enter-opened w is_opened) at h) in
      (is_opened, returned, committed)

module _ (env : Environment) where
  open env.sqlite use {World}

  -- There was no table, or one with exactly these columns.
  abbrev pub IsCurrent : List Text → Type 0
  IsCurrent existing =
      (existing ≡ [])
      ⊎ ((all (λ c. mem_text c columns) existing ≡ true)
          × (all (λ c. mem_text c existing) columns ≡ true))

  -- On one open connection the columns of the table were looked up, and the statement that creates a
  -- missing table was run; then this was committed.
  pub record HasTable (w : World) : Type 0 where
    pub connection : IsOpened env.sqlite w
    pub existing : List Text
    pub found : (env.table_columns (opened env.sqlite w)).0 ≡ ok existing
    pub current : IsCurrent existing
    pub created : (env.create_table (env.table_columns (opened env.sqlite w)).1).0 ≡ ok tt
    pub committed :
        IsCommitted env.sqlite (env.create_table (env.table_columns (opened env.sqlite w)).1).1

  is_old_schema-false_inv :
      (existing : List Text) → is_old_schema existing ≡ false → IsCurrent existing
  unfolding is_old_schema
  is_old_schema-false_inv [] h = inl refl
  is_old_schema-false_inv (c ∷ cs) h = inr (both _ _ h)
    where
      both : (a b : Bool) → not (a && b) ≡ false → (a ≡ true) × (b ≡ true)
      both true true e = (refl, refl)
      both true false e = absurd (cc e)
      both false b e = absurd (cc e)

  pub create_tables-HasTable :
      (w : World) (u : Unit {0}) → (create_tables env w).0 ≡ ok u → HasTable w
  unfolding create_tables indexed_documents_table raise ◌>>=◌
  create_tables-HasTable w u h =
      let (connection, returned, committed) =
        with_manager-ok_inv env.sqlite (indexed_documents_table env) w u h in
      let (existing, found, g) = bind-eq-ok env.table_columns _ (opened env.sqlite w) u returned in
      of_schema connection existing found g committed
    where
      after_check :
          (existing : List Text)
          → (env.table_columns (opened env.sqlite w)).0 ≡ ok existing
          → is_old_schema existing ≡ false
          → IsCommitted env.sqlite (indexed_documents_table env (opened env.sqlite w)).1
          → IsCommitted env.sqlite (env.create_table (env.table_columns (opened env.sqlite w)).1).1
      after_check existing found e committed = rw (found, e) at committed

      of_schema :
          IsOpened env.sqlite w
          → (existing : List Text) → (env.table_columns (opened env.sqlite w)).0 ≡ ok existing
          → ((if is_old_schema existing
                then raise (other_error (str "RuntimeError"))
                else env.create_table)
              (env.table_columns (opened env.sqlite w)).1).0
            ≡ ok u
          → IsCommitted env.sqlite (indexed_documents_table env (opened env.sqlite w)).1
          → HasTable w
      of_schema connection existing found g committed = elim (Bool-cases (is_old_schema existing)) [
        | inl e ↦ absurd (cc (rw e at g))
        | inr e ↦ record {
          connection = connection;
          existing = existing;
          found = found;
          current = is_old_schema-false_inv existing e;
          created = rw e at g;
          committed = after_check existing found e committed;
        }
      ]
