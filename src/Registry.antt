-- ===== src/Registry.antt =====
-- services/rag-service/src/rag/db/sqlite_manager.py and adapters/sqlite_index_registry.py. SQLite, the
-- directory and isoformat are parameters.
pub mod Contract
pub mod Refinement
pub mod Transaction
pub mod Tests
use rag_poc.Prelude.{ℕ, Text, str, Bool, true, false, if◌then◌else◌, Result, ok, err}
use rag_poc.Value.{Moment, naive, unconvertible, utc}
use rag_poc.Failure.{Failure, other_error}
use rag_poc.Exec.{Exec, pure, raise, modify, catch, ◌>>=◌, ◌>>◌}
use rag_poc.Ingest.{IndexedDocument}

-- A row of indexed_documents, as it is stored.
pub record Row : Type 0 where
  pub hash : Text
  pub filename : Text
  pub object_path : Text
  pub chunk_count : ℕ
  pub indexed_at : Text

-- What is called of the directory and of sqlite3, on the one connection of a manager; the statements
-- are those of the registry. Each call may raise.
pub record Sqlite : Type 1 where
  pub World : Type 0
  pub mkdir : Exec World (Unit {0})
  pub connect : Exec World (Unit {0})
  pub journal_mode : Exec World (Unit {0})
  pub busy_timeout : Exec World (Unit {0})
  pub commit : Exec World (Unit {0})
  pub rollback : Exec World (Unit {0})
  pub close : Exec World (Unit {0})
  pub select_hash : Text → Exec World Bool
  pub insert_or_nothing : Row → Exec World (Unit {0})
  pub select_count : Exec World ℕ
  pub delete_all : Exec World (Unit {0})
  pub isoformat : ℕ → Text

-- A manager, with whether it holds a connection, and the world.
pub record Managed (W : Type 0) : Type 0 where
  pub is_open : Bool
  pub world : W

abbrev pub is_err : {A : Type 0} → Result Failure A → Bool
is_err (ok a) = false
is_err (err e) = true

-- What a block comes to, by its own end and that of __exit__.
abbrev pub after_exit :
    {A : Type 0} → Result Failure (Unit {0}) → Result Failure A → Result Failure A
after_exit (err e) b = err e
after_exit (ok u) b = b

module _ (sqlite : Sqlite) where
  open sqlite use {World}

  unfoldable pub lift : {A : Type 0} → Exec World A → Exec (Managed World) A
  lift m s = let (r, w) = m s.world in (r, record s { world = w })

  -- __enter__
  unfoldable pub enter : Exec (Managed World) (Unit {0})
  unfolding lift
  enter s =
      if s.is_open
      then raise (other_error (str "RuntimeError")) s
      else (do
        lift sqlite.mkdir
        lift sqlite.connect
        catch (lift (sqlite.journal_mode >> sqlite.busy_timeout))
            (λ e. do lift sqlite.close; raise e)
        modify (λ t. record t { is_open = true }))
          s

  -- try: m finally: conn.close()
  unfoldable pub then_close : Exec World (Unit {0}) → Exec World (Unit {0})
  then_close m w = let (r, w1) = m w in let (c, w2) = sqlite.close w1 in (after_exit c r, w2)

  -- __exit__, after a block that raised or not
  unfoldable pub exit : Bool → Exec (Managed World) (Unit {0})
  unfolding lift then_close
  exit raised s =
      if s.is_open
      then lift (then_close (if raised then sqlite.rollback else sqlite.commit))
          (record s { is_open = false })
      else pure tt s

  abbrev pub block :
      {A : Type 0}
      → Exec World A
      → Result Failure (Unit {0})
      → Managed World
      → Result Failure A × World
  block body (err e) s = (err e, s.world)
  block body (ok u) s =
      let (b, w) = body s.world in
      let (x, s') = exit (is_err b) (record s { world = w }) in (after_exit x b, s'.world)

  -- with SQLiteManager(...) as conn: body
  unfoldable pub with_manager : {A : Type 0} → Exec World A → Exec World A
  unfolding enter exit
  with_manager body w = let (r, s) = enter (record { is_open = false; world = w }) in block body r s

  -- exists
  unfoldable pub exists : Text → Exec World Bool
  unfolding with_manager
  exists hash = with_manager (sqlite.select_hash hash)

  -- the arguments of the INSERT: astimezone raises where the time has no UTC
  abbrev pub row_of : Text → Text → Text → ℕ → ℕ → Row
  row_of hash filename object_path chunk_count at = record {
    hash = hash;
    filename = filename;
    object_path = object_path;
    chunk_count = chunk_count;
    indexed_at = sqlite.isoformat at;
  }

  abbrev pub insert_at : IndexedDocument → Moment → Exec World (Unit {0})
  insert_at document (utc t) =
      sqlite.insert_or_nothing
        (row_of document.hash document.filename document.object_path document.chunk_count t)
  insert_at document _ = raise (other_error (str "OverflowError"))

  -- register, with the document's time as Python may hold it
  unfoldable pub register : IndexedDocument → Moment → Exec World (Unit {0})
  unfolding with_manager
  register document naive = raise (other_error (str "ValueError"))
  register document at = with_manager (insert_at document at)

  -- count
  unfoldable pub count : Exec World ℕ
  unfolding with_manager
  count = with_manager sqlite.select_count

  -- clear
  unfoldable pub clear : Exec World (Unit {0})
  unfolding with_manager
  clear = with_manager sqlite.delete_all
