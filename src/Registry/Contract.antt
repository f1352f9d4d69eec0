-- ===== src/Registry/Contract.antt =====
-- What services/rag-service/src/rag relies on of SQLite, and what its registry promises.
use rag_poc.Prelude.{
  Text, ◌≡◌, ◌⊎◌, Bool, false, ◌||◌, List, [], ◌∷◌, ◌++◌, length, text_eq, if◌then◌else◌, Result,
  ok, err,
}
use rag_poc.Failure.{Failure}
use rag_poc.Exec.{Exec}
use rag_poc.Registry.{Row, Sqlite}

-- The registry as a list of rows.
abbrev pub has_hash : Text → List Row → Bool
has_hash hash [] = false
has_hash hash (r ∷ rs) = text_eq r.hash hash || has_hash hash rs

-- INSERT ... ON CONFLICT(hash) DO NOTHING: the first row of a hash stays.
abbrev pub put : Row → List Row → List Row
put row rs = if has_hash row.hash rs then rs else rs ++ (row ∷ [])

module _ {W : Type 0} (rows seen : W → List Row) where
  -- A call that leaves the committed rows; where it returns, it answers from the rows that its
  -- connection sees, and changes these.
  pub record Does {A : Type 0} (m : Exec W A) (answer : List Row → A) (change : List Row → List Row)
      : Type 0 where
    pub kept : (w : W) → rows (m w).1 ≡ rows w
    pub answered : (w : W) (a : A) → (m w).0 ≡ ok a → a ≡ answer (seen w)
    pub changed : (w : W) (a : A) → (m w).0 ≡ ok a → seen (m w).1 ≡ change (seen w)

-- The documented behaviour of SQLite that the registry relies on: what a connection changes is
-- committed whole or not at all, and nothing else changes the committed rows meanwhile.
pub record IsTransactional (sqlite : Sqlite) (rows seen : sqlite.World → List Row) : Type 0 where
  pub mkdir : (w : sqlite.World) → rows (sqlite.mkdir w).1 ≡ rows w
  pub connect : (w : sqlite.World) → rows (sqlite.connect w).1 ≡ rows w
  pub connected :
      (w : sqlite.World) (u : Unit {0})
      → (sqlite.connect w).0 ≡ ok u
      → seen (sqlite.connect w).1 ≡ rows w
  pub journal_mode : Does rows seen sqlite.journal_mode (λ rs. tt) (λ rs. rs)
  pub busy_timeout : Does rows seen sqlite.busy_timeout (λ rs. tt) (λ rs. rs)
  pub committed :
      (w : sqlite.World) (u : Unit {0})
      → (sqlite.commit w).0 ≡ ok u
      → rows (sqlite.commit w).1 ≡ seen w
  pub not_committed :
      (w : sqlite.World) (e : Failure)
      → (sqlite.commit w).0 ≡ err e
      → rows (sqlite.commit w).1 ≡ rows w
  pub rollback : (w : sqlite.World) → rows (sqlite.rollback w).1 ≡ rows w
  pub close : (w : sqlite.World) → rows (sqlite.close w).1 ≡ rows w
  pub select_hash :
      (hash : Text) → Does rows seen (sqlite.select_hash hash) (has_hash hash) (λ rs. rs)
  pub insert_or_nothing :
      (row : Row) → Does rows seen (sqlite.insert_or_nothing row) (λ rs. tt) (put row)
  pub select_count : Does rows seen sqlite.select_count length (λ rs. rs)
  pub delete_all : Does rows seen sqlite.delete_all (λ rs. tt) (λ rs. [])

-- What an operation of the registry comes to, from the rows before it: where it returns, it answers
-- from them and they are changed; where it raises, they are changed or left as they were.
abbrev pub Ended :
    {A : Type 0}
    → (List Row → A)
    → (List Row → List Row)
    → List Row
    → Result Failure A
    → List Row
    → Type 0
Ended answer change before (ok a) after = (a ≡ answer before) × (after ≡ change before)
Ended answer change before (err e) after = (after ≡ before) ⊎ (after ≡ change before)
