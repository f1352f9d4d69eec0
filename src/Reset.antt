-- ===== src/Reset.antt =====
-- services/rag-service/src/rag/tools/reset_index.py: `run`, less what it prints. The vector index and
-- the registry are the parameter `Ports`.
pub mod Order
use rag_poc.Prelude.{ℕ, Bool, true, false, List, [], ◌∷◌, if◌then◌else◌, Result, ok, err}
use rag_poc.Exec.{Exec, pure, ◌>>=◌, ◌>>◌}

pub record Ports : Type 1 where
  pub World : Type 0
  pub collection_exists : Exec World Bool
  pub count_points : Exec World ℕ
  pub clear_points : Exec World (Unit {0})
  pub count_rows : Exec World ℕ
  pub clear_rows : Exec World (Unit {0})

-- The two deletions, for the statement about them: `clearing_` stands for a call that began,
-- `cleared_` for its success. The program keeps no such record.
pub data Act : Type 0 where
  clearing_rows cleared_rows clearing_points cleared_points : Act

pub record State (W : Type 0) : Type 0 where
  pub world : W
  pub log : List Act

module _ {W : Type 0} where
  unfoldable pub call : {A : Type 0} → Exec W A → Exec (State W) A
  call m s = let (r, w) = m s.world in (r, record s { world = w })

  -- The call between its two acts: the second only if it succeeds.
  unfoldable pub recorded : {A : Type 0} → Act → Act → Exec W A → Exec (State W) A
  recorded before after m s =
      let (r, w) = m s.world in
      (
        r,
        elim r [
          | ok a ↦ record { world = w; log = after ∷ before ∷ s.log }
          | err e ↦ record { world = w; log = before ∷ s.log }
        ],
      )

abbrev pub exit_ok : ℕ
exit_ok = 0

abbrev pub exit_not_confirmed : ℕ
exit_not_confirmed = 1

module _ (ports : Ports) where
  open ports use {World}

  abbrev pub clear_rows : Exec (State World) (Unit {0})
  clear_rows = recorded clearing_rows cleared_rows ports.clear_rows

  abbrev pub clear_points : Exec (State World) (Unit {0})
  clear_points = recorded clearing_points cleared_points ports.clear_points

  -- what --yes confirms
  unfoldable pub clear : Bool → Exec (State World) ℕ
  clear exists = do clear_rows; if exists then clear_points else pure tt; pure exit_ok

  -- run
  unfoldable pub run : Bool → Exec (State World) ℕ
  run confirmed = do
    exists ← call ports.collection_exists
    points ← if exists then call ports.count_points else pure 0
    rows ← call ports.count_rows
    if confirmed then clear exists else pure exit_not_confirmed
