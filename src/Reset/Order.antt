-- ===== src/Reset/Order.antt =====
-- The order of the deletions of services/rag-service/src/rag/tools/reset_index.py.
mod Tests
use rag_poc.Prelude.{ℕ, Bool, true, false, List, [], ◌∷◌, if◌then◌else◌, Result, ok, err}
use rag_poc.Failure.{Failure}
use rag_poc.Exec.{pure, continue, ◌>>=◌, ◌>>◌}
use rag_poc.Exec.Triple.{Ends}
use rag_poc.Reset.{
  Ports, State, Act, clearing_rows, cleared_rows, clearing_points, cleared_points, recorded, call,
  clear_rows, clear_points, clear, run, exit_ok, exit_not_confirmed,
}

-- How far the deletions can have come, the latest act first.
pub data Progress : List Act → Type 0 where
  untouched : Progress []
  rows_started : Progress (clearing_rows ∷ [])
  rows_done : Progress (cleared_rows ∷ clearing_rows ∷ [])
  points_started : Progress (clearing_points ∷ cleared_rows ∷ clearing_rows ∷ [])

-- What a run that returned a code has done: confirmed or not, and by the answer to whether the
-- collection exists.
pub data Done : Bool → Result Failure Bool → ℕ → List Act → Type 0 where
  not_confirmed : (exists : Bool) → Done false (ok exists) exit_not_confirmed []
  only_rows : Done true (ok false) exit_ok (cleared_rows ∷ clearing_rows ∷ [])
  rows_and_points :
      Done true
        (ok true)
        exit_ok
        (cleared_points ∷ clearing_points ∷ cleared_rows ∷ clearing_rows ∷ [])

module _ (ports : Ports) where
  open ports use {World}

  abbrev state : World → List Act → State World
  state w log = record { world = w; log = log }

  -- A run with this confirmation and this answer that has come to this end.
  abbrev pub IsOrdered : Bool → Result Failure Bool → Result Failure ℕ × State World → Type 0
  IsOrdered confirmed exists (r, s) =
      Ends (λ t. Progress t.log) (λ code t. Done confirmed exists code t.log) r s

  cleared :
      (w : World)
      → IsOrdered true
          (ok true)
          ((do clear_points ports; pure exit_ok) (state w (cleared_rows ∷ clearing_rows ∷ [])))
  unfolding pure recorded ◌>>=◌
  cleared w = ended (ports.clear_points w).0 (ports.clear_points w).1
    where
      ended :
          (r : Result Failure (Unit {0})) (v : World)
          → IsOrdered true (ok true) (
              continue r
                (λ _. pure exit_ok)
                (elim r [
                  | ok u ↦
                      state v (cleared_points ∷ clearing_points ∷ cleared_rows ∷ clearing_rows ∷ [])
                  | err e ↦ state v (clearing_points ∷ cleared_rows ∷ clearing_rows ∷ [])
                ]))
      ended (ok u) v = rows_and_points
      ended (err e) v = points_started

  clear-IsOrdered :
      (exists : Bool) (w : World) → IsOrdered true (ok exists) (clear ports exists (state w []))
  unfolding clear pure recorded ◌>>=◌
  clear-IsOrdered exists w = ended exists (ports.clear_rows w).0 (ports.clear_rows w).1
    where
      ended :
          (exists : Bool) (r : Result Failure (Unit {0})) (v : World)
          → IsOrdered true (ok exists) (
              continue r
                (λ _. do if exists then clear_points ports else pure tt; pure exit_ok)
                (elim r [
                  | ok u ↦ state v (cleared_rows ∷ clearing_rows ∷ [])
                  | err e ↦ state v (clearing_rows ∷ [])
                ]))
      ended true (ok u) v = cleared v
      ended false (ok u) v = only_rows
      ended exists (err e) v = rows_started

  counted :
      (confirmed exists : Bool) (r : Result Failure ℕ) (w : World)
      → IsOrdered confirmed (ok exists) (
          continue r
            (λ rows. if confirmed then clear ports exists else pure exit_not_confirmed)
            (state w []))
  unfolding pure
  counted true exists (ok n) w = clear-IsOrdered exists w
  counted false exists (ok n) w = not_confirmed exists
  counted confirmed exists (err e) w = untouched

  points_counted :
      (confirmed exists : Bool) (r : Result Failure ℕ) (w : World)
      → IsOrdered confirmed (ok exists) (
          continue r
            (λ points. do
              rows ← call ports.count_rows
              if confirmed then clear ports exists else pure exit_not_confirmed)
            (state w []))
  unfolding call ◌>>=◌
  points_counted confirmed exists (ok n) w =
      counted confirmed exists (ports.count_rows w).0 (ports.count_rows w).1
  points_counted confirmed exists (err e) w = untouched

  existed :
      (confirmed : Bool) (r : Result Failure Bool) (w : World)
      → IsOrdered confirmed r (
          continue r
            (λ exists. do
              points ← if exists then call ports.count_points else pure 0
              rows ← call ports.count_rows
              if confirmed then clear ports exists else pure exit_not_confirmed)
            (state w []))
  unfolding call pure ◌>>=◌
  existed confirmed (ok true) w =
      points_counted confirmed true (ports.count_points w).0 (ports.count_points w).1
  existed confirmed (ok false) w = points_counted confirmed false (ok 0) w
  existed confirmed (err e) w = untouched

  -- Without the confirmation a run that returns has deleted nothing and returns the code for that.
  -- With it, a run that returns has deleted the registry's rows and after them, if and only if the
  -- collection exists by the answer at the run's start, the points, each call having succeeded. A run
  -- that raises has stopped somewhere along that order: the points' deletion never starts before the
  -- rows are deleted.
  pub run-IsOrdered :
      (confirmed : Bool) (w : World)
      → IsOrdered confirmed
          (ports.collection_exists w).0
          (run ports confirmed (record { world = w; log = [] }))
  unfolding run call ◌>>=◌
  run-IsOrdered confirmed w =
      existed confirmed (ports.collection_exists w).0 (ports.collection_exists w).1
