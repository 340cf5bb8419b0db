-- ===== src/System/Correctness.antt =====
-- What holds of every state that the services can reach, however their transactions and statements
-- are interleaved.
use task_mesh.Base.{◌≡◌, true, some, List, ◌++◌}
use task_mesh.Model.{Uuid, Task}
use task_mesh.Model.Validity.{IsValid}
use task_mesh.Database.{Database}
use task_mesh.System.{Reach}
use task_mesh.System.Trace.{Trace}
use task_mesh.System.Validity.{empty-IsSound, Trace-IsSound}
use task_mesh.System.Refinement.{Reach-Trace}
use task_mesh.System.Diagram.{is_final, Trace-final}
use task_mesh.System.Attempts.{IsNumbered, ids, Trace-Grows, empty-Numbered}

module _ ⦃database : Database⦄ where
  open database use {Db, task, attempts, empty}

  -- Whatever the services do from an empty database on, every row has used at most `max_retries`
  -- retries, holds a lease exactly while it is RUNNING, has an end time exactly if it is COMPLETED, a
  -- start time if it is RUNNING or COMPLETED, and an error if it is FAILED or in DEAD_LETTER.
  pub Reach-IsValid : {s : Db} (i : Uuid) (t : Task) → Reach empty s → task i s ≡ some t → IsValid t
  Reach-IsValid i t r e = Trace-IsSound (Reach-Trace r empty-IsSound) empty-IsSound i t e

  reach : {s u : Db} → Reach empty s → Reach s u → Trace s u
  reach before r = Reach-Trace r (Trace-IsSound (Reach-Trace before empty-IsSound) empty-IsSound)

  -- A COMPLETED or FAILED task is never written again.
  pub Reach-final :
      {s u : Db} (i : Uuid) (t : Task)
      → Reach empty s
      → Reach s u
      → task i s ≡ some t
      → is_final t ≡ true
      → task i u ≡ some t
  Reach-final i t before r = Trace-final i t (reach before r)

  -- In every reachable state the attempts of a task are numbered 1, 2, 3, … in order, and whatever
  -- is done later only adds attempts behind them.
  pub Reach-history :
      {s u : Db} (i : Uuid)
      → Reach empty s
      → Reach s u
      → IsNumbered 1 (attempts i s)
        × ((rest : List Uuid) × (ids (attempts i u) ≡ ids (attempts i s) ++ rest))
  Reach-history i before r =
      let (numbered, _) = Trace-Grows (Reach-Trace before empty-IsSound) empty-Numbered in
      let (_, extends) = Trace-Grows (reach before r) numbered in (numbered i, extends i)
