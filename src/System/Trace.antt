-- ===== src/System/Trace.antt =====
-- The abstract machine that the transactions implement: each committed transaction is one atomic
-- change of one task. A retry count read by an earlier SELECT may be out of date; all that is known
-- of it is that it is within the budget.
use task_mesh.Base.{ℕ, ◌≡◌, ◌≤◌, Bool, true, some}
use task_mesh.Text.{Text}
use task_mesh.Model.{Uuid, Time, Task, queued, running, dead_letter, has_status, is_stale}
use task_mesh.Settings.{Settings}
use task_mesh.Database.{Database}
use task_mesh.Tasks.{TaskCreate, new_task}
use task_mesh.Tasks.Laws.{Creates, Requeues}
use task_mesh.Lifecycle.Claim.Laws.{Claims}
use task_mesh.Lifecycle.Complete.Laws.{Completes}
use task_mesh.Lifecycle.Failure.Laws.{Fails}
use task_mesh.Recovery.Laws.{Reclaims}

module _ ⦃database : Database⦄ where
  open database use {Db, task}

  pub data Change (db final : Db) : Type 0 where
    creates :
        (id : Uuid) (now : Time) (body : TaskCreate)
        → Creates (new_task id now body) db final
        → Change db final
    claims :
        (settings : Settings) (now : Time) (attempt_id task_id : Uuid) (worker : Text) (row : Task)
        → task task_id db ≡ some row
        → has_status queued row ≡ true
        → Claims settings now attempt_id task_id worker row db final
        → Change db final
    completes :
        (now : Time) (task_id attempt_id : Uuid) (row : Task)
        → task task_id db ≡ some row
        → has_status running row ≡ true
        → Completes now task_id attempt_id row db final
        → Change db final
    fails :
        (now : Time) (task_id attempt_id : Uuid) (message : Text) (retryable : Bool) (count : ℕ)
        (row : Task)
        → task task_id db ≡ some row
        → has_status running row ≡ true
        → count ≤ row.max_retries
        → Fails now task_id attempt_id message retryable count row.max_retries row db final
        → Change db final
    reclaims :
        (now : Time) (task_id : Uuid) (count : ℕ) (row : Task)
        → task task_id db ≡ some row
        → is_stale now row ≡ true
        → count ≤ row.max_retries
        → Reclaims now task_id count row.max_retries row db final
        → Change db final
    requeues :
        (task_id : Uuid) (row : Task)
        → task task_id db ≡ some row
        → has_status dead_letter row ≡ true
        → Requeues task_id row db final
        → Change db final

  pub data Trace : Db → Db → Type 0 where
    done : {s : Db} → Trace s s
    next : {s t u : Db} → Trace s t → Change t u → Trace s u

  pub Trace-append : {s t u : Db} → Trace s t → Trace t u → Trace s u
  Trace-append r done = r
  Trace-append r (next q c) = next (Trace-append r q) c
