-- ===== src/Lifecycle/Complete.antt =====
-- `_complete_task`: one transaction that ends a RUNNING task well.
pub mod Laws
pub mod Superseded
use task_mesh.Base.{ℕ, Option, none, some, ◌==◌, if◌then◌else◌}
use task_mesh.Model.{Uuid, Time, running, completed, has_status}
use task_mesh.Database.{Database}
use task_mesh.Database.Rows.{Values}
use task_mesh.Errors.{Outcome, ok, raise, task_not_found, attempt_row, task_reclaimed, commit}

abbrev pub complete_values : Time → Values
complete_values finished_at = record {
  status = some completed;
  retry_count = none;
  started_at = none;
  completed_at = some (some finished_at);
  last_error = some none;
  lease_expires_at = some none;
}

module _ ⦃database : Database⦄ (finished_at : Time) (task_id attempt_id : Uuid) where
  open database use {Db, attempt, update_task, close_attempt}

  unfoldable pub complete_task : Db → Outcome (Unit {0}) × Db
  complete_task db =
      let (rowcount, updated) =
        update_task task_id (has_status running) (complete_values finished_at) db in
      if rowcount == 1
      then elim (attempt attempt_id updated) [
        | none ↦ (raise (task_not_found attempt_row), db)
        | some row ↦ commit db (close_attempt attempt_id finished_at none updated) tt
      ]
      else (raise (task_reclaimed task_id), db)
