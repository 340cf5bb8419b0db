-- ===== src/Tasks.antt =====
-- app/services/tasks.py: submission, lookup and requeueing of dead-lettered tasks.
pub mod Laws
pub mod Body
pub mod Listing
use task_mesh.Base.{ℕ, Option, none, some, List, ◌==◌, if◌then◌else◌}
use task_mesh.Text.{Text}
use task_mesh.Model.{
  Uuid, Time, Task, TaskPriority, TaskExecutionAttempt, queued, dead_letter, has_status,
}
use task_mesh.Model.Json.{Fields}
use task_mesh.Database.{Database}
use task_mesh.Database.Rows.{Values}
use task_mesh.Errors.{Outcome, ok, raise, database_error, commit}

-- A validated request body.
pub record TaskCreate : Type 0 where
  pub task_type : Text
  pub payload : Fields
  pub priority : TaskPriority

-- The row that `Task(...)` becomes, with the defaults of its columns: a fresh UUID and the clock are
-- those of `uuid4` and of the server's `now()`.
abbrev pub new_task : Uuid → Time → TaskCreate → Task
new_task id created_at task_data = record {
  id = id;
  task_type = task_data.task_type;
  payload = task_data.payload;
  priority = task_data.priority;
  status = queued;
  retry_count = 0;
  max_retries = 3;
  created_at = created_at;
  started_at = none;
  completed_at = none;
  last_error = none;
  lease_expires_at = none;
}

abbrev pub requeue_values : Values
requeue_values = record {
  status = some queued;
  retry_count = some 0;
  started_at = some none;
  completed_at = some none;
  last_error = some none;
  lease_expires_at = none;
}

-- A row with its attempts loaded.
pub record LoadedTask : Type 0 where
  pub row : Task
  pub execution_attempts : List TaskExecutionAttempt

module _ ⦃database : Database⦄ where
  open database use {Db, task, attempts, insert_task, update_task, commits}

  unfoldable pub create_task : Uuid → Time → TaskCreate → Db → Outcome Task × Db
  create_task id created_at task_data db =
      commit db (insert_task (new_task id created_at task_data) db)
        (new_task id created_at task_data)

  unfoldable pub get_task : Uuid → Db → Option LoadedTask
  get_task task_id db = elim (task task_id db) [
    | none ↦ none
    | some row ↦ some (record { row = row; execution_attempts = attempts task_id db })
  ]

  -- `leaving` is what other sessions commit between the COMMIT and the lookup of the result.
  unfoldable pub requeue_dead_letter_task : Uuid → (Db → Db) → Db → Outcome (Option LoadedTask) × Db
  unfolding get_task
  requeue_dead_letter_task task_id leaving db =
      let (rowcount, updated) = update_task task_id (has_status dead_letter) requeue_values db in
      if rowcount == 1
      then if commits updated
        then (ok (get_task task_id (leaving updated)), leaving updated)
        else (raise database_error, db)
      else (ok none, db)
