-- ===== src/Lifecycle/Failure/Select.antt =====
-- What the SELECT of _finalize_failure decides, before its UPDATE.

use task_mesh.Base.{◌≡◌, true, false, inl, inr, ap, Bool-cases, Option-cases, none, some, arith}
use task_mesh.Base.{Bool, ◌⊎◌}
use task_mesh.Text.{Text}
use task_mesh.Model.{Uuid, Time, Task, running, has_status}
use task_mesh.Database.{Database}
use task_mesh.Errors.{raise, task_not_found, task_row, task_reclaimed}
use task_mesh.Lifecycle.Failure.{record_failure, finalize_failure}
use task_mesh.Lifecycle.Failure.Laws.{Fails, record_failure_cases}

module _ ⦃database : Database⦄ (finished_at : Time) (task_id attempt_id : Uuid) (message : Text)
    (retryable : Bool) where
  open database use {
    Db, task, attempts, attempt, commits, update_task, close_attempt, rowcount, task-update_task,
    attempts-update_task, attempt-update_task, task-close_attempt, attempts-close_attempt,
    attempt-close_attempt,
  }

  pub finalize_failure-missing :
      (between : Db → Db) (db : Db)
      → task task_id db ≡ none
      → finalize_failure finished_at task_id attempt_id message retryable between db
        ≡ (raise (task_not_found (task_row task_id)), db)
  unfolding finalize_failure
  finalize_failure-missing between db missing = ground arith

  pub finalize_failure-late :
      (between : Db → Db) (db : Db) (row : Task)
      → task task_id db ≡ some row
      → has_status running row ≡ false
      → finalize_failure finished_at task_id attempt_id message retryable between db
        ≡ (raise (task_reclaimed task_id), db)
  unfolding finalize_failure
  finalize_failure-late between db row found late = ground arith

  pub finalize_failure-running :
      (between : Db → Db) (db : Db) (row : Task)
      → task task_id db ≡ some row
      → has_status running row ≡ true
      → finalize_failure finished_at task_id attempt_id message retryable between db
        ≡ record_failure finished_at task_id attempt_id message retryable row.retry_count
            row.max_retries
            (between db)
  unfolding finalize_failure
  finalize_failure-running between db row found runs = ground arith

  -- On every path the tables stay, or a row that is still RUNNING at the UPDATE is ended by the
  -- counts that the SELECT read.
  pub finalize_failure_db :
      (between : Db → Db) (db : Db)
      → let final =
          (finalize_failure finished_at task_id attempt_id message retryable between db).1 in
        (final ≡ db)
        ⊎ (final ≡ between db)
        ⊎ ((read row : Task) × (task task_id db ≡ some read)
            × (task task_id (between db) ≡ some row)
            × (has_status running row ≡ true)
            × Fails finished_at task_id attempt_id message retryable read.retry_count
                read.max_retries row
                (between db)
                final)
  finalize_failure_db between db = elim (Option-cases (task task_id db)) [
    | inl missing ↦ inl (ap (λ r. r.1) (finalize_failure-missing between db missing))
    | inr (read, found) ↦ elim (Bool-cases (has_status running read)) [
      | inr late ↦ inl (ap (λ r. r.1) (finalize_failure-late between db read found late))
      | inl runs ↦
          rw (finalize_failure-running between db read found runs)
            (elim (record_failure_cases finished_at task_id attempt_id message retryable
              read.retry_count read.max_retries (between db)) [
                | inl e ↦ inr (inl e)
                | inr (row, _, r, there, still) ↦ inr (inr (read, row, found, there, still, r))
              ])
    ]
  ]
