-- ===== src/Lifecycle/Complete/Laws.antt =====
-- What a completion returns and leaves behind, by the state of the task.
use mathlib.Core.Option
use task_mesh.Base.{
  ◌≡◌, refl, true, false, inl, inr, ◌⊎◌, ap, Bool-cases, Option-cases, none, some, map, arith, ◌==◌,
  if◌then◌else◌, ==→eq,
}
use task_mesh.Model.{Uuid, Time, Task, TaskExecutionAttempt, running, has_status}
use task_mesh.Database.{Database}
use task_mesh.Database.Healthy.{IsHealthy}
use task_mesh.Database.Rows.{assign, close_row}
use task_mesh.Errors.{ok, raise, task_not_found, attempt_row, task_reclaimed, database_error}
use task_mesh.Lifecycle.Complete.{complete_values, complete_task}

module _ ⦃database : Database⦄ (finished_at : Time) (task_id attempt_id : Uuid) where
  open database use {
    Db, task, attempts, attempt, commits, update_task, close_attempt, rowcount, task-update_task,
    attempts-update_task, attempt-update_task, task-close_attempt, attempts-close_attempt,
    attempt-close_attempt,
  }

  -- A committed completion of the row: COMPLETED, its attempt closed, and nothing else changed.
  pub record Completes (row : Task) (db final : Db) : Type 0 where
    pub rows_after :
        (j : Uuid)
        → task j final
          ≡ (if task_id == j then some (assign (complete_values finished_at) row) else task j db)
    pub attempts_after :
        (j : Uuid) → attempts j final ≡ map (close_row attempt_id finished_at none) (attempts j db)
    pub attempt_after :
        (k : Uuid)
        → attempt k final ≡ Option.map (close_row attempt_id finished_at none) (attempt k db)

  marked : Db → Db
  marked db = (update_task task_id (has_status running) (complete_values finished_at) db).1

  unfoldable pub stored : Db → Db
  unfolding marked
  stored db = close_attempt attempt_id finished_at none (marked db)

  pub stored-Completes :
      (db : Db) (row : Task)
      → task task_id db ≡ some row
      → has_status running row ≡ true
      → Completes row db (stored db)
  unfolding stored marked
  stored-Completes db row found runs =
      let values = complete_values finished_at in
      record {
        rows_after = λ j. ground (
          arith,
          task-close_attempt j attempt_id finished_at none (marked db),
          task-update_task j task_id (has_status running) values db,
          ==→eq task_id j,
        );
        attempts_after = λ j. rw (attempts-close_attempt, attempts-update_task) refl;
        attempt_after = λ k. rw (attempt-close_attempt, attempt-update_task) refl;
      }

  -- The guard: unless the task is there and RUNNING, the completion is refused and nothing is
  -- written.
  pub complete_task-late :
      (db : Db)
      → ((row : Task) → task task_id db ≡ some row → has_status running row ≡ false)
      → complete_task finished_at task_id attempt_id db ≡ (raise (task_reclaimed task_id), db)
  unfolding complete_task
  complete_task-late db late = elim (Option-cases (task task_id db)) [
    | inl missing ↦
        ground (arith, rowcount task_id (has_status running) (complete_values finished_at) db)
    | inr (row, found) ↦ ground (
      arith,
      late row found,
      rowcount task_id (has_status running) (complete_values finished_at) db,
    )
  ]

  pub complete_task-running :
      (db : Db) (row : Task) (a : TaskExecutionAttempt)
      → task task_id db ≡ some row
      → has_status running row ≡ true
      → attempt attempt_id db ≡ some a
      → complete_task finished_at task_id attempt_id db
        ≡ (if commits (stored db) then (ok tt, stored db) else (raise database_error, db))
  unfolding complete_task stored marked
  complete_task-running db row a found runs known = ground (
    arith,
    rowcount task_id (has_status running) (complete_values finished_at) db,
    attempt-update_task attempt_id task_id (has_status running) (complete_values finished_at) db,
  )

  pub complete_task-lost :
      (db : Db) (row : Task)
      → task task_id db ≡ some row
      → has_status running row ≡ true
      → attempt attempt_id db ≡ none
      → complete_task finished_at task_id attempt_id db ≡ (raise (task_not_found attempt_row), db)
  unfolding complete_task
  complete_task-lost db row found runs lost = ground (
    arith,
    rowcount task_id (has_status running) (complete_values finished_at) db,
    attempt-update_task attempt_id task_id (has_status running) (complete_values finished_at) db,
  )

  -- On every path a completion leaves the tables alone or completes a RUNNING row.
  pub complete_task_db :
      (db : Db)
      → ((complete_task finished_at task_id attempt_id db).1 ≡ db)
        ⊎ ((row : Task) × (task task_id db ≡ some row)
            × (has_status running row ≡ true)
            × Completes row db (complete_task finished_at task_id attempt_id db).1)
  complete_task_db db = elim (Option-cases (task task_id db)) [
    | inl missing ↦ inl (ap (λ r. r.1) (complete_task-late db (λ row found. ground arith)))
    | inr (row, found) ↦ elim (Bool-cases (has_status running row)) [
      | inr late ↦ inl (ap (λ r. r.1) (complete_task-late db (λ other same. ground (arith, late))))
      | inl runs ↦ elim (Option-cases (attempt attempt_id db)) [
        | inl lost ↦ inl (ap (λ r. r.1) (complete_task-lost db row found runs lost))
        | inr (a, known) ↦ elim (Bool-cases (commits (stored db))) [
          | inl through ↦ inr (
            row,
            found,
            runs,
            rw (complete_task-running db row a found runs known, through)
                (stored-Completes db row found runs),
          )
          | inr refused ↦ inl (rw (complete_task-running db row a found runs known, refused) refl)
        ]
      ]
    ]
  ]

  pub stored-Healthy : {H : Db → Type 0} (healthy : IsHealthy H) (db : Db) → H db → H (stored db)
  unfolding stored marked
  stored-Healthy healthy db h =
      healthy.after_close attempt_id finished_at none _
        (healthy.after_update task_id (has_status running) (complete_values finished_at) db h)
