-- ===== src/Lifecycle/Failure/Laws.antt =====
-- What the end of a failed job returns and leaves behind, by the state of the task.
use mathlib.Core.Option
use task_mesh.Base.{
  ℕ, ◌+◌, ◌<◌, ◌≤◌, ◌≡◌, refl, true, false, inl, inr, ap, Bool-cases, Option-cases, none, some, map,
  arith, ◌==◌, if◌then◌else◌, ==→eq,
}
use task_mesh.Base.{Bool, ◌⊎◌}
use task_mesh.Text.{Text}
use task_mesh.Model.{
  Uuid, Time, Task, TaskExecutionAttempt, queued, failed, dead_letter, running, has_status,
}
use task_mesh.Database.{Database}
use task_mesh.Database.Healthy.{IsHealthy}
use task_mesh.Database.Rows.{assign, close_row}
use task_mesh.Errors.{ok, raise, task_not_found, attempt_row, task_reclaimed, database_error}
use task_mesh.Lifecycle.Retry.{retry_countdown}
use task_mesh.Lifecycle.Retry.Laws.{retry_countdown_bounds}
use task_mesh.Lifecycle.Failure.{
  retry_requested, new_status, new_retry_count, failure_values, failure_result, record_failure,
}

-- The decision: a retryable failure with budget left goes back to QUEUED and uses one retry; with
-- none left it is dead-lettered; any other failure is FAILED. The budget is never exceeded.
pub new_status_cases :
    (retryable : Bool) (retry_count max_retries : ℕ)
    → retry_count ≤ max_retries
    → let status = new_status retryable retry_count max_retries in
      let count = new_retry_count retryable retry_count max_retries in
      ((retryable ≡ true)
        × (retry_count < max_retries)
        × (status ≡ queued)
        × (count ≡ retry_count + 1))
      ⊎ ((retryable ≡ true)
          × (retry_count ≡ max_retries)
          × (status ≡ dead_letter)
          × (count ≡ retry_count))
      ⊎ ((retryable ≡ false) × (status ≡ failed) × (count ≡ retry_count))
new_status_cases true rc mr h = ground arith
new_status_cases false rc mr h = ground arith

module _ ⦃database : Database⦄ (finished_at : Time) (task_id attempt_id : Uuid) (message : Text)
    (retryable : Bool) where
  open database use {
    Db, task, attempts, attempt, commits, update_task, close_attempt, rowcount, task-update_task,
    attempts-update_task, attempt-update_task, task-close_attempt, attempts-close_attempt,
    attempt-close_attempt,
  }

  -- The committed end of a failed job, decided from the counts `retry_count` and `max_retries`.
  pub record Fails (retry_count max_retries : ℕ) (row : Task) (db final : Db) : Type 0 where
    pub rows_after :
        (j : Uuid)
        → task j final ≡ (
            if task_id == j
            then some (assign (failure_values message retryable retry_count max_retries) row)
            else task j db)
    pub attempts_after :
        (j : Uuid)
        → attempts j final ≡ map (close_row attempt_id finished_at (some message)) (attempts j db)
    pub attempt_after :
        (k : Uuid)
        → attempt k final
          ≡ Option.map (close_row attempt_id finished_at (some message)) (attempt k db)

  module _ (retry_count max_retries : ℕ) where
    marked : Db → Db
    marked db =
        (update_task task_id (has_status running)
          (failure_values message retryable retry_count max_retries) db).1

    unfoldable pub stored : Db → Db
    unfolding marked
    stored db = close_attempt attempt_id finished_at (some message) (marked db)

    pub stored-Fails :
        (db : Db) (row : Task)
        → task task_id db ≡ some row
        → has_status running row ≡ true
        → Fails retry_count max_retries row db (stored db)
    unfolding stored marked
    stored-Fails db row found runs =
        let values = failure_values message retryable retry_count max_retries in
        record {
          rows_after = λ j. ground (
            arith,
            task-close_attempt j attempt_id finished_at (some message) (marked db),
            task-update_task j task_id (has_status running) values db,
            ==→eq task_id j,
          );
          attempts_after = λ j. rw (attempts-close_attempt, attempts-update_task) refl;
          attempt_after = λ k. rw (attempt-close_attempt, attempt-update_task) refl;
        }

    -- The second guard: the task left RUNNING between the two statements.
    pub record_failure-late :
        (db : Db)
        → ((row : Task) → task task_id db ≡ some row → has_status running row ≡ false)
        → record_failure finished_at task_id attempt_id message retryable retry_count max_retries db
          ≡ (raise (task_reclaimed task_id), db)
    unfolding record_failure
    record_failure-late db late =
        let count =
          rowcount task_id (has_status running)
            (failure_values message retryable retry_count max_retries) db in
        elim (Option-cases (task task_id db)) [
          | inl missing ↦ ground (arith, count)
          | inr (row, found) ↦ ground (arith, late row found, count)
        ]

    pub record_failure-running :
        (db : Db) (row : Task) (a : TaskExecutionAttempt)
        → task task_id db ≡ some row
        → has_status running row ≡ true
        → attempt attempt_id db ≡ some a
        → record_failure finished_at task_id attempt_id message retryable retry_count max_retries db
          ≡ (if commits (stored db)
              then (
                failure_result finished_at task_id attempt_id message retryable retry_count
                    max_retries,
                stored db,
              )
              else (raise database_error, db))
    unfolding record_failure stored marked
    record_failure-running db row a found runs known = ground (
      arith,
      rowcount task_id (has_status running)
          (failure_values message retryable retry_count max_retries) db,
      attempt-update_task attempt_id task_id (has_status running)
          (failure_values message retryable retry_count max_retries) db,
    )

    pub record_failure-lost :
        (db : Db) (row : Task)
        → task task_id db ≡ some row
        → has_status running row ≡ true
        → attempt attempt_id db ≡ none
        → record_failure finished_at task_id attempt_id message retryable retry_count max_retries db
          ≡ (raise (task_not_found attempt_row), db)
    unfolding record_failure
    record_failure-lost db row found runs lost = ground (
      arith,
      rowcount task_id (has_status running)
          (failure_values message retryable retry_count max_retries) db,
      attempt-update_task attempt_id task_id (has_status running)
          (failure_values message retryable retry_count max_retries) db,
    )

    -- With budget left the request carries the new count and its delay.
    pub failure_result-retry :
        retry_requested retryable retry_count max_retries ≡ true
        → (c : ℕ) × (retry_countdown (retry_count + 1) ≡ ok c)
          × (failure_result finished_at task_id attempt_id message retryable retry_count max_retries
              ≡ ok (
                  some (record {
                    task_id = task_id;
                    retry_number = retry_count + 1;
                    countdown = c;
                    max_retries = max_retries;
                    error_message = message;
                  })))
    unfolding failure_result
    failure_result-retry more =
        let (c, e, _, _) = retry_countdown_bounds (retry_count + 1) (omega arith) in
        (c, e, ground (arith, e, more))

    pub failure_result-final :
        retry_requested retryable retry_count max_retries ≡ false
        → failure_result finished_at task_id attempt_id message retryable retry_count max_retries
          ≡ ok none
    unfolding failure_result
    failure_result-final last = ground (arith, last)

  -- On every path the tables stay, or the RUNNING row is ended and the decision returned.
  pub record_failure_cases :
      (retry_count max_retries : ℕ) (db : Db)
      → let (result, final) =
          record_failure finished_at task_id attempt_id message retryable retry_count max_retries
            db in
        (final ≡ db)
        ⊎ ((row : Task) × (result
              ≡ failure_result finished_at task_id attempt_id message retryable retry_count
                  max_retries)
            × Fails retry_count max_retries row db final
            × (task task_id db ≡ some row)
            × (has_status running row ≡ true))
  record_failure_cases rc mr db = elim (Option-cases (task task_id db)) [
    | inl missing ↦ inl (ap (λ r. r.1) (record_failure-late rc mr db (λ row found. ground arith)))
    | inr (row, found) ↦ elim (Bool-cases (has_status running row)) [
      | inr late ↦
          inl (ap (λ r. r.1) (record_failure-late rc mr db (λ other same. ground (arith, late))))
      | inl runs ↦ elim (Option-cases (attempt attempt_id db)) [
        | inl lost ↦ inl (ap (λ r. r.1) (record_failure-lost rc mr db row found runs lost))
        | inr (a, known) ↦ elim (Bool-cases (commits (stored rc mr db))) [
          | inl through ↦ inr (
              rw (record_failure-running rc mr db row a found runs known, through)
                (row, refl, stored-Fails rc mr db row found runs, found, runs))
          | inr refused ↦
              inl (rw (record_failure-running rc mr db row a found runs known, refused) refl)
        ]
      ]
    ]
  ]

  pub stored-Healthy :
      {H : Db → Type 0} (healthy : IsHealthy H) (retry_count max_retries : ℕ) (db : Db)
      → H db
      → H (stored retry_count max_retries db)
  unfolding stored marked
  stored-Healthy healthy rc mr db h = healthy.after_close attempt_id finished_at (some message) _ (
      healthy.after_update task_id (has_status running) (failure_values message retryable rc mr) db
        h)
