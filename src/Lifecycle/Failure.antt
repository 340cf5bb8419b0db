-- ===== src/Lifecycle/Failure.antt =====
-- `_finalize_failure`: a SELECT, a decision, and an UPDATE that is guarded again. Between the two
-- statements other sessions may commit, which `between` stands for.
pub mod Laws
pub mod Select
pub mod Cases
use task_mesh.Base.{ℕ, ◌+◌, Bool, true, false, ◌&&◌, Option, none, some, ◌==◌, ltb, if◌then◌else◌}
use task_mesh.Text.{Text}
use task_mesh.Model.{Uuid, Time, Task, TaskStatus, queued, running, failed, dead_letter, has_status}
use task_mesh.Database.{Database}
use task_mesh.Database.Rows.{Values}
use task_mesh.Errors.{
  Outcome, ok, raise, RetryRequest, task_not_found, task_row, attempt_row, task_reclaimed, commit,
  database_error,
}
use task_mesh.Lifecycle.Retry.{retry_countdown}

-- `retryable and retry_count < max_retries`.
abbrev pub retry_requested : Bool → ℕ → ℕ → Bool
retry_requested retryable retry_count max_retries = retryable && ltb retry_count max_retries

abbrev pub new_retry_count : Bool → ℕ → ℕ → ℕ
new_retry_count retryable retry_count max_retries =
    if retry_requested retryable retry_count max_retries then retry_count + 1 else retry_count

abbrev pub new_status : Bool → ℕ → ℕ → TaskStatus
new_status retryable retry_count max_retries =
    if retry_requested retryable retry_count max_retries
    then queued
    else if retryable
    then dead_letter
    else failed

-- `message` is the error, and the counts are those that the SELECT read.
abbrev pub failure_values : Text → Bool → ℕ → ℕ → Values
failure_values message retryable retry_count max_retries = record {
  status = some (new_status retryable retry_count max_retries);
  retry_count = some (new_retry_count retryable retry_count max_retries);
  started_at = none;
  completed_at = some none;
  last_error = some (some message);
  lease_expires_at = some none;
}

-- The row of a SELECT with `Task.status == RUNNING`.
abbrev pub running_row : Option Task → Option Task
running_row none = none
running_row (some row) = if has_status running row then some row else none

module _ ⦃database : Database⦄ (finished_at : Time) (task_id attempt_id : Uuid) (message : Text)
    (retryable : Bool) where
  open database use {Db, task, attempt, update_task, close_attempt, commits}

  -- After the COMMIT: the request that makes Celery retry.
  unfoldable pub request_retry : ℕ → ℕ → Outcome (Option RetryRequest)
  request_retry retry_number max_retries = elim (retry_countdown retry_number) [
    | raise e ↦ raise e
    | ok countdown ↦ ok (
        some (record {
          task_id = task_id;
          retry_number = retry_number;
          countdown = countdown;
          max_retries = max_retries;
          error_message = message;
        }))
  ]

  unfoldable pub failure_result : ℕ → ℕ → Outcome (Option RetryRequest)
  unfolding request_retry
  failure_result retry_count max_retries =
      if retry_requested retryable retry_count max_retries
      then request_retry (new_retry_count retryable retry_count max_retries) max_retries
      else ok none

  -- From the UPDATE on, with the counts that the SELECT read.
  unfoldable pub record_failure : ℕ → ℕ → Db → Outcome (Option RetryRequest) × Db
  unfolding failure_result
  record_failure retry_count max_retries db =
      let (rowcount, updated) =
        update_task task_id (has_status running)
          (failure_values message retryable retry_count max_retries) db in
      if rowcount == 1
      then elim (attempt attempt_id updated) [
        | none ↦ (raise (task_not_found attempt_row), db)
        | some row ↦
            let final = close_attempt attempt_id finished_at (some message) updated in
            if commits final
            then (failure_result retry_count max_retries, final)
            else (raise database_error, db)
      ]
      else (raise (task_reclaimed task_id), db)

  unfoldable pub finalize_failure : (Db → Db) → Db → Outcome (Option RetryRequest) × Db
  unfolding record_failure
  finalize_failure between db = elim (running_row (task task_id db)) [
    | none ↦ elim (task task_id db) [
      | none ↦ (raise (task_not_found (task_row task_id)), db)
      | some row ↦ (raise (task_reclaimed task_id), db)
    ]
    | some row ↦ record_failure row.retry_count row.max_retries (between db)
  ]
