-- ===== src/Lifecycle/Drain.antt =====
-- Delivering a task that keeps failing, again and again.
use task_mesh.Base.{
  ℕ, zero, suc, ◌+◌, ◌^◌, ◌≤◌, ◌<◌, ◌≡◌, ◌≢◌, refl, ap, ◌∙◌, none, some, List, [], ◌∷◌, arith, min,
  Option,
}
use task_mesh.Text.{Text}
use task_mesh.Model.{Uuid, Time, Task, queued, dead_letter}
use task_mesh.Settings.{Settings}
use task_mesh.Database.{Database}
use task_mesh.Database.Healthy.{IsHealthy}
use task_mesh.Execution.{retryable_error, JobExecutor}
use task_mesh.Errors.{Outcome, raise, task_execution_failed, task_retry_requested}
use task_mesh.Lifecycle.Retry.{uuid, safe_error_message}
use task_mesh.Lifecycle.Process.{LifecycleOutcome, process_task}
use task_mesh.Lifecycle.Budget.{alone, failed_row, process_task-Failed}

-- The exceptions that Celery sees: a request for each retry that is left, then a failure.
pub replies : Uuid → ℕ → Text → ℕ → ℕ → List (Outcome LifecycleOutcome)
replies task_id max_retries message count zero = raise (task_execution_failed message) ∷ []
replies task_id max_retries message count (suc left) =
    raise (
      task_retry_requested (record {
        task_id = task_id;
        retry_number = count + 1;
        countdown = min (2 ^ (count + 1)) 16;
        max_retries = max_retries;
        error_message = message;
      }))
    ∷ replies task_id max_retries message (count + 1) left

module _ ⦃database : Database⦄ (settings : Settings) (executor : JobExecutor) (worker : Text)
    (parse_uuid : Text → Option Uuid) (task_id : Uuid) (claimed_at finished_at : ℕ → Time)
    (attempt_id : ℕ → Uuid) where
  open database use {Db, task, attempt}

  -- `n` deliveries, one after the other, the first of them the `k`th.
  pub deliveries : ℕ → ℕ → Db → List (Outcome LifecycleOutcome) × Db
  deliveries k zero db = ([], db)
  deliveries k (suc n) db =
      let (r, db') =
        process_task settings executor worker (alone (claimed_at k) (finished_at k) (attempt_id k))
          parse_uuid (uuid task_id) db in
      let (rest, final) = deliveries (k + 1) n db' in (r ∷ rest, final)

  module _ {H : Db → Type 0} (healthy : IsHealthy H) (error : Text)
      (distinct : (j k : ℕ) → j < k → attempt_id j ≢ attempt_id k) where
    message : Text
    message = safe_error_message (retryable_error error)

    -- Where the deliveries end: dead-lettered, the budget used up, the message recorded.
    abbrev pub IsExhausted : ℕ → Db → Type 0
    IsExhausted max_retries db =
        (row : Task) × (task task_id db ≡ some row)
        × (row.status ≡ dead_letter)
        × (row.retry_count ≡ max_retries)
        × (row.last_error ≡ some (safe_error_message (retryable_error error)))

    -- A task whose job fails with a retryable error on every delivery, over a database that works
    -- and with nobody else at it, is delivered once for each retry that is left and once more. Each
    -- delivery but the last asks Celery for the next retry, with its number and delay; the last
    -- fails for good and leaves the task in DEAD_LETTER with its budget used up.
    pub deliveries-drain :
        (left k : ℕ) (row : Task) (db : Db)
        → H db
        → ((j : ℕ) → k ≤ j → attempt (attempt_id j) db ≡ none)
        → task task_id db ≡ some row
        → row.status ≡ queued
        → executor row.task_type row.payload ≡ some (retryable_error error)
        → row.retry_count + left ≡ row.max_retries
        → ((deliveries k (suc left) db).0
            ≡ replies task_id row.max_retries
                (safe_error_message (retryable_error error))
                row.retry_count
                left)
          × IsExhausted row.max_retries (deliveries k (suc left) db).1
    unfolding deliveries replies
    deliveries-drain zero k row db h unused found free raises e =
        let f =
          process_task-Failed settings executor worker parse_uuid task_id healthy error
            (claimed_at k) (finished_at k) (attempt_id k) db row h (unused k (omega arith)) found
            (rw free refl) raises in
        (
          ap (λ r. r ∷ []) (f.answered ∙ ground arith),
          (
            failed_row settings executor worker parse_uuid task_id healthy error (claimed_at k)
                (finished_at k) (attempt_id k) row,
            f.row_after,
            ground arith,
            ground arith,
            ground arith,
          ),
        )
    deliveries-drain (suc left) k row db h unused found free raises e =
        let f =
          process_task-Failed settings executor worker parse_uuid task_id healthy error
            (claimed_at k) (finished_at k) (attempt_id k) db row h (unused k (omega arith)) found
            (rw free refl) raises in
        let next : Task =
          failed_row settings executor worker parse_uuid task_id healthy error (claimed_at k)
            (finished_at k) (attempt_id k) row in
        let counted : next.retry_count ≡ row.retry_count + 1 = ground arith in
        let (rest, end) =
          deliveries-drain left (k + 1) next _ f.healthy_after
            (λ j later.
              f.unused_after (attempt_id j) (distinct k j (omega arith)) (unused j (omega arith)))
            f.row_after (ground arith) raises (omega arith) in
        (ground (arith, f.answered, rest, counted), end)
