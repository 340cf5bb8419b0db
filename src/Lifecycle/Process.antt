-- ===== src/Lifecycle/Process.antt =====
-- `process_task`: claim, execute, and record how it went. Other sessions may commit while the job
-- runs, and between the two statements of `_finalize_failure`.
pub mod Laws
use task_mesh.Base.{Bool, true, false, Option, none, some}
use task_mesh.Text.{Text}
use task_mesh.Model.{Uuid, Time}
use task_mesh.Settings.{Settings}
use task_mesh.Database.{Database}
use task_mesh.Execution.{JobError, execution_error, retryable_error, other_error, JobExecutor}
use task_mesh.Errors.{Outcome, ok, raise, RetryRequest, task_execution_failed, task_retry_requested}
use task_mesh.Lifecycle.Retry.{TaskId, parse_task_id, safe_error_message}
use task_mesh.Lifecycle.Claim.{Claimed, claim_task}
use task_mesh.Lifecycle.Complete.{complete_task}
use task_mesh.Lifecycle.Failure.{finalize_failure}

pub data LifecycleOutcome : Type 0 where
  completed skipped : LifecycleOutcome

-- `isinstance(exc, RetryableTaskExecutionError)`.
abbrev pub is_retryable : JobError → Bool
is_retryable (retryable_error message) = true
is_retryable _ = false

-- What one run meets from outside: the clock when it claims and when it finishes, the UUID of its
-- attempt, and what other sessions commit meanwhile.
pub record Surroundings (Db : Type 0) : Type 0 where
  pub claimed_at : Time
  pub finished_at : Time
  pub attempt_id : Uuid
  pub during_job : Db → Db
  pub during_failure : Db → Db

module _ ⦃database : Database⦄ (settings : Settings) (executor : JobExecutor)
    (worker_identifier : Text) (around : Surroundings database.Db) where
  open database use {Db}

  -- The raise that ends the `except` block.
  unfoldable pub raise_failure :
      Text → Outcome (Option RetryRequest) × Db → Outcome LifecycleOutcome × Db
  raise_failure message (raise e, db) = (raise e, db)
  raise_failure message (ok none, db) = (raise (task_execution_failed message), db)
  raise_failure message (ok (some request), db) = (raise (task_retry_requested request), db)

  unfoldable pub fail_job : Uuid → Uuid → JobError → Db → Outcome LifecycleOutcome × Db
  unfolding raise_failure
  fail_job task_id attempt_id exc db =
      let message = safe_error_message exc in
      raise_failure message (
        finalize_failure around.finished_at task_id attempt_id message (is_retryable exc)
          around.during_failure db)

  unfoldable pub report_completion : Outcome (Unit {0}) × Db → Outcome LifecycleOutcome × Db
  report_completion (raise e, db) = (raise e, db)
  report_completion (ok done, db) = (ok completed, db)

  unfoldable pub run_job : Uuid → Claimed → Db → Outcome LifecycleOutcome × Db
  unfolding fail_job report_completion
  run_job task_id claimed db = elim (executor claimed.task_type claimed.payload) [
    | some exc ↦ fail_job task_id claimed.attempt_id exc (around.during_job db)
    | none ↦
        report_completion
          (complete_task around.finished_at task_id claimed.attempt_id (around.during_job db))
  ]

  unfoldable pub after_claim : Uuid → Outcome (Option Claimed) × Db → Outcome LifecycleOutcome × Db
  unfolding run_job
  after_claim task_id (raise e, db) = (raise e, db)
  after_claim task_id (ok none, db) = (ok skipped, db)
  after_claim task_id (ok (some claimed), db) = run_job task_id claimed db

  unfoldable pub process_task : (Text → Option Uuid) → TaskId → Db → Outcome LifecycleOutcome × Db
  unfolding after_claim parse_task_id
  process_task parse_uuid task_id db = elim (parse_task_id parse_uuid task_id) [
    | raise e ↦ (raise e, db)
    | ok parsed_task_id ↦ after_claim parsed_task_id (
        claim_task settings around.claimed_at around.attempt_id parsed_task_id worker_identifier db)
  ]
