-- ===== src/Workers/Laws.antt =====
-- What a delivery never does with the handlers that the program has.
use task_mesh.Base.{
  ◌≡◌, ◌⊎◌, inl, inr, refl, Bool, true, false, Option-cases, none, some, Option, arith, ℕ,
}
use task_mesh.Text.{Text}
use task_mesh.Model.{Uuid, Time}
use task_mesh.Settings.{Settings}
use task_mesh.Database.{Database}
use task_mesh.Execution.{JobError, execution_error, retryable_error, other_error, execute_job}
use task_mesh.Execution.Laws.{execute_job-ne-retryable}
use task_mesh.Errors.{Error, task_retry_requested, Outcome, ok, raise, RetryRequest}
use task_mesh.Lifecycle.Retry.{text, parse_task_id, safe_error_message}
use task_mesh.Lifecycle.Claim.{Claimed, claim_task}
use task_mesh.Lifecycle.Complete.{complete_task}
use task_mesh.Lifecycle.Failure.{failure_result, record_failure, finalize_failure}
use task_mesh.Lifecycle.Process as processing
use task_mesh.Lifecycle.Process.{
  Surroundings, LifecycleOutcome, is_retryable, raise_failure, report_completion, fail_job, run_job,
  process_task,
}
use task_mesh.Workers.{
  Delivery, CeleryRetry, returned, failed, worker_identifier, after_process, execute_task,
}

abbrev asks_retry : Error → Bool
asks_retry (task_retry_requested request) = true
asks_retry _ = false

abbrev asks : {A : Type 0} → Outcome A → Bool
asks (ok a) = false
asks (raise e) = asks_retry e

-- A failure that hands out a request for the retry, or raises one.
abbrev requests : Outcome (Option RetryRequest) → Bool
requests (ok none) = false
requests (ok (some request)) = true
requests (raise e) = asks_retry e

no_retry :
    (task_type : Text) (payload : task_mesh.Model.Json.Fields) (exc : JobError)
    → execute_job task_type payload ≡ some exc
    → is_retryable exc ≡ false
no_retry task_type payload (execution_error m) h = refl
no_retry task_type payload (retryable_error m) h =
    absurd (execute_job-ne-retryable task_type m payload h)
no_retry task_type payload (other_error m) h = refl

module _ ⦃database : Database⦄ where
  open database use {Db, task}

  claim_task-asks :
      (settings : Settings) (now : Time) (a i : Uuid) (worker : Text) (db : Db)
      → asks (claim_task settings now a i worker db).0 ≡ false
  unfolding claim_task
  claim_task-asks settings now a i worker db = ground arith

  complete_task-asks :
      (now : Time) (i a : Uuid) (db : Db) → asks (complete_task now i a db).0 ≡ false
  unfolding complete_task
  complete_task-asks now i a db = ground arith

  record_failure-requests :
      (now : Time) (i a : Uuid) (message : Text) (retry_count max_retries : ℕ) (db : Db)
      → requests (record_failure now i a message false retry_count max_retries db).0 ≡ false
  unfolding record_failure failure_result
  record_failure-requests now i a message retry_count max_retries db = ground arith

  finalize_failure-requests :
      (now : Time) (i a : Uuid) (message : Text) (between : Db → Db) (db : Db)
      → requests (finalize_failure now i a message false between db).0 ≡ false
  unfolding finalize_failure
  finalize_failure-requests now i a message between db = elim (Option-cases (task i db)) [
    | inl missing ↦ ground (arith, missing)
    | inr (row, found) ↦ ground (
      arith,
      found,
      record_failure-requests now i a message row.retry_count row.max_retries (between db),
    )
  ]

module _ ⦃database : Database⦄ (settings : Settings) (worker : Text)
    (around : Surroundings database.Db) where
  open database use {Db}

  raise_failure-asks :
      (message : Text) (r : Outcome (Option RetryRequest) × Db)
      → requests r.0 ≡ false
      → asks (raise_failure settings execute_job worker around message r).0 ≡ false
  unfolding raise_failure
  raise_failure-asks message (raise e, db) plain = plain
  raise_failure-asks message (ok none, db) plain = refl
  raise_failure-asks message (ok (some request), db) plain = cc

  report_completion-asks :
      (r : Outcome (Unit {0}) × Db)
      → asks r.0 ≡ false
      → asks (report_completion settings execute_job worker around r).0 ≡ false
  unfolding report_completion
  report_completion-asks (raise e, db) plain = plain
  report_completion-asks (ok done, db) plain = refl

  run_job-asks :
      (i : Uuid) (job : Claimed) (db : Db)
      → asks (run_job settings execute_job worker around i job db).0 ≡ false
  unfolding run_job fail_job
  run_job-asks i job db =
      let mid : Db = around.during_job db in
      elim (Option-cases (execute_job job.task_type job.payload)) [
        | inl returns ↦
            rw (returns, run_job)
              (report_completion-asks (complete_task around.finished_at i job.attempt_id mid)
                (complete_task-asks around.finished_at i job.attempt_id mid))
        | inr (exc, raises) ↦
            let message = safe_error_message exc in
            rw (raises, run_job, no_retry job.task_type job.payload exc raises)
              (raise_failure-asks message
                (finalize_failure around.finished_at i job.attempt_id message false
                  around.during_failure mid)
                (finalize_failure-requests around.finished_at i job.attempt_id message
                  around.during_failure mid))
      ]

  after_claim-asks :
      (i : Uuid) (r : Outcome (Option Claimed) × Db)
      → asks r.0 ≡ false
      → asks (processing.after_claim settings execute_job worker around i r).0 ≡ false
  unfolding processing.after_claim
  after_claim-asks i (raise e, db) plain = plain
  after_claim-asks i (ok none, db) plain = refl
  after_claim-asks i (ok (some job), db) plain = run_job-asks i job db

  process_task-asks :
      (parse_uuid : Text → Option Uuid) (s : Text) (db : Db)
      → asks (process_task settings execute_job worker around parse_uuid (text s) db).0 ≡ false
  unfolding process_task parse_task_id
  process_task-asks parse_uuid s db = elim (Option-cases (parse_uuid s)) [
    | inl bad ↦ rw (bad, process_task, parse_task_id) refl
    | inr (i, good) ↦
        rw (good, process_task, parse_task_id)
          (after_claim-asks i (claim_task settings around.claimed_at around.attempt_id i worker db)
            (claim_task-asks settings around.claimed_at around.attempt_id i worker db))
  ]

module _ ⦃database : Database⦄ {Queues : Type 0} (celery : CeleryRetry Queues) where
  open database use {Db}

  after_process-plain :
      (d : Delivery) (s : Queues) (r : Outcome LifecycleOutcome × Db)
      → asks r.0 ≡ false
      → let (end, db, s') = after_process celery d s r in
        (db ≡ r.1)
        × (s' ≡ s)
        × (((outcome : LifecycleOutcome) × (r.0 ≡ ok outcome) × (end ≡ returned))
            ⊎ ((e : Error) × (r.0 ≡ raise e) × (end ≡ failed e)))
  after_process-plain d s (ok outcome, db) plain = (refl, refl, inl (outcome, refl, refl))
  after_process-plain d s (raise (task_retry_requested request), db) plain = cc
  after_process-plain d s (raise e, db) plain = (refl, refl, inr (e, refl, refl))

  -- With the handlers that the program has no delivery is ever retried: whatever the message says and
  -- other sessions do, Celery's retry is not called and the queues stay. The task function returns when
  -- `process_task` does, and fails with the exception that `process_task` raises, and the database is as
  -- `process_task` leaves it.
  pub execute_task_cases :
      (settings : Settings) (parse_uuid : Text → Option Uuid) (around : Surroundings Db)
      (d : Delivery) (db : Db) (s : Queues)
      → let (outcome, final) =
          process_task settings execute_job
            (worker_identifier d.hostname)
            around
            parse_uuid
            (text d.task_id)
            db in
        let (end, db', s') = execute_task celery settings parse_uuid around d db s in
        (db' ≡ final)
        × (s' ≡ s)
        × (((done : LifecycleOutcome) × (outcome ≡ ok done) × (end ≡ returned))
            ⊎ ((e : Error) × (outcome ≡ raise e) × (end ≡ failed e)))
  unfolding execute_task
  execute_task_cases settings parse_uuid around d db s =
      after_process-plain d s
        (process_task settings execute_job (worker_identifier d.hostname) around parse_uuid
          (text d.task_id) db)
        (process_task-asks settings (worker_identifier d.hostname) around parse_uuid d.task_id db)
