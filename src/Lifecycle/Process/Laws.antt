-- ===== src/Lifecycle/Process/Laws.antt =====
-- How one delivery ends, by what the claim, the job and the other sessions do.
use task_mesh.Base.{◌≡◌, refl, ==_refl, true, false, Option, none, some}
use task_mesh.Text.{Text}
use task_mesh.Model.{Uuid, Task, TaskExecutionAttempt, queued, running, has_status}
use task_mesh.Settings.{Settings}
use task_mesh.Database.{Database}
use task_mesh.Execution.{JobError, JobExecutor}
use task_mesh.Errors.{ok, raise, invalid_task_id, task_reclaimed}
use task_mesh.Lifecycle.Retry.{TaskId, parse_task_id, safe_error_message}
use task_mesh.Lifecycle.Claim.Laws.{
  stored as claim_stored, claimed_of, claim_task-free, claim_task-busy,
}
use task_mesh.Lifecycle.Complete.Laws.{
  Completes, stored as complete_stored, stored-Completes, complete_task-running, complete_task-late,
}
use task_mesh.Lifecycle.Failure.{finalize_failure}
use task_mesh.Lifecycle.Process.{
  Surroundings, completed, skipped, is_retryable, process_task, run_job, raise_failure,
}

module _ ⦃database : Database⦄ (settings : Settings) (executor : JobExecutor) (worker : Text)
    (around : Surroundings database.Db) (parse_uuid : Text → Option Uuid) (given : TaskId) where
  open database use {Db, task, attempt, commits}

  -- A message that holds no UUID is refused before the database is asked.
  pub process_task-invalid :
      (db : Db)
      → parse_task_id parse_uuid given ≡ raise invalid_task_id
      → process_task settings executor worker around parse_uuid given db
        ≡ (raise invalid_task_id, db)
  unfolding process_task
  process_task-invalid db e = rw (e, process_task) refl

  module _ (task_id : Uuid) (parsed : parse_task_id parse_uuid given ≡ ok task_id) where
    -- A duplicate delivery: whatever the job would do, it is not run.
    pub process_task-busy :
        (db : Db) (row : Task)
        → task task_id db ≡ some row
        → has_status queued row ≡ false
        → process_task settings executor worker around parse_uuid given db ≡ (ok skipped, db)
    unfolding process_task
    process_task-busy db row found busy =
        rw (parsed, process_task)
          (rw
            (claim_task-busy settings around.claimed_at around.attempt_id task_id worker db row
              found busy)
            refl)

    module _ (db : Db) (row : Task) (found : task task_id db ≡ some row)
        (free : has_status queued row ≡ true)
        (through : commits
            (claim_stored settings around.claimed_at around.attempt_id task_id worker db)
          ≡ true) where
      -- The state after the claim.
      abbrev pub held : Db
      held = claim_stored settings around.claimed_at around.attempt_id task_id worker db

      pub process_task-run :
          process_task settings executor worker around parse_uuid given db
          ≡ run_job settings executor worker around task_id
              (claimed_of settings around.claimed_at around.attempt_id task_id worker row)
              held
      unfolding process_task
      process_task-run =
          rw (parsed, process_task)
            (rw
              (
                claim_task-free settings around.claimed_at around.attempt_id task_id worker db row
                    found free,
                through,
              )
              refl)

      -- A QUEUED task is claimed and its job returns. If the task is RUNNING then, the attempt of the
      -- claim is there, and both COMMITs go through, the run reports completion, and the row is
      -- COMPLETED at that moment, with neither error nor lease and otherwise as it was; the attempt is
      -- closed without an error, and no other row changes.
      pub process_task-success :
          (later : Task) (a : TaskExecutionAttempt)
          → executor row.task_type row.payload ≡ none
          → task task_id (around.during_job held) ≡ some later
          → has_status running later ≡ true
          → attempt around.attempt_id (around.during_job held) ≡ some a
          → let final =
              complete_stored around.finished_at task_id around.attempt_id
                (around.during_job held) in
            commits final ≡ true
            → (process_task settings executor worker around parse_uuid given db
                ≡ (ok completed, final))
              × (task task_id final
                  ≡ some (record later {
                    status = task_mesh.Model.completed;
                    completed_at = some around.finished_at;
                    last_error = none;
                    lease_expires_at = none;
                  }))
              × Completes around.finished_at task_id around.attempt_id later
                  (around.during_job held)
                  final
      unfolding process_task
      process_task-success later a returns there runs known done = (
        rw (process_task-run, run_job, returns)
            (rw
              (
                complete_task-running around.finished_at task_id around.attempt_id
                    (around.during_job held) later a there runs known,
                done,
              )
              refl),
        rw (==_refl task_id) at (
            (stored-Completes around.finished_at task_id around.attempt_id (around.during_job held)
                later there runs).rows_after
              task_id),
        stored-Completes around.finished_at task_id around.attempt_id (around.during_job held) later
            there runs,
      )

      -- The job returns, but meanwhile the task left RUNNING: the late completion is refused and
      -- writes nothing.
      pub process_task-late :
          executor row.task_type row.payload ≡ none
          → ((later : Task)
              → task task_id (around.during_job held) ≡ some later
              → has_status running later ≡ false)
          → process_task settings executor worker around parse_uuid given db
            ≡ (raise (task_reclaimed task_id), around.during_job held)
      unfolding process_task
      process_task-late returns late =
          rw (process_task-run, run_job, returns)
            (rw
              (complete_task-late around.finished_at task_id around.attempt_id
                (around.during_job held) late)
              refl)

      -- The job raises: what `_finalize_failure` gives for the recorded message, turned into the
      -- exception that Celery sees.
      pub process_task-failure :
          (exc : JobError)
          → executor row.task_type row.payload ≡ some exc
          → process_task settings executor worker around parse_uuid given db
            ≡ raise_failure settings executor worker around (safe_error_message exc) (
                finalize_failure around.finished_at task_id around.attempt_id
                  (safe_error_message exc)
                  (is_retryable exc)
                  around.during_failure
                  (around.during_job held))
      unfolding process_task
      process_task-failure exc raises = rw (process_task-run, run_job, raises) refl
