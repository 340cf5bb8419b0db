-- ===== src/Lifecycle/Budget.antt =====
-- A job that keeps failing with a retryable error: how many deliveries it gets, and how it ends.
use task_mesh.Base.{
  ◌+◌, ◌^◌, ◌≡◌, ◌≢◌, refl, ap, ◌∙◌, true, none, some, arith, min, Bool-cases, inl, inr, ==_refl,
  ==_ne, ltb, if◌then◌else◌, Option,
}
use mathlib.Core.Option
use task_mesh.Text.{Text}
use task_mesh.Model.{Uuid, Time, Task, TaskExecutionAttempt, queued, has_status}
use task_mesh.Settings.{Settings}
use task_mesh.Database.{Database}
use task_mesh.Database.Healthy.{IsHealthy}
use task_mesh.Database.Rows.{assign}
use task_mesh.Execution.{retryable_error, JobExecutor}
use task_mesh.Errors.{Outcome, ok, raise, RetryRequest, task_execution_failed, task_retry_requested}
use task_mesh.Lifecycle.Retry.Laws.{retry_countdown-suc}
use task_mesh.Lifecycle.Retry.{uuid, parse_task_id, safe_error_message}
use task_mesh.Lifecycle.Claim.{claim_values}
use task_mesh.Lifecycle.Claim.Laws.{
  recorded, stored as claim_stored, stored-Claims as claim_stored-Claims,
  stored-Healthy as claim_stored-Healthy,
}
use task_mesh.Lifecycle.Failure.{failure_values, failure_result}
use task_mesh.Lifecycle.Failure.Laws.{
  stored as failure_stored, stored-Fails, stored-Healthy as failure_stored-Healthy,
  record_failure-running, failure_result-retry, failure_result-final,
}
use task_mesh.Lifecycle.Failure.Select.{finalize_failure-running}
use task_mesh.Lifecycle.Process.{Surroundings, LifecycleOutcome, process_task, raise_failure}
use task_mesh.Lifecycle.Process.Laws.{process_task-failure}

-- A delivery during which nobody else touches the database.
abbrev pub alone : {Db : Type 0} → Time → Time → Uuid → Surroundings Db
alone claimed_at finished_at attempt_id = record {
  claimed_at = claimed_at;
  finished_at = finished_at;
  attempt_id = attempt_id;
  during_job = λ db. db;
  during_failure = λ db. db;
}

-- One failing delivery with nobody else at work: of the task, whose row is `row`, at a healthy
-- state.
module _ ⦃database : Database⦄ (settings : Settings) (executor : JobExecutor) (worker : Text)
    (parse_uuid : Text → Option Uuid) (task_id : Uuid) {H : database.Db → Type 0}
    (healthy : IsHealthy H) (error : Text) (claimed_at finished_at : Time) (attempt_id : Uuid) where
  open database use {Db, task, attempt, commits}

  abbrev pub recorded_message : Text
  recorded_message = safe_error_message (retryable_error error)

  abbrev pub failed_row : Task → Task
  failed_row row =
      assign (failure_values recorded_message true row.retry_count row.max_retries)
        (assign (claim_values settings claimed_at) row)

  abbrev pub request : Task → RetryRequest
  request row = record {
    task_id = task_id;
    retry_number = row.retry_count + 1;
    countdown = min (2 ^ (row.retry_count + 1)) 16;
    max_retries = row.max_retries;
    error_message = recorded_message;
  }

  -- How the delivery ends.
  abbrev pub answer : Task → Outcome LifecycleOutcome
  answer row =
      if ltb row.retry_count row.max_retries
      then raise (task_retry_requested (request row))
      else raise (task_execution_failed recorded_message)

  pub record Failed (row : Task) (db : Db) (result : Outcome LifecycleOutcome × Db) : Type 0 where
    pub answered : result.0 ≡ answer row
    pub row_after : task task_id result.1 ≡ some (failed_row row)
    pub healthy_after : H result.1
    pub unused_after : (k : Uuid) → attempt_id ≢ k → attempt k db ≡ none → attempt k result.1 ≡ none

  failure_answer :
      (row : Task) (db : Db)
      → (raise_failure settings executor worker
          (alone claimed_at finished_at attempt_id)
          recorded_message
          (
            failure_result finished_at task_id attempt_id recorded_message true row.retry_count
                row.max_retries,
            db,
          )).0
        ≡ answer row
  unfolding raise_failure
  failure_answer row db = elim (Bool-cases (ltb row.retry_count row.max_retries)) [
    | inl more ↦
        let (c, e, f) =
          failure_result-retry finished_at task_id attempt_id recorded_message true row.retry_count
            row.max_retries more in
        ground (arith, e, f, retry_countdown-suc row.retry_count)
    | inr last ↦
        rw
          (
            failure_result-final finished_at task_id attempt_id recorded_message true
                row.retry_count row.max_retries last,
            last,
          )
          refl
  ]

  raise_failure-db :
      (r : Outcome (Option RetryRequest)) (db : Db)
      → (raise_failure settings executor worker
          (alone claimed_at finished_at attempt_id)
          recorded_message
          (r, db)).1
        ≡ db
  unfolding raise_failure
  raise_failure-db (raise e) db = refl
  raise_failure-db (ok none) db = refl
  raise_failure-db (ok (some request)) db = refl

  pub process_task-Failed :
      (db : Db) (row : Task)
      → H db
      → attempt attempt_id db ≡ none
      → task task_id db ≡ some row
      → has_status queued row ≡ true
      → executor row.task_type row.payload ≡ some (retryable_error error)
      → Failed row db (
          process_task settings executor worker
            (alone claimed_at finished_at attempt_id)
            parse_uuid
            (uuid task_id)
            db)
  unfolding parse_task_id
  process_task-Failed db row h fresh found free raises =
      let held : Db = claim_stored settings claimed_at attempt_id task_id worker db in
      let h' : H held =
        claim_stored-Healthy settings claimed_at attempt_id task_id worker healthy db h fresh in
      let claims =
        claim_stored-Claims settings claimed_at attempt_id task_id worker db row found free
          (healthy.commits_all held h') in
      let final : Db =
        failure_stored finished_at task_id attempt_id recorded_message true row.retry_count
          row.max_retries held in
      let h'' : H final =
        failure_stored-Healthy finished_at task_id attempt_id recorded_message true healthy
          row.retry_count row.max_retries held h' in
      let taken : Task = assign (claim_values settings claimed_at) row in
      let a : TaskExecutionAttempt = recorded settings claimed_at attempt_id task_id worker db in
      let there : task task_id held ≡ some taken =
        rw (==_refl task_id) at (claims.rows_after task_id) in
      let known : attempt attempt_id held ≡ some a =
        rw (==_refl attempt_id) at (claims.attempt_after attempt_id) in
      let fails =
        stored-Fails finished_at task_id attempt_id recorded_message true row.retry_count
          row.max_retries held taken there refl in
      let result =
        failure_result finished_at task_id attempt_id recorded_message true row.retry_count
          row.max_retries in
      rw
        (process_task-failure settings executor worker (alone claimed_at finished_at attempt_id)
          parse_uuid (uuid task_id) task_id refl db row found free (healthy.commits_all held h')
          (retryable_error error) raises)
        (rw
          (finalize_failure-running finished_at task_id attempt_id recorded_message true (λ db. db)
            held taken there refl)
          (rw
            (
              record_failure-running finished_at task_id attempt_id recorded_message true
                  row.retry_count row.max_retries held taken a there refl known,
              healthy.commits_all final h'',
            )
            (record {
              answered = failure_answer row final;
              row_after =
                  rw (raise_failure-db result final)
                    (rw (==_refl task_id) at (fails.rows_after task_id));
              healthy_after = rw (raise_failure-db result final) h'';
              unused_after = λ k other unused. rw (raise_failure-db result final) (
                  fails.attempt_after k
                  ∙ ap (Option.map _)
                      (rw (==_ne attempt_id k other) at (claims.attempt_after k) ∙ unused));
            })))
