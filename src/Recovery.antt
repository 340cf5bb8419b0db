-- ===== src/Recovery.antt =====
-- app/services/recovery.py: reclaiming RUNNING tasks whose lease has expired. Logging is left out;
-- the delay that the log line computes never raises, since a requeued task has used a retry.
pub mod Laws
pub mod Once
pub mod Scan
use task_mesh.Base.{
  ℕ, ◌+◌, Bool, true, false, List, [], ◌∷◌, ◌++◌, map, Option, none, some, ◌==◌, ltb, if◌then◌else◌,
  keep, length,
}
use task_mesh.Text.{Text, codes}
use task_mesh.Model.{
  Uuid, Time, Task, TaskExecutionAttempt, TaskStatus, TaskPriority, medium, queued, dead_letter,
  is_stale, is_open, same_status,
}
use task_mesh.Database.{Database}
use task_mesh.Database.Rows.{Values}
use task_mesh.Errors.{Outcome, ok, raise, commit}
use task_mesh.Dispatcher.{Dispatcher}

abbrev pub stale_lease_error : Text
stale_lease_error = codes "Execution lease expired; worker presumed lost"

pub record ReclaimedTask : Type 0 where
  pub task_id : Uuid
  pub outcome : TaskStatus
  pub retry_count : ℕ
  pub redispatched : Bool

abbrev pub reclaim_status : ℕ → ℕ → TaskStatus
reclaim_status retry_count max_retries = if ltb retry_count max_retries then queued else dead_letter

abbrev pub reclaim_count : ℕ → ℕ → ℕ
reclaim_count retry_count max_retries =
    if ltb retry_count max_retries then retry_count + 1 else retry_count

abbrev pub reclaim_values : ℕ → ℕ → Values
reclaim_values retry_count max_retries = record {
  status = some (reclaim_status retry_count max_retries);
  retry_count = some (reclaim_count retry_count max_retries);
  started_at = some none;
  completed_at = some none;
  last_error = some (some stale_lease_error);
  lease_expires_at = some none;
}

-- The row of a SELECT with the staleness clauses.
abbrev pub stale_row : Time → Option Task → Option Task
stale_row now none = none
stale_row now (some row) = if is_stale now row then some row else none

-- `ORDER BY attempt_number DESC LIMIT 1` on rows in ascending order.
abbrev pub last_row : List TaskExecutionAttempt → Option TaskExecutionAttempt
last_row [] = none
last_row (a ∷ rest) = elim (last_row rest) [ none ↦ some a | some b ↦ some b ]

abbrev pub open_attempt : List TaskExecutionAttempt → Option TaskExecutionAttempt
open_attempt rest = last_row (keep is_open rest)

module _ ⦃database : Database⦄ (now : Time) where
  open database use {Db, rows, task, attempts, update_task, close_attempt}

  unfoldable pub close_open : Option TaskExecutionAttempt → Db → Db
  close_open none updated = updated
  close_open (some a) updated = close_attempt a.id now (some stale_lease_error) updated

  -- From the UPDATE on, with the counts that the SELECT read.
  unfoldable pub record_reclaim : Uuid → ℕ → ℕ → Db → Outcome (Option ReclaimedTask) × Db
  unfolding close_open
  record_reclaim task_id retry_count max_retries db =
      let (rowcount, updated) =
        update_task task_id (is_stale now) (reclaim_values retry_count max_retries) db in
      if rowcount == 1
      then commit db (close_open (open_attempt (attempts task_id updated)) updated) (
          some (record {
            task_id = task_id;
            outcome = reclaim_status retry_count max_retries;
            retry_count = reclaim_count retry_count max_retries;
            redispatched = false;
          }))
      else (ok none, db)

  -- `_reclaim_one`. Between its SELECT and its UPDATE other sessions may commit: `between`.
  unfoldable pub reclaim_one : Uuid → (Db → Db) → Db → Outcome (Option ReclaimedTask) × Db
  unfolding record_reclaim
  reclaim_one task_id between db = elim (stale_row now (task task_id db)) [
    | none ↦ (ok none, db)
    | some row ↦ record_reclaim task_id row.retry_count row.max_retries (between db)
  ]

  -- `count_stale_running`.
  unfoldable pub count_stale_running : Db → ℕ
  count_stale_running db = length (keep (is_stale now) (rows db))

  -- The scan of `recover_stale_tasks`.
  unfoldable pub candidate_ids : Db → List Uuid
  candidate_ids db = map (λ t. t.id) (keep (is_stale now) (rows db))

-- What other sessions commit while one recovery runs: before a task's SELECT, between its SELECT and
-- its UPDATE, and before its priority is read.
pub record Others (Db : Type 0) : Type 0 where
  pub arriving : Uuid → Db → Db
  pub between : Uuid → Db → Db
  pub leaving : Uuid → Db → Db

-- `priority or TaskPriority.MEDIUM`, where the row may be gone.
abbrev pub priority_or_medium : Option Task → TaskPriority
priority_or_medium none = medium
priority_or_medium (some row) = row.priority

module _ ⦃database : Database⦄ {Queues : Type 0} (now : Time) (dispatcher : Dispatcher Queues)
    (others : Others database.Db) where
  open database use {Db, task}

  -- A requeued task is published; a failed publication leaves it QUEUED.
  unfoldable pub redispatch : ReclaimedTask → Db → Queues → ReclaimedTask × Queues
  redispatch result db s =
      if same_status queued result.outcome
      then (let (sent, s') =
            dispatcher result.task_id (priority_or_medium (task result.task_id db)) s in
          (record result { redispatched = sent }, s'))
      else (result, s)

  -- The body of the loop behind `_reclaim_one`.
  unfoldable pub after_reclaim :
      Uuid
      → List ReclaimedTask
      → Queues
      → Outcome (Option ReclaimedTask) × Db
      → Outcome (List ReclaimedTask) × Db × Queues
  unfolding redispatch
  after_reclaim i done s (raise e, db) = (raise e, db, s)
  after_reclaim i done s (ok none, db) = (ok done, db, s)
  after_reclaim i done s (ok (some result), db) =
      let left = others.leaving i db in
      let (final, s') = redispatch result left s in (ok (done ++ final ∷ []), left, s')

  unfoldable pub recover_each :
      List Uuid → List ReclaimedTask → Db → Queues → Outcome (List ReclaimedTask) × Db × Queues
  unfolding after_reclaim
  recover_each [] done db s = (ok done, db, s)
  recover_each (i ∷ rest) done db s =
      let (r, db', s') =
        after_reclaim i done s (reclaim_one now i (others.between i) (others.arriving i db)) in
      elim r [ raise e ↦ (raise e, db', s') | ok done' ↦ recover_each rest done' db' s' ]

  unfoldable pub recover_stale_tasks : Db → Queues → Outcome (List ReclaimedTask) × Db × Queues
  unfolding recover_each
  recover_stale_tasks db s = recover_each (candidate_ids now db) [] db s
