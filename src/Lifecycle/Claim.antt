-- ===== src/Lifecycle/Claim.antt =====
-- `_claim_task`: one transaction that takes a QUEUED task and records an attempt.
pub mod Laws
pub mod Exclusive
use task_mesh.Base.{ℕ, ◌+◌, Bool, List, [], ◌∷◌, Option, none, some, ◌==◌, if◌then◌else◌, take, max}
use task_mesh.Text.{Text}
use task_mesh.Model.{Uuid, Time, seconds, Task, TaskExecutionAttempt, queued, running, has_status}
use task_mesh.Model.Json.{Fields}
use task_mesh.Settings.{Settings}
use task_mesh.Database.{Database}
use task_mesh.Database.Rows.{Values}
use task_mesh.Errors.{Outcome, ok, raise, task_not_found, task_row, commit}

-- The tuple that a successful claim returns.
pub record Claimed : Type 0 where
  pub attempt_id : Uuid
  pub task_type : Text
  pub payload : Fields

abbrev pub lease_end : Settings → Time → Time
lease_end settings claimed_at = claimed_at + seconds settings.task_lease_seconds

abbrev pub claim_values : Settings → Time → Values
claim_values settings claimed_at = record {
  status = some running;
  retry_count = none;
  started_at = some (some claimed_at);
  completed_at = some none;
  last_error = some none;
  lease_expires_at = some (some (lease_end settings claimed_at));
}

-- `COALESCE(MAX(attempt_number), 0) + 1`.
abbrev pub max_number : List TaskExecutionAttempt → ℕ
max_number [] = 0
max_number (a ∷ rest) = max a.attempt_number (max_number rest)

abbrev pub next_number : List TaskExecutionAttempt → ℕ
next_number rest = max_number rest + 1

abbrev pub new_attempt : Time → Uuid → Uuid → Text → ℕ → TaskExecutionAttempt
new_attempt claimed_at attempt_id task_id worker_identifier number = record {
  id = attempt_id;
  task_id = task_id;
  attempt_number = number;
  worker_identifier = some (take 255 worker_identifier);
  started_at = claimed_at;
  finished_at = none;
  error = none;
}

module _ ⦃database : Database⦄ (settings : Settings) (claimed_at : Time) (attempt_id task_id : Uuid)
    (worker_identifier : Text) where
  open database use {Db, task, attempts, update_task, insert_attempt}

  -- From the successful UPDATE to the COMMIT; `before` is where the transaction began.
  unfoldable pub record_attempt : Db → Db → Outcome (Option Claimed) × Db
  record_attempt before updated = elim (task task_id updated) [
    | none ↦ (raise (task_not_found (task_row task_id)), before)
    | some row ↦
        commit before
          (insert_attempt
            (new_attempt claimed_at attempt_id task_id worker_identifier
              (next_number (attempts task_id updated)))
            updated)
          (some
            (record { attempt_id = attempt_id; task_type = row.task_type; payload = row.payload }))
  ]

  -- The UPDATE matched no row: rolled back, and told apart by whether the task exists.
  unfoldable pub skip_claim : Db → Db → Outcome (Option Claimed) × Db
  skip_claim before updated = elim (task task_id updated) [
    | none ↦ (raise (task_not_found (task_row task_id)), before)
    | some row ↦ (ok none, before)
  ]

  unfoldable pub claim_task : Db → Outcome (Option Claimed) × Db
  unfolding record_attempt skip_claim
  claim_task db =
      let (rowcount, updated) =
        update_task task_id (has_status queued) (claim_values settings claimed_at) db in
      if rowcount == 1 then record_attempt db updated else skip_claim db updated
