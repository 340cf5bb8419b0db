-- ===== src/Tests/Data.antt =====
-- Tables in memory, and the moments and names that the tests share.
use Prim.Native.Nat.{ℕ}
use task_mesh.Base.{refl, true, List, [], ◌∷◌, Option, none, some}
use task_mesh.Text.{Text, codes, same_text, strip, is_space, or_else}
use task_mesh.Model.{
  Uuid, Time, Task, TaskStatus, TaskExecutionAttempt, medium, queued, running, dead_letter,
}
use task_mesh.Model.Json.{Fields, field, end, string, get}
use task_mesh.Execution.{JobExecutor, retryable_error, handle_echo, execute_job}
use task_mesh.Database.Memory.{Memory, add_row, update_rows}
use task_mesh.Lifecycle.Retry.{retry_countdown, safe_error_message, parse_task_id}
use task_mesh.Lifecycle.Claim.{claim_task}
use task_mesh.Lifecycle.Complete.{complete_task}
use task_mesh.Lifecycle.Failure.{finalize_failure}
use task_mesh.Lifecycle.Process.{process_task}
use task_mesh.Recovery.{reclaim_one, recover_stale_tasks}
use task_mesh.Tasks.{create_task, requeue_dead_letter_task}

abbrev pub payload : Fields
payload = field (codes "message") (string (codes "hi")) end

abbrev pub row : TaskStatus → ℕ → Option Time → Task
row status retry_count lease = record {
  id = 7;
  task_type = codes "echo";
  payload = payload;
  priority = medium;
  status = status;
  retry_count = retry_count;
  max_retries = 3;
  created_at = 1;
  started_at = none;
  completed_at = none;
  last_error = none;
  lease_expires_at = lease;
}

abbrev pub tables : Task → List TaskExecutionAttempt → Memory
tables t runs = record { tasks = t ∷ []; keyed = (refl, tt); runs = runs; sound = true }

abbrev pub attempt : Uuid → ℕ → Option Time → TaskExecutionAttempt
attempt id number finished = record {
  id = id;
  task_id = 7;
  attempt_number = number;
  worker_identifier = some (codes "w1");
  started_at = 2;
  finished_at = finished;
  error = none;
}

-- A task that waits, and one that runs under a lease up to 50.
abbrev pub waiting : Memory
waiting = tables (row queued 0 none) []

abbrev pub held : Memory
held = tables (row running 0 (some 50)) (attempt 100 1 none ∷ [])

abbrev pub dead : Memory
dead = tables (row dead_letter 3 none) (attempt 100 1 (some 9) ∷ [])

-- A job that always asks for another try.
abbrev pub busy : JobExecutor
busy task_type fields = some (retryable_error (codes "busy"))

abbrev pub w1 : Text
w1 = codes "w1"

abbrev pub no_parse : Text → Option Uuid
no_parse s = none

-- What a test of the services computes with.
unfoldable pub program : Unit {0}
unfolding add_row update_rows create_task requeue_dead_letter_task claim_task complete_task
    finalize_failure retry_countdown safe_error_message parse_task_id process_task reclaim_one
    recover_stale_tasks execute_job handle_echo get strip is_space same_text or_else
program = tt
