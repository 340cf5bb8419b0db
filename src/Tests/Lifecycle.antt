-- ===== src/Tests/Lifecycle.antt =====
-- One delivery, one failure, one recovery.
use Prim.Native.Nat.{ℕ}
use task_mesh.Base.{◌≡◌, ◌↔◌, ◌≤◌, ◌+◌, refl, ap, true, [], ◌∷◌, none, some, arith, length}
use task_mesh.Text.{codes, is_nonempty}
use task_mesh.Settings.{defaults}
use task_mesh.Execution.{other_error, retryable_error, execute_job}
use task_mesh.Errors.{ok, raise, task_reclaimed}
use task_mesh.Database.Memory.{Memory, memory}
use task_mesh.Database.Memory.Health.{memory-IsHealthy}
use task_mesh.Lifecycle.Retry.{uuid, safe_error_message}
use task_mesh.Lifecycle.Retry.Laws.{safe_error_message_bounds}
use task_mesh.Lifecycle.Claim.{claim_task}
use task_mesh.Lifecycle.Complete.{complete_task}
use task_mesh.Lifecycle.Complete.Superseded.{complete_task-superseded}
use task_mesh.Lifecycle.Process.{Surroundings, process_task, completed}
use task_mesh.Lifecycle.Process.Laws.{process_task-success, process_task-late}
use task_mesh.Lifecycle.Budget.{alone}
use task_mesh.Lifecycle.Claim.Laws.{ClaimCases, claim_task_cases, stored}
use task_mesh.Lifecycle.Complete.Laws.{stored as complete_stored}
use task_mesh.Model.{Task, running, queued}
use task_mesh.Lifecycle.Claim.Exclusive.{claim_task-claim_task}
use task_mesh.Lifecycle.Failure.Cases.{FailureEnds, finalize_failure_cases}
use task_mesh.Lifecycle.Drain.{deliveries, replies, deliveries-drain}
use task_mesh.Dispatcher.{Dispatcher}
use task_mesh.Recovery.{reclaim_one, recover_stale_tasks, count_stale_running}
use task_mesh.Recovery.Scan.{quiet, recover_stale_tasks-clears}
use task_mesh.Recovery.Once.{reclaim_one-reclaim_one}
use task_mesh.Execution.Laws.{HasMessage, execute_job_iff}
use task_mesh.Tests.Data.{payload, busy, program, row, tables, attempt, waiting, held, w1, no_parse}

safe_error_message_bounds_example :
    (is_nonempty (safe_error_message (other_error (codes "KeyError"))) ≡ true)
    × (length (safe_error_message (other_error (codes "KeyError"))) ≤ 2000)
safe_error_message_bounds_example = safe_error_message_bounds (other_error (codes "KeyError"))

-- The task claimed, and the first worker's late completion on top of the second claim.
abbrev after_claim : Memory
after_claim = (claim_task ⦃database = memory⦄ defaults 5 101 7 w1 waiting).1

abbrev finished : Memory
finished = (complete_task ⦃database = memory⦄ 8 7 101 after_claim).1

abbrev taken : Task
taken = record (row running 0 (some 300000005)) { started_at = some 5 }

-- A worker whose task is requeued while it runs.
abbrev overtaken : Surroundings Memory
overtaken = record {
  claimed_at = 5;
  finished_at = 8;
  attempt_id = 101;
  during_job = λ db. tables (row queued 1 none) db.runs;
  during_failure = λ db. db;
}

abbrev quiet_between : Memory → Memory
quiet_between db = db

abbrev reclaimed : Memory
reclaimed = (reclaim_one ⦃database = memory⦄ 60 7 quiet_between held).1

-- A dispatcher that always succeeds, and counts.
abbrev sends : Dispatcher ℕ
sends task_id priority n = (true, n + 1)

abbrev requeued : Memory
requeued = tables (row queued 1 none) (attempt 100 1 (some 4) ∷ [])

abbrev superseded : Memory
superseded =
    (complete_task ⦃database = memory⦄ 8 7 100
      (claim_task ⦃database = memory⦄ defaults 5 101 7 w1 requeued).1).1

claim_task-claim_task_example :
    claim_task ⦃database = memory⦄ defaults 9 102 7 w1 after_claim ≡ (ok none, after_claim)
unfolding program
claim_task-claim_task_example =
    claim_task-claim_task ⦃database = memory⦄ defaults defaults 5 9 101 102 7 w1 w1 waiting _ refl

claim_task_cases_example : ClaimCases ⦃database = memory⦄ defaults 5 101 7 w1 waiting
claim_task_cases_example = claim_task_cases ⦃database = memory⦄ defaults 5 101 7 w1 waiting

process_task-success_example :
    process_task ⦃database = memory⦄ defaults execute_job w1
      (alone 5 8 101)
      no_parse
      (uuid 7)
      waiting
    ≡ (ok completed, finished)
unfolding program stored complete_stored
process_task-success_example =
    (process_task-success ⦃database = memory⦄ defaults execute_job w1 (alone 5 8 101) no_parse
      (uuid 7) 7 refl waiting (row queued 0 none) refl refl refl taken
      (record (attempt 101 1 none) { started_at = 5 }) refl refl refl refl refl).0

process_task-late_example :
    (process_task ⦃database = memory⦄ defaults execute_job w1 overtaken no_parse (uuid 7) waiting).0
    ≡ raise (task_reclaimed 7)
unfolding program stored
process_task-late_example =
    ap (λ r. r.0)
      (process_task-late ⦃database = memory⦄ defaults execute_job w1 overtaken no_parse (uuid 7) 7
        refl waiting (row queued 0 none) refl refl refl refl (λ later e. ground arith))

complete_task-superseded_example :
    complete_task ⦃database = memory⦄ 11 7 101 superseded ≡ (raise (task_reclaimed 7), superseded)
unfolding program
complete_task-superseded_example =
    (complete_task-superseded ⦃database = memory⦄ defaults w1 5 8 11 7 100 101 memory-IsHealthy
      requeued (row queued 1 none) (attempt 100 1 (some 4)) refl refl refl refl refl refl).4

finalize_failure_cases_example :
    FailureEnds ⦃database = memory⦄ 9 7 100 (codes "busy") true quiet_between held
finalize_failure_cases_example =
    finalize_failure_cases ⦃database = memory⦄ 9 7 100 (codes "busy") true quiet_between held

deliveries-drain_example :
    (deliveries ⦃database = memory⦄ defaults busy w1 no_parse 7
      (λ k. k)
      (λ k. k)
      (λ k. 200 + k)
      0
      4
      waiting).0
    ≡ replies 7 3 (safe_error_message (retryable_error (codes "busy"))) 0 3
unfolding program
deliveries-drain_example =
    (deliveries-drain ⦃database = memory⦄ defaults busy w1 no_parse 7 (λ k. k) (λ k. k)
      (λ k. 200 + k) memory-IsHealthy (codes "busy") (λ j k lt e. omega arith) 3 0
      (row queued 0 none) waiting refl (λ j le. refl) refl refl refl refl).0

recover_stale_tasks-clears_example :
    count_stale_running ⦃database = memory⦄ 60
      (recover_stale_tasks ⦃database = memory⦄ 60 sends quiet held 0).1
    ≡ 0
unfolding program
recover_stale_tasks-clears_example =
    (recover_stale_tasks-clears ⦃database = memory⦄ 60 sends memory-IsHealthy held 0 refl).2

reclaim_one-reclaim_one_example :
    reclaim_one ⦃database = memory⦄ 70 7 quiet_between reclaimed ≡ (ok none, reclaimed)
unfolding program
reclaim_one-reclaim_one_example =
    (reclaim_one-reclaim_one ⦃database = memory⦄ 60 70 7 held _ refl).1

execute_job_iff_example :
    (execute_job (codes "echo") payload ≡ none)
    ↔ ((codes "echo" ≡ codes "echo") × HasMessage payload)
execute_job_iff_example = execute_job_iff (codes "echo") payload
