-- ===== src/Tests/System.antt =====
-- A run of the system: a task is submitted, claimed and completed, and its second claim is skipped.
use task_mesh.Base.{◌≡◌, ◌++◌, refl, List, some}
use task_mesh.Text.{codes}
use task_mesh.Model.{Uuid, Task, TaskExecutionAttempt, medium, queued, running, has_status}
use task_mesh.Model.Validity.{IsValid}
use task_mesh.Settings.{defaults}
use task_mesh.Database.Memory.{Memory, memory}
use task_mesh.Tasks.{TaskCreate, new_task, create_task}
use task_mesh.Lifecycle.Claim.{claim_task}
use task_mesh.Lifecycle.Complete.{complete_task}
use task_mesh.System.{Reach, here, submitted, claimed, completed}
use task_mesh.System.Trace.{Trace}
use task_mesh.System.Validity.{empty-IsSound}
use task_mesh.System.Attempts.{IsNumbered, ids}
use task_mesh.System.Refinement.{Reach-Trace}
use task_mesh.System.Correctness.{Reach-IsValid, Reach-final, Reach-history}
use task_mesh.Tests.Data.{program, payload, w1}

abbrev body : TaskCreate
body = record { task_type = codes "echo"; payload = payload; priority = medium }

abbrev begun : Memory
begun =
    (claim_task ⦃database = memory⦄ defaults 2 100 7 w1
      (create_task ⦃database = memory⦄ 7 1 body memory.empty).1).1

abbrev ended : Memory
ended = (complete_task ⦃database = memory⦄ 3 7 100 begun).1

to_begun : Reach ⦃database = memory⦄ memory.empty begun
to_begun = claimed defaults 2 100 7 w1 (submitted 7 1 body here)

to_ended : Reach ⦃database = memory⦄ begun ended
to_ended = completed 3 7 100 here

again : Reach ⦃database = memory⦄ ended (claim_task ⦃database = memory⦄ defaults 4 101 7 w1 ended).1
again = claimed defaults 4 101 7 w1 here

abbrev begun_row : Task
begun_row = record (new_task 7 1 body) {
  status = running;
  started_at = some 2;
  lease_expires_at = some 300000002;
}

abbrev ended_row : Task
ended_row = record (new_task 7 1 body) {
  status = task_mesh.Model.completed;
  started_at = some 2;
  completed_at = some 3;
}

Reach-Trace_example : Trace ⦃database = memory⦄ memory.empty begun
Reach-Trace_example = Reach-Trace ⦃database = memory⦄ to_begun (empty-IsSound ⦃database = memory⦄)

Reach-IsValid_example : IsValid begun_row
unfolding program
Reach-IsValid_example = Reach-IsValid ⦃database = memory⦄ 7 begun_row to_begun refl

to_ended_too : Reach ⦃database = memory⦄ memory.empty ended
to_ended_too = completed 3 7 100 to_begun

Reach-final_example :
    memory.task 7 (claim_task ⦃database = memory⦄ defaults 4 101 7 w1 ended).1 ≡ some ended_row
unfolding program
Reach-final_example = Reach-final ⦃database = memory⦄ 7 ended_row to_ended_too again refl refl

Reach-history_example :
    IsNumbered 1 (memory.attempts 7 begun)
    × ((rest : List Uuid) × (ids (memory.attempts 7 ended) ≡ ids (memory.attempts 7 begun) ++ rest))
Reach-history_example = Reach-history ⦃database = memory⦄ 7 to_begun to_ended
