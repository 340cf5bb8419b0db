-- ===== src/Tests/Delivery.antt =====
-- A message on its way: a task is submitted and published, and its first worker is killed.
use task_mesh.Base.{◌≡◌, ◌⊎◌, refl, some, true, [], ◌∷◌}
use task_mesh.Text.{codes}
use task_mesh.Model.{Task, medium, queued}
use task_mesh.Settings.{defaults}
use task_mesh.Database.Memory.{memory}
use task_mesh.Tasks.{TaskCreate, new_task, create_task}
use task_mesh.Workers.Config.{CeleryConfig, celery_app}
use task_mesh.Delivery.{World, received, Run, start, next, submit, publish, receive, claim, die}
use task_mesh.Delivery.Covered.{is_covered, lists, Run-covered}
use task_mesh.Delivery.History.{Run-Trace}
use task_mesh.Lifecycle.Claim.{claim_task}
use task_mesh.Delivery.Lifecycle.{Step-lifecycle}
use task_mesh.System.Identity.{SameTask}
use task_mesh.System.Diagram.{Edge}
use task_mesh.System.Trace.{Trace}
use task_mesh.Tests.Data.{program, payload, w1}

abbrev celery : CeleryConfig
celery = celery_app defaults

abbrev body : TaskCreate
body = record { task_type = codes "echo"; payload = payload; priority = medium }

-- The worker that received the message is gone, and the message is back in its queue.
abbrev orphaned : World ⦃database = memory⦄ celery
orphaned = record {
  db = (create_task ⦃database = memory⦄ 7 1 body memory.empty).1;
  pending = 7 ∷ [];
  held = [];
  owed = [];
  passes = [];
}

to_orphaned : Run ⦃database = memory⦄ celery [] orphaned
unfolding program
to_orphaned =
    next (next (next (next start (submit 7 1 body)) (publish [] [] 7 refl)) (receive [] [] 7 refl))
      (die [] [] (record { task_id = 7; phase = received }) refl)

Run-covered_example :
    (is_covered ⦃database = memory⦄ celery 7 orphaned ≡ true) ⊎ (lists 7 [] ≡ true)
unfolding program
Run-covered_example =
    Run-covered ⦃database = memory⦄ defaults 7 (new_task 7 1 body) to_orphaned refl refl

Run-Trace_example : Trace ⦃database = memory⦄ memory.empty orphaned.db
Run-Trace_example = Run-Trace ⦃database = memory⦄ celery to_orphaned

-- The worker has the message, and claims the task.
abbrev held_world : World ⦃database = memory⦄ celery
held_world = record {
  db = (create_task ⦃database = memory⦄ 7 1 body memory.empty).1;
  pending = [];
  held = record { task_id = 7; phase = received } ∷ [];
  owed = [];
  passes = [];
}

to_held : Run ⦃database = memory⦄ celery [] held_world
unfolding program
to_held = next (next (next start (submit 7 1 body)) (publish [] [] 7 refl)) (receive [] [] 7 refl)

Step-lifecycle_example :
    (later : Task) × (memory.task 7
        (claim_task ⦃database = memory⦄ defaults 2 100 7 w1 held_world.db).1
      ≡ some later)
    × SameTask (new_task 7 1 body) later
    × ((later ≡ new_task 7 1 body) ⊎ Edge queued later.status)
unfolding program
Step-lifecycle_example =
    Step-lifecycle ⦃database = memory⦄ celery 7 (new_task 7 1 body) to_held
      (claim [] [] 7 defaults 2 100 w1 refl (λ h. cc)) refl
