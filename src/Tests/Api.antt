-- ===== src/Tests/Api.antt =====
-- Requests to the endpoints, and pages of a table of three tasks.
use task_mesh.Base.{ℕ, ◌≡◌, ◌≤◌, ◌↔◌, ◌++◌, refl, arith, true, List, [], ◌∷◌, none, some, length}
use task_mesh.Text.{codes}
use task_mesh.Model.{Task, low, medium, queued, dead_letter}
use task_mesh.Database.Memory.{Memory, memory}
use task_mesh.Database.Rows.{find_task}
use task_mesh.Database.Order.{newest_first}
use task_mesh.Base.Sorting.{sorted, insert}
use task_mesh.Dispatcher.{queue_for_priority, dispatch}
use task_mesh.Dispatcher.Memory.{local_broker, characters, messages}
use task_mesh.Tasks.{TaskCreate, new_task}
use task_mesh.Tasks.Laws.{Creates}
use task_mesh.Tasks.Listing.{Filters, list_tasks}
use task_mesh.Tasks.Listing.Laws.{
  rows_of, IsWanted, list_tasks-pages, list_tasks-ordered, list_tasks_complete,
}
use task_mesh.Api.{success, submit_task, requeue_task, redispatch_task, run_stale_running_recovery}
use task_mesh.Api.Laws.{
  SubmitCases, submit_task_cases, RequeueCases, requeue_task_cases, RedispatchCases,
  redispatch_task_cases, submit_task-delivers,
}
use task_mesh.Api.Recovery.{result_of, run_stale_running_recovery-twice}
use task_mesh.Errors.{ok}
use task_mesh.Recovery.{ReclaimedTask, recover_stale_tasks, count_stale_running}
use task_mesh.Recovery.Scan.{quiet}
use task_mesh.Database.Memory.Health.{memory-IsHealthy}
use task_mesh.Tests.Data.{program, payload, row, waiting, dead, held}

abbrev body : TaskCreate
body = record { task_type = codes "echo"; payload = payload; priority = low }

abbrev numbered : ℕ → ℕ → Task
numbered id created_at = record (row queued 0 none) { id = id; created_at = created_at }

abbrev three : Memory
three = record {
  tasks = numbered 1 5 ∷ numbered 2 9 ∷ numbered 3 5 ∷ [];
  keyed = (refl, (refl, (refl, tt)));
  runs = [];
  sound = true;
}

abbrev all : Filters
all = record { priority = none; task_status = none; task_type = none }

abbrev dead_only : Filters
dead_only = record { priority = none; task_status = some dead_letter; task_type = none }

-- The two of the same moment by their ids.
newest_three :
    rows_of (list_tasks ⦃database = memory⦄ 0 2 all three) ≡ numbered 2 9 ∷ numbered 3 5 ∷ []
unfolding list_tasks sorted insert
newest_three = refl

list_tasks-pages_example :
    let both =
      list_tasks ⦃database = memory⦄ 0 1 all three
      ++ list_tasks ⦃database = memory⦄ 1 1 all three in
    (both ≡ list_tasks ⦃database = memory⦄ 0 2 all three) × (newest_first (rows_of both) ≡ true)
list_tasks-pages_example = list_tasks-pages ⦃database = memory⦄ 0 1 1 all three

list_tasks-ordered_example :
    (length (list_tasks ⦃database = memory⦄ 0 2 all three) ≤ 2)
    × (newest_first (rows_of (list_tasks ⦃database = memory⦄ 0 2 all three)) ≡ true)
list_tasks-ordered_example = list_tasks-ordered ⦃database = memory⦄ 0 2 all three

list_tasks_complete_example :
    (find_task 3 (rows_of (list_tasks ⦃database = memory⦄ 0 3 dead_only three))
      ≡ some (numbered 3 5))
    ↔ ((memory.task 3 three ≡ some (numbered 3 5))
        × IsWanted dead_only.priority medium
        × IsWanted dead_only.task_status queued
        × IsWanted dead_only.task_type (numbered 3 5).task_type)
list_tasks_complete_example =
    list_tasks_complete ⦃database = memory⦄ 3 dead_only 3 (numbered 3 5) three (omega arith)

submit_task_cases_example :
    SubmitCases ⦃database = memory⦄
      (dispatch ⦃broker = local_broker⦄ characters)
      8
      1
      body
      waiting
      []
      (submit_task ⦃database = memory⦄
        (dispatch ⦃broker = local_broker⦄ characters)
        8
        1
        body
        waiting
        [])
submit_task_cases_example =
    submit_task_cases ⦃database = memory⦄ (dispatch ⦃broker = local_broker⦄ characters) 8 1 body
      waiting []

submit_task-delivers_example :
    Creates ⦃database = memory⦄
      (new_task 8 1 body)
      waiting
      (submit_task ⦃database = memory⦄
        (dispatch ⦃broker = local_broker⦄ characters)
        8
        1
        body
        waiting
        []).1
    × (messages
          (queue_for_priority low)
          (submit_task ⦃database = memory⦄
            (dispatch ⦃broker = local_broker⦄ characters)
            8
            1
            body
            waiting
            []).2
        ≡ (8 ∷ []) ∷ [])
unfolding program submit_task dispatch queue_for_priority
submit_task-delivers_example =
    submit_task-delivers ⦃database = memory⦄ ⦃broker = local_broker⦄ characters 8 1 body low waiting
      [] refl

requeue_task_cases_example :
    RequeueCases ⦃database = memory⦄
      (dispatch ⦃broker = local_broker⦄ characters)
      7
      (λ u. u)
      dead
      []
      (requeue_task ⦃database = memory⦄
        (dispatch ⦃broker = local_broker⦄ characters)
        7
        (λ u. u)
        (λ u. u)
        dead
        [])
requeue_task_cases_example =
    requeue_task_cases ⦃database = memory⦄ (dispatch ⦃broker = local_broker⦄ characters) 7 (λ u. u)
      dead []

redispatch_task_cases_example :
    RedispatchCases ⦃database = memory⦄ (dispatch ⦃broker = local_broker⦄ characters) 7 waiting [] (
      redispatch_task ⦃database = memory⦄
        (dispatch ⦃broker = local_broker⦄ characters)
        7
        waiting
        [])
redispatch_task_cases_example =
    redispatch_task_cases ⦃database = memory⦄ (dispatch ⦃broker = local_broker⦄ characters) 7
      waiting []

run_stale_running_recovery-twice_example :
    let (r, db', s') =
      run_stale_running_recovery ⦃database = memory⦄
        (dispatch ⦃broker = local_broker⦄ characters)
        60
        quiet
        held
        [] in
    ((found : List ReclaimedTask) × ((recover_stale_tasks ⦃database = memory⦄ 60
          (dispatch ⦃broker = local_broker⦄ characters)
          quiet
          held
          []).0
        ≡ ok found)
      × (r ≡ success 200 (record { reclaimed_count = length found; reclaimed = found })))
    × (count_stale_running ⦃database = memory⦄ 60 db' ≡ 0)
    × (run_stale_running_recovery ⦃database = memory⦄
          (dispatch ⦃broker = local_broker⦄ characters)
          60
          quiet
          db'
          s'
        ≡ (success 200 (result_of []), db', s'))
run_stale_running_recovery-twice_example =
    run_stale_running_recovery-twice ⦃database = memory⦄ 60
      (dispatch ⦃broker = local_broker⦄ characters) memory-IsHealthy held [] refl
