-- ===== src/Tests/Monitoring.antt =====
-- The monitoring summary of a small table, and of three queues.
use task_mesh.Base.{ℕ, ◌+◌, ◌≡◌, ◌⊎◌, true, List, [], ◌∷◌, Option, none, some, length}
use task_mesh.Text.{Text, codes}
use task_mesh.Model.{TaskPriority, seconds}
use task_mesh.Database.Memory.{Memory, memory}
use task_mesh.Dispatcher.{queue_for_priority}
use task_mesh.Dispatcher.Memory.{messages}
use task_mesh.Monitoring.{Views, WorkerStatus, build_monitoring_summary, inspect_queues, no_queues}
use task_mesh.Monitoring.Laws.{Shows, inspect_queues_cases, build_monitoring_summary_cases}
use task_mesh.Model.Json.{Json, null}
use task_mesh.Monitoring.Inspection.{
  Inspector, inspect_workers, unknown_workers, or_empty, Lists, inspect_workers_cases,
}
use task_mesh.Tests.Data.{waiting, held}

abbrev no_workers : WorkerStatus
no_workers = record { available = true; count = 0; items = []; error = none }

-- The lengths of the queues that hold two messages.
abbrev depths : Text → Option ℕ
depths queue = some (length (messages queue ((codes "low", 7 ∷ []) ∷ (codes "high", 8 ∷ []) ∷ [])))

-- The task is claimed after the first statement.
abbrev seen : Views Memory
seen = record {
  grouping = waiting;
  staleness = held;
  window = held;
  recency = held;
  failure = held;
}

build_monitoring_summary_cases_example :
    ((build_monitoring_summary ⦃database = memory⦄
        (seconds 90)
        true
        no_workers
        (inspect_queues depths)
        seen).workers
      ≡ no_workers)
    × ((build_monitoring_summary ⦃database = memory⦄
          (seconds 90)
          true
          no_workers
          (inspect_queues depths)
          seen).queues
        ≡ inspect_queues depths)
    × Shows ⦃database = memory⦄ (seconds 90) seen (
        build_monitoring_summary ⦃database = memory⦄
          (seconds 90)
          true
          no_workers
          (inspect_queues depths)
          seen)
build_monitoring_summary_cases_example =
    build_monitoring_summary_cases ⦃database = memory⦄ (seconds 90) true no_workers
      (inspect_queues depths) seen

-- Two workers answer, and one of them holds a job.
abbrev two_workers : Inspector
two_workers = record {
  ping = some (some ((codes "w2", null) ∷ (codes "w1", null) ∷ []));
  active = some (some ((codes "w1", null ∷ []) ∷ []));
  reserved = some none;
}

inspect_workers_cases_example :
    ((ping : Option (List (Text × Json))) × (active reserved : Option (List (Text × List Json)))
      × (two_workers.ping ≡ some ping)
      × (two_workers.active ≡ some active)
      × (two_workers.reserved ≡ some reserved)
      × Lists (or_empty ping) (or_empty active) (or_empty reserved) (inspect_workers two_workers))
    ⊎ (inspect_workers two_workers ≡ unknown_workers)
      × ((two_workers.ping ≡ none) ⊎ (two_workers.active ≡ none) ⊎ (two_workers.reserved ≡ none))
inspect_workers_cases_example = inspect_workers_cases two_workers

inspect_queues_cases_example :
    ((inspect_queues depths).available ≡ true)
      × (depths (codes "high") ≡ some (inspect_queues depths).high)
      × (depths (codes "medium") ≡ some (inspect_queues depths).medium)
      × (depths (codes "low") ≡ some (inspect_queues depths).low)
      × ((inspect_queues depths).total
          ≡ (inspect_queues depths).high
            + (inspect_queues depths).medium
            + (inspect_queues depths).low)
    ⊎ (inspect_queues depths ≡ no_queues)
      × ((q : TaskPriority) × (depths (queue_for_priority q) ≡ none))
inspect_queues_cases_example = inspect_queues_cases depths
