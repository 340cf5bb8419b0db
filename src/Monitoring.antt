-- ===== src/Monitoring.antt =====
-- app/services/monitoring.py: the depths of the queues, the counts and lists that are read from the
-- database, and the summary, which degrades where the database cannot be read.
pub mod Counts
pub mod Inspection
pub mod Laws
use task_mesh.Base.{
  ℕ, ◌+◌, ◌-◌, Bool, true, false, ◌&&◌, ◌||◌, List, [], ◌∷◌, map, Option, none, some, ltb, leb,
  take, keep, length, if◌then◌else◌,
}
use task_mesh.Text.{Text, codes}
use task_mesh.Model.{
  Time, seconds, Task, TaskStatus, queued, running, completed, failed, dead_letter, same_status,
  has_status,
}
use task_mesh.Database.{Database}
use task_mesh.Tasks.{LoadedTask}
use task_mesh.Tasks.Listing.{load}
use task_mesh.Recovery.{count_stale_running}

pub record WorkerItem : Type 0 where
  pub identifier : Text
  pub active_tasks : ℕ
  pub reserved_tasks : ℕ

pub record WorkerStatus : Type 0 where
  pub available : Bool
  pub count : ℕ
  pub items : List WorkerItem
  pub error : Option Text

pub record QueueStatus : Type 0 where
  pub available : Bool
  pub high : ℕ
  pub medium : ℕ
  pub low : ℕ
  pub total : ℕ
  pub error : Option Text

pub record DatabaseStatus : Type 0 where
  pub available : Bool
  pub error : Option Text

pub record TaskCounts : Type 0 where
  pub queued : ℕ
  pub running : ℕ
  pub completed : ℕ
  pub failed : ℕ
  pub dead_letter : ℕ
  pub stale_running : ℕ

-- `per_minute` is `float(n)`, written as its number.
pub record ThroughputMetrics : Type 0 where
  pub window_seconds : ℕ
  pub completed : ℕ
  pub per_minute : ℕ

-- A `TaskRead` shows the columns of a row and counts its attempts: the loaded task stands for it.
pub record MonitoringSummary : Type 0 where
  pub database : DatabaseStatus
  pub workers : WorkerStatus
  pub queues : QueueStatus
  pub tasks : Option TaskCounts
  pub throughput : Option ThroughputMetrics
  pub recent_tasks : List LoadedTask
  pub recent_failures : List LoadedTask

abbrev pub monitoring_window_seconds : ℕ
monitoring_window_seconds = 60

-- `RedisQueueMonitor.inspect`, where `llen` is the client's, `none` if it raises.
abbrev pub no_queues : QueueStatus
no_queues = record {
  available = false;
  high = 0;
  medium = 0;
  low = 0;
  total = 0;
  error = some (codes "Queue monitoring unavailable");
}

unfoldable pub inspect_queues : (Text → Option ℕ) → QueueStatus
inspect_queues llen = elim (llen (codes "high")) [
  | none ↦ no_queues
  | some h ↦ elim (llen (codes "medium")) [
    | none ↦ no_queues
    | some m ↦ elim (llen (codes "low")) [
      | none ↦ no_queues
      | some l ↦ record {
        available = true;
        high = h;
        medium = m;
        low = l;
        total = h + m + l;
        error = none;
      }
    ]
  ]
]

-- The rows of `SELECT status, count(id) GROUP BY status`.
abbrev pub count_one : TaskStatus → List (TaskStatus × ℕ) → List (TaskStatus × ℕ)
count_one s [] = (s, 1) ∷ []
count_one s ((u, n) ∷ rest) =
    if same_status s u then (u, n + 1) ∷ rest else (u, n) ∷ count_one s rest

unfoldable pub group_by_status : List Task → List (TaskStatus × ℕ)
group_by_status [] = []
group_by_status (t ∷ ts) = count_one t.status (group_by_status ts)

-- `counts.get(s, 0)`.
abbrev pub count_of : TaskStatus → List (TaskStatus × ℕ) → ℕ
count_of s [] = 0
count_of s ((u, n) ∷ rest) = if same_status s u then n else count_of s rest

-- `Task.completed_at >= window_start`.
abbrev pub not_before : Time → Option Time → Bool
not_before start none = false
not_before start (some at) = leb start at

abbrev pub completed_since : Time → Task → Bool
completed_since start t = has_status completed t && not_before start t.completed_at

abbrev pub has_failed : Task → Bool
has_failed t = has_status failed t || has_status dead_letter t

pub record Metrics : Type 0 where
  pub task_counts : TaskCounts
  pub throughput : ThroughputMetrics
  pub recent_tasks : List LoadedTask
  pub recent_failures : List LoadedTask

-- The summary of what the queries gave, or of their failure.
abbrev pub summary_of : WorkerStatus → QueueStatus → Option Metrics → MonitoringSummary
summary_of workers queues none = record {
  database = record { available = false; error = some (codes "Database monitoring unavailable") };
  workers = workers;
  queues = queues;
  tasks = none;
  throughput = none;
  recent_tasks = [];
  recent_failures = [];
}
summary_of workers queues (some m) = record {
  database = record { available = true; error = none };
  workers = workers;
  queues = queues;
  tasks = some m.task_counts;
  throughput = some m.throughput;
  recent_tasks = m.recent_tasks;
  recent_failures = m.recent_failures;
}

-- The states of the database that the five statements see: other sessions may commit between them.
pub record Views (Db : Type 0) : Type 0 where
  pub grouping : Db
  pub staleness : Db
  pub window : Db
  pub recency : Db
  pub failure : Db

module _ ⦃database : Database⦄ (current_time : Time) where
  open database use {Db, rows, newest}

  abbrev pub window_start : Time
  window_start = current_time - seconds monitoring_window_seconds

  unfoldable pub read_metrics : Views Db → Metrics
  read_metrics views =
      let counts = group_by_status (rows views.grouping) in
      let done = length (keep (completed_since window_start) (rows views.window)) in
      record {
        task_counts = record {
          queued = count_of queued counts;
          running = count_of running counts;
          completed = count_of completed counts;
          failed = count_of failed counts;
          dead_letter = count_of dead_letter counts;
          stale_running = count_stale_running current_time views.staleness;
        };
        throughput = record {
          window_seconds = monitoring_window_seconds;
          completed = done;
          per_minute = done;
        };
        recent_tasks = map (load views.recency) (take 10 (newest (λ t. true) views.recency));
        recent_failures = map (load views.failure) (take 10 (newest has_failed views.failure));
      }

  -- `_query_task_metrics`: `none` where it raises, since a statement does, or since the window would
  -- start before the first moment of `datetime`. `reachable` tells whether every statement returns.
  unfoldable pub query_task_metrics : Bool → Views Db → Option Metrics
  query_task_metrics reachable views =
      if reachable && leb (seconds monitoring_window_seconds) current_time
      then some (read_metrics views)
      else none

  unfoldable pub build_monitoring_summary :
      Bool → WorkerStatus → QueueStatus → Views Db → MonitoringSummary
  build_monitoring_summary reachable workers queues views =
      summary_of workers queues (query_task_metrics reachable views)
