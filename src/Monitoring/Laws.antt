-- ===== src/Monitoring/Laws.antt =====
-- What the monitoring summary shows of the tables.
use task_mesh.Base.{
  ℕ, ◌+◌, ◌≡◌, ◌≤◌, refl, sym, ap, ◌∙◌, Bool, true, false, ◌&&◌, List, [], ◌∷◌, Option, zero, suc,
  take, none, some, arith, length, keep, Bool-cases, Option-cases, ◌⊎◌, inl, inr, leb,
  if◌then◌else◌,
}
use task_mesh.Model.{
  Uuid, TaskPriority, high, medium, low, Time, seconds, Task, queued, running, completed, failed,
  dead_letter, has_status, is_stale,
}
use task_mesh.Text.{Text, codes}
use task_mesh.Dispatcher.{queue_for_priority}
use task_mesh.Database.{Database}
use task_mesh.Database.Rows.{find_task}
use task_mesh.Database.Order.{newest_first, passing-some}
use task_mesh.Recovery.{count_stale_running}
use task_mesh.Tasks.Listing.{Filters, list_tasks, page_rows}
use task_mesh.Tasks.Listing.Laws.{rows_of, rows_of-load, page-ordered}
use task_mesh.Monitoring.{
  Views, has_failed, summary_of, inspect_queues, no_queues, WorkerStatus, QueueStatus, TaskCounts,
  ThroughputMetrics, MonitoringSummary, completed_since, window_start, monitoring_window_seconds,
  read_metrics, query_task_metrics, build_monitoring_summary,
}
use task_mesh.Monitoring.Counts.{count_of-group_by_status, statuses_total, length-keep_imp}

find-take :
    (j : Uuid) (t : Task) (n : ℕ) (ts : List Task)
    → find_task j (take n ts) ≡ some t
    → find_task j ts ≡ some t
find-take j t zero ts h = cc
find-take j t (suc n) [] h = cc
find-take j t (suc n) (u ∷ us) h = ground (arith, find-take j t n us)

abbrev pub no_filters : Filters
no_filters = record { priority = none; task_status = none; task_type = none }

module _ ⦃database : Database⦄ (current_time : Time) where
  open database use {Db, rows, task, task-rows, newest, find-newest}

  -- What the summary shows of the states that its statements see.
  pub record Shows (views : Views Db) (m : MonitoringSummary) : Type 0 where
    pub counts : TaskCounts
    pub throughput : ThroughputMetrics
    pub is_available : m.database.available ≡ true
    pub shows_counts : m.tasks ≡ some counts
    pub shows_throughput : m.throughput ≡ some throughput
    pub queued_rows : counts.queued ≡ length (keep (has_status queued) (rows views.grouping))
    pub running_rows : counts.running ≡ length (keep (has_status running) (rows views.grouping))
    pub completed_rows :
        counts.completed ≡ length (keep (has_status completed) (rows views.grouping))
    pub failed_rows : counts.failed ≡ length (keep (has_status failed) (rows views.grouping))
    pub dead_rows :
        counts.dead_letter ≡ length (keep (has_status dead_letter) (rows views.grouping))
    pub counts_rows :
        counts.queued + counts.running + counts.completed + counts.failed + counts.dead_letter
        ≡ length (rows views.grouping)
    pub stale_bound :
        counts.stale_running ≤ length (keep (has_status running) (rows views.staleness))
    pub throughput_bound :
        throughput.completed ≤ length (keep (has_status completed) (rows views.window))
    pub recent : m.recent_tasks ≡ list_tasks 0 10 no_filters views.recency
    pub failures :
        (j : Uuid) (t : Task)
        → find_task j (rows_of m.recent_failures) ≡ some t
        → (task j views.failure ≡ some t) × (has_failed t ≡ true)
    pub failures_ordered :
        (length m.recent_failures ≤ 10) × (newest_first (rows_of m.recent_failures) ≡ true)

  abbrev pub IsDegraded : MonitoringSummary → Type 0
  IsDegraded m =
      (m.database.available ≡ false)
      × (m.tasks ≡ none)
      × (m.throughput ≡ none)
      × (m.recent_tasks ≡ [])
      × (m.recent_failures ≡ [])

  shown_failures :
      (views : Views Db) (j : Uuid) (t : Task)
      → find_task j (rows_of (read_metrics current_time views).recent_failures) ≡ some t
      → (task j views.failure ≡ some t) × (has_failed t ≡ true)
  unfolding read_metrics
  shown_failures views j t h =
      let db = views.failure in
      let page = take 10 (newest has_failed db) in
      let listed = sym (ap (find_task j) (rows_of-load db page)) ∙ h in
      let passes =
        sym (find-newest j has_failed db) ∙ find-take j t 10 (newest has_failed db) listed in
      let (found, bad) = passing-some has_failed t (find_task j (rows db)) passes in
      (task-rows j db ∙ found, bad)

  ordered_failures :
      (views : Views Db)
      → let failures = (read_metrics current_time views).recent_failures in
        (length failures ≤ 10) × (newest_first (rows_of failures) ≡ true)
  unfolding read_metrics
  ordered_failures views = page-ordered 10 has_failed views.failure

  summary-Shows :
      (workers : WorkerStatus) (queues : QueueStatus) (views : Views Db)
      → Shows views (summary_of workers queues (some (read_metrics current_time views)))
  unfolding read_metrics list_tasks page_rows count_stale_running
  summary-Shows workers queues views = record {
    counts = (read_metrics current_time views).task_counts;
    throughput = (read_metrics current_time views).throughput;
    is_available = refl;
    shows_counts = refl;
    shows_throughput = refl;
    queued_rows = count_of-group_by_status queued (rows views.grouping);
    running_rows = count_of-group_by_status running (rows views.grouping);
    completed_rows = count_of-group_by_status completed (rows views.grouping);
    failed_rows = count_of-group_by_status failed (rows views.grouping);
    dead_rows = count_of-group_by_status dead_letter (rows views.grouping);
    counts_rows =
        rw
          (
            count_of-group_by_status queued (rows views.grouping),
            count_of-group_by_status running (rows views.grouping),
            count_of-group_by_status completed (rows views.grouping),
            count_of-group_by_status failed (rows views.grouping),
            count_of-group_by_status dead_letter (rows views.grouping),
          )
          (statuses_total (rows views.grouping));
    stale_bound =
        length-keep_imp (is_stale current_time) (has_status running) (rows views.staleness)
          (λ t h. ground arith);
    throughput_bound =
        length-keep_imp (completed_since (window_start current_time)) (has_status completed)
          (rows views.window) (λ t h. ground arith);
    recent = refl;
    failures = shown_failures views;
    failures_ordered = ordered_failures views;
  }

  -- The summary shows the workers and queues as they were found, whatever the database does. If a
  -- statement raises, or the clock is within a minute of its first moment, it says that the database is
  -- not available and shows neither counts nor tasks. Otherwise, each by the state that its statement
  -- sees: the five counts are the numbers of rows with each status, and add up to the number of rows; at
  -- most the RUNNING tasks are stale; at most the COMPLETED ones are in the throughput; the recent tasks
  -- are the first page of ten of the task list; the recent failures are at most ten, newest first, and
  -- each is a row of the table that is FAILED or in DEAD_LETTER.
  pub build_monitoring_summary_cases :
      (reachable : Bool) (workers : WorkerStatus) (queues : QueueStatus) (views : Views Db)
      → let m = build_monitoring_summary current_time reachable workers queues views in
        (m.workers ≡ workers)
        × (m.queues ≡ queues)
        × (if reachable && leb (seconds monitoring_window_seconds) current_time
            then Shows views m
            else IsDegraded m)
  unfolding build_monitoring_summary query_task_metrics
  build_monitoring_summary_cases reachable workers queues views =
      elim (Bool-cases (reachable && leb (seconds monitoring_window_seconds) current_time)) [
        | inr down ↦ rw down (refl, refl, (refl, refl, refl, refl, refl))
        | inl up ↦ rw up (refl, refl, summary-Shows workers queues views)
      ]

-- The queue monitor shows, of a broker whose three queues answer, how many messages each holds and how
-- many there are together; if any of them raises, it shows zeros and an error.
pub inspect_queues_cases :
    (llen : Text → Option ℕ)
    → ((inspect_queues llen).available ≡ true)
        × (llen (codes "high") ≡ some (inspect_queues llen).high)
        × (llen (codes "medium") ≡ some (inspect_queues llen).medium)
        × (llen (codes "low") ≡ some (inspect_queues llen).low)
        × ((inspect_queues llen).total
            ≡ (inspect_queues llen).high + (inspect_queues llen).medium + (inspect_queues llen).low)
      ⊎ (inspect_queues llen ≡ no_queues)
        × ((q : TaskPriority) × (llen (queue_for_priority q) ≡ none))
unfolding inspect_queues queue_for_priority
inspect_queues_cases llen = elim (Option-cases (llen (codes "high"))) [
  | inl down ↦ inr (rw (down, inspect_queues) refl, (high, down))
  | inr (h, found_high) ↦ elim (Option-cases (llen (codes "medium"))) [
    | inl down ↦ inr (rw (found_high, down, inspect_queues) refl, (medium, down))
    | inr (m, found_medium) ↦ elim (Option-cases (llen (codes "low"))) [
      | inl down ↦ inr (rw (found_high, found_medium, down, inspect_queues) refl, (low, down))
      | inr (l, found_low) ↦
          inl (
            rw (found_high, found_medium, found_low, inspect_queues) (refl, refl, refl, refl, refl))
    ]
  ]
]
