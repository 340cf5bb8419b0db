-- ===== src/Api/Summary.antt =====
-- app/api/monitoring.py: GET /monitoring/summary, over what Celery and Redis reply.
use task_mesh.Base.{ℕ, Bool, Option}
use task_mesh.Text.{Text}
use task_mesh.Model.{Time}
use task_mesh.Database.{Database}
use task_mesh.Monitoring.{MonitoringSummary, Views, inspect_queues, build_monitoring_summary}
use task_mesh.Monitoring.Inspection.{Inspector, inspect_workers}

module _ ⦃database : Database⦄ where
  open database use {Db}

  unfoldable pub monitoring_summary :
      Time → Bool → Inspector → (Text → Option ℕ) → Views Db → MonitoringSummary
  monitoring_summary now reachable inspector llen views =
      build_monitoring_summary now reachable (inspect_workers inspector) (inspect_queues llen) views
