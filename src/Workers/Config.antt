-- ===== src/Workers/Config.antt =====
-- app/workers/celery_app.py: how Celery is configured, and what of a message's fate it decides.
use task_mesh.Base.{ℕ, Bool, true, false, ◌&&◌, List, [], ◌∷◌}
use task_mesh.Text.{Text, codes}
use task_mesh.Settings.{Settings}

-- One entry of the beat schedule.
pub record BeatEntry : Type 0 where
  pub task : Text
  pub schedule : ℕ
  pub queue : Text

-- The arguments of `Celery(...)` and the options of `celery_app.conf.update(...)`.
pub record CeleryConfig : Type 0 where
  pub broker : Text
  pub included : List Text
  pub accept_content : List Text
  pub task_serializer : Text
  pub result_serializer : Text
  pub enable_utc : Bool
  pub timezone : Text
  pub task_always_eager : Bool
  pub task_ignore_result : Bool
  pub task_acks_late : Bool
  pub task_reject_on_worker_lost : Bool
  pub visibility_timeout : ℕ
  pub task_queues : List Text
  pub task_default_queue : Text
  pub task_create_missing_queues : Bool
  pub beat_schedule : List BeatEntry

abbrev pub celery_app : Settings → CeleryConfig
celery_app settings = record {
  broker = settings.celery_broker_url;
  included = codes "app.workers.tasks" ∷ [];
  accept_content = codes "json" ∷ [];
  task_serializer = codes "json";
  result_serializer = codes "json";
  enable_utc = true;
  timezone = codes "UTC";
  task_always_eager = false;
  task_ignore_result = true;
  task_acks_late = true;
  task_reject_on_worker_lost = true;
  visibility_timeout = settings.task_lease_seconds;
  task_queues = codes "high" ∷ codes "medium" ∷ codes "low" ∷ codes "control" ∷ [];
  task_default_queue = codes "medium";
  task_create_missing_queues = false;
  beat_schedule =
      record {
        task = codes "taskmesh.recover_stale_tasks";
        schedule = settings.task_recovery_interval_seconds;
        queue = codes "control";
      }
      ∷ [];
}

-- Whether a message whose worker was killed goes back to its queue: it has not been acknowledged
-- yet, and Celery is told to reject it.
abbrev pub requeues_lost : CeleryConfig → Bool
requeues_lost conf = conf.task_acks_late && conf.task_reject_on_worker_lost
