-- ===== src/Workers.antt =====
-- app/workers/tasks.py: the Celery entry point of a delivery.
pub mod Config
pub mod Laws
use task_mesh.Base.{ℕ, ◌+◌, ◌<◌, ◌≡◌, Option, none, some}
use task_mesh.Text.{Text, codes, or_else}
use task_mesh.Model.{Uuid, Time}
use task_mesh.Dispatcher.{Dispatcher}
use task_mesh.Recovery.{Others, recover_stale_tasks}
use task_mesh.Settings.{Settings}
use task_mesh.Database.{Database}
use task_mesh.Execution.{execute_job}
use task_mesh.Errors.{Error, Outcome, ok, raise, RetryRequest, task_retry_requested}
use task_mesh.Lifecycle.Retry.{text}
use task_mesh.Lifecycle.Process.{Surroundings, LifecycleOutcome, process_task}

-- A message as Celery hands it over: its argument, and of the request the name of the worker and the
-- number of retries so far.
pub record Delivery : Type 0 where
  pub task_id : Text
  pub hostname : Option Text
  pub retries : ℕ

-- How `self.retry` ends, which always raises: it has published the message again, it has found the
-- retries used up, or the publication has failed.
pub data RetryEnd : Type 0 where
  rescheduled exhausted unpublished : RetryEnd

-- `self.retry(countdown=..., max_retries=...)` of Celery. It gives up only if the message would be
-- retried more than `max_retries` times.
pub record CeleryRetry (Queues : Type 0) : Type 0 where
  pub retry : Delivery → ℕ → ℕ → Queues → RetryEnd × Queues
  pub retry-exhausted :
      (d : Delivery) (countdown max_retries : ℕ) (s : Queues)
      → (retry d countdown max_retries s).0 ≡ exhausted
      → max_retries < d.retries + 1

-- How a delivery ends for Celery.
pub data DeliveryEnd : Type 0 where
  returned : DeliveryEnd
  retried : RetryRequest → RetryEnd → DeliveryEnd
  failed : Error → DeliveryEnd

-- `getattr(request, "hostname", None) or "celery-worker"`.
abbrev pub worker_identifier : Option Text → Text
worker_identifier none = codes "celery-worker"
worker_identifier (some hostname) = or_else hostname (codes "celery-worker")

module _ ⦃database : Database⦄ {Queues : Type 0} (celery : CeleryRetry Queues) where
  open database use {Db}

  -- From the call of `process_task` on.
  abbrev pub after_process :
      Delivery → Queues → Outcome LifecycleOutcome × Db → DeliveryEnd × Db × Queues
  after_process d s (ok outcome, db) = (returned, db, s)
  after_process d s (raise (task_retry_requested request), db) =
      let (end, s') = celery.retry d request.countdown request.max_retries s in
      (retried request end, db, s')
  after_process d s (raise e, db) = (failed e, db, s)

  unfoldable pub execute_task :
      Settings
      → (Text → Option Uuid)
      → Surroundings Db
      → Delivery
      → Db
      → Queues
      → DeliveryEnd × Db × Queues
  execute_task settings parse_uuid around d db s = after_process d s (
      process_task settings execute_job (worker_identifier d.hostname) around parse_uuid
        (text d.task_id) db)

-- What is left of a pass: it returned, or it raised.
abbrev pub drop_result : {A : Type 0} → Outcome A → Outcome Unit
drop_result (ok found) = ok tt
drop_result (raise e) = raise e

-- The Celery Beat entry point of a recovery pass, whose result Celery ignores.
unfoldable pub recover_stale_tasks_task :
    ⦃database : Database⦄ {Queues : Type 0}
    → Time
    → Dispatcher Queues
    → Others database.Db
    → database.Db
    → Queues
    → Outcome Unit × database.Db × Queues
recover_stale_tasks_task now dispatcher others db s =
    let (reclaimed, db', s') = recover_stale_tasks now dispatcher others db s in
    (drop_result reclaimed, db', s')
