-- ===== src/Delivery/Completion.antt =====
-- Every task that is not FAILED can still be completed, whatever workers and messages went through.
use task_mesh.Base.{◌≡◌, true, none, some}
use task_mesh.Text.{Text}
use task_mesh.Model.{Uuid, Time, Task, completed, has_status}
use task_mesh.Execution.{execute_job}
use task_mesh.Settings.{Settings}
use task_mesh.Database.{Database}
use task_mesh.Database.Healthy.{IsHealthy}
use task_mesh.Tasks.Laws as requeueing
use task_mesh.Lifecycle.Complete.Laws as completing
use task_mesh.Recovery.Laws as reclaiming
use task_mesh.Workers.Config.{CeleryConfig}
use task_mesh.Delivery.{World}
use task_mesh.Delivery.Progress.{Leads}

module _ ⦃database : Database⦄ (conf : CeleryConfig) (i : Uuid) where
  open database use {Db, task, attempt}

  -- Steps that leave no task without a message lead to a state in which the task is COMPLETED.
  abbrev pub Completable : World conf → Type 0
  Completable w =
      (u : World conf) × Leads conf w u
      × ((t : Task) × (task i u.db ≡ some t) × (has_status completed t ≡ true))

  module _ (settings : Settings) (now : Time) (attempt_id : Uuid) (worker : Text) {H : Db → Type 0}
      (healthy : IsHealthy H) where
    -- The hypotheses of the section on a database.
    record Ready (db : Db) (row : Task) : Type 0 where
      works : H db
      fresh : attempt attempt_id db ≡ none
      found : task i db ≡ some row
      runs : execute_job row.task_type row.payload ≡ none
