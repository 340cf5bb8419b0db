-- ===== src/System.antt =====
-- The running system: any number of API requests, workers and recovery passes over one database,
-- with any UUIDs, clocks, deliveries and attempts, late and duplicate ones included. `Reach` holds
-- of two states if transactions of the services lead from one to the other. A transaction whose
-- statements others can come between carries what they did there, as a `Reach` of its own.
pub mod Trace
pub mod Identity
pub mod Validity
pub mod Refinement
pub mod Diagram
pub mod Attempts
pub mod Correctness
pub mod Services
use task_mesh.Base.{ℕ, Bool}
use task_mesh.Text.{Text}
use task_mesh.Model.{Uuid, Time}
use task_mesh.Settings.{Settings}
use task_mesh.Database.{Database}
use task_mesh.Tasks.{TaskCreate, create_task, requeue_dead_letter_task}
use task_mesh.Lifecycle.Claim.{claim_task}
use task_mesh.Lifecycle.Complete.{complete_task}
use task_mesh.Lifecycle.Failure.{finalize_failure}
use task_mesh.Recovery.{reclaim_one}

module _ ⦃database : Database⦄ where
  open database use {Db}

  pub data Reach : Db → Db → Type 0 where
    here : {s : Db} → Reach s s
    submitted :
        {s t : Db} (id : Uuid) (now : Time) (body : TaskCreate)
        → Reach s t
        → Reach s (create_task id now body t).1
    claimed :
        {s t : Db} (settings : Settings) (now : Time) (attempt_id task_id : Uuid) (worker : Text)
        → Reach s t
        → Reach s (claim_task settings now attempt_id task_id worker t).1
    completed :
        {s t : Db} (now : Time) (task_id attempt_id : Uuid)
        → Reach s t
        → Reach s (complete_task now task_id attempt_id t).1
    failed :
        {s t u : Db} (now : Time) (task_id attempt_id : Uuid) (message : Text) (retryable : Bool)
        → Reach s t
        → Reach t u
        → Reach s (finalize_failure now task_id attempt_id message retryable (λ _. u) t).1
    reclaimed :
        {s t u : Db} (now : Time) (task_id : Uuid)
        → Reach s t
        → Reach t u
        → Reach s (reclaim_one now task_id (λ _. u) t).1
    requeued :
        {s t : Db} (task_id : Uuid)
        → Reach s t
        → Reach s (requeue_dead_letter_task task_id (λ db. db) t).1
