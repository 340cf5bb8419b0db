-- ===== src/Delivery/Lifecycle.antt =====
-- Each step against the lifecycle diagram of the README.
use task_mesh.Base.{◌≡◌, refl, ap, ◌⊎◌, inl, inr, List, some, arith}
use task_mesh.Model.{Uuid, Task}
use task_mesh.Database.{Database}
use task_mesh.Tasks.Laws.{create_task_cases, requeue_db}
use task_mesh.Lifecycle.Retry.{safe_error_message}
use task_mesh.Lifecycle.Process.{is_retryable}
use task_mesh.Lifecycle.Claim.Laws.{claim_task_db}
use task_mesh.Lifecycle.Complete.Laws.{complete_task_db}
use task_mesh.Workers.Config.{CeleryConfig}
use task_mesh.System.Trace.{creates, claims, completes, requeues}
use task_mesh.System.Identity.{SameTask, Change-Persists}
use task_mesh.System.Diagram.{Edge, Change-Follows}
use task_mesh.Delivery.{
  Phase, failing, Held, World, Step, submit, requeue, reclaim, claim, complete, fail, Run,
}
use task_mesh.Delivery.History.{
  AtMostOne, record_failure-AtMostOne, record_reclaim-AtMostOne, IsTracked, Run-IsTracked, parted,
  taken,
}

module _ ⦃database : Database⦄ (conf : CeleryConfig) where
  open database use {Db, task}

  abbrev holds : Uuid → Phase → Held
  holds id phase = record { task_id = id; phase = phase }

  -- A step is at most one change of one task.
  Step-AtMostOne :
      {w u : World conf} {lost : List Uuid}
      → Step conf w lost u
      → IsTracked conf w
      → AtMostOne w.db u.db
  Step-AtMostOne {w} (submit id now body) t = elim (create_task_cases id now body w.db) [
    | inl e ↦ inl (ap (λ r. r.1) e)
    | inr (_, c) ↦ inr (creates id now body c)
  ]
  Step-AtMostOne {w} (requeue id) t = elim (requeue_db id (λ db. db) w.db) [
    | inl e ↦ inl e
    | inr (row, mid, found, dead, c, e) ↦ rw e (inr (requeues id row found dead c))
  ]
  Step-AtMostOne {w} (reclaim before after p e) t =
      record_reclaim-AtMostOne p.now p.task_id p.retry_count p.max_retries w.db
        (taken w.held w.passes t before after p e).0
  Step-AtMostOne {w} (claim before after id settings now a worker e fine) t =
      elim (claim_task_db settings now a id worker w.db) [
        | inl e ↦ inl e
        | inr (row, found, free, c) ↦ inr (claims settings now a id worker row found free c)
      ]
  Step-AtMostOne {w} (complete before after id job now e returns) t =
      elim (complete_task_db now id job.attempt_id w.db) [
        | inl e ↦ inl e
        | inr (row, found, runs, c) ↦ inr (completes now id job.attempt_id row found runs c)
      ]
  Step-AtMostOne {w} (fail before after id a now exc rc mr e) t =
      record_failure-AtMostOne now id a (safe_error_message exc) (is_retryable exc) rc mr w.db
        (parted w.held w.passes t before after (holds id (failing a exc rc mr)) e).0
  Step-AtMostOne _ t = inl refl

  -- In any state of a run, the next step leaves the row of a task as it is or takes its status along one
  -- arrow of the lifecycle diagram, and the task stays in the table with its id, type, payload, priority,
  -- retry limit and creation time.
  pub Step-lifecycle :
      {lost dropped : List Uuid} {w u : World conf} (i : Uuid) (row : Task)
      → Run conf lost w
      → Step conf w dropped u
      → task i w.db ≡ some row
      → (later : Task) × (task i u.db ≡ some later)
        × SameTask row later
        × ((later ≡ row) ⊎ Edge row.status later.status)
  Step-lifecycle i row r step found = elim (Step-AtMostOne step (Run-IsTracked conf r)) [
    | inl same ↦ (row, rw same found, ground arith, inl refl)
    | inr c ↦
        let (u, at_u, moved) = Change-Follows c i row found in
        let (v, at_v, same) = Change-Persists c i row found in (u, at_u, ground arith, moved)
  ]
