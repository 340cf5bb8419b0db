-- ===== src/Api.antt =====
-- app/api/tasks.py and app/api/recovery.py: the endpoints, with the status codes of FastAPI's
-- responses. The session, the dispatcher and the clock that FastAPI injects are arguments.
pub mod Laws
pub mod Recovery
pub mod Submission
pub mod Summary
use task_mesh.Base.{ℕ, Bool, true, ◌&&◌, not, List, Option, none, some, leb, if◌then◌else◌, length}
use task_mesh.Text.{Text, codes}
use task_mesh.Model.{Uuid, Time, Task, queued, has_status}
use task_mesh.Database.{Database}
use task_mesh.Errors.{Error, Outcome, ok, raise}
use task_mesh.Dispatcher.{Dispatcher}
use task_mesh.Tasks.{TaskCreate, LoadedTask, create_task, get_task, requeue_dead_letter_task}
use task_mesh.Tasks.Listing.{Filters, list_tasks}
use task_mesh.Recovery.{ReclaimedTask, Others, recover_stale_tasks}

-- The detail of an `HTTPException`: a text, or a message with the task's id.
pub data Detail : Type 0 where
  detail : Text → Detail
  task_detail : Text → Uuid → Detail
  invalid_query invalid_body invalid_path : Detail

-- What a request is answered with: a body, an `HTTPException`, or an exception that no handler
-- catches, which is a 500.
pub data Response (A : Type 0) : Type 0 where
  success : ℕ → A → Response A
  http_exception : ℕ → Detail → Response A
  server_error : Error → Response A

abbrev pub status_code : {A : Type 0} → Response A → ℕ
status_code (success code body) = code
status_code (http_exception code d) = code
status_code (server_error e) = 500

abbrev pub not_found : {A : Type 0} → Response A
not_found = http_exception 404 (detail (codes "Task not found"))

-- `Query(ge=1, le=100)` on the limit, `Query(min_length=1, max_length=100)` on the type.
abbrev pub valid_type : Option Text → Bool
valid_type none = true
valid_type (some t) = leb 1 (length t) && leb (length t) 100

abbrev pub valid_query : ℕ → Filters → Bool
valid_query limit f = leb 1 limit && leb limit 100 && valid_type f.task_type

pub record RecoveryRunResult : Type 0 where
  pub reclaimed_count : ℕ
  pub reclaimed : List ReclaimedTask

module _ ⦃database : Database⦄ where
  open database use {Db}

  unfoldable pub read_tasks : ℕ → ℕ → Filters → Db → Response (List LoadedTask)
  read_tasks offset limit f db =
      if valid_query limit f
      then success 200 (list_tasks offset limit f db)
      else http_exception 422 invalid_query

  unfoldable pub read_task : Uuid → Db → Response LoadedTask
  read_task task_id db = elim (get_task task_id db) [
    | none ↦ not_found
    | some found ↦ success 200 found
  ]

module _ ⦃database : Database⦄ {Queues : Type 0} (dispatcher : Dispatcher Queues) where
  open database use {Db}

  -- The `try` around `dispatcher.dispatch`, with the answers if it returns and if it raises.
  abbrev pub dispatch_or :
      {A : Type 0} → Task → Response A → Response A → Db → Queues → Response A × Db × Queues
  dispatch_or row answer refusal db s =
      let (sent, s') = dispatcher row.id row.priority s in
      (if sent then answer else refusal, db, s')

  unfoldable pub submit_task : Uuid → Time → TaskCreate → Db → Queues → Response Task × Db × Queues
  submit_task id now task_data db s =
      let (created, db') = create_task id now task_data db in
      elim created [
        | raise e ↦ (server_error e, db', s)
        | ok row ↦
            dispatch_or row (success 201 row)
              (http_exception 503
                (task_detail (codes "Task was persisted but could not be dispatched") row.id))
              db' s
      ]

  -- Where nothing was requeued, a second look tells why; `between` is what other sessions commit
  -- before it, and `leaving` what they commit before a requeued task is read.
  abbrev pub refuse_requeue : Option LoadedTask → Response LoadedTask
  refuse_requeue none = not_found
  refuse_requeue (some existing) =
      http_exception 409 (detail (codes "Only dead-letter tasks can be requeued"))

  -- The endpoint behind `requeue_dead_letter_task`.
  abbrev pub answer_requeue :
      Uuid
      → (Db → Db)
      → Queues
      → Outcome (Option LoadedTask) × Db
      → Response LoadedTask × Db × Queues
  answer_requeue task_id between s (raise e, db) = (server_error e, db, s)
  answer_requeue task_id between s (ok none, db) =
      (refuse_requeue (get_task task_id (between db)), between db, s)
  answer_requeue task_id between s (ok (some found), db) =
      dispatch_or found.row (success 200 found)
        (http_exception 503
          (task_detail (codes "Task was requeued but could not be dispatched") found.row.id))
        db s

  unfoldable pub requeue_task :
      Uuid → (Db → Db) → (Db → Db) → Db → Queues → Response LoadedTask × Db × Queues
  requeue_task task_id leaving between db s =
      answer_requeue task_id between s (requeue_dead_letter_task task_id leaving db)

  unfoldable pub redispatch_task : Uuid → Db → Queues → Response LoadedTask × Db × Queues
  redispatch_task task_id db s = elim (get_task task_id db) [
    | none ↦ (not_found, db, s)
    | some found ↦
        if not (has_status queued found.row)
        then (http_exception 409 (detail (codes "Only QUEUED tasks can be redispatched")), db, s)
        else dispatch_or found.row (success 200 found)
            (http_exception 503
              (task_detail (codes "Task remains persisted but redispatch failed") found.row.id))
            db s
  ]

  -- The endpoint behind `recover_stale_tasks`.
  abbrev pub answer_recovery :
      Outcome (List ReclaimedTask) × Db × Queues → Response RecoveryRunResult × Db × Queues
  answer_recovery (raise e, db, s) = (server_error e, db, s)
  answer_recovery (ok reclaimed, db, s) =
      (success 200 (record { reclaimed_count = length reclaimed; reclaimed = reclaimed }), db, s)

  unfoldable pub run_stale_running_recovery :
      Time → Others Db → Db → Queues → Response RecoveryRunResult × Db × Queues
  run_stale_running_recovery now others db s =
      answer_recovery (recover_stale_tasks now dispatcher others db s)
