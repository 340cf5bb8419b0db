-- ===== src/App.antt =====
-- app/main.py: the application, from a request to its answer. FastAPI finds the endpoint, converts
-- the path and the query, and reads the JSON of the body.
pub mod Routes
pub mod Matching
pub mod Laws
use task_mesh.Base.{ℕ, Bool, List, [], ◌∷◌, map, Option, none, some, length}
use task_mesh.Text.{Text, codes}
use task_mesh.Model.{Uuid, Time, Task}
use task_mesh.Model.Json.{Json}
use task_mesh.Settings.{Settings}
use task_mesh.Database.{Database}
use task_mesh.Dispatcher.{Dispatcher}
use task_mesh.Tasks.{LoadedTask}
use task_mesh.Tasks.Listing.{Filters}
use task_mesh.Tasks.Body.{TaskRead, TaskDetail, task_read, detail_of}
use task_mesh.Recovery.{Others}
use task_mesh.Monitoring.{MonitoringSummary, Views}
use task_mesh.Monitoring.Inspection.{Inspector}
use task_mesh.Api as api
use task_mesh.Api.{
  Response, success, http_exception, server_error, Detail, invalid_query, invalid_body,
  invalid_path, RecoveryRunResult,
}
use task_mesh.Api.Submission.{post_task}
use task_mesh.Api.Summary as summary
use task_mesh.App.Routes.{
  Method, Endpoint, submit_task, read_tasks, read_task, requeue_task, redispatch_task,
  monitoring_summary, run_stale_running_recovery, dashboard, read_root, read_health, routes, Router,
}

pub record Query : Type 0 where
  pub offset : ℕ
  pub limit : ℕ
  pub filters : Filters

-- A query or a body that cannot be read is absent.
pub record Request : Type 0 where
  pub method : Method
  pub path : Text
  pub query : Option Query
  pub body : Option Json

pub data Body : Type 0 where
  task_body : TaskRead → Body
  tasks_body : List TaskRead → Body
  detail_body : TaskDetail → Body
  recovery_body : RecoveryRunResult → Body
  summary_body : MonitoringSummary → Body
  fields_body : List (Text × Text) → Body
  file_body : Text → Body

-- The answer of an endpoint, or one of the framework: a missing route or method, a redirect to the
-- path without its last slash, a static file.
pub data Answer : Type 0 where
  routed : Response Body → Answer
  unrouted : Answer

-- What FastAPI and the libraries supply to one request, and what other sessions commit during it.
pub record Context (Db Queues : Type 0) : Type 0 where
  pub router : Router
  pub settings : Settings
  pub strip : Text → Text
  pub parse_uuid : Text → Option Uuid
  pub dispatcher : Dispatcher Queues
  pub now : Time
  pub fresh_id : Uuid
  pub inspector : Inspector
  pub llen : Text → Option ℕ
  pub reachable : Bool
  -- What the statements of the summary see of a database that is at this state when it begins.
  pub views : Db → Views Db
  pub others : Others Db
  pub leaving : Db → Db
  pub between : Db → Db

abbrev pub respond : {A : Type 0} → (A → Body) → Response A → Response Body
respond f (success code body) = success code (f body)
respond f (http_exception code d) = http_exception code d
respond f (server_error e) = server_error e

module _ ⦃database : Database⦄ {Queues : Type 0} (context : Context database.Db Queues) where
  open database use {Db, attempts}

  -- What a request is answered, and the state behind it.
  abbrev pub Result : Type 0
  Result = Response Body × Db × Queues

  -- The serialized row of a submission counts its attempts in the database.
  abbrev pub answer_task : Response Task × Db × Queues → Result
  answer_task (r, db, s) = (
    respond
        (λ row.
          task_body (task_read (record { row = row; execution_attempts = attempts row.id db })))
        r,
    db,
    s,
  )

  abbrev pub answer_detail : Response LoadedTask × Db × Queues → Result
  answer_detail (r, db, s) = (respond (λ found. detail_body (detail_of found)) r, db, s)

  -- `task_id: UUID`.
  abbrev pub with_task_id : List Text → (Uuid → Result) → Result → Result
  with_task_id [] f invalid = invalid
  with_task_id (value ∷ values) f invalid = elim (context.parse_uuid value) [
    | none ↦ invalid
    | some id ↦ f id
  ]

  unfoldable pub run_endpoint : Endpoint → List Text → Request → Db → Queues → Result
  run_endpoint submit_task values request db s = elim request.body [
    | none ↦ (http_exception 422 invalid_body, db, s)
    | some json ↦
        answer_task
          (post_task context.dispatcher context.strip context.fresh_id context.now json db s)
  ]
  run_endpoint read_tasks values request db s = elim request.query [
    | none ↦ (http_exception 422 invalid_query, db, s)
    | some q ↦ (
      respond (λ page. tasks_body (map task_read page))
          (api.read_tasks q.offset q.limit q.filters db),
      db,
      s,
    )
  ]
  run_endpoint read_task values request db s =
      with_task_id values (λ id. answer_detail (api.read_task id db, db, s))
        (http_exception 422 invalid_path, db, s)
  run_endpoint requeue_task values request db s =
      with_task_id values
        (λ id.
          answer_detail
            (api.requeue_task context.dispatcher id context.leaving context.between db s))
        (http_exception 422 invalid_path, db, s)
  run_endpoint redispatch_task values request db s =
      with_task_id values (λ id. answer_detail (api.redispatch_task context.dispatcher id db s))
        (http_exception 422 invalid_path, db, s)
  run_endpoint monitoring_summary values request db s = (
    success 200 (
        summary_body (
          summary.monitoring_summary context.now context.reachable context.inspector context.llen
            (context.views db))),
    db,
    s,
  )
  run_endpoint run_stale_running_recovery values request db s =
      let (r, db', s') =
        api.run_stale_running_recovery context.dispatcher context.now context.others db s in
      (respond recovery_body r, db', s')
  run_endpoint dashboard values request db s = (success 200 (file_body (codes "index.html")), db, s)
  run_endpoint read_root values request db s = (
    success 200 (
        fields_body (
          (codes "name", context.settings.app_name)
          ∷ (codes "message", codes "Asynchronous job processing system")
          ∷ [])),
    db,
    s,
  )
  run_endpoint read_health values request db s =
      (success 200 (fields_body ((codes "status", codes "healthy") ∷ [])), db, s)

  abbrev pub routed_answer : Result → Answer × Db × Queues
  routed_answer (r, db, s) = (routed r, db, s)

  -- The application.
  unfoldable pub handle : Request → Db → Queues → Answer × Db × Queues
  unfolding run_endpoint
  handle request db s = elim (context.router.find_route request.method request.path routes) [
    | none ↦ (unrouted, db, s)
    | some (endpoint, values) ↦ routed_answer (run_endpoint endpoint values request db s)
  ]
