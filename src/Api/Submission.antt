-- ===== src/Api/Submission.antt =====
-- app/api/tasks.py: POST /tasks on the JSON of a request, which FastAPI validates as a TaskCreate
-- before submit_task runs.
use task_mesh.Base.{◌≡◌, ◌⊎◌, inl, inr, refl, sym, ◌∙◌, Option-cases, none, some}
use task_mesh.Text.{Text}
use task_mesh.Model.{Uuid, Time, Task}
use task_mesh.Model.Json.{Json}
use task_mesh.Database.{Database}
use task_mesh.Dispatcher.{Dispatcher}
use task_mesh.Tasks.{TaskCreate}
use task_mesh.Tasks.Body.{validate_task_create}
use task_mesh.Tasks.Body.Laws.{IsBody, validate_task_create_iff}
use task_mesh.Api.{Response, http_exception, invalid_body, submit_task}

module _ ⦃database : Database⦄ {Queues : Type 0} (dispatcher : Dispatcher Queues)
    (strip : Text → Text) where
  open database use {Db}

  unfoldable pub post_task : Uuid → Time → Json → Db → Queues → Response Task × Db × Queues
  post_task id now json db s = elim (validate_task_create strip json) [
    | none ↦ (http_exception 422 invalid_body, db, s)
    | some task_data ↦ submit_task dispatcher id now task_data db s
  ]

  -- A request is submitted exactly if its body is an object with a type of 1 to 100 characters after
  -- stripping, an object as payload, a priority or else MEDIUM, and nothing more; what is submitted is
  -- that. Every other body is answered 422, and neither the database nor the queues change.
  pub post_task_cases :
      (id : Uuid) (now : Time) (json : Json) (db : Db) (s : Queues)
      → ((task_data : TaskCreate) × IsBody strip json task_data
          × (post_task id now json db s ≡ submit_task dispatcher id now task_data db s))
        ⊎ (¬ ((task_data : TaskCreate) × IsBody strip json task_data))
          × (post_task id now json db s ≡ (http_exception 422 invalid_body, db, s))
  unfolding post_task
  post_task_cases id now json db s = elim (Option-cases (validate_task_create strip json)) [
    | inl refused ↦ inr (
      (λ (task_data, body).
          let valid = (validate_task_create_iff strip json task_data).1 body in
          cc (sym refused ∙ valid)),
      rw (refused, post_task) refl,
    )
    | inr (task_data, valid) ↦ inl (
      task_data,
      (validate_task_create_iff strip json task_data).0 valid,
      rw (valid, post_task) refl,
    )
  ]
