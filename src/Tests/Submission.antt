-- ===== src/Tests/Submission.antt =====
-- A submission from its JSON on.
use task_mesh.Base.{◌≡◌, ◌⊎◌, refl, [], none, some}
use task_mesh.Text.{codes, strip}
use task_mesh.Model.{medium}
use task_mesh.Model.Json.{Json, string, object, field, end}
use task_mesh.Database.Memory.{memory}
use task_mesh.Dispatcher.{dispatch}
use task_mesh.Dispatcher.Memory.{local_broker, characters}
use task_mesh.Tasks.{TaskCreate}
use task_mesh.Tasks.Body.{validate_task_create}
use task_mesh.Tasks.Body.Laws.{IsBody}
use task_mesh.Api.{http_exception, invalid_body, submit_task}
use task_mesh.Api.Submission.{post_task, post_task_cases}
use task_mesh.Tests.Data.{program, payload}

abbrev request : Json
request = object (
    field (codes "task_type") (string (codes " echo "))
      (field (codes "payload") (object payload) end))

validated :
    validate_task_create strip request
    ≡ some (record { task_type = codes "echo"; payload = payload; priority = medium })
unfolding program validate_task_create
validated = refl

unknown_field :
    validate_task_create strip (
      object (
        field (codes "retries") (string (codes "9")) (
          field
            (codes "task_type")
            (string (codes "echo"))
            (field (codes "payload") (object payload) end))))
    ≡ none
unfolding program validate_task_create
unknown_field = refl

blank_type :
    validate_task_create strip (
      object (
        field
          (codes "task_type")
          (string (codes "  "))
          (field (codes "payload") (object payload) end)))
    ≡ none
unfolding program validate_task_create
blank_type = refl

post_task_cases_example :
    ((task_data : TaskCreate) × IsBody strip request task_data
      × (post_task ⦃database = memory⦄
            (dispatch ⦃broker = local_broker⦄ characters)
            strip
            7
            1
            request
            memory.empty
            []
          ≡ submit_task ⦃database = memory⦄
              (dispatch ⦃broker = local_broker⦄ characters)
              7
              1
              task_data
              memory.empty
              []))
    ⊎ (¬ ((task_data : TaskCreate) × IsBody strip request task_data))
      × (post_task ⦃database = memory⦄
            (dispatch ⦃broker = local_broker⦄ characters)
            strip
            7
            1
            request
            memory.empty
            []
          ≡ (http_exception 422 invalid_body, memory.empty, []))
post_task_cases_example =
    post_task_cases ⦃database = memory⦄ (dispatch ⦃broker = local_broker⦄ characters) strip 7 1
      request memory.empty []
