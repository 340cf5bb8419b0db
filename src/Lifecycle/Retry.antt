-- ===== src/Lifecycle/Retry.antt =====
-- `retry_countdown`, `_safe_error_message` and `_parse_task_id`.
pub mod Laws
use task_mesh.Base.{ℕ, ◌^◌, ◌<◌, Option, none, some, min, ltb, if◌then◌else◌, ◌++◌, [], ◌∷◌, take}
use task_mesh.Text.{Text, codes, strip, or_else}
use task_mesh.Model.{Uuid}
use task_mesh.Execution.{JobError, execution_error, retryable_error, other_error}
use task_mesh.Errors.{Outcome, ok, raise, invalid_task_id, value_error}

abbrev pub retry_backoff_base_seconds : ℕ
retry_backoff_base_seconds = 2

abbrev pub retry_backoff_max_seconds : ℕ
retry_backoff_max_seconds = 16

unfoldable pub retry_countdown : ℕ → Outcome ℕ
retry_countdown retry_number =
    if ltb retry_number 1
    then raise value_error
    else ok (min (retry_backoff_base_seconds ^ retry_number) retry_backoff_max_seconds)

abbrev pub message_of : JobError → Text
message_of (execution_error message) = or_else (strip message) (codes "Task execution failed")
message_of (retryable_error message) = or_else (strip message) (codes "Task execution failed")
message_of (other_error name) = name ++ codes ": task execution failed"

unfoldable pub safe_error_message : JobError → Text
safe_error_message exc = take 2000 (message_of exc)

-- What a caller passes as a task id: a UUID, a text, or something else.
pub data TaskId : Type 0 where
  uuid : Uuid → TaskId
  text : Text → TaskId
  other : TaskId

-- `UUID(task_id)` is the standard library's parser, which raises what the function catches.
unfoldable pub parse_task_id : (Text → Option Uuid) → TaskId → Outcome Uuid
parse_task_id parse_uuid (uuid u) = ok u
parse_task_id parse_uuid (text s) = elim (parse_uuid s) [
  | none ↦ raise invalid_task_id
  | some u ↦ ok u
]
parse_task_id parse_uuid other = raise invalid_task_id
