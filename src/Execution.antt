-- ===== src/Execution.antt =====
-- app/services/execution.py: the job handlers. A handler returns, or raises an exception of one of
-- the classes that app/services/task_lifecycle.py tells apart.
pub mod Laws
use task_mesh.Base.{◌≡◌, Bool, true, false, List, [], ◌∷◌, ◌++◌, Option, none, some, if◌then◌else◌}
use task_mesh.Text.{Text, codes, strip, is_nonempty, same_text}
use task_mesh.Model.Json.{Json, string, Fields, get}

-- `TaskExecutionError`, its subclass `RetryableTaskExecutionError`, and any other exception by the
-- name of its class.
pub data JobError : Type 0 where
  execution_error : Text → JobError
  retryable_error : Text → JobError
  other_error : Text → JobError

-- `none` is a normal return.
abbrev pub TaskHandler : Type 0
TaskHandler = Fields → Option JobError

abbrev pub JobExecutor : Type 0
JobExecutor = Text → TaskHandler

abbrev pub echo_rejection : JobError
echo_rejection = execution_error (codes "echo payload requires a non-empty string 'message'")

abbrev pub check_message : Option Json → Option JobError
check_message (some (string message)) =
    if is_nonempty (strip message) then none else some echo_rejection
check_message _ = some echo_rejection

unfoldable pub handle_echo : TaskHandler
handle_echo payload = check_message (get (codes "message") payload)

abbrev pub task_handlers : List (Text × TaskHandler)
task_handlers = (codes "echo", handle_echo) ∷ []

-- `TASK_HANDLERS.get(task_type)`.
abbrev pub get_handler : Text → List (Text × TaskHandler) → Option TaskHandler
get_handler task_type [] = none
get_handler task_type ((name, handler) ∷ rest) =
    if same_text name task_type then some handler else get_handler task_type rest

unfoldable pub execute_job : JobExecutor
execute_job task_type payload = elim (get_handler task_type task_handlers) [
  | none ↦ some (execution_error (codes "Unsupported task type: " ++ task_type))
  | some handler ↦ handler payload
]
