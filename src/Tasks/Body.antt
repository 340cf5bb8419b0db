-- ===== src/Tasks/Body.antt =====
-- app/schemas/task.py: the body of a submission, as Pydantic validates it by the fields of TaskCreate,
-- and the bodies of the answers.
pub mod Laws
use task_mesh.Base.{
  ℕ, Bool, true, false, ◌&&◌, ◌||◌, List, map, Option, none, some, leb, length, if◌then◌else◌,
}
use task_mesh.Text.{Text, codes, same_text}
use task_mesh.Model.{
  Uuid, Time, Task, TaskStatus, TaskPriority, high, medium, low, TaskExecutionAttempt,
}
use task_mesh.Model.Json.{Json, string, object, Fields, end, field, get}
use task_mesh.Tasks.{TaskCreate, LoadedTask}

-- The values of `TaskPriority`.
abbrev pub priority_value : TaskPriority → Text
priority_value high = codes "HIGH"
priority_value medium = codes "MEDIUM"
priority_value low = codes "LOW"

abbrev pub priority_of_value : Text → Option TaskPriority
priority_of_value s =
    if same_text s (priority_value high)
    then some high
    else if same_text s (priority_value medium)
    then some medium
    else if same_text s (priority_value low)
    then some low
    else none

-- `priority: TaskPriority = TaskPriority.MEDIUM`.
abbrev pub valid_priority : Option Json → Option TaskPriority
valid_priority none = some medium
valid_priority (some (string s)) = priority_of_value s
valid_priority _ = none

-- `StringConstraints(min_length=1, max_length=100)`.
abbrev pub fitting : Text → Option Text
fitting s = if leb 1 (length s) && leb (length s) 100 then some s else none

-- `task_type: TaskType`, where `strip` is what `strip_whitespace=True` does.
abbrev pub valid_task_type : (Text → Text) → Option Json → Option Text
valid_task_type strip (some (string s)) = fitting (strip s)
valid_task_type strip _ = none

-- `payload: dict[str, Any]`.
abbrev pub valid_payload : Option Json → Option Fields
valid_payload (some (object payload)) = some payload
valid_payload _ = none

abbrev pub is_field : Text → Bool
is_field key =
    same_text key (codes "task_type")
    || same_text key (codes "payload")
    || same_text key (codes "priority")

-- `extra="forbid"`.
abbrev pub only_fields : Fields → Bool
only_fields end = true
only_fields (field key value rest) = is_field key && only_fields rest

abbrev pub all_valid : Option Text → Option Fields → Option TaskPriority → Bool → Option TaskCreate
all_valid (some task_type) (some payload) (some priority) true =
    some (record { task_type = task_type; payload = payload; priority = priority })
all_valid _ _ _ _ = none

unfoldable pub validate_task_create : (Text → Text) → Json → Option TaskCreate
unfolding get
validate_task_create strip (object body) =
    all_valid (valid_task_type strip (get (codes "task_type") body))
      (valid_payload (get (codes "payload") body)) (valid_priority (get (codes "priority") body))
      (only_fields body)
validate_task_create strip _ = none

pub record TaskRead : Type 0 where
  pub id : Uuid
  pub task_type : Text
  pub payload : Fields
  pub priority : TaskPriority
  pub status : TaskStatus
  pub retry_count : ℕ
  pub max_retries : ℕ
  pub created_at : Time
  pub started_at : Option Time
  pub completed_at : Option Time
  pub last_error : Option Text
  pub attempt_count : ℕ

pub record TaskExecutionAttemptRead : Type 0 where
  pub id : Uuid
  pub attempt_number : ℕ
  pub worker_identifier : Option Text
  pub started_at : Time
  pub finished_at : Option Time
  pub error : Option Text

-- The fields of `TaskRead`, and the attempts.
pub record TaskDetail : Type 0 where
  pub task : TaskRead
  pub execution_attempts : List TaskExecutionAttemptRead

abbrev pub task_read : LoadedTask → TaskRead
task_read found = record {
  id = found.row.id;
  task_type = found.row.task_type;
  payload = found.row.payload;
  priority = found.row.priority;
  status = found.row.status;
  retry_count = found.row.retry_count;
  max_retries = found.row.max_retries;
  created_at = found.row.created_at;
  started_at = found.row.started_at;
  completed_at = found.row.completed_at;
  last_error = found.row.last_error;
  attempt_count = length found.execution_attempts;
}

abbrev pub attempt_read : TaskExecutionAttempt → TaskExecutionAttemptRead
attempt_read a = record {
  id = a.id;
  attempt_number = a.attempt_number;
  worker_identifier = a.worker_identifier;
  started_at = a.started_at;
  finished_at = a.finished_at;
  error = a.error;
}

abbrev pub detail_of : LoadedTask → TaskDetail
detail_of found = record {
  task = task_read found;
  execution_attempts = map attempt_read found.execution_attempts;
}
