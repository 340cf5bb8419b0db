-- ===== src/Model.antt =====
-- app/models: the two enumerations and the two tables as row types, and the row tests that the
-- statements name. A UUID is its 128-bit number and a moment is a number of microseconds.
pub mod Json
pub mod Validity
use Json.{Fields}
use task_mesh.Base.{ℕ, ◌*◌, Bool, true, false, ◌&&◌, Option, none, some, ltb}
use task_mesh.Text.{Text}

abbrev pub Uuid : Type 0
Uuid = ℕ

abbrev pub Time : Type 0
Time = ℕ

-- `timedelta(seconds=n)`.
abbrev pub seconds : ℕ → Time
seconds n = n * 1000000

pub data TaskPriority : Type 0 where
  high medium low : TaskPriority

pub data TaskStatus : Type 0 where
  queued running completed failed dead_letter : TaskStatus

pub record Task : Type 0 where
  pub id : Uuid
  pub task_type : Text
  pub payload : Fields
  pub priority : TaskPriority
  pub status : TaskStatus
  pub retry_count : ℕ
  pub max_retries : ℕ
  pub created_at : Time
  pub started_at : Option Time
  pub completed_at : Option Time
  pub last_error : Option Text
  pub lease_expires_at : Option Time

pub record TaskExecutionAttempt : Type 0 where
  pub id : Uuid
  pub task_id : Uuid
  pub attempt_number : ℕ
  pub worker_identifier : Option Text
  pub started_at : Time
  pub finished_at : Option Time
  pub error : Option Text

-- `p == q` on priorities.
abbrev pub same_priority : TaskPriority → TaskPriority → Bool
same_priority high high = true
same_priority medium medium = true
same_priority low low = true
same_priority _ _ = false

-- `s == t` on statuses.
abbrev pub same_status : TaskStatus → TaskStatus → Bool
same_status queued queued = true
same_status running running = true
same_status completed completed = true
same_status failed failed = true
same_status dead_letter dead_letter = true
same_status _ _ = false

-- `Task.status == s` in a WHERE clause.
abbrev pub has_status : TaskStatus → Task → Bool
has_status s t = same_status s t.status

-- `Task.lease_expires_at.is_not(None), Task.lease_expires_at < now`.
abbrev pub lease_before : Time → Option Time → Bool
lease_before now none = false
lease_before now (some lease) = ltb lease now

-- The WHERE clause of the recovery scan.
abbrev pub is_stale : Time → Task → Bool
is_stale now t = has_status running t && lease_before now t.lease_expires_at

-- `TaskExecutionAttempt.finished_at.is_(None)`.
abbrev pub is_open : TaskExecutionAttempt → Bool
is_open a = elim a.finished_at [ none ↦ true | some finished ↦ false ]
