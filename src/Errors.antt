-- ===== src/Errors.antt =====
-- The exceptions of app/services/task_lifecycle.py, and what a call that may raise gives back.
use task_mesh.Base.{ℕ, if◌then◌else◌}
use task_mesh.Text.{Text}
use task_mesh.Model.{Uuid}
use task_mesh.Database.{Database}

-- `TaskRetryRequested`.
pub record RetryRequest : Type 0 where
  pub task_id : Uuid
  pub retry_number : ℕ
  pub countdown : ℕ
  pub max_retries : ℕ
  pub error_message : Text

-- What `TaskNotFoundError` misses: a task, or "Claimed execution attempt no longer exists".
pub data Missing : Type 0 where
  task_row : Uuid → Missing
  attempt_row : Missing

-- `database_error` is whatever SQLAlchemy raises when a transaction cannot be committed.
pub data Error : Type 0 where
  invalid_task_id : Error
  task_not_found : Missing → Error
  task_reclaimed : Uuid → Error
  task_execution_failed : Text → Error
  task_retry_requested : RetryRequest → Error
  value_error : Error
  database_error : Error

pub data Outcome (A : Type 0) : Type 0 where
  ok : A → Outcome A
  raise : Error → Outcome A

-- `session.commit()` at the end of a transaction that began at `before` and sees `after`.
abbrev pub commit :
    ⦃database : Database⦄ {A : Type 0} → database.Db → database.Db → A → Outcome A × database.Db
commit ⦃database⦄ before after a =
    if database.commits after then (ok a, after) else (raise database_error, before)
