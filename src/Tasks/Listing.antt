-- ===== src/Tasks/Listing.antt =====
-- app/services/tasks.py: `list_tasks`, the filtered pages of the task table, newest first.
pub mod Laws
use task_mesh.Base.{ℕ, Bool, true, ◌&&◌, List, map, Option, none, some, take, drop}
use task_mesh.Text.{Text, same_text}
use task_mesh.Model.{Task, TaskPriority, TaskStatus, same_status, same_priority}
use task_mesh.Database.{Database}
use task_mesh.Tasks.{LoadedTask}

-- The three optional keyword arguments.
pub record Filters : Type 0 where
  pub priority : Option TaskPriority
  pub task_status : Option TaskStatus
  pub task_type : Option Text

-- One WHERE clause: absent where the argument is `None`.
abbrev pub where_equal {ℓ} : {A : Type ℓ} → (A → A → Bool) → Option A → A → Bool
where_equal same none x = true
where_equal same (some wanted) x = same wanted x

abbrev pub matches : Filters → Task → Bool
matches f t =
    where_equal same_priority f.priority t.priority
    && where_equal same_status f.task_status t.status
    && where_equal same_text f.task_type t.task_type

module _ ⦃database : Database⦄ where
  open database use {Db, newest, attempts}

  -- `selectinload(Task.execution_attempts)`.
  abbrev pub load : Db → Task → LoadedTask
  load db t = record { row = t; execution_attempts = attempts t.id db }

  -- The rows of the page, before their attempts are loaded.
  unfoldable pub page_rows : ℕ → ℕ → Filters → Db → List Task
  page_rows offset limit f db = take limit (drop offset (newest (matches f) db))

  unfoldable pub list_tasks : ℕ → ℕ → Filters → Db → List LoadedTask
  unfolding page_rows
  list_tasks offset limit f db = map (load db) (page_rows offset limit f db)
