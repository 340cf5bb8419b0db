-- ===== src/Database.antt =====
-- The database behind app/db/session.py, which the code reaches through SQLAlchemy: an interface
-- with one operation for each kind of statement, and what SQL documents of it. `Db` is what a
-- transaction sees. A statement gives the next `Db`; a transaction that is rolled back is one whose
-- `Db` is dropped. `commits` tells whether COMMIT, with the flush before it, goes through.
pub mod Rows
pub mod Order
pub mod Healthy
pub mod Memory
use mathlib.Core.Option
use Order.{newest_first, passing}
use Rows.{Values, find_task, update_row, matched, insert_sorted, close_row, IsKeyed}
use task_mesh.Base.{
  ℕ, ◌≡◌, Bool, true, List, [], Option, none, some, map, ◌==◌, if◌then◌else◌, length, keep,
}
use task_mesh.Text.{Text}
use task_mesh.Model.{Uuid, Time, Task, TaskExecutionAttempt}

pub record Database : Type 1 where
  pub Db : Type 0
  -- The tables as the first migration leaves them.
  pub empty : Db
  -- SELECT on tasks, in the order in which the engine scans them, and by primary key.
  pub rows : Db → List Task
  pub task : Uuid → Db → Option Task
  -- SELECT on tasks WHERE p ORDER BY created_at DESC, id DESC.
  pub newest : (Task → Bool) → Db → List Task
  -- SELECT on task_execution_attempts: WHERE task_id = i ORDER BY attempt_number, and by primary key.
  pub attempts : Uuid → Db → List TaskExecutionAttempt
  pub attempt : Uuid → Db → Option TaskExecutionAttempt
  pub insert_task : Task → Db → Db
  -- UPDATE tasks SET v WHERE id = i AND p, with its rowcount.
  pub update_task : Uuid → (Task → Bool) → Values → Db → ℕ × Db
  pub insert_attempt : TaskExecutionAttempt → Db → Db
  -- Flush of the assignments to `finished_at` and `error` of one attempt.
  pub close_attempt : Uuid → Time → Option Text → Db → Db
  pub commits : Db → Bool
  pub rows-IsKeyed : (db : Db) → IsKeyed (rows db)
  pub task-rows : (i : Uuid) (db : Db) → task i db ≡ find_task i (rows db)
  pub newest-newest_first : (p : Task → Bool) (db : Db) → newest_first (newest p db) ≡ true
  pub find-newest :
      (j : Uuid) (p : Task → Bool) (db : Db)
      → find_task j (newest p db) ≡ passing p (find_task j (rows db))
  pub length-newest : (p : Task → Bool) (db : Db) → length (newest p db) ≡ length (keep p (rows db))
  pub task-empty : (i : Uuid) → task i empty ≡ none
  pub attempts-empty : (i : Uuid) → attempts i empty ≡ []
  -- A primary key is taken once: the flush of a second row fails.
  pub insert_task-fresh :
      (t : Task) (db : Db) → commits (insert_task t db) ≡ true → task t.id db ≡ none
  pub task-insert_task :
      (j : Uuid) (t : Task) (db : Db)
      → task t.id db ≡ none
      → task j (insert_task t db) ≡ (if t.id == j then some t else task j db)
  pub attempts-insert_task :
      (j : Uuid) (t : Task) (db : Db) → attempts j (insert_task t db) ≡ attempts j db
  pub attempt-insert_task :
      (k : Uuid) (t : Task) (db : Db) → attempt k (insert_task t db) ≡ attempt k db
  pub rowcount :
      (i : Uuid) (p : Task → Bool) (v : Values) (db : Db)
      → (update_task i p v db).0 ≡ matched p (task i db)
  pub task-update_task :
      (j i : Uuid) (p : Task → Bool) (v : Values) (db : Db)
      → task j (update_task i p v db).1 ≡ (if i == j then update_row p v (task j db) else task j db)
  pub attempts-update_task :
      (j i : Uuid) (p : Task → Bool) (v : Values) (db : Db)
      → attempts j (update_task i p v db).1 ≡ attempts j db
  pub attempt-update_task :
      (k i : Uuid) (p : Task → Bool) (v : Values) (db : Db)
      → attempt k (update_task i p v db).1 ≡ attempt k db
  pub insert_attempt-fresh :
      (a : TaskExecutionAttempt) (db : Db)
      → commits (insert_attempt a db) ≡ true
      → attempt a.id db ≡ none
  pub task-insert_attempt :
      (j : Uuid) (a : TaskExecutionAttempt) (db : Db) → task j (insert_attempt a db) ≡ task j db
  pub attempts-insert_attempt :
      (j : Uuid) (a : TaskExecutionAttempt) (db : Db)
      → attempts j (insert_attempt a db)
        ≡ (if a.task_id == j then insert_sorted a (attempts j db) else attempts j db)
  pub attempt-insert_attempt :
      (k : Uuid) (a : TaskExecutionAttempt) (db : Db)
      → attempt a.id db ≡ none
      → attempt k (insert_attempt a db) ≡ (if a.id == k then some a else attempt k db)
  pub task-close_attempt :
      (j k : Uuid) (now : Time) (e : Option Text) (db : Db)
      → task j (close_attempt k now e db) ≡ task j db
  pub attempts-close_attempt :
      (j k : Uuid) (now : Time) (e : Option Text) (db : Db)
      → attempts j (close_attempt k now e db) ≡ map (close_row k now e) (attempts j db)
  pub attempt-close_attempt :
      (i k : Uuid) (now : Time) (e : Option Text) (db : Db)
      → attempt i (close_attempt k now e db) ≡ Option.map (close_row k now e) (attempt i db)
