-- ===== src/Database/Healthy.antt =====
-- A database that works, for theorems about what does happen.
use task_mesh.Base.{Bool, true, ◌≡◌, none, Option}
use task_mesh.Text.{Text}
use task_mesh.Model.{Uuid, Time, Task, TaskExecutionAttempt}
use task_mesh.Database.{Database}
use task_mesh.Database.Rows.{Values}

module _ ⦃database : Database⦄ where
  open database use {Db, attempt, commits, update_task, insert_attempt, close_attempt}

  -- In these states every COMMIT goes through, and statements lead from one to another, unless an
  -- attempt is inserted under a UUID that is taken.
  pub record IsHealthy (H : Db → Type 0) : Type 0 where
    pub commits_all : (db : Db) → H db → commits db ≡ true
    pub after_update :
        (i : Uuid) (p : Task → Bool) (v : Values) (db : Db) → H db → H (update_task i p v db).1
    pub after_insert :
        (a : TaskExecutionAttempt) (db : Db)
        → H db
        → attempt a.id db ≡ none
        → H (insert_attempt a db)
    pub after_close :
        (k : Uuid) (now : Time) (e : Option Text) (db : Db) → H db → H (close_attempt k now e db)
