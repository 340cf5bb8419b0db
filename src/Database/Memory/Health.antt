-- ===== src/Database/Memory/Health.antt =====
-- The database in memory works as long as no flush has failed.
use task_mesh.Base.{◌≡◌, true, none, arith}
use task_mesh.Model.{TaskExecutionAttempt}
use task_mesh.Database.Rows.{find_attempt}
use task_mesh.Database.Healthy.{IsHealthy}
use task_mesh.Database.Memory.{Memory, memory}

abbrev pub HasNoFault : Memory → Type 0
HasNoFault db = db.sound ≡ true

insert-HasNoFault :
    (a : TaskExecutionAttempt) (db : Memory)
    → HasNoFault db
    → find_attempt a.id db.runs ≡ none
    → HasNoFault (memory.insert_attempt a db)
insert-HasNoFault a db h fresh = ground arith

pub memory-IsHealthy : IsHealthy ⦃database = memory⦄ HasNoFault
memory-IsHealthy = record {
  commits_all = λ db h. h;
  after_update = λ i p v db h. h;
  after_insert = insert-HasNoFault;
  after_close = λ k now e db h. h;
}
