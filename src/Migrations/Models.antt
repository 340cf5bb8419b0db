-- ===== src/Migrations/Models.antt =====
-- The schema that the classes of app/models declare, with the names that the convention of
-- app/db/base.py gives to their constraints and indexes.
use task_mesh.Base.{true, false, List, [], ◌∷◌, ◌++◌, none, some}
use task_mesh.Text.{Text, codes}
use task_mesh.Schema.{
  uuid, json, integer, unbounded_text, string, date_time_with_timezone, enum, literal, now,
  Constraint, check, primary_key, unique, foreign_key, Table, Index,
}
use task_mesh.Migrations.{column, index}

-- The entries of `convention`.
abbrev pub join_names : Text → Text → Text
join_names a b = a ++ codes "_" ++ b

abbrev pub check_constraint : Text → Text → Text → Constraint
check_constraint table sql name = check (join_names (codes "ck") (join_names table name)) sql

abbrev pub primary : Text → Text → Constraint
primary table name = primary_key (join_names (codes "pk") table) (name ∷ [])

abbrev pub unique_constraint : Text → Text → List Text → Constraint
unique_constraint table first others =
    unique (join_names (codes "uq") (join_names table first)) (first ∷ others)

abbrev pub foreign : Text → Text → Text → Text → Text → Constraint
foreign table name referred_table referred ondelete =
    foreign_key (join_names (codes "fk") (join_names table (join_names name referred_table)))
      (name ∷ []) ((referred_table ++ codes "." ++ referred) ∷ []) ondelete

-- `index=True` on a column.
abbrev pub column_index : Text → Text → Index
column_index table name = index (join_names (codes "ix") (join_names table name)) table (name ∷ [])

-- `Task.__table__`: an `Enum` stores the names of the members, and is named by its class.
abbrev pub task_model : Table
task_model = record {
  name = codes "tasks";
  columns =
      column (codes "id") uuid none false
      ∷ column (codes "task_type") (string 100) none false
      ∷ column (codes "payload") json none false
      ∷ column (codes "priority")
          (enum (codes "taskpriority") (codes "HIGH" ∷ codes "MEDIUM" ∷ codes "LOW" ∷ []))
          (some (literal (codes "MEDIUM"))) false
      ∷ column (codes "status")
          (enum (codes "taskstatus") (
            codes "QUEUED"
            ∷ codes "RUNNING"
            ∷ codes "COMPLETED"
            ∷ codes "FAILED"
            ∷ codes "DEAD_LETTER"
            ∷ []))
          (some (literal (codes "QUEUED"))) false
      ∷ column (codes "retry_count") integer (some (literal (codes "0"))) false
      ∷ column (codes "max_retries") integer (some (literal (codes "3"))) false
      ∷ column (codes "created_at") date_time_with_timezone (some now) false
      ∷ column (codes "started_at") date_time_with_timezone none true
      ∷ column (codes "completed_at") date_time_with_timezone none true
      ∷ column (codes "last_error") unbounded_text none true
      ∷ column (codes "lease_expires_at") date_time_with_timezone none true
      ∷ [];
  constraints =
      check_constraint (codes "tasks") (codes "retry_count >= 0") (codes "retry_count_nonnegative")
      ∷ check_constraint (codes "tasks") (codes "max_retries >= 0")
          (codes "max_retries_nonnegative")
      ∷ check_constraint (codes "tasks") (codes "retry_count <= max_retries")
          (codes "retry_count_within_limit")
      ∷ primary (codes "tasks") (codes "id")
      ∷ [];
}

abbrev pub task_indexes : List Index
task_indexes =
    index (codes "ix_tasks_status_lease_expires_at") (codes "tasks")
      (codes "status" ∷ codes "lease_expires_at" ∷ [])
    ∷ column_index (codes "tasks") (codes "task_type")
    ∷ column_index (codes "tasks") (codes "priority")
    ∷ column_index (codes "tasks") (codes "status")
    ∷ []

-- `TaskExecutionAttempt.__table__`.
abbrev pub attempt_model : Table
attempt_model = record {
  name = codes "task_execution_attempts";
  columns =
      column (codes "id") uuid none false
      ∷ column (codes "task_id") uuid none false
      ∷ column (codes "attempt_number") integer none false
      ∷ column (codes "worker_identifier") (string 255) none true
      ∷ column (codes "started_at") date_time_with_timezone (some now) false
      ∷ column (codes "finished_at") date_time_with_timezone none true
      ∷ column (codes "error") unbounded_text none true
      ∷ [];
  constraints =
      check_constraint (codes "task_execution_attempts") (codes "attempt_number >= 1")
        (codes "attempt_number_positive")
      ∷ unique_constraint (codes "task_execution_attempts") (codes "task_id")
          (codes "attempt_number" ∷ [])
      ∷ foreign (codes "task_execution_attempts") (codes "task_id") (codes "tasks") (codes "id")
          (codes "CASCADE")
      ∷ primary (codes "task_execution_attempts") (codes "id")
      ∷ [];
}

abbrev pub attempt_indexes : List Index
attempt_indexes = column_index (codes "task_execution_attempts") (codes "task_id") ∷ []
