-- ===== src/Migrations.antt =====
-- migrations/versions: the two migrations, as the operations of their `upgrade` and `downgrade`.
pub mod Models
pub mod Environment
pub mod Steps
pub mod Laws
use task_mesh.Base.{ℕ, Bool, true, false, List, [], ◌∷◌, Option, none, some}
use task_mesh.Text.{Text, codes}
use task_mesh.Schema.{
  ColumnType, uuid, json, integer, unbounded_text, string, date_time_with_timezone, enum,
  ServerDefault, literal, now, Column, Constraint, check, primary_key, unique, foreign_key, Table,
  Index, Operation, create_table, drop_table, create_index, drop_index, add_column, drop_column,
}

pub record Migration : Type 0 where
  pub revision : Text
  pub down_revision : Option Text
  pub upgrade : List Operation
  pub downgrade : List Operation

abbrev pub column : Text → ColumnType → Option ServerDefault → Bool → Column
column name column_type server_default nullable = record {
  name = name;
  column_type = column_type;
  server_default = server_default;
  nullable = nullable;
}

abbrev pub index : Text → Text → List Text → Index
index name table columns = record { name = name; table = table; columns = columns }

-- migrations/versions/20260808_0001_create_task_tables.py
abbrev pub tasks_table : Table
tasks_table = record {
  name = codes "tasks";
  columns =
      column (codes "id") uuid none false
      ∷ column (codes "task_type") (string 100) none false
      ∷ column (codes "payload") json none false
      ∷ column (codes "priority")
          (enum (codes "taskpriority") (codes "HIGH" ∷ codes "MEDIUM" ∷ codes "LOW" ∷ []))
          (some (literal (codes "MEDIUM"))) false
      ∷ column (codes "status")
          (enum (codes "taskstatus") (
            codes "QUEUED"
            ∷ codes "RUNNING"
            ∷ codes "COMPLETED"
            ∷ codes "FAILED"
            ∷ codes "DEAD_LETTER"
            ∷ []))
          (some (literal (codes "QUEUED"))) false
      ∷ column (codes "retry_count") integer (some (literal (codes "0"))) false
      ∷ column (codes "max_retries") integer (some (literal (codes "3"))) false
      ∷ column (codes "created_at") date_time_with_timezone (some now) false
      ∷ column (codes "started_at") date_time_with_timezone none true
      ∷ column (codes "completed_at") date_time_with_timezone none true
      ∷ column (codes "last_error") unbounded_text none true
      ∷ [];
  constraints =
      check (codes "ck_tasks_max_retries_nonnegative") (codes "max_retries >= 0")
      ∷ check (codes "ck_tasks_retry_count_nonnegative") (codes "retry_count >= 0")
      ∷ check (codes "ck_tasks_retry_count_within_limit") (codes "retry_count <= max_retries")
      ∷ primary_key (codes "pk_tasks") (codes "id" ∷ [])
      ∷ [];
}

abbrev pub attempts_table : Table
attempts_table = record {
  name = codes "task_execution_attempts";
  columns =
      column (codes "id") uuid none false
      ∷ column (codes "task_id") uuid none false
      ∷ column (codes "attempt_number") integer none false
      ∷ column (codes "worker_identifier") (string 255) none true
      ∷ column (codes "started_at") date_time_with_timezone (some now) false
      ∷ column (codes "finished_at") date_time_with_timezone none true
      ∷ column (codes "error") unbounded_text none true
      ∷ [];
  constraints =
      check (codes "ck_task_execution_attempts_attempt_number_positive")
        (codes "attempt_number >= 1")
      ∷ foreign_key (codes "fk_task_execution_attempts_task_id_tasks") (codes "task_id" ∷ [])
          (codes "tasks.id" ∷ []) (codes "CASCADE")
      ∷ primary_key (codes "pk_task_execution_attempts") (codes "id" ∷ [])
      ∷ unique (codes "uq_task_execution_attempts_task_id")
          (codes "task_id" ∷ codes "attempt_number" ∷ [])
      ∷ [];
}

abbrev pub priority_index : Index
priority_index = index (codes "ix_tasks_priority") (codes "tasks") (codes "priority" ∷ [])

abbrev pub status_index : Index
status_index = index (codes "ix_tasks_status") (codes "tasks") (codes "status" ∷ [])

abbrev pub task_type_index : Index
task_type_index = index (codes "ix_tasks_task_type") (codes "tasks") (codes "task_type" ∷ [])

abbrev pub task_id_index : Index
task_id_index =
    index (codes "ix_task_execution_attempts_task_id") (codes "task_execution_attempts")
      (codes "task_id" ∷ [])

abbrev pub create_task_tables : Migration
create_task_tables = record {
  revision = codes "20260808_0001";
  down_revision = none;
  upgrade =
      create_table tasks_table
      ∷ create_index priority_index
      ∷ create_index status_index
      ∷ create_index task_type_index
      ∷ create_table attempts_table
      ∷ create_index task_id_index
      ∷ [];
  downgrade =
      drop_index (codes "ix_task_execution_attempts_task_id") (codes "task_execution_attempts")
      ∷ drop_table (codes "task_execution_attempts")
      ∷ drop_index (codes "ix_tasks_task_type") (codes "tasks")
      ∷ drop_index (codes "ix_tasks_status") (codes "tasks")
      ∷ drop_index (codes "ix_tasks_priority") (codes "tasks")
      ∷ drop_table (codes "tasks")
      ∷ [];
}

-- migrations/versions/20260809_0002_add_task_lease_recovery.py
abbrev pub lease_column : Column
lease_column = column (codes "lease_expires_at") date_time_with_timezone none true

abbrev pub lease_index : Index
lease_index =
    index (codes "ix_tasks_status_lease_expires_at") (codes "tasks")
      (codes "status" ∷ codes "lease_expires_at" ∷ [])

abbrev pub add_task_lease_recovery : Migration
add_task_lease_recovery = record {
  revision = codes "20260809_0002";
  down_revision = some (codes "20260808_0001");
  upgrade = add_column (codes "tasks") lease_column ∷ create_index lease_index ∷ [];
  downgrade =
      drop_index (codes "ix_tasks_status_lease_expires_at") (codes "tasks")
      ∷ drop_column (codes "tasks") (codes "lease_expires_at")
      ∷ [];
}
