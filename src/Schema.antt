-- ===== src/Schema.antt =====
-- What a database schema is made of, and the operations of Alembic on it, as an interface.
pub mod Alembic
pub mod Laws
use task_mesh.Base.{ℕ, ◌≡◌, Bool, true, false, not, List, [], ◌∷◌, Option, none, some, is_some}
use task_mesh.Text.{Text, same_text}

pub data ColumnType : Type 0 where
  uuid json integer unbounded_text : ColumnType
  string : ℕ → ColumnType
  date_time_with_timezone : ColumnType
  -- Not native: a string with a CHECK on the values, named by its name.
  enum : Text → List Text → ColumnType

pub data ServerDefault : Type 0 where
  literal : Text → ServerDefault
  now : ServerDefault

pub record Column : Type 0 where
  pub name : Text
  pub column_type : ColumnType
  pub server_default : Option ServerDefault
  pub nullable : Bool

pub data Constraint : Type 0 where
  check : Text → Text → Constraint
  primary_key : Text → List Text → Constraint
  unique : Text → List Text → Constraint
  -- Its name, its columns, the columns it refers to, and ON DELETE.
  foreign_key : Text → List Text → List Text → Text → Constraint

pub record Table : Type 0 where
  pub name : Text
  pub columns : List Column
  pub constraints : List Constraint

pub record Index : Type 0 where
  pub name : Text
  pub table : Text
  pub columns : List Text

-- `op.create_table` and so on.
pub data Operation : Type 0 where
  create_table : Table → Operation
  drop_table : Text → Operation
  create_index : Index → Operation
  drop_index : Text → Text → Operation
  add_column : Text → Column → Operation
  drop_column : Text → Text → Operation

-- A schema: its tables and indexes by name, and by the name of a table the names of those that refer
-- to it by a foreign key.
pub record View : Type 0 where
  pub tables : Text → Option Table
  pub indexes : Text → Option Index
  pub referrers : Text → List Text
