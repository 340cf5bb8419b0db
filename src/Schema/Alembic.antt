-- ===== src/Schema/Alembic.antt =====
-- What the operations do to the tables and indexes of a schema, as SQL documents it.
use task_mesh.Base.{
  ◌≡◌, Bool, true, false, not, ◌&&◌, List, [], ◌∷◌, ◌++◌, Option, none, some, is_some, ◌||◌, ◌==◌,
  if◌then◌else◌, keep, any,
}
use task_mesh.Text.{Text, same_text, starts_with}
use task_mesh.Schema.{
  Column, Constraint, check, primary_key, unique, foreign_key, Table, Index, Operation,
  create_table, drop_table, create_index, drop_index, add_column, drop_column, View,
}

-- A table of values by name: one entry written, one taken out.
abbrev pub put {ℓ} : {A : Type ℓ} → Text → A → (Text → Option A) → Text → Option A
put name a f k = if same_text name k then some a else f k

abbrev pub erase {ℓ} : {A : Type ℓ} → Text → (Text → Option A) → Text → Option A
erase name f k = if same_text name k then none else f k

-- The indexes that are left when those with a property are dropped.
abbrev pub off : (Index → Bool) → Option Index → Option Index
off p none = none
off p (some ix) = if p ix then none else some ix

abbrev pub purge : (Index → Bool) → (Text → Option Index) → Text → Option Index
purge p f k = off p (f k)

abbrev pub on_table : Text → Index → Bool
on_table table ix = same_text ix.table table

abbrev pub on_column : Text → Text → Index → Bool
on_column table name ix = same_text ix.table table && any (same_text name) ix.columns

-- "tasks" of "tasks.id".
abbrev pub table_of : Text → Text
table_of [] = []
table_of (c ∷ s) = let rest = table_of s in if c == b'.' then [] else c ∷ rest

abbrev pub referred_tables : List Constraint → List Text
referred_tables [] = []
referred_tables (c ∷ cs) = elim c [
  | foreign_key name columns (r ∷ rs) ondelete ↦ table_of r ∷ referred_tables cs
  | _ ↦ referred_tables cs
]

abbrev pub refer : Text → List Text → (Text → List Text) → Text → List Text
refer name [] f k = f k
refer name (r ∷ rs) f k =
    let rest = refer name rs f k in if same_text r k then name ∷ rest else rest

abbrev pub forget : Text → (Text → List Text) → Text → List Text
forget name f k = keep (λ n. not (same_text n name)) (f k)

abbrev pub change_columns : Text → (List Column → List Column) → View → View
change_columns name g v = elim (v.tables name) [
  | none ↦ v
  | some t ↦ record v { tables = put name (record t { columns = g t.columns }) v.tables }
]

abbrev pub has_column : Text → Option Table → Bool
has_column name none = false
has_column name (some t) = any (λ c. same_text c.name name) t.columns

abbrev pub contains : Text → Text → Bool
contains name [] = false
contains name (c ∷ s) = starts_with name (c ∷ s) || contains name s

-- A constraint on the column, or a CHECK whose condition mentions its name.
abbrev pub involves : Text → Constraint → Bool
involves column (check name sql) = contains column sql
involves column (primary_key name columns) = any (same_text column) columns
involves column (unique name columns) = any (same_text column) columns
involves column (foreign_key name columns referred ondelete) = any (same_text column) columns

abbrev pub has_constraint : Text → Option Table → Bool
has_constraint name none = false
has_constraint name (some t) = any (involves name) t.constraints

abbrev pub is_unused : Text → View → Bool
is_unused name v = not (is_some (v.tables name)) && not (is_some (v.indexes name))

-- Where the database is sure to accept an operation: a new name is in use for no table or index, what
-- it is on is there, and nothing depends on what is dropped but indexes, which go with it.
abbrev pub accepts : Operation → View → Bool
accepts (create_table t) v =
    is_unused t.name v
    && not (any (λ r. not (is_some (v.tables r))) (referred_tables t.constraints))
accepts (drop_table name) v = is_some (v.tables name) && not (any (λ r. true) (v.referrers name))
accepts (create_index ix) v =
    is_unused ix.name v
    && is_some (v.tables ix.table)
    && not (any (λ c. not (has_column c (v.tables ix.table))) ix.columns)
accepts (drop_index name table) v = is_some (v.indexes name)
accepts (add_column table c) v =
    is_some (v.tables table) && not (has_column c.name (v.tables table))
accepts (drop_column table name) v =
    has_column name (v.tables table) && not (has_constraint name (v.tables table))

abbrev pub effect : Operation → View → View
effect (create_table t) v = record v {
  tables = put t.name t v.tables;
  referrers = refer t.name (referred_tables t.constraints) v.referrers;
}
effect (drop_table name) v = record {
  tables = erase name v.tables;
  indexes = purge (on_table name) v.indexes;
  referrers = forget name v.referrers;
}
effect (create_index ix) v = record v { indexes = put ix.name ix v.indexes }
effect (drop_index name table) v = record v { indexes = erase name v.indexes }
effect (add_column table c) v = change_columns table (λ cs. cs ++ c ∷ []) v
effect (drop_column table name) v =
    let shorter = change_columns table (keep (λ c. not (same_text c.name name))) v in
    record shorter { indexes = purge (on_column table name) v.indexes }

abbrev pub effects : List Operation → View → View
effects [] v = v
effects (op ∷ ops) v = effects ops (effect op v)

abbrev pub accepts_all : List Operation → View → Bool
accepts_all [] v = true
accepts_all (op ∷ ops) v = accepts op v && accepts_all ops (effect op v)

-- Alembic on a database: an operation that the database accepts succeeds, and what it leaves is told
-- by its effect.
pub record Alembic : Type 1 where
  pub Schema : Type 0
  pub view : Schema → View
  pub run : Operation → Schema → Option Schema
  pub run-accepted :
      (op : Operation) (s : Schema)
      → accepts op (view s) ≡ true
      → (s' : Schema) × (run op s ≡ some s') × (view s' ≡ effect op (view s))

module _ ⦃alembic : Alembic⦄ where
  open alembic use {Schema, view, run, run-accepted}

  -- A migration function: its operations in order, up to the first that fails.
  unfoldable pub run_all : List Operation → Schema → Option Schema
  run_all [] s = some s
  run_all (op ∷ ops) s = elim (run op s) [ none ↦ none | some s' ↦ run_all ops s' ]
