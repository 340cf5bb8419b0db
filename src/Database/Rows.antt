-- ===== src/Database/Rows.antt =====
-- What the statements do to rows: lookup by primary key, UPDATE of one row, ORDER BY
-- attempt_number, and the assignments that end an attempt.
use mathlib.Core.Option.{get_or}
use task_mesh.Base.{ℕ, ◌≡◌, Bool, List, [], ◌∷◌, Option, none, some, ◌==◌, leb, if◌then◌else◌}
use task_mesh.Text.{Text}
use task_mesh.Model.{Uuid, Time, Task, TaskStatus, TaskExecutionAttempt}

abbrev pub find_task : Uuid → List Task → Option Task
find_task i [] = none
find_task i (t ∷ ts) = if t.id == i then some t else find_task i ts

-- The columns that `.values(...)` may name: `none` leaves a column as it is.
pub record Values : Type 0 where
  pub status : Option TaskStatus
  pub retry_count : Option ℕ
  pub started_at : Option (Option Time)
  pub completed_at : Option (Option Time)
  pub last_error : Option (Option Text)
  pub lease_expires_at : Option (Option Time)

-- SET v, on one row.
abbrev pub assign : Values → Task → Task
assign v t = record t {
  status = get_or v.status t.status;
  retry_count = get_or v.retry_count t.retry_count;
  started_at = get_or v.started_at t.started_at;
  completed_at = get_or v.completed_at t.completed_at;
  last_error = get_or v.last_error t.last_error;
  lease_expires_at = get_or v.lease_expires_at t.lease_expires_at;
}

-- SET v WHERE p, on the row of one primary key; and how many rows that is.
abbrev pub update_row : (Task → Bool) → Values → Option Task → Option Task
update_row p v none = none
update_row p v (some t) = some (if p t then assign v t else t)

abbrev pub matched : (Task → Bool) → Option Task → ℕ
matched p none = 0
matched p (some t) = if p t then 1 else 0

abbrev pub find_attempt : Uuid → List TaskExecutionAttempt → Option TaskExecutionAttempt
find_attempt k [] = none
find_attempt k (a ∷ rest) = if a.id == k then some a else find_attempt k rest

-- A row goes behind those with no larger attempt_number.
abbrev pub insert_sorted :
    TaskExecutionAttempt → List TaskExecutionAttempt → List TaskExecutionAttempt
insert_sorted a [] = a ∷ []
insert_sorted a (b ∷ bs) =
    if leb b.attempt_number a.attempt_number then b ∷ insert_sorted a bs else a ∷ b ∷ bs

abbrev pub close_row : Uuid → Time → Option Text → TaskExecutionAttempt → TaskExecutionAttempt
close_row k now e a = if a.id == k then record a { finished_at = some now; error = e } else a

-- The rows of a table with primary key `id`.
abbrev pub IsKeyed : List Task → Type 0
IsKeyed [] = Unit {0}
IsKeyed (t ∷ ts) = (find_task t.id ts ≡ none) × IsKeyed ts
