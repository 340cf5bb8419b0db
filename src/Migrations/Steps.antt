-- ===== src/Migrations/Steps.antt =====
-- Each migration on a schema that is free for it: what is accepted, and what its downgrade takes back.
use task_mesh.Base.{◌≡◌, refl, ap, ◌∙◌, Bool, true, false, [], Option, none, arith}
use task_mesh.Text.{Text, codes, same_text}
use task_mesh.Schema.{Index, View}
use task_mesh.Schema.Laws.{
  erase-put, put-put, put_self, purge-put, purge_fewer, forget-refer, View-ext,
}
use task_mesh.Schema.Alembic.{forget, on_table, on_column, put, erase, purge, effects, accepts_all}
use task_mesh.Migrations.{
  create_task_tables, add_task_lease_recovery, tasks_table, attempts_table, priority_index,
  status_index, task_type_index, task_id_index, lease_index,
}

abbrev pub IsUnused : Text → View → Type 0
IsUnused name v = (v.tables name ≡ none) × (v.indexes name ≡ none)

-- A schema that has nothing under the names of the program: no such table or index, no index on such
-- a table, and no foreign key from one or to one.
pub record IsFree (v : View) : Type 0 where
  pub tasks_unused : IsUnused (codes "tasks") v
  pub attempts_unused : IsUnused (codes "task_execution_attempts") v
  pub priority_unused : IsUnused priority_index.name v
  pub status_unused : IsUnused status_index.name v
  pub task_type_unused : IsUnused task_type_index.name v
  pub task_id_unused : IsUnused task_id_index.name v
  pub lease_unused : IsUnused lease_index.name v
  pub off_tasks : purge (on_table (codes "tasks")) v.indexes ≡ v.indexes
  pub off_attempts : purge (on_table (codes "task_execution_attempts")) v.indexes ≡ v.indexes
  pub to_tasks : v.referrers (codes "tasks") ≡ []
  pub to_attempts : v.referrers (codes "task_execution_attempts") ≡ []
  pub from_tasks : forget (codes "tasks") v.referrers ≡ v.referrers
  pub from_attempts : forget (codes "task_execution_attempts") v.referrers ≡ v.referrers

abbrev pub first_state : View → View
first_state v = effects create_task_tables.upgrade v

module _ (v : View) (free : IsFree v) where
  pub first_up : accepts_all create_task_tables.upgrade v ≡ true
  unfolding same_text
  first_up =
      rw
        (
          free.tasks_unused.0, free.tasks_unused.1, free.attempts_unused.0, free.attempts_unused.1,
          free.priority_unused.0, free.priority_unused.1, free.status_unused.0,
          free.status_unused.1, free.task_type_unused.0, free.task_type_unused.1,
          free.task_id_unused.0, free.task_id_unused.1,
        )
        refl

  pub first_down : accepts_all create_task_tables.downgrade (first_state v) ≡ true
  unfolding same_text
  first_down = rw (free.to_tasks, free.to_attempts) refl

  tables_back :
      erase (codes "tasks") (
        erase (codes "task_execution_attempts") (
          put
            (codes "task_execution_attempts")
            attempts_table
            (put (codes "tasks") tasks_table v.tables)))
      ≡ v.tables
  unfolding same_text
  tables_back =
      ap (erase (codes "tasks")) (
        erase-put (codes "task_execution_attempts") attempts_table
          (put (codes "tasks") tasks_table v.tables) free.attempts_unused.0)
      ∙ erase-put (codes "tasks") tasks_table v.tables free.tasks_unused.0

  tasks_indexes : (Text → Option Index) → Text → Option Index
  tasks_indexes f =
      put task_type_index.name task_type_index
        (put status_index.name status_index (put priority_index.name priority_index f))

  -- What leaves the indexes of `v` and the three of the tasks leaves all of them.
  purge-tasks_indexes :
      (p : Index → Bool)
      → p task_type_index ≡ false
      → p status_index ≡ false
      → p priority_index ≡ false
      → purge p v.indexes ≡ v.indexes
      → purge p (tasks_indexes v.indexes) ≡ tasks_indexes v.indexes
  unfolding tasks_indexes
  purge-tasks_indexes p on_type on_status on_priority h =
      purge-put p task_type_index.name task_type_index _ on_type
      ∙ ap (put task_type_index.name task_type_index) (
          purge-put p status_index.name status_index _ on_status
          ∙ ap (put status_index.name status_index) (
              purge-put p priority_index.name priority_index v.indexes on_priority
              ∙ ap (put priority_index.name priority_index) h))

  abbrev erase_indexes : (Text → Option Index) → Text → Option Index
  erase_indexes f =
      erase priority_index.name (erase status_index.name (erase task_type_index.name f))

  erase-tasks_indexes : erase_indexes (tasks_indexes v.indexes) ≡ v.indexes
  unfolding same_text tasks_indexes
  erase-tasks_indexes =
      ap (λ f. erase priority_index.name (erase status_index.name f))
        (erase-put task_type_index.name task_type_index _ free.task_type_unused.1)
      ∙ ap (erase priority_index.name)
          (erase-put status_index.name status_index _ free.status_unused.1)
      ∙ erase-put priority_index.name priority_index v.indexes free.priority_unused.1

  indexes_back : (effects create_task_tables.downgrade (first_state v)).indexes ≡ v.indexes
  unfolding same_text tasks_indexes
  indexes_back =
      ap
        (λ f.
          purge (on_table (codes "tasks"))
            (erase_indexes (purge (on_table (codes "task_execution_attempts")) f)))
        (erase-put task_id_index.name task_id_index (tasks_indexes v.indexes) free.task_id_unused.1)
      ∙ ap (λ f. purge (on_table (codes "tasks")) (erase_indexes f))
          (purge-tasks_indexes (on_table (codes "task_execution_attempts")) refl refl refl
            free.off_attempts)
      ∙ ap (purge (on_table (codes "tasks"))) erase-tasks_indexes
      ∙ free.off_tasks

  referrers_back : (effects create_task_tables.downgrade (first_state v)).referrers ≡ v.referrers
  unfolding same_text
  referrers_back =
      ap (forget (codes "tasks")) (
        forget-refer (codes "task_execution_attempts") (codes "tasks") v.referrers
        ∙ free.from_attempts)
      ∙ free.from_tasks

  pub first_back : effects create_task_tables.downgrade (first_state v) ≡ v
  unfolding same_text
  first_back = View-ext _ v tables_back indexes_back referrers_back

  pub second_up : accepts_all add_task_lease_recovery.upgrade (first_state v) ≡ true
  unfolding same_text
  second_up = rw (free.lease_unused.0, free.lease_unused.1) refl

  pub second_down :
      accepts_all add_task_lease_recovery.downgrade
        (effects add_task_lease_recovery.upgrade (first_state v))
      ≡ true
  unfolding same_text
  second_down = refl

  off_lease_column :
      purge (on_column (codes "tasks") (codes "lease_expires_at")) (first_state v).indexes
      ≡ (first_state v).indexes
  unfolding same_text tasks_indexes
  off_lease_column =
      let p = on_column (codes "tasks") (codes "lease_expires_at") in
      let old =
        purge_fewer (on_table (codes "tasks")) p v.indexes (λ ix h. ground (arith, h))
          free.off_tasks in
      purge-put p task_id_index.name task_id_index _ refl
      ∙ ap (put task_id_index.name task_id_index) (purge-tasks_indexes p refl refl refl old)

  pub second_back :
      effects add_task_lease_recovery.downgrade
        (effects add_task_lease_recovery.upgrade (first_state v))
      ≡ first_state v
  unfolding same_text
  second_back =
      View-ext _ (first_state v)
        (put-put (codes "tasks") _ tasks_table (first_state v).tables
          ∙ put_self (codes "tasks") tasks_table (first_state v).tables refl)
        (ap (purge (on_column (codes "tasks") (codes "lease_expires_at")))
            (erase-put lease_index.name lease_index (first_state v).indexes free.lease_unused.1)
          ∙ off_lease_column)
        refl
