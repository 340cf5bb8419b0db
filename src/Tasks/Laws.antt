-- ===== src/Tasks/Laws.antt =====
-- What submission and requeueing return and leave behind.
use task_mesh.Base.{
  ◌≡◌, refl, ap, true, false, ◌⊎◌, inl, inr, Option-cases, Bool-cases, none, some, arith, ◌==◌,
  if◌then◌else◌, ==→eq, ==_refl,
}
use task_mesh.Model.{Uuid, Time, Task, dead_letter, has_status}
use task_mesh.Database.{Database}
use task_mesh.Database.Healthy.{IsHealthy}
use task_mesh.Database.Rows.{assign}
use task_mesh.Errors.{ok, raise, database_error}
use task_mesh.Tasks.{
  TaskCreate, LoadedTask, new_task, requeue_values, create_task, get_task, requeue_dead_letter_task,
}

module _ ⦃database : Database⦄ where
  open database use {
    Db, task, attempts, attempt, commits, insert_task, update_task, rowcount, task-update_task,
    attempts-update_task, attempt-update_task, insert_task-fresh, task-insert_task,
    attempts-insert_task, attempt-insert_task,
  }

  -- A committed submission: the id was not taken, the new row is there, nothing else has changed.
  pub record Creates (row : Task) (db final : Db) : Type 0 where
    pub was_fresh : task row.id db ≡ none
    pub rows_after : (j : Uuid) → task j final ≡ (if row.id == j then some row else task j db)
    pub attempts_after : (j : Uuid) → attempts j final ≡ attempts j db

  -- Creating a task either raises the database error and changes no table, or returns the new
  -- row, whose id was not in the table, and commits that row, every other row and every attempt
  -- left as they were.
  pub create_task_cases :
      (id : Uuid) (now : Time) (task_data : TaskCreate) (db : Db)
      → (create_task id now task_data db ≡ (raise database_error, db))
        ⊎ ((create_task id now task_data db).0 ≡ ok (new_task id now task_data))
          × Creates (new_task id now task_data) db (create_task id now task_data db).1
  unfolding create_task
  create_task_cases id now task_data db =
      let row : Task = new_task id now task_data in
      elim (Bool-cases (commits (insert_task row db))) [
        | inl through ↦
            let fresh = insert_task-fresh row db through in
            inr (
              rw through (
                refl,
                record {
                  was_fresh = fresh;
                  rows_after = λ j. task-insert_task j row db fresh;
                  attempts_after = λ j. attempts-insert_task j row db;
                },
              ))
        | inr refused ↦ inl (rw refused refl)
      ]

  -- A committed requeue of the row.
  pub record Requeues (task_id : Uuid) (row : Task) (db final : Db) : Type 0 where
    pub rows_after :
        (j : Uuid)
        → task j final ≡ (if task_id == j then some (assign requeue_values row) else task j db)
    pub attempts_after : (j : Uuid) → attempts j final ≡ attempts j db

  module _ (task_id : Uuid) (leaving : Db → Db) where
    unfoldable pub stored : Db → Db
    stored db = (update_task task_id (has_status dead_letter) requeue_values db).1

    pub stored-Requeues :
        (db : Db) (row : Task)
        → task task_id db ≡ some row
        → has_status dead_letter row ≡ true
        → Requeues task_id row db (stored db)
    unfolding stored
    stored-Requeues db row found dead = record {
      rows_after = λ j. ground (
        arith,
        task-update_task j task_id (has_status dead_letter) requeue_values db,
        ==→eq task_id j,
      );
      attempts_after =
          λ j. attempts-update_task j task_id (has_status dead_letter) requeue_values db;
    }

    -- Only a dead-lettered task can be requeued: any other is refused, and nothing is written.
    pub requeue-refused :
        (db : Db)
        → ((row : Task) → task task_id db ≡ some row → has_status dead_letter row ≡ false)
        → requeue_dead_letter_task task_id leaving db ≡ (ok none, db)
    unfolding requeue_dead_letter_task
    requeue-refused db alive =
        let count = rowcount task_id (has_status dead_letter) requeue_values db in
        elim (Option-cases (task task_id db)) [
          | inl missing ↦ ground (arith, count)
          | inr (row, found) ↦ ground (arith, alive row found, count)
        ]

    pub requeue-dead :
        (db : Db) (row : Task)
        → task task_id db ≡ some row
        → has_status dead_letter row ≡ true
        → requeue_dead_letter_task task_id leaving db ≡ (
            if commits (stored db)
            then (ok (get_task task_id (leaving (stored db))), leaving (stored db))
            else (raise database_error, db))
    unfolding requeue_dead_letter_task stored
    requeue-dead db row found dead =
        ground (arith, rowcount task_id (has_status dead_letter) requeue_values db)

    -- On every path the tables stay, or a dead-lettered row is requeued.
    pub requeue_db :
        (db : Db)
        → ((requeue_dead_letter_task task_id leaving db).1 ≡ db)
          ⊎ ((row : Task) × (mid : Db) × (task task_id db ≡ some row)
              × (has_status dead_letter row ≡ true)
              × Requeues task_id row db mid
              × ((requeue_dead_letter_task task_id leaving db).1 ≡ leaving mid))
    requeue_db db = elim (Option-cases (task task_id db)) [
      | inl missing ↦ inl (ap (λ r. r.1) (requeue-refused db (λ row found. ground arith)))
      | inr (row, found) ↦ elim (Bool-cases (has_status dead_letter row)) [
        | inr alive ↦ inl (ap (λ r. r.1) (requeue-refused db (λ other same. ground (arith, alive))))
        | inl dead ↦ elim (Bool-cases (commits (stored db))) [
          | inl through ↦ inr (
            row,
            stored db,
            found,
            dead,
            stored-Requeues db row found dead,
            rw (requeue-dead db row found dead, through) refl,
          )
          | inr refused ↦ inl (rw (requeue-dead db row found dead, refused) refl)
        ]
      ]
    ]

  -- With nobody between the COMMIT and the lookup, the requeued task is given back.
  pub requeue-dead_ok :
      (task_id : Uuid) (db : Db) (row : Task)
      → task task_id db ≡ some row
      → has_status dead_letter row ≡ true
      → commits (stored task_id (λ u. u) db) ≡ true
      → (found : LoadedTask) × (requeue_dead_letter_task task_id (λ u. u) db
          ≡ (ok (some found), stored task_id (λ u. u) db))
  unfolding get_task
  requeue-dead_ok task_id db row found dead through =
      let r = stored-Requeues task_id (λ u. u) db row found dead in
      let mine = rw (==_refl task_id) at (r.rows_after task_id) in
      rw (requeue-dead task_id (λ u. u) db row found dead, through, get_task, mine) (_, refl)

  -- With nobody between the COMMIT and the lookup, the tables stay, or a dead-lettered row is requeued
  -- and given back.
  pub requeue_cases :
      (task_id : Uuid) (db : Db)
      → let (result, final) = requeue_dead_letter_task task_id (λ u. u) db in
        (final ≡ db)
        ⊎ ((row : Task) × (found : LoadedTask) × (result ≡ ok (some found))
            × Requeues task_id row db final)
  requeue_cases task_id db = elim (Option-cases (task task_id db)) [
    | inl missing ↦
        inl (ap (λ r. r.1) (requeue-refused task_id (λ u. u) db (λ row found. ground arith)))
    | inr (row, found) ↦ elim (Bool-cases (has_status dead_letter row)) [
      | inr alive ↦ inl (
          ap (λ r. r.1) (requeue-refused task_id (λ u. u) db (λ other same. ground (arith, alive))))
      | inl dead ↦ elim (Bool-cases (commits (stored task_id (λ u. u) db))) [
        | inl through ↦
            let (loaded, e) = requeue-dead_ok task_id db row found dead through in
            inr (rw e (row, loaded, refl, stored-Requeues task_id (λ u. u) db row found dead))
        | inr refused ↦ inl (rw (requeue-dead task_id (λ u. u) db row found dead, refused) refl)
      ]
    ]
  ]

  pub stored-Healthy :
      {H : Db → Type 0} (healthy : IsHealthy H) (task_id : Uuid) (db : Db)
      → H db
      → H (stored task_id (λ u. u) db)
  unfolding stored
  stored-Healthy healthy task_id db h =
      healthy.after_update task_id (has_status dead_letter) requeue_values db h

  pub attempt-stored :
      (task_id k : Uuid) (db : Db) → attempt k (stored task_id (λ u. u) db) ≡ attempt k db
  unfolding stored
  attempt-stored task_id k db =
      attempt-update_task k task_id (has_status dead_letter) requeue_values db
