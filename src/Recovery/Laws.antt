-- ===== src/Recovery/Laws.antt =====
-- What one reclaim returns and leaves behind, by the state of the task.
use task_mesh.Base.{
  ◌∙◌, ℕ, ◌≡◌, refl, true, false, inl, inr, ◌⊎◌, Option-cases, Option, none, some, List, map, arith,
  ◌==◌, if◌then◌else◌, ==→eq, Bool-cases, ap,
}
use task_mesh.Model.{Uuid, Time, Task, TaskExecutionAttempt, is_stale}
use task_mesh.Database.{Database}
use task_mesh.Database.Healthy.{IsHealthy}
use task_mesh.Database.Rows.{assign, close_row}
use task_mesh.Errors.{ok, raise, database_error}
use task_mesh.Recovery.{
  stale_lease_error, ReclaimedTask, reclaim_status, reclaim_count, reclaim_values, open_attempt,
  close_open, record_reclaim, reclaim_one,
}

-- The attempt that is still open, if any, gets its end and the lease error.
abbrev pub close_rows :
    Time → Option TaskExecutionAttempt → List TaskExecutionAttempt → List TaskExecutionAttempt
close_rows now none rest = rest
close_rows now (some a) rest = map (close_row a.id now (some stale_lease_error)) rest

module _ ⦃database : Database⦄ (now : Time) (task_id : Uuid) where
  open database use {
    Db, task, attempts, attempt, commits, update_task, close_attempt, rowcount, task-update_task,
    attempts-update_task, attempt-update_task, task-close_attempt, attempts-close_attempt,
    attempt-close_attempt,
  }

  -- A committed reclaim of the row, decided from the counts `retry_count` and `max_retries`.
  pub record Reclaims (retry_count max_retries : ℕ) (row : Task) (db final : Db) : Type 0 where
    pub rows_after :
        (j : Uuid)
        → task j final ≡ (
            if task_id == j
            then some (assign (reclaim_values retry_count max_retries) row)
            else task j db)
    pub attempts_after :
        (j : Uuid)
        → attempts j final ≡ close_rows now (open_attempt (attempts task_id db)) (attempts j db)

  task-close_open :
      (o : Option TaskExecutionAttempt) (j : Uuid) (db : Db)
      → task j (close_open now o db) ≡ task j db
  unfolding close_open
  task-close_open none j db = refl
  task-close_open (some a) j db = task-close_attempt j a.id now (some stale_lease_error) db

  attempts-close_open :
      (o : Option TaskExecutionAttempt) (j : Uuid) (db : Db)
      → attempts j (close_open now o db) ≡ close_rows now o (attempts j db)
  unfolding close_open
  attempts-close_open none j db = refl
  attempts-close_open (some a) j db = attempts-close_attempt j a.id now (some stale_lease_error) db

  -- A task that is absent, not RUNNING, without a lease or still under it is left alone.
  pub reclaim_one-fresh :
      (between : Db → Db) (db : Db)
      → ((row : Task) → task task_id db ≡ some row → is_stale now row ≡ false)
      → reclaim_one now task_id between db ≡ (ok none, db)
  unfolding reclaim_one
  reclaim_one-fresh between db fresh = elim (Option-cases (task task_id db)) [
    | inl missing ↦ ground arith
    | inr (row, found) ↦ ground (arith, fresh row found)
  ]

  pub reclaim_one-stale :
      (between : Db → Db) (db : Db) (row : Task)
      → task task_id db ≡ some row
      → is_stale now row ≡ true
      → reclaim_one now task_id between db
        ≡ record_reclaim now task_id row.retry_count row.max_retries (between db)
  unfolding reclaim_one
  reclaim_one-stale between db row found stale = ground arith

  module _ (retry_count max_retries : ℕ) where
    marked : Db → Db
    marked db = (update_task task_id (is_stale now) (reclaim_values retry_count max_retries) db).1

    unfoldable pub stored : Db → Db
    unfolding marked
    stored db = close_open now (open_attempt (attempts task_id (marked db))) (marked db)

    pub stored-Reclaims :
        (db : Db) (row : Task)
        → task task_id db ≡ some row
        → is_stale now row ≡ true
        → Reclaims retry_count max_retries row db (stored db)
    unfolding stored marked
    stored-Reclaims db row found stale =
        let values = reclaim_values retry_count max_retries in
        record {
          rows_after = λ j. ground (
            arith,
            task-close_open (open_attempt (attempts task_id (marked db))) j (marked db),
            task-update_task j task_id (is_stale now) values db,
            ==→eq task_id j,
          );
          attempts_after = λ j. simp (attempts-close_open, attempts-update_task);
        }

    -- The second guard: between the two statements the task stopped being stale.
    pub record_reclaim-late :
        (db : Db)
        → ((row : Task) → task task_id db ≡ some row → is_stale now row ≡ false)
        → record_reclaim now task_id retry_count max_retries db ≡ (ok none, db)
    unfolding record_reclaim
    record_reclaim-late db late =
        let count = rowcount task_id (is_stale now) (reclaim_values retry_count max_retries) db in
        elim (Option-cases (task task_id db)) [
          | inl missing ↦ ground (arith, count)
          | inr (row, found) ↦ ground (arith, late row found, count)
        ]

    abbrev pub reclaimed : ReclaimedTask
    reclaimed = record {
      task_id = task_id;
      outcome = reclaim_status retry_count max_retries;
      retry_count = reclaim_count retry_count max_retries;
      redispatched = false;
    }

    pub record_reclaim-stale :
        (db : Db) (row : Task)
        → task task_id db ≡ some row
        → is_stale now row ≡ true
        → record_reclaim now task_id retry_count max_retries db ≡ (
            if commits (stored db)
            then (ok (some reclaimed), stored db)
            else (raise database_error, db))
    unfolding record_reclaim stored marked
    record_reclaim-stale db row found stale =
        ground (arith, rowcount task_id (is_stale now) (reclaim_values retry_count max_retries) db)

    -- On every path the transaction leaves the tables alone, or reclaims the row and says so.
    pub record_reclaim_cases :
        (db : Db)
        → let (result, final) = record_reclaim now task_id retry_count max_retries db in
          (final ≡ db)
          ⊎ ((row : Task) × (result ≡ ok (some reclaimed))
              × Reclaims retry_count max_retries row db final
              × (task task_id db ≡ some row)
              × (is_stale now row ≡ true))
    record_reclaim_cases db = elim (Option-cases (task task_id db)) [
      | inl missing ↦ inl (ap (λ r. r.1) (record_reclaim-late db (λ row found. ground arith)))
      | inr (row, found) ↦ elim (Bool-cases (is_stale now row)) [
        | inl stale ↦ elim (Bool-cases (commits (stored db))) [
          | inl through ↦ inr (
              rw (record_reclaim-stale db row found stale, through)
                (row, refl, stored-Reclaims db row found stale, found, stale))
          | inr refused ↦ inl (rw (record_reclaim-stale db row found stale, refused) refl)
        ]
        | inr fresh ↦
            inl (ap (λ r. r.1) (record_reclaim-late db (λ other same. ground (arith, fresh))))
      ]
    ]

  -- The same for the whole reclaim: the counts come from the row that the SELECT read.
  pub reclaim_one_db :
      (between : Db → Db) (db : Db)
      → ((reclaim_one now task_id between db).1 ≡ db)
        ⊎ ((reclaim_one now task_id between db).1 ≡ between db)
        ⊎ ((read row : Task) × (task task_id db ≡ some read)
            × (task task_id (between db) ≡ some row)
            × (is_stale now row ≡ true)
            × Reclaims read.retry_count read.max_retries row
                (between db)
                (reclaim_one now task_id between db).1)
  reclaim_one_db between db = elim (Option-cases (task task_id db)) [
    | inl missing ↦ inl (ap (λ r. r.1) (reclaim_one-fresh between db (λ row found. ground arith)))
    | inr (read, found) ↦ elim (Bool-cases (is_stale now read)) [
      | inr fresh ↦
          inl (ap (λ r. r.1) (reclaim_one-fresh between db (λ other same. ground (arith, fresh))))
      | inl stale ↦
          rw (reclaim_one-stale between db read found stale)
            (elim (record_reclaim_cases read.retry_count read.max_retries (between db)) [
              | inl e ↦ inr (inl e)
              | inr (row, _, r, there, still) ↦ inr (inr (read, row, found, there, still, r))
            ])
    ]
  ]

  pub stored-Healthy :
      {H : Db → Type 0} (healthy : IsHealthy H) (retry_count max_retries : ℕ) (db : Db)
      → H db
      → H (stored retry_count max_retries db)
  unfolding stored marked close_open
  stored-Healthy {H} healthy rc mr db h =
      close_open-Healthy (open_attempt (attempts task_id (marked rc mr db)))
    where
      updated : H (marked rc mr db)
      updated = healthy.after_update task_id (is_stale now) (reclaim_values rc mr) db h

      close_open-Healthy :
          (o : Option TaskExecutionAttempt) → H (close_open now o (marked rc mr db))
      close_open-Healthy none = updated
      close_open-Healthy (some a) = healthy.after_close a.id now (some stale_lease_error) _ updated

  -- A reclaim adds no attempt.
  pub stored_fresh :
      (retry_count max_retries : ℕ) (k : Uuid) (db : Db)
      → attempt k db ≡ none
      → attempt k (stored retry_count max_retries db) ≡ none
  unfolding stored marked close_open
  stored_fresh rc mr k db fresh =
      close_open_fresh (open_attempt (attempts task_id (marked rc mr db)))
    where
      updated : attempt k (marked rc mr db) ≡ none
      updated = attempt-update_task k task_id (is_stale now) (reclaim_values rc mr) db ∙ fresh

      close_open_fresh :
          (o : Option TaskExecutionAttempt) → attempt k (close_open now o (marked rc mr db)) ≡ none
      close_open_fresh none = updated
      close_open_fresh (some a) = rw (attempt-close_attempt, updated) refl
