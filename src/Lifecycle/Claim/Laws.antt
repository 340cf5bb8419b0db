-- ===== src/Lifecycle/Claim/Laws.antt =====
-- What a claim returns and leaves behind, by the state of the task.
use task_mesh.Base.{
  ◌≡◌, sym, ap, ◌∙◌, refl, true, false, ◌⊎◌, inl, inr, none, some, arith, ◌==◌, if◌then◌else◌,
  ==→eq, Option-cases, Bool-cases,
}
use task_mesh.Text.{Text}
use task_mesh.Model.{Uuid, Time, Task, TaskExecutionAttempt, queued, has_status}
use task_mesh.Settings.{Settings}
use task_mesh.Database.{Database}
use task_mesh.Database.Healthy.{IsHealthy}
use task_mesh.Database.Rows.{assign, insert_sorted}
use task_mesh.Errors.{ok, raise, task_not_found, task_row, database_error}
use task_mesh.Lifecycle.Claim.{
  Claimed, claim_values, next_number, new_attempt, record_attempt, skip_claim, claim_task,
}

module _ ⦃database : Database⦄ (settings : Settings) (claimed_at : Time) (attempt_id task_id : Uuid)
    (worker_identifier : Text) where
  open database use {
    Db, task, attempts, attempt, commits, update_task, insert_attempt, rowcount, task-update_task,
    attempts-update_task, attempt-update_task, insert_attempt-fresh, task-insert_attempt,
    attempts-insert_attempt, attempt-insert_attempt,
  }

  -- The attempt that a claim of `db` records.
  abbrev pub recorded : Db → TaskExecutionAttempt
  recorded db =
      new_attempt claimed_at attempt_id task_id worker_identifier
        (next_number (attempts task_id db))

  -- A committed claim: the row is RUNNING under its lease, the attempt is there with the next
  -- number, and nothing else has changed.
  pub record Claims (row : Task) (db final : Db) : Type 0 where
    pub rows_after :
        (j : Uuid)
        → task j final ≡ (
            if task_id == j
            then some (assign (claim_values settings claimed_at) row)
            else task j db)
    pub attempts_after :
        (j : Uuid)
        → attempts j final
          ≡ (if task_id == j then insert_sorted (recorded db) (attempts j db) else attempts j db)
    pub attempt_after :
        (k : Uuid)
        → attempt k final ≡ (if attempt_id == k then some (recorded db) else attempt k db)
    pub was_fresh : attempt attempt_id db ≡ none

  marked : Db → Db
  marked db = (update_task task_id (has_status queued) (claim_values settings claimed_at) db).1

  -- What the transaction commits, if it does.
  unfoldable pub stored : Db → Db
  unfolding marked
  stored db = insert_attempt (recorded (marked db)) (marked db)

  recorded-marked : (db : Db) → recorded (marked db) ≡ recorded db
  unfolding marked
  recorded-marked db = rw attempts-update_task

  pub stored-Claims :
      (db : Db) (row : Task)
      → task task_id db ≡ some row
      → has_status queued row ≡ true
      → commits (stored db) ≡ true
      → Claims row db (stored db)
  unfolding stored marked
  stored-Claims db row found free through =
      let values = claim_values settings claimed_at in
      let fresh = insert_attempt-fresh (recorded (marked db)) (marked db) through in
      record {
        rows_after = λ j. ground (
          arith,
          task-insert_attempt j (recorded (marked db)) (marked db),
          task-update_task j task_id (has_status queued) values db,
          ==→eq task_id j,
        );
        attempts_after =
            λ j. rw (attempts-insert_attempt, recorded-marked) (rw attempts-update_task refl);
        attempt_after = λ k. ground (
          arith,
          attempt-insert_attempt k (recorded (marked db)) (marked db) fresh,
          recorded-marked db,
          attempt-update_task k task_id (has_status queued) values db,
        );
        was_fresh =
            sym (attempt-update_task attempt_id task_id (has_status queued) values db) ∙ fresh;
      }

  -- A task that is there and not QUEUED is skipped, and nothing is written.
  pub claim_task-busy :
      (db : Db) (row : Task)
      → task task_id db ≡ some row
      → has_status queued row ≡ false
      → claim_task settings claimed_at attempt_id task_id worker_identifier db ≡ (ok none, db)
  unfolding claim_task record_attempt skip_claim
  claim_task-busy db row found busy = ground (
    arith,
    rowcount task_id (has_status queued) (claim_values settings claimed_at) db,
    task-update_task task_id task_id (has_status queued) (claim_values settings claimed_at) db,
  )

  pub claim_task-missing :
      (db : Db)
      → task task_id db ≡ none
      → claim_task settings claimed_at attempt_id task_id worker_identifier db
        ≡ (raise (task_not_found (task_row task_id)), db)
  unfolding claim_task record_attempt skip_claim
  claim_task-missing db missing = ground (
    arith,
    rowcount task_id (has_status queued) (claim_values settings claimed_at) db,
    task-update_task task_id task_id (has_status queued) (claim_values settings claimed_at) db,
  )

  abbrev pub claimed_of : Task → Claimed
  claimed_of row = record {
    attempt_id = attempt_id;
    task_type = row.task_type;
    payload = row.payload;
  }

  pub claim_task-free :
      (db : Db) (row : Task)
      → task task_id db ≡ some row
      → has_status queued row ≡ true
      → claim_task settings claimed_at attempt_id task_id worker_identifier db ≡ (
          if commits (stored db)
          then (ok (some (claimed_of row)), stored db)
          else (raise database_error, db))
  unfolding claim_task record_attempt skip_claim stored marked
  claim_task-free db row found free = ground (
    arith,
    rowcount task_id (has_status queued) (claim_values settings claimed_at) db,
    task-update_task task_id task_id (has_status queued) (claim_values settings claimed_at) db,
  )

  -- On every path a claim leaves the tables alone or takes a QUEUED row.
  pub claim_task_db :
      (db : Db)
      → ((claim_task settings claimed_at attempt_id task_id worker_identifier db).1 ≡ db)
        ⊎ ((row : Task) × (task task_id db ≡ some row)
            × (has_status queued row ≡ true)
            × Claims row db
                (claim_task settings claimed_at attempt_id task_id worker_identifier db).1)
  claim_task_db db = elim (Option-cases (task task_id db)) [
    | inl missing ↦ inl (ap (λ r. r.1) (claim_task-missing db missing))
    | inr (row, found) ↦ elim (Bool-cases (has_status queued row)) [
      | inr busy ↦ inl (ap (λ r. r.1) (claim_task-busy db row found busy))
      | inl free ↦ elim (Bool-cases (commits (stored db))) [
        | inl through ↦ inr (
          row,
          found,
          free,
          rw (claim_task-free db row found free, through) (stored-Claims db row found free through),
        )
        | inr refused ↦ inl (rw (claim_task-free db row found free, refused) refl)
      ]
    ]
  ]

  abbrev pub ClaimCases : Db → Type 0
  ClaimCases db =
      let result = claim_task settings claimed_at attempt_id task_id worker_identifier db in
      (task task_id db ≡ none) × (result ≡ (raise (task_not_found (task_row task_id)), db))
      ⊎ ((row : Task) × (task task_id db ≡ some row)
          × (has_status queued row ≡ false)
          × (result ≡ (ok none, db)))
      ⊎ ((row : Task) × (task task_id db ≡ some row)
          × (has_status queued row ≡ true)
          × ((commits (stored db) ≡ false) × (result ≡ (raise database_error, db))
              ⊎ (result.0 ≡ ok (some (claimed_of row))) × Claims row db result.1))

  -- A claim raises if the task does not exist, is skipped if the task is not QUEUED, and writes
  -- nothing in these cases. A QUEUED task is taken under the next attempt number, unless the COMMIT
  -- is refused, which raises and leaves the tables alone.
  pub claim_task_cases : (db : Db) → ClaimCases db
  claim_task_cases db = elim (Option-cases (task task_id db)) [
    | inl missing ↦ inl (missing, claim_task-missing db missing)
    | inr (row, found) ↦ elim (Bool-cases (has_status queued row)) [
      | inr busy ↦ inr (inl (row, found, busy, claim_task-busy db row found busy))
      | inl free ↦ inr (
          inr (
            row,
            found,
            free,
            elim (Bool-cases (commits (stored db))) [
              | inl through ↦ inr (
                  rw (claim_task-free db row found free, through)
                    (refl, stored-Claims db row found free through))
              | inr refused ↦ inl (refused, rw (claim_task-free db row found free, refused) refl)
            ],
          ))
    ]
  ]

  -- A claim that returns an attempt found the task QUEUED.
  pub claim_task-ok :
      (db : Db) (c : Claimed)
      → (claim_task settings claimed_at attempt_id task_id worker_identifier db).0 ≡ ok (some c)
      → (row : Task) × (task task_id db ≡ some row)
        × (has_status queued row ≡ true)
        × Claims row db (claim_task settings claimed_at attempt_id task_id worker_identifier db).1
  claim_task-ok db c e = elim (claim_task_cases db) [
    | inl (_, r) ↦ absurd (cc (ap (λ p. p.0) r))
    | inr (inl (_, _, _, r)) ↦ absurd (cc (ap (λ p. p.0) r))
    | inr (inr (row, found, free, inl (_, r))) ↦ absurd (cc (ap (λ p. p.0) r))
    | inr (inr (row, found, free, inr (_, claims))) ↦ (row, found, free, claims)
  ]

  pub stored-Healthy :
      {H : Db → Type 0} (healthy : IsHealthy H) (db : Db)
      → H db
      → attempt attempt_id db ≡ none
      → H (stored db)
  unfolding stored marked
  stored-Healthy healthy db h fresh =
      healthy.after_insert _ _
        (healthy.after_update task_id (has_status queued) (claim_values settings claimed_at) db h)
        (attempt-update_task attempt_id task_id (has_status queued)
            (claim_values settings claimed_at) db
          ∙ fresh)
