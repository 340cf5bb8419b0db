-- ===== src/Lifecycle/Failure/Cases.antt =====
-- Every way in which the end of a failed job is recorded.
use task_mesh.Base.{
  ℕ, ◌≡◌, ◌⊎◌, refl, true, false, inl, inr, Bool, Bool-cases, Option-cases, Option, none, some,
  arith,
}
use task_mesh.Text.{Text}
use task_mesh.Model.{Uuid, Time, Task, running, has_status}
use task_mesh.Database.{Database}
use task_mesh.Errors.{
  Outcome, raise, RetryRequest, task_not_found, task_row, attempt_row, task_reclaimed,
  database_error,
}
use task_mesh.Lifecycle.Failure.{running_row, failure_result, record_failure, finalize_failure}
use task_mesh.Lifecycle.Failure.Laws.{
  Fails, stored, stored-Fails, record_failure-late, record_failure-lost, record_failure-running,
}
use task_mesh.Lifecycle.Failure.Select.{
  finalize_failure-missing, finalize_failure-late, finalize_failure-running,
}

module _ ⦃database : Database⦄ (finished_at : Time) (task_id attempt_id : Uuid) (message : Text)
    (retryable : Bool) where
  open database use {Db, task, attempt, commits}

  -- How the UPDATE and what follows it can end, at `mid`, for a row that was read as `read`.
  abbrev pub Written : Task → Db → Outcome (Option RetryRequest) × Db → Type 0
  Written read mid result =
      (running_row (task task_id mid) ≡ none) × (result ≡ (raise (task_reclaimed task_id), mid))
      ⊎ (attempt attempt_id mid ≡ none) × (result ≡ (raise (task_not_found attempt_row), mid))
      ⊎ (commits (
            stored finished_at task_id attempt_id message retryable read.retry_count
              read.max_retries mid)
          ≡ false)
        × (result ≡ (raise database_error, mid))
      ⊎ ((row : Task) × (task task_id mid ≡ some row)
          × (has_status running row ≡ true)
          × (result.0
              ≡ failure_result finished_at task_id attempt_id message retryable read.retry_count
                  read.max_retries)
          × Fails finished_at task_id attempt_id message retryable read.retry_count read.max_retries
              row mid result.1)

  record_failure-Written :
      (read : Task) (mid : Db)
      → Written read mid (
          record_failure finished_at task_id attempt_id message retryable read.retry_count
            read.max_retries mid)
  record_failure-Written read mid =
      let rc : ℕ = read.retry_count in
      let mr : ℕ = read.max_retries in
      elim (Option-cases (task task_id mid)) [
        | inl gone ↦ inl (
          rw gone refl,
          record_failure-late finished_at task_id attempt_id message retryable rc mr mid
              (λ row e. ground arith),
        )
        | inr (row, there) ↦ elim (Bool-cases (has_status running row)) [
          | inr late ↦ inl (
            ground arith,
            record_failure-late finished_at task_id attempt_id message retryable rc mr mid
                (λ other e. ground (arith, late)),
          )
          | inl runs ↦ elim (Option-cases (attempt attempt_id mid)) [
            | inl lost ↦ inr (
                inl (
                  lost,
                  record_failure-lost finished_at task_id attempt_id message retryable rc mr mid row
                      there runs lost,
                ))
            | inr (a, known) ↦
                let e =
                  record_failure-running finished_at task_id attempt_id message retryable rc mr mid
                    row a there runs known in
                elim (Bool-cases
                  (commits (stored finished_at task_id attempt_id message retryable rc mr mid))) [
                    | inr refused ↦ inr (inr (inl (refused, rw (e, refused) refl)))
                    | inl through ↦ inr (
                        inr (
                          inr (
                            rw (e, through)
                              (
                                row,
                                there,
                                runs,
                                refl,
                                stored-Fails finished_at task_id attempt_id message retryable rc mr
                                    mid row there runs,
                              ))))
                  ]
          ]
        ]
      ]

  abbrev pub FailureEnds : (Db → Db) → Db → Type 0
  FailureEnds between db =
      let result = finalize_failure finished_at task_id attempt_id message retryable between db in
      (task task_id db ≡ none) × (result ≡ (raise (task_not_found (task_row task_id)), db))
      ⊎ ((row : Task) × (task task_id db ≡ some row)
          × (has_status running row ≡ false)
          × (result ≡ (raise (task_reclaimed task_id), db)))
      ⊎ ((read : Task) × (task task_id db ≡ some read)
          × (has_status running read ≡ true)
          × Written read (between db) result)

  -- The task may be missing or no longer RUNNING at the SELECT; no longer RUNNING at the UPDATE; its
  -- attempt may be missing; the COMMIT may be refused. All of these raise, and leave the tables as the
  -- other sessions left them. Otherwise the row is ended by the decision that the counts of the SELECT
  -- give, and the answer is the retry request or none.
  pub finalize_failure_cases : (between : Db → Db) (db : Db) → FailureEnds between db
  finalize_failure_cases between db = elim (Option-cases (task task_id db)) [
    | inl missing ↦ inl (
      missing,
      finalize_failure-missing finished_at task_id attempt_id message retryable between db missing,
    )
    | inr (read, found) ↦ elim (Bool-cases (has_status running read)) [
      | inr late ↦ inr (
          inl (
            read,
            found,
            late,
            finalize_failure-late finished_at task_id attempt_id message retryable between db read
                found late,
          ))
      | inl runs ↦ inr (
          inr (
            read,
            found,
            runs,
            rw
                (finalize_failure-running finished_at task_id attempt_id message retryable between
                  db read found runs)
                (record_failure-Written read (between db)),
          ))
    ]
  ]
