-- ===== src/Delivery/Effects.antt =====
-- Which tasks each transaction makes QUEUED, and whom it then owes a message.
use task_mesh.Base.{
  ℕ, ◌≡◌, ◌≢◌, ◌⊎◌, inl, inr, refl, ap, sym, ◌∙◌, Bool, Bool-cases, true, false, Option, none, some,
  arith, ◌==◌, if◌then◌else◌, ==→eq,
}
use mathlib.Core.Bool.{true≢false}
use task_mesh.Text.{Text}
use task_mesh.Model.{Uuid, Time, Task, queued, has_status, same_status}
use task_mesh.Settings.{Settings}
use task_mesh.Database.{Database}
use task_mesh.Errors.{ok, raise, RetryRequest, database_error}
use task_mesh.Tasks.{TaskCreate, LoadedTask, new_task, create_task, requeue_dead_letter_task}
use task_mesh.Tasks.Laws.{create_task_cases, requeue_cases}
use task_mesh.Lifecycle.Claim.{claim_task}
use task_mesh.Lifecycle.Claim.Laws.{claim_task_cases}
use task_mesh.Lifecycle.Complete.{complete_task}
use task_mesh.Lifecycle.Complete.Laws.{complete_task_db}
use task_mesh.Lifecycle.Failure.{new_status, retry_requested, record_failure}
use task_mesh.Lifecycle.Failure.Laws.{record_failure_cases, failure_result-retry}
use task_mesh.Recovery.{ReclaimedTask, record_reclaim}
use task_mesh.Recovery.Laws.{reclaimed, record_reclaim_cases}

new_status-queued :
    (retryable : Bool) (retry_count max_retries : ℕ)
    → same_status queued (new_status retryable retry_count max_retries) ≡ true
    → retry_requested retryable retry_count max_retries ≡ true
new_status-queued true rc mr h = ground arith
new_status-queued false rc mr h = ground arith

module _ ⦃database : Database⦄ where
  open database use {Db, task}

  abbrev pub queued_row : Option Task → Bool
  queued_row none = false
  queued_row (some row) = has_status queued row

  -- The task is there and QUEUED.
  abbrev pub is_queued : Uuid → Db → Bool
  is_queued i db = queued_row (task i db)

  -- What a QUEUED row behind a transaction that wrote one row was before it.
  written-queued :
      (i id : Uuid) (row : Task) (db final : Db)
      → task i final ≡ (if id == i then some row else task i db)
      → is_queued i final ≡ true
      → ((id == i) ≡ true) × (has_status queued row ≡ true)
        ⊎ ((id == i) ≡ false) × (is_queued i db ≡ true)
  written-queued i id row db final e h = elim (Bool-cases (id == i)) [
    | inl same ↦ inl (same, rw (e, same) at h)
    | inr other ↦ inr (other, rw (e, other) at h)
  ]

  -- The same, where the new row is not QUEUED.
  unqueued :
      (i id : Uuid) (row : Task) (db final : Db)
      → task i final ≡ (if id == i then some row else task i db)
      → has_status queued row ≡ false
      → is_queued i final ≡ true
      → (is_queued i db ≡ true) × ((id == i) ≡ false)
  unqueued i id row db final e ended h = elim (written-queued i id row db final e h) [
    | inl (same, waits) ↦ absurd (true≢false (sym waits ∙ ended))
    | inr (other, before) ↦ (before, other)
  ]

  -- A transaction that left its own task alone, which was not QUEUED.
  untouched :
      (i id : Uuid) (db final : Db)
      → final ≡ db
      → is_queued id db ≡ false
      → is_queued i final ≡ true
      → (is_queued i db ≡ true) × ((id == i) ≡ false)
  untouched i id db final same ended h = elim (Bool-cases (id == i)) [
    | inr other ↦ (rw same at h, other)
    | inl e ↦
        absurd
          (true≢false (sym (rw same at h) ∙ ap (λ j. is_queued j db) (sym (==→eq id i e)) ∙ ended))
  ]

  pub create_task-queued :
      (i id : Uuid) (now : Time) (body : TaskCreate) (db : Db)
      → is_queued i (create_task id now body db).1 ≡ true
      → (is_queued i db ≡ true)
        ⊎ ((id == i) ≡ true) × ((a : Task) × ((create_task id now body db).0 ≡ ok a))
  create_task-queued i id now body db h = elim (create_task_cases id now body db) [
    | inl failed ↦ inl (rw (ap (λ r. r.1) failed) at h)
    | inr (returned, c) ↦
        elim (written-queued i id (new_task id now body) db _ (c.rows_after i) h) [
          | inl (same, _) ↦ inr (same, (new_task id now body, returned))
          | inr (_, before) ↦ inl before
        ]
  ]

  -- A claim makes no task QUEUED, and if its COMMIT is not refused, its own is not QUEUED behind it.
  pub claim_task-queued :
      (settings : Settings) (now : Time) (attempt_id id : Uuid) (worker : Text) (i : Uuid) (db : Db)
      → (claim_task settings now attempt_id id worker db).0 ≢ raise database_error
      → is_queued i (claim_task settings now attempt_id id worker db).1 ≡ true
      → (is_queued i db ≡ true) × ((id == i) ≡ false)
  claim_task-queued settings now attempt_id id worker i db fine h =
      elim (claim_task_cases settings now attempt_id id worker db) [
        | inl (missing, r) ↦ untouched i id db _ (ap (λ p. p.1) r) (ap queued_row missing) h
        | inr (inl (row, found, busy, r)) ↦
            untouched i id db _ (ap (λ p. p.1) r) (ap queued_row found ∙ busy) h
        | inr (inr (row, found, free, inl (_, r))) ↦ absurd (fine (ap (λ p. p.0) r))
        | inr (inr (row, found, free, inr (_, c))) ↦ unqueued i id _ db _ (c.rows_after i) refl h
      ]

  pub complete_task-queued :
      (now : Time) (id attempt_id i : Uuid) (db : Db)
      → is_queued i (complete_task now id attempt_id db).1 ≡ true
      → is_queued i db ≡ true
  complete_task-queued now id attempt_id i db h = elim (complete_task_db now id attempt_id db) [
    | inl same ↦ rw same at h
    | inr (row, found, runs, c) ↦ (unqueued i id _ db _ (c.rows_after i) refl h).0
  ]

  -- A failure that puts its task back hands out a request for the retry.
  pub record_failure-queued :
      (now : Time) (id attempt_id : Uuid) (message : Text) (retryable : Bool)
      (retry_count max_retries : ℕ) (i : Uuid) (db : Db)
      → let (result, final) =
          record_failure now id attempt_id message retryable retry_count max_retries db in
        is_queued i final ≡ true
        → (is_queued i db ≡ true)
          ⊎ ((id == i) ≡ true) × ((q : RetryRequest) × (result ≡ ok (some q)))
  record_failure-queued now id attempt_id message retryable rc mr i db h =
      elim (record_failure_cases now id attempt_id message retryable rc mr db) [
        | inl same ↦ inl (rw same at h)
        | inr (row, returned, fails, _, _) ↦
            elim (written-queued i id _ db _ (fails.rows_after i) h) [
              | inr (_, before) ↦ inl before
              | inl (same, waits) ↦
                  let (_, _, e) =
                    failure_result-retry now id attempt_id message retryable rc mr
                      (new_status-queued retryable rc mr waits) in
                  inr (same, (_, returned ∙ e))
            ]
      ]

  -- A reclaim that puts its task back says that it is QUEUED.
  pub record_reclaim-queued :
      (now : Time) (id : Uuid) (retry_count max_retries : ℕ) (i : Uuid) (db : Db)
      → let (result, final) = record_reclaim now id retry_count max_retries db in
        is_queued i final ≡ true
        → (is_queued i db ≡ true)
          ⊎ ((id == i) ≡ true)
            × ((r : ReclaimedTask) × (result ≡ ok (some r))
                × (r.task_id ≡ id)
                × (same_status queued r.outcome ≡ true))
  record_reclaim-queued now id rc mr i db h = elim (record_reclaim_cases now id rc mr db) [
    | inl same ↦ inl (rw same at h)
    | inr (row, returned, r, _, _) ↦ elim (written-queued i id _ db _ (r.rows_after i) h) [
      | inr (_, before) ↦ inl before
      | inl (same, waits) ↦ inr (same, (reclaimed now id rc mr, returned, refl, waits))
    ]
  ]

  pub requeue-queued :
      (id i : Uuid) (db : Db)
      → let (result, final) = requeue_dead_letter_task id (λ u. u) db in
        is_queued i final ≡ true
        → (is_queued i db ≡ true)
          ⊎ ((id == i) ≡ true) × ((found : LoadedTask) × (result ≡ ok (some found)))
  requeue-queued id i db h = elim (requeue_cases id db) [
    | inl same ↦ inl (rw same at h)
    | inr (row, found, returned, r) ↦ elim (written-queued i id _ db _ (r.rows_after i) h) [
      | inr (_, before) ↦ inl before
      | inl (same, _) ↦ inr (same, (found, returned))
    ]
  ]
