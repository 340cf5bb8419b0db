-- ===== src/System/Validity.antt =====
-- Every row is valid after every transaction.
use task_mesh.Base.{
  ℕ, ◌≤◌, ◌≡◌, sym, ◌∙◌, subst, Bool, true, false, Bool-cases, inl, inr, some, arith, ◌==◌,
  if◌then◌else◌,
}
use mathlib.Core.Option.{some-injective}
use task_mesh.Text.{Text}
use task_mesh.Model.{Uuid, Time, Task, running, dead_letter, has_status}
use task_mesh.Model.Validity.{IsValid}
use task_mesh.Settings.{Settings}
use task_mesh.Database.{Database}
use task_mesh.Database.Rows.{assign}
use task_mesh.Tasks.{TaskCreate, new_task, requeue_values}
use task_mesh.Lifecycle.Claim.{claim_values}
use task_mesh.Lifecycle.Complete.{complete_values}
use task_mesh.Lifecycle.Failure.{failure_values}
use task_mesh.Recovery.{reclaim_values}
use task_mesh.System.Trace.{
  Change, creates, claims, completes, fails, reclaims, requeues, Trace, done, next,
}

new_task-IsValid : (id : Uuid) (now : Time) (body : TaskCreate) → IsValid (new_task id now body)
new_task-IsValid id now body = ground arith

claim-IsValid :
    (settings : Settings) (now : Time) (row : Task)
    → IsValid row
    → IsValid (assign (claim_values settings now) row)
claim-IsValid settings now row v = ground arith

complete-IsValid :
    (now : Time) (row : Task)
    → IsValid row
    → has_status running row ≡ true
    → IsValid (assign (complete_values now) row)
complete-IsValid now row v runs = ground arith

failure-IsValid :
    (message : Text) (retryable : Bool) (count : ℕ) (row : Task)
    → IsValid row
    → count ≤ row.max_retries
    → IsValid (assign (failure_values message retryable count row.max_retries) row)
failure-IsValid message true count row v h = ground arith
failure-IsValid message false count row v h = ground arith

reclaim-IsValid :
    (count : ℕ) (row : Task)
    → IsValid row
    → count ≤ row.max_retries
    → IsValid (assign (reclaim_values count row.max_retries) row)
reclaim-IsValid count row v h = ground arith

requeue-IsValid :
    (row : Task)
    → IsValid row
    → has_status dead_letter row ≡ true
    → IsValid (assign requeue_values row)
requeue-IsValid row v dead = ground arith

module _ ⦃database : Database⦄ where
  open database use {Db, task, empty, task-empty}

  -- Every row of the table is valid.
  abbrev pub IsSound : Db → Type 0
  IsSound db = (i : Uuid) (t : Task) → task i db ≡ some t → IsValid t

  pub empty-IsSound : IsSound empty
  empty-IsSound i t e = ground (arith, task-empty i)

  writes-IsSound :
      (i : Uuid) (new : Task) (db final : Db)
      → IsSound db
      → ((j : Uuid) → task j final ≡ (if i == j then some new else task j db))
      → IsValid new
      → IsSound final
  writes-IsSound i new db final sound after valid j t e = elim (Bool-cases (i == j)) [
    | inl same ↦ subst IsValid (some-injective new t (sym (rw same at (after j)) ∙ e)) valid
    | inr other ↦ sound j t (sym (rw other at (after j)) ∙ e)
  ]

  Change-IsSound : {db final : Db} → Change db final → IsSound db → IsSound final
  Change-IsSound (creates id now body c) sound =
      writes-IsSound id _ _ _ sound c.rows_after (new_task-IsValid id now body)
  Change-IsSound (claims settings now attempt_id i worker row found _ c) sound =
      writes-IsSound i _ _ _ sound c.rows_after (claim-IsValid settings now row (sound i row found))
  Change-IsSound (completes now i attempt_id row found runs c) sound =
      writes-IsSound i _ _ _ sound c.rows_after (complete-IsValid now row (sound i row found) runs)
  Change-IsSound (fails now i attempt_id message retryable count row found _ h c) sound =
      writes-IsSound i _ _ _ sound c.rows_after
        (failure-IsValid message retryable count row (sound i row found) h)
  Change-IsSound (reclaims now i count row found _ h c) sound =
      writes-IsSound i _ _ _ sound c.rows_after (reclaim-IsValid count row (sound i row found) h)
  Change-IsSound (requeues i row found dead c) sound =
      writes-IsSound i _ _ _ sound c.rows_after (requeue-IsValid row (sound i row found) dead)

  pub Trace-IsSound : {s u : Db} → Trace s u → IsSound s → IsSound u
  Trace-IsSound done sound = sound
  Trace-IsSound (next r c) sound = Change-IsSound c (Trace-IsSound r sound)
