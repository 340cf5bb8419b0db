-- ===== src/Recovery/Once.antt =====
-- A stale task is reclaimed once.
use mathlib.Core.Option
use task_mesh.Base.{
  ◌≡◌, refl, ap, true, false, inl, inr, Bool-cases, Option-cases, none, some, arith, ==_refl,
}
use task_mesh.Model.{Uuid, Time, Task, is_stale}
use task_mesh.Database.{Database}
use task_mesh.Errors.{ok}
use task_mesh.Recovery.{ReclaimedTask, reclaim_one}
use task_mesh.Recovery.Laws.{
  reclaim_one-fresh, reclaim_one-stale, record_reclaim-stale, stored, stored-Reclaims,
}

module _ ⦃database : Database⦄ (now later : Time) (task_id : Uuid) where
  open database use {Db, task, commits}

  -- A reclaim that reports a task found it stale, and has ended it: until another session acts, any
  -- further reclaim, at any time, reports nothing and writes nothing.
  pub reclaim_one-reclaim_one :
      (db : Db) (r : ReclaimedTask)
      → (reclaim_one now task_id (λ d. d) db).0 ≡ ok (some r)
      → let final = (reclaim_one now task_id (λ d. d) db).1 in
        (Option.map (is_stale now) (task task_id db) ≡ some true)
        × (reclaim_one later task_id (λ d. d) final ≡ (ok none, final))
  reclaim_one-reclaim_one db r e = elim (Option-cases (task task_id db)) [
    | inl missing ↦ nothing (λ t there. ground arith)
    | inr (row, found) ↦ elim (Bool-cases (is_stale now row)) [
      | inr fresh ↦ nothing (λ t there. ground (arith, fresh))
      | inl stale ↦
          let out =
            record_reclaim-stale now task_id row.retry_count row.max_retries db row found stale in
          let q = stored-Reclaims now task_id row.retry_count row.max_retries db row found stale in
          elim (Bool-cases (commits (stored now task_id row.retry_count row.max_retries db))) [
            | inr refused ↦ absurd (
                cc (
                  rw (reclaim_one-stale now task_id (λ d. d) db row found stale, out, refused) at
                    e))
            | inl through ↦ (
              rw (found, stale) refl,
              rw (reclaim_one-stale now task_id (λ d. d) db row found stale, out, through)
                  (reclaim_one-fresh later task_id (λ d. d) _
                    (λ t there. ground (arith, q.rows_after task_id, ==_refl task_id))),
            )
          ]
    ]
  ]
    where
      nothing :
          ((t : Task) → task task_id db ≡ some t → is_stale now t ≡ false)
          → (Option.map (is_stale now) (task task_id db) ≡ some true)
            × (reclaim_one later task_id (λ d. d) (reclaim_one now task_id (λ d. d) db).1
                ≡ (ok none, (reclaim_one now task_id (λ d. d) db).1))
      nothing fresh = absurd (cc (ap (λ p. p.0) (reclaim_one-fresh now task_id (λ d. d) db fresh)))
