-- ===== src/Lifecycle/Claim/Exclusive.antt =====
-- A task is claimed by one delivery at a time.
use task_mesh.Base.{◌≡◌, none, some, refl, arith, ==_refl}
use task_mesh.Text.{Text}
use task_mesh.Model.{Uuid, Time}
use task_mesh.Settings.{Settings}
use task_mesh.Database.{Database}
use task_mesh.Database.Rows.{assign}
use task_mesh.Errors.{ok}
use task_mesh.Lifecycle.Claim.{Claimed, claim_values, claim_task}
use task_mesh.Lifecycle.Claim.Laws.{claim_task-ok, claim_task-busy}

module _ ⦃database : Database⦄ where
  open database use {Db, task}

  -- After a claim of a task has returned an attempt, a second delivery of the same task, by any
  -- worker, is skipped and writes nothing.
  pub claim_task-claim_task :
      (settings settings' : Settings) (now now' : Time) (attempt_id attempt_id' task_id : Uuid)
      (worker worker' : Text) (db : Db) (c : Claimed)
      → (claim_task settings now attempt_id task_id worker db).0 ≡ ok (some c)
      → let final = (claim_task settings now attempt_id task_id worker db).1 in
        claim_task settings' now' attempt_id' task_id worker' final ≡ (ok none, final)
  claim_task-claim_task settings settings' now now' attempt_id attempt_id' task_id worker worker' db
        c e =
      let (row, found, free, claims) =
        claim_task-ok settings now attempt_id task_id worker db c e in
      claim_task-busy settings' now' attempt_id' task_id worker' _
        (assign (claim_values settings now) row)
        (ground (arith, claims.rows_after task_id, ==_refl task_id)) refl
