-- ===== src/Lifecycle/Complete/Superseded.antt =====
-- A completion that arrives for an attempt which another claim has superseded: the guard of
-- `_complete_task` looks at the status of the task, not at whose attempt it runs.
use mathlib.Core.Option
use task_mesh.Base.{◌≡◌, refl, sym, ◌∙◌, ap, ◌≢◌, true, none, some, arith, ==_refl, ==_ne}
use task_mesh.Text.{Text}
use task_mesh.Model.{Uuid, Time, Task, TaskExecutionAttempt, completed, queued, has_status, is_open}
use task_mesh.Settings.{Settings}
use task_mesh.Database.{Database}
use task_mesh.Database.Healthy.{IsHealthy}
use task_mesh.Database.Rows.{assign}
use task_mesh.Errors.{ok, raise, task_reclaimed}
use task_mesh.Lifecycle.Claim.{claim_values, claim_task}
use task_mesh.Lifecycle.Claim.Laws.{
  recorded, claim_task-free, stored as claim_stored, stored-Claims,
  stored-Healthy as claim_stored-Healthy,
}
use task_mesh.Lifecycle.Complete.{complete_task}
use task_mesh.Lifecycle.Complete.Laws.{
  stored, stored-Completes, stored-Healthy, complete_task-running, complete_task-late,
}

module _ ⦃database : Database⦄ (settings : Settings) (worker : Text)
    (claimed_at finished_at later : Time) (task_id old new : Uuid) {H : database.Db → Type 0}
    (healthy : IsHealthy H) where
  open database use {Db, task, attempt}

  -- Over a database that works: a task that is QUEUED again, after its attempt `old`, is claimed under
  -- the attempt `new`. A completion for `old` is then accepted. It marks the task COMPLETED, gives `old`
  -- a new end and takes away its error, leaves `new` open, and makes the completion for `new` be
  -- refused.
  pub complete_task-superseded :
      (db : Db) (row : Task) (a : TaskExecutionAttempt)
      → H db
      → task task_id db ≡ some row
      → has_status queued row ≡ true
      → attempt old db ≡ some a
      → a.id ≡ old
      → attempt new db ≡ none
      → let held = (claim_task settings claimed_at new task_id worker db).1 in
        let final = (complete_task finished_at task_id old held).1 in
        ((complete_task finished_at task_id old held).0 ≡ ok tt)
        × (Option.map (λ t. t.status) (task task_id final) ≡ some completed)
        × (attempt old final ≡ some (record a { finished_at = some finished_at; error = none }))
        × (Option.map is_open (attempt new final) ≡ some true)
        × (complete_task later task_id new final ≡ (raise (task_reclaimed task_id), final))
  complete_task-superseded db row a h found free known named fresh =
      let held : Db = claim_stored settings claimed_at new task_id worker db in
      let h' : H held =
        claim_stored-Healthy settings claimed_at new task_id worker healthy db h fresh in
      let claims =
        stored-Claims settings claimed_at new task_id worker db row found free
          (healthy.commits_all held h') in
      let taken : Task = assign (claim_values settings claimed_at) row in
      let there : task task_id held ≡ some taken =
        rw (==_refl task_id) at (claims.rows_after task_id) in
      let mine : attempt old held ≡ some a =
        rw (==_ne new old differ) at (claims.attempt_after old) ∙ known in
      let newly : attempt new held ≡ some (recorded settings claimed_at new task_id worker db) =
        rw (==_refl new) at (claims.attempt_after new) in
      let final : Db = stored finished_at task_id old held in
      let h'' : H final = stored-Healthy finished_at task_id old healthy held h' in
      let c = stored-Completes finished_at task_id old held taken there refl in
      let ended = rw (==_refl task_id) at (c.rows_after task_id) in
      rw
        (
          claim_task-free settings claimed_at new task_id worker db row found free,
          healthy.commits_all held h',
        )
        (rw
          (
            complete_task-running finished_at task_id old held taken a there refl mine,
            healthy.commits_all final h'',
          )
          (
            refl,
            ap (Option.map _) ended,
            c.attempt_after old ∙ rw mine (ground (arith, named)),
            ap (Option.map is_open) (c.attempt_after new) ∙ rw (newly, ==_ne new old differ) refl,
            complete_task-late later task_id new final (λ t e. ground (arith, ended)),
          ))
    where
      differ : new ≢ old
      differ e = cc (sym fresh ∙ ap (λ k. attempt k db) e ∙ known)
