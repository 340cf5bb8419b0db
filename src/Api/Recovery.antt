-- ===== src/Api/Recovery.antt =====
-- The administrative recovery endpoint, called once and called again.
use task_mesh.Base.{◌≡◌, refl, ap, List, [], ◌∷◌, arith, length, keep, map}
use task_mesh.Model.{Time, is_stale}
use task_mesh.Database.{Database}
use task_mesh.Database.Healthy.{IsHealthy}
use task_mesh.Errors.{Outcome, ok, raise}
use task_mesh.Dispatcher.{Dispatcher}
use task_mesh.Recovery.{
  ReclaimedTask, recover_stale_tasks, recover_each, candidate_ids, count_stale_running,
}
use task_mesh.Recovery.Scan.{quiet, recover_stale_tasks-clears}
use task_mesh.Api.{success, RecoveryRunResult, answer_recovery, run_stale_running_recovery}

length_zero : {A : Type 0} (xs : List A) → length xs ≡ 0 → xs ≡ []
length_zero [] h = refl
length_zero (x ∷ xs) h = absurd (omega (arith, h))

abbrev pub result_of : List ReclaimedTask → RecoveryRunResult
result_of found = record { reclaimed_count = length found; reclaimed = found }

module _ ⦃database : Database⦄ {Queues : Type 0} (now : Time) (dispatcher : Dispatcher Queues) where
  open database use {Db, rows}

  answered :
      (found : List ReclaimedTask) (r : Outcome (List ReclaimedTask) × Db × Queues)
      → r.0 ≡ ok found
      → answer_recovery dispatcher r ≡ (success 200 (result_of found), r.1, r.2)
  answered found (raise e, db, s) h = absurd (cc h)
  answered found (ok reclaimed, db, s) h = ground (arith, h)

  -- Without stale tasks the pass does nothing.
  recover_stale_tasks-idle :
      (db : Db) (s : Queues)
      → count_stale_running now db ≡ 0
      → recover_stale_tasks now dispatcher quiet db s ≡ (ok [], db, s)
  unfolding recover_stale_tasks candidate_ids count_stale_running recover_each
  recover_stale_tasks-idle db s idle =
      ap (λ ts. recover_each now dispatcher quiet (map (λ t. t.id) ts) [] db s)
        (length_zero (keep (is_stale now) (rows db)) idle)

  -- On a database on which every COMMIT succeeds, with nobody else at it, the endpoint answers 200 with
  -- the tasks that the recovery pass returns and their number and leaves no stale task; a second call at
  -- the same moment answers 200 with no task, and changes neither tables nor queues.
  pub run_stale_running_recovery-twice :
      {H : Db → Type 0} (healthy : IsHealthy H) (db : Db) (s : Queues)
      → H db
      → let (r, db', s') = run_stale_running_recovery dispatcher now quiet db s in
        ((found : List ReclaimedTask) × ((recover_stale_tasks now dispatcher quiet db s).0
            ≡ ok found)
          × (r ≡ success 200 (record { reclaimed_count = length found; reclaimed = found })))
        × (count_stale_running now db' ≡ 0)
        × (run_stale_running_recovery dispatcher now quiet db' s'
            ≡ (success 200 (result_of []), db', s'))
  unfolding run_stale_running_recovery
  run_stale_running_recovery-twice healthy db s h =
      let first = recover_stale_tasks now dispatcher quiet db s in
      let ((found, returned), _, none_left, _) =
        recover_stale_tasks-clears now dispatcher healthy db s h in
      let again = recover_stale_tasks-idle first.1 first.2 none_left in
      rw (answered found first returned)
        ((found, returned, refl), none_left, ap (answer_recovery dispatcher) again)
