-- ===== src/System/Refinement.antt =====
-- The services implement the abstract machine, whatever happens between their statements.
use task_mesh.Base.{◌≡◌, ◌≤◌, inl, inr, some, arith}
use task_mesh.Model.{Uuid, Task}
use task_mesh.Database.{Database}
use task_mesh.Tasks.Laws.{create_task_cases, requeue_db}
use task_mesh.Lifecycle.Claim.Laws.{claim_task_db}
use task_mesh.Lifecycle.Complete.Laws.{complete_task_db}
use task_mesh.Lifecycle.Failure.Select.{finalize_failure_db}
use task_mesh.Recovery.Laws.{reclaim_one_db}
use task_mesh.System.{Reach, here, submitted, claimed, completed, failed, reclaimed, requeued}
use task_mesh.System.Trace.{
  Trace, done, next, Trace-append, creates, claims, completes, fails, reclaims, requeues,
}
use task_mesh.System.Identity.{Trace-Persists}
use task_mesh.System.Validity.{IsSound, Trace-IsSound}

module _ ⦃database : Database⦄ where
  open database use {Db, task}

  -- The counts that an earlier SELECT read are within the budget of the row that the UPDATE meets.
  read_counts :
      {t u : Db} (i : Uuid) (read row : Task)
      → Trace t u
      → IsSound t
      → task i t ≡ some read
      → task i u ≡ some row
      → (read.max_retries ≡ row.max_retries) × (read.retry_count ≤ row.max_retries)
  read_counts i read row r sound was is =
      let (row', is', same) = Trace-Persists r i read was in
      let valid = sound i read was in ground arith

  -- From a state whose rows are all valid, every interleaving of the services' transactions and
  -- single statements is a run of the abstract machine: a sequence of changes of one task each,
  -- with no transaction half done between two of them.
  pub Reach-Trace : {s u : Db} → Reach s u → IsSound s → Trace s u
  Reach-Trace here sound = done
  Reach-Trace (submitted {t = t} id now body r) sound =
      let before = Reach-Trace r sound in
      elim (create_task_cases id now body t) [
        | inl e ↦ rw e before
        | inr (_, c) ↦ next before (creates id now body c)
      ]
  Reach-Trace (claimed {t = t} settings now attempt_id i worker r) sound =
      let before = Reach-Trace r sound in
      elim (claim_task_db settings now attempt_id i worker t) [
        | inl e ↦ rw e before
        | inr (row, found, free, c) ↦
            next before (claims settings now attempt_id i worker row found free c)
      ]
  Reach-Trace (completed {t = t} now i attempt_id r) sound =
      let before = Reach-Trace r sound in
      elim (complete_task_db now i attempt_id t) [
        | inl e ↦ rw e before
        | inr (row, found, runs, c) ↦ next before (completes now i attempt_id row found runs c)
      ]
  Reach-Trace (failed {t = t} {u = u} now i attempt_id message retryable r q) sound =
      let before = Reach-Trace r sound in
      let between = Reach-Trace q (Trace-IsSound before sound) in
      elim (finalize_failure_db now i attempt_id message retryable (λ _. u) t) [
        | inl e ↦ rw e before
        | inr (inl e) ↦ rw e (Trace-append before between)
        | inr (inr (read, row, was, found, runs, c)) ↦
            let (same, within) =
              read_counts i read row between (Trace-IsSound before sound) was found in
            next (Trace-append before between) (
              fails now i attempt_id message retryable read.retry_count row found runs within
                (rw same at c))
      ]
  Reach-Trace (reclaimed {t = t} {u = u} now i r q) sound =
      let before = Reach-Trace r sound in
      let between = Reach-Trace q (Trace-IsSound before sound) in
      elim (reclaim_one_db now i (λ _. u) t) [
        | inl e ↦ rw e before
        | inr (inl e) ↦ rw e (Trace-append before between)
        | inr (inr (read, row, was, found, stale, c)) ↦
            let (same, within) =
              read_counts i read row between (Trace-IsSound before sound) was found in
            next (Trace-append before between)
              (reclaims now i read.retry_count row found stale within (rw same at c))
      ]
  Reach-Trace (requeued {t = t} i r) sound =
      let before = Reach-Trace r sound in
      elim (requeue_db i (λ db. db) t) [
        | inl e ↦ rw e before
        | inr (row, mid, found, dead, c, e) ↦ rw e (next before (requeues i row found dead c))
      ]
