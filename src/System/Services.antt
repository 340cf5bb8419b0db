-- ===== src/System/Services.antt =====
-- The services that are more than one transaction: what other sessions do in between is a Reach of
-- their own, and so is the whole.
use task_mesh.Base.{◌≡◌, refl, ◌⊎◌, inl, inr, Bool-cases, List, [], ◌∷◌, Option, none, some, ◌==◌}
use task_mesh.Model.{Uuid, Time, dead_letter, has_status}
use task_mesh.Database.{Database}
use task_mesh.Errors.{Outcome, ok, raise}
use task_mesh.Dispatcher.{Dispatcher}
use task_mesh.Tasks.{requeue_values, requeue_dead_letter_task}
use task_mesh.Recovery.{
  ReclaimedTask, Others, reclaim_one, after_reclaim, recover_each, candidate_ids,
  recover_stale_tasks,
}
use task_mesh.System.{Reach, here, submitted, claimed, completed, failed, reclaimed, requeued}

module _ ⦃database : Database⦄ where
  open database use {Db, commits, update_task}

  pub Reach-append : {s t u : Db} → Reach s t → Reach t u → Reach s u
  Reach-append r here = r
  Reach-append r (submitted id now body q) = submitted id now body (Reach-append r q)
  Reach-append r (claimed settings now a i worker q) =
      claimed settings now a i worker (Reach-append r q)
  Reach-append r (completed now i a q) = completed now i a (Reach-append r q)
  Reach-append r (failed now i a message retryable q between) =
      failed now i a message retryable (Reach-append r q) between
  Reach-append r (reclaimed now i q between) = reclaimed now i (Reach-append r q) between
  Reach-append r (requeued i q) = requeued i (Reach-append r q)

  -- What others do is done by the services too.
  abbrev pub Interleaves : (Db → Db) → Type 0
  Interleaves other = (db : Db) → Reach db (other db)

  pub record OthersReach (others : Others Db) : Type 0 where
    pub arriving : (i : Uuid) → Interleaves (others.arriving i)
    pub between : (i : Uuid) → Interleaves (others.between i)
    pub leaving : (i : Uuid) → Interleaves (others.leaving i)

  requeue-leaving :
      (i : Uuid) (leaving : Db → Db) (db : Db)
      → ((requeue_dead_letter_task i leaving db).1 ≡ db)
        ⊎ ((requeue_dead_letter_task i leaving db).1
            ≡ leaving (requeue_dead_letter_task i (λ u. u) db).1)
  unfolding requeue_dead_letter_task
  requeue-leaving i leaving db =
      elim (Bool-cases ((update_task i (has_status dead_letter) requeue_values db).0 == 1)) [
        | inr unmatched ↦ inl (rw unmatched refl)
        | inl one ↦
            elim (Bool-cases
              (commits (update_task i (has_status dead_letter) requeue_values db).1)) [
                | inl through ↦ inr (rw (one, through) refl)
                | inr refused ↦ inl (rw (one, refused) refl)
              ]
      ]

  pub requeue_dead_letter_task-Reach :
      (i : Uuid) (leaving : Db → Db) (db : Db)
      → Interleaves leaving
      → Reach db (requeue_dead_letter_task i leaving db).1
  requeue_dead_letter_task-Reach i leaving db moves = elim (requeue-leaving i leaving db) [
    | inl e ↦ rw e here
    | inr e ↦ rw e (Reach-append (requeued i here) (moves _))
  ]

  reclaim_one-Reach :
      (now : Time) (i : Uuid) (between : Db → Db) (db : Db)
      → Interleaves between
      → Reach db (reclaim_one now i between db).1
  unfolding reclaim_one
  reclaim_one-Reach now i between db moves = reclaimed {u = between db} now i here (moves db)

module _ ⦃database : Database⦄ {Queues : Type 0} (now : Time) (dispatcher : Dispatcher Queues)
    (others : Others database.Db) (moves : OthersReach others) where
  open database use {Db}

  after_reclaim-Reach :
      (i : Uuid) (done : List ReclaimedTask) (s : Queues) (start : Db)
      (r : Outcome (Option ReclaimedTask) × Db)
      → Reach start r.1
      → Reach start (after_reclaim now dispatcher others i done s r).1
  unfolding after_reclaim
  after_reclaim-Reach i done s start (raise e, db) r = r
  after_reclaim-Reach i done s start (ok none, db) r = r
  after_reclaim-Reach i done s start (ok (some result), db) r = Reach-append r (moves.leaving i db)

  recover_each-Reach :
      (ids : List Uuid) (done : List ReclaimedTask) (db : Db) (s : Queues)
      → Reach db (recover_each now dispatcher others ids done db s).1
  unfolding recover_each
  recover_each-Reach [] done db s = here
  recover_each-Reach (i ∷ rest) done db s =
      let before = moves.arriving i db in
      let one =
        after_reclaim-Reach i done s db
          (reclaim_one now i (others.between i) (others.arriving i db))
          (Reach-append before (
            reclaim_one-Reach now i (others.between i) (others.arriving i db) (moves.between i))) in
      go
        (after_reclaim now dispatcher others i done s
          (reclaim_one now i (others.between i) (others.arriving i db)))
        one (recover_each-Reach rest)
    where
      go :
          (a : Outcome (List ReclaimedTask) × Db × Queues)
          → Reach db a.1
          → ((found : List ReclaimedTask) (t : Db) (s : Queues)
              → Reach t (recover_each now dispatcher others rest found t s).1)
          → Reach db
              (elim a.0 as (λ r. Outcome (List ReclaimedTask) × Db × Queues) [
                | raise e ↦ (raise e, a.1, a.2)
                | ok done' ↦ recover_each now dispatcher others rest done' a.1 a.2
              ]).1
      go (raise e, db', s') r later = r
      go (ok done', db', s') r later = Reach-append r (later done' db' s')

  -- A recovery pass does nothing to the database but its reclaims, one transaction each.
  pub recover_stale_tasks-Reach :
      (db : Db) (s : Queues) → Reach db (recover_stale_tasks now dispatcher others db s).1
  unfolding recover_stale_tasks
  recover_stale_tasks-Reach db s = recover_each-Reach (candidate_ids now db) [] db s
