-- ===== src/Recovery/Scan.antt =====
-- A whole recovery pass over a database that works, with nobody else at it.
use task_mesh.Base.{
  ℕ, ◌≡◌, refl, sym, subst, ◌∙◌, true, false, Bool, Bool-cases, ◌||◌, inl, inr, Option-cases, some,
  List, [], ◌∷◌, ◌++◌, map, arith, ◌==◌, ==→eq, ==_refl, keep, length, ap,
}
use task_mesh.Model.{Uuid, Time, Task, is_stale}
use task_mesh.Database.{Database}
use task_mesh.Database.Healthy.{IsHealthy}
use task_mesh.Database.Rows.{find_task, IsKeyed, assign}
use task_mesh.Errors.{Outcome, ok}
use task_mesh.Dispatcher.{Dispatcher}
use task_mesh.Recovery.{
  ReclaimedTask, Others, reclaim_values, reclaim_one, after_reclaim, redispatch, recover_each,
  candidate_ids, count_stale_running, recover_stale_tasks,
}
use task_mesh.Recovery.Laws.{
  reclaim_one-fresh, reclaim_one-stale, record_reclaim-stale, stored, stored-Reclaims,
  stored-Healthy, reclaimed,
}

abbrev pub quiet : {Db : Type 0} → Others Db
quiet = record { arriving = λ i db. db; between = λ i db. db; leaving = λ i db. db }

abbrev contains : Uuid → List Uuid → Bool
contains j [] = false
contains j (i ∷ rest) = i == j || contains j rest

contains-keep :
    (p : Task → Bool) (j : Uuid) (t : Task) (ts : List Task)
    → find_task j ts ≡ some t
    → p t ≡ true
    → contains j (map (λ u. u.id) (keep p ts)) ≡ true
contains-keep p j t [] found h = cc
contains-keep p j t (u ∷ ts) found h = ground (arith, contains-keep p j t ts)

keep-none :
    (p : Task → Bool) (ts : List Task)
    → IsKeyed ts
    → ((j : Uuid) (t : Task) → find_task j ts ≡ some t → p t ≡ false)
    → keep p ts ≡ []
keep-none p [] keyed h = refl
keep-none p (t ∷ ts) keyed h = rw (h t.id t (rw ==_refl refl)) (keep-none p ts keyed.1 later)
  where
    later : (j : Uuid) (u : Task) → find_task j ts ≡ some u → p u ≡ false
    later j u found = elim (Bool-cases (t.id == j)) [
      | inl same ↦ absurd (ground (arith, ==→eq t.id j same, keyed.0))
      | inr other ↦ h j u (rw other found)
    ]

module _ ⦃database : Database⦄ {Queues : Type 0} (now : Time) (dispatcher : Dispatcher Queues)
    {H : database.Db → Type 0} (healthy : IsHealthy H) where
  open database use {Db, rows, task, task-rows, rows-IsKeyed}

  abbrev pub NotStale : Uuid → Db → Type 0
  NotStale i db = (t : Task) → task i db ≡ some t → is_stale now t ≡ false

  -- What one round of the loop does.
  record Round (i : Uuid) (db : Db) (result : Outcome (List ReclaimedTask) × Db × Queues)
      : Type 0 where
    found : List ReclaimedTask
    returned : result.0 ≡ ok found
    healthy_after : H result.1
    cleared : NotStale i result.1
    others : (j : Uuid) → (i == j) ≡ false → task j result.1 ≡ task j db
    kept : NotStale i db → task i result.1 ≡ task i db

  round :
      (i : Uuid) (found : List ReclaimedTask) (db : Db) (s : Queues)
      → H db
      → Round i db (after_reclaim now dispatcher quiet i found s (reclaim_one now i (λ d. d) db))
  unfolding after_reclaim
  round i found db s h = elim (Option-cases (task i db)) [
    | inl missing ↦ untouched (λ t e. ground arith)
    | inr (row, there) ↦ elim (Bool-cases (is_stale now row)) [
      | inr fresh ↦ untouched (λ t e. ground (arith, fresh))
      | inl stale ↦
          let rc : ℕ = row.retry_count in
          let mr : ℕ = row.max_retries in
          let final : Db = stored now i rc mr db in
          let h' : H final = stored-Healthy now i healthy rc mr db h in
          let r = stored-Reclaims now i rc mr db row there stale in
          let mine = rw (==_refl i) at (r.rows_after i) in
          rw (reclaim_one-stale now i (λ d. d) db row there stale) (
            rw (record_reclaim-stale now i rc mr db row there stale, healthy.commits_all final h')
              (record {
                found =
                    found
                    ++ (redispatch now dispatcher quiet (reclaimed now i rc mr) final s).0 ∷ [];
                returned = refl;
                healthy_after = h';
                cleared = λ t e. reclaimed-fresh row t (sym mine ∙ e);
                others = λ j other. rw other at (r.rows_after j);
                kept = λ fresh. absurd (cc (fresh row there));
              }))
    ]
  ]
    where
      untouched :
          NotStale i db
          → Round i db
              (after_reclaim now dispatcher quiet i found s (reclaim_one now i (λ d. d) db))
      untouched fresh = rw (reclaim_one-fresh now i (λ d. d) db fresh) (record {
        found = found;
        returned = refl;
        healthy_after = h;
        cleared = fresh;
        others = λ j other. refl;
        kept = λ same. refl;
      })

      reclaimed-fresh :
          (row t : Task)
          → some (assign (reclaim_values row.retry_count row.max_retries) row) ≡ some t
          → is_stale now t ≡ false
      reclaimed-fresh row t e = ground arith

  Round-kept :
      (i j : Uuid) {db : Db} {result : Outcome (List ReclaimedTask) × Db × Queues}
      → Round i db result
      → NotStale j db
      → task j result.1 ≡ task j db
  Round-kept i j {db} {result} r fresh = elim (Bool-cases (i == j)) [
    | inl same ↦
        subst (λ x. NotStale x db → task x result.1 ≡ task x db) (==→eq i j same) r.kept fresh
    | inr other ↦ r.others j other
  ]

  Round-cleared :
      (i j : Uuid) {db : Db} {result : Outcome (List ReclaimedTask) × Db × Queues}
      → Round i db result
      → (i == j) ≡ true
      → NotStale j result.1
  Round-cleared i j {db} {result} r same =
      subst (λ x. NotStale x result.1) (==→eq i j same) r.cleared

  -- What the loop does to one task `j`.
  record Pass (j : Uuid) (ids : List Uuid) (db : Db)
      (result : Outcome (List ReclaimedTask) × Db × Queues) : Type 0 where
    found : List ReclaimedTask
    returned : result.0 ≡ ok found
    healthy_after : H result.1
    kept : NotStale j db → task j result.1 ≡ task j db
    cleared : contains j ids ≡ true → NotStale j result.1

  pass :
      (j : Uuid) (ids : List Uuid) (found : List ReclaimedTask) (db : Db) (s : Queues)
      → H db
      → Pass j ids db (recover_each now dispatcher quiet ids found db s)
  unfolding recover_each
  pass j [] found db s h = record {
    found = found;
    returned = refl;
    healthy_after = h;
    kept = λ fresh. refl;
    cleared = λ e. cc;
  }
  pass j (i ∷ ids) found db s h =
      let r = round i found db s h in
      let rest = pass j ids r.found _ _ r.healthy_after in
      rw (r.returned, recover_each)
        (record {
          found = rest.found;
          returned = rest.returned;
          healthy_after = rest.healthy_after;
          kept = λ fresh.
              let same = Round-kept i j r fresh in rest.kept (λ t e. fresh t (sym same ∙ e)) ∙ same;
          cleared = λ listed. elim (Bool-cases (i == j)) [
            | inl here ↦
                let clear = Round-cleared i j r here in λ t e. clear t (sym (rest.kept clear) ∙ e)
            | inr other ↦ rest.cleared (rw other at listed)
          ];
        })

  -- A recovery pass over a database on which every COMMIT succeeds, with no other session at it, returns,
  -- and after it no task of the table is stale, the monitoring count of stale tasks is 0, and every task
  -- that was not stale is as it was, whether the broker took the messages or not.
  pub recover_stale_tasks-clears :
      (db : Db) (s : Queues)
      → H db
      → let result = recover_stale_tasks now dispatcher quiet db s in
        ((found : List ReclaimedTask) × (result.0 ≡ ok found))
        × ((j : Uuid) → NotStale j result.1)
        × (count_stale_running now result.1 ≡ 0)
        × ((j : Uuid) → NotStale j db → task j result.1 ≡ task j db)
  unfolding recover_stale_tasks candidate_ids count_stale_running
  recover_stale_tasks-clears db s h = (
    ((whole 0).found, (whole 0).returned),
    clear,
    ap length (
        keep-none (is_stale now) (rows _) (rows-IsKeyed _)
          (λ j t e. clear j t (task-rows j _ ∙ e))),
    λ j fresh. (whole j).kept fresh,
  )
    where
      whole :
          (j : Uuid)
          → Pass j (candidate_ids now db) db (recover_stale_tasks now dispatcher quiet db s)
      whole j = pass j (candidate_ids now db) [] db s h

      settled :
          (j : Uuid) → NotStale j db → NotStale j (recover_stale_tasks now dispatcher quiet db s).1
      settled j fresh t e = fresh t (sym ((whole j).kept fresh) ∙ e)

      clear : (j : Uuid) → NotStale j (recover_stale_tasks now dispatcher quiet db s).1
      clear j = elim (Option-cases (task j db)) [
        | inl missing ↦ settled j (λ t e. ground arith)
        | inr (row, there) ↦ elim (Bool-cases (is_stale now row)) [
          | inl stale ↦
              (whole j).cleared
                (contains-keep (is_stale now) j row (rows db) (sym (task-rows j db) ∙ there) stale)
          | inr fresh ↦ settled j (λ t e. ground (arith, fresh))
        ]
      ]
