-- ===== src/System/Diagram.antt =====
-- The task lifecycle of the README as a relation on statuses, and what a change does to a row by it.
use mathlib.Core.Option.{some-injective}
use task_mesh.Base.{
  ℕ, ◌≡◌, refl, sym, ◌∙◌, subst, ap, Bool, true, false, Bool-cases, inl, inr, ◌⊎◌, ◌||◌, some,
  arith, ◌==◌, ==→eq, if◌then◌else◌, ltb,
}
use task_mesh.Model.{
  Uuid, Task, TaskStatus, queued, running, completed, failed, dead_letter, has_status, same_status,
  is_stale,
}
use task_mesh.Database.{Database}
use task_mesh.Lifecycle.Failure.{new_status}
use task_mesh.Recovery.{reclaim_status}
use task_mesh.System.Trace.{
  Change, creates, claims, completes, fails, reclaims, requeues, Trace, done, next,
}

pub data Edge : TaskStatus → TaskStatus → Type 0 where
  claim : Edge queued running
  success : Edge running completed
  permanent_error : Edge running failed
  retry : Edge running queued
  exhausted : Edge running dead_letter
  requeue : Edge dead_letter queued

running-Edge : (retryable : Bool) (a b : ℕ) → Edge running (new_status retryable a b)
running-Edge true a b = elim (Bool-cases (ltb a b)) [
  | inl more ↦ rw more retry
  | inr last ↦ rw last exhausted
]
running-Edge false a b = permanent_error

reclaim-Edge : (a b : ℕ) → Edge running (reclaim_status a b)
reclaim-Edge a b = elim (Bool-cases (ltb a b)) [
  | inl more ↦ rw more retry
  | inr last ↦ rw last exhausted
]

has_status→eq : (s : TaskStatus) (t : Task) → has_status s t ≡ true → t.status ≡ s
has_status→eq queued t h = ground arith
has_status→eq running t h = ground arith
has_status→eq completed t h = ground arith
has_status→eq failed t h = ground arith
has_status→eq dead_letter t h = ground arith

is_stale→running : (now : ℕ) (t : Task) → is_stale now t ≡ true → has_status running t ≡ true
is_stale→running now t h = ground arith

-- The statuses that no edge leaves.
abbrev pub final_status : TaskStatus → Bool
final_status s = same_status completed s || same_status failed s

abbrev pub is_final : Task → Bool
is_final t = final_status t.status

Edge-source : {s u : TaskStatus} → Edge s u → final_status s ≡ false
Edge-source claim = refl
Edge-source success = refl
Edge-source permanent_error = refl
Edge-source retry = refl
Edge-source exhausted = refl
Edge-source requeue = refl

final-no-Edge : {s u : TaskStatus} → final_status s ≡ true → ¬ Edge s u
final-no-Edge f edge = cc (Edge-source edge)

module _ ⦃database : Database⦄ where
  open database use {Db, task}

  -- What a change does to the row of one task: nothing, or an edge of the diagram.
  abbrev pub Follows : Db → Db → Type 0
  Follows db final =
      (i : Uuid) (t : Task)
      → task i db ≡ some t
      → (u : Task) × (task i final ≡ some u) × ((u ≡ t) ⊎ Edge t.status u.status)

  writes-Follows :
      (i : Uuid) (s : TaskStatus) (row new : Task) (db final : Db)
      → task i db ≡ some row
      → has_status s row ≡ true
      → ((j : Uuid) → task j final ≡ (if i == j then some new else task j db))
      → Edge s new.status
      → Follows db final
  writes-Follows i s row new db final found is after edge j t e = elim (Bool-cases (i == j)) [
    | inl same ↦ (
      new,
      ground (arith, after j),
      inr (
          subst (λ st. Edge st new.status)
            (sym (has_status→eq s row is)
              ∙ ap (λ r. r.status) (some-injective row t (sym found ∙ rw (==→eq i j same) e)))
            edge),
    )
    | inr other ↦ (t, ground (arith, after j), inl refl)
  ]

  pub Change-Follows : {db final : Db} → Change db final → Follows db final
  Change-Follows (creates id now body c) =
      λ j t found. (t, ground (arith, c.was_fresh, c.rows_after j, ==→eq id j), inl refl)
  Change-Follows (claims settings now attempt_id i worker row found free c) =
      writes-Follows i queued row _ _ _ found free c.rows_after claim
  Change-Follows (completes now i attempt_id row found runs c) =
      writes-Follows i running row _ _ _ found runs c.rows_after success
  Change-Follows (fails now i attempt_id message retryable count row found runs _ c) =
      writes-Follows i running row _ _ _ found runs c.rows_after
        (running-Edge retryable count row.max_retries)
  Change-Follows (reclaims now i count row found stale _ c) =
      writes-Follows i running row _ _ _ found (is_stale→running now row stale) c.rows_after
        (reclaim-Edge count row.max_retries)
  Change-Follows (requeues i row found dead c) =
      writes-Follows i dead_letter row _ _ _ found dead c.rows_after requeue

  pub Trace-final :
      {s u : Db} (i : Uuid) (t : Task)
      → Trace s u
      → task i s ≡ some t
      → is_final t ≡ true
      → task i u ≡ some t
  Trace-final i t done e f = e
  Trace-final i t (next r c) e f =
      let (u, at_u, step) = Change-Follows c i t (Trace-final i t r e f) in
      elim step [ inl same ↦ rw (← same) at_u | inr edge ↦ absurd (final-no-Edge f edge) ]
