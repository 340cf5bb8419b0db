-- ===== src/System/Identity.antt =====
-- What no transaction changes.
use task_mesh.Base.{◌≡◌, Bool-cases, inl, inr, some, arith, ◌==◌, ==→eq, if◌then◌else◌}
use task_mesh.Model.{Uuid, Task}
use task_mesh.Database.{Database}
use task_mesh.System.Trace.{
  Change, creates, claims, completes, fails, reclaims, requeues, Trace, done, next,
}

-- Two versions of one row.
pub record SameTask (t u : Task) : Type 0 where
  pub id : u.id ≡ t.id
  pub task_type : u.task_type ≡ t.task_type
  pub payload : u.payload ≡ t.payload
  pub priority : u.priority ≡ t.priority
  pub max_retries : u.max_retries ≡ t.max_retries
  pub created_at : u.created_at ≡ t.created_at

module _ ⦃database : Database⦄ where
  open database use {Db, task}

  -- Every task is still there, and nothing that its submission fixed has changed.
  abbrev pub Persists : Db → Db → Type 0
  Persists s u =
      (i : Uuid) (t : Task) → task i s ≡ some t → (t' : Task) × (task i u ≡ some t') × SameTask t t'

  pub Persists-trans : {s u w : Db} → Persists s u → Persists u w → Persists s w
  Persists-trans p q i t e =
      let (t', e', a) = p i t e in let (t'', e'', b) = q i t' e' in (t'', e'', ground arith)

  writes-Persists :
      (i : Uuid) (row new : Task) (db final : Db)
      → task i db ≡ some row
      → ((j : Uuid) → task j final ≡ (if i == j then some new else task j db))
      → SameTask row new
      → Persists db final
  writes-Persists i row new db final found after same j t e = elim (Bool-cases (i == j)) [
    | inl here ↦ (new, ground (arith, after j), ground (arith, ==→eq i j here))
    | inr other ↦ (t, ground (arith, after j), ground arith)
  ]

  pub Change-Persists : {db final : Db} → Change db final → Persists db final
  Change-Persists (creates id now body c) =
      λ j t found. (t, ground (arith, c.was_fresh, c.rows_after j, ==→eq id j), ground arith)
  Change-Persists (claims settings now attempt_id i worker row found _ c) =
      writes-Persists i row _ _ _ found c.rows_after (ground arith)
  Change-Persists (completes now i attempt_id row found _ c) =
      writes-Persists i row _ _ _ found c.rows_after (ground arith)
  Change-Persists (fails now i attempt_id message retryable count row found _ _ c) =
      writes-Persists i row _ _ _ found c.rows_after (ground arith)
  Change-Persists (reclaims now i count row found _ _ c) =
      writes-Persists i row _ _ _ found c.rows_after (ground arith)
  Change-Persists (requeues i row found _ c) =
      writes-Persists i row _ _ _ found c.rows_after (ground arith)

  pub Trace-Persists : {s u : Db} → Trace s u → Persists s u
  Trace-Persists done = λ i t e. (t, e, ground arith)
  Trace-Persists (next r c) = Persists-trans (Trace-Persists r) (Change-Persists c)
