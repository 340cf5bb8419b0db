-- ===== src/Delivery/History.antt =====
-- What the broker and the workers do with messages adds nothing to what the services can do to the
-- database: every run is a run of the abstract machine of System/Trace.
use task_mesh.Base.{
  ℕ, ◌≡◌, ◌≤◌, refl, sym, ap, ◌∙◌, subst, Bool, ◌⊎◌, inl, inr, List, ◌∷◌, ◌++◌, Option, none, some,
  arith, Every, Every-map, Every-remove, Every-insert,
}
use mathlib.Core.Option.{some-injective}
use task_mesh.Text.{Text}
use task_mesh.Model.{Uuid, Time, Task}
use task_mesh.Database.{Database}
use task_mesh.Errors.{Outcome, ok, raise, RetryRequest}
use task_mesh.Lifecycle.Claim.{Claimed, claim_task}
use task_mesh.Lifecycle.Retry.{safe_error_message}
use task_mesh.Lifecycle.Process.{is_retryable}
use task_mesh.Lifecycle.Failure.{record_failure}
use task_mesh.Lifecycle.Failure.Laws.{Fails, record_failure_cases}
use task_mesh.Recovery.{record_reclaim}
use task_mesh.Recovery.Laws.{Reclaims, record_reclaim_cases}
use task_mesh.Workers.Config.{CeleryConfig}
use task_mesh.System.{here, submitted, claimed, completed, requeued}
use task_mesh.System.Trace.{Change, Trace, Trace-append, done, fails, reclaims}
use task_mesh.System.Identity.{Trace-Persists}
use task_mesh.System.Validity.{IsSound, empty-IsSound, Trace-IsSound}
use task_mesh.System.Refinement.{Reach-Trace}
use task_mesh.Delivery.{
  Phase, received, working, failing, retrying, finished, Held, Selected, World, Step, submit,
  requeue, select_stale, reclaim, abandon, publish, fail_to_publish, duplicate, receive, claim,
  fail_to_claim, complete, select_failure, fail, give_up, retry, fail_to_retry, acknowledge, die,
  Run, start, next, after_claim, after_failure,
}

module _ ⦃database : Database⦄ where
  open database use {Db, task, empty}

  -- The counts are those of the task's row, or of one that it has had.
  abbrev pub IsRead : Db → Uuid → ℕ → ℕ → Type 0
  IsRead db i retry_count max_retries =
      (row : Task) × (task i db ≡ some row)
      × (max_retries ≡ row.max_retries)
      × (retry_count ≤ row.max_retries)

  abbrev pub PhaseReads : Db → Uuid → Phase → Type 0
  PhaseReads db i received = Unit
  PhaseReads db i (working a) = Unit
  PhaseReads db i (failing a exc retry_count max_retries) = IsRead db i retry_count max_retries
  PhaseReads db i retrying = Unit
  PhaseReads db i finished = Unit

  abbrev pub HeldReads : Db → Held → Type 0
  HeldReads db h = PhaseReads db h.task_id h.phase

  abbrev pub PassReads : Db → Selected → Type 0
  PassReads db p = IsRead db p.task_id p.retry_count p.max_retries

  row-IsRead :
      (db : Db) (i : Uuid) (row : Task)
      → IsSound db
      → task i db ≡ some row
      → IsRead db i row.retry_count row.max_retries
  row-IsRead db i row sound found =
      let valid = sound i row found in (row, found, refl, ground arith)

  -- The counts stay in the budget of the row, whatever happens to it.
  Trace-IsRead :
      {db final : Db} (i : Uuid) (rc mr : ℕ)
      → Trace db final
      → IsRead db i rc mr
      → IsRead final i rc mr
  Trace-IsRead i rc mr r (row, found, same, within) =
      let (row', found', kept) = Trace-Persists r i row found in
      (row', found', ground arith, ground arith)

  Trace-HeldReads : {db final : Db} (h : Held) → Trace db final → HeldReads db h → HeldReads final h
  Trace-HeldReads {db} {final} h r reads = phases h.phase reads
    where
      phases : (p : Phase) → PhaseReads db h.task_id p → PhaseReads final h.task_id p
      phases received q = tt
      phases (working a) q = tt
      phases (failing a exc rc mr) q = Trace-IsRead h.task_id rc mr r q
      phases retrying q = tt
      phases finished q = tt

  after_claim-PhaseReads :
      (db : Db) (i : Uuid) (r : Outcome (Option Claimed)) → PhaseReads db i (after_claim r)
  after_claim-PhaseReads db i (ok (some c)) = tt
  after_claim-PhaseReads db i (ok none) = tt
  after_claim-PhaseReads db i (raise e) = tt

  after_failure-PhaseReads :
      (db : Db) (i : Uuid) (r : Outcome (Option RetryRequest)) → PhaseReads db i (after_failure r)
  after_failure-PhaseReads db i (ok (some request)) = tt
  after_failure-PhaseReads db i (ok none) = tt
  after_failure-PhaseReads db i (raise e) = tt

  -- At most one change of one task.
  abbrev pub AtMostOne : Db → Db → Type 0
  AtMostOne db final = (final ≡ db) ⊎ Change db final

  AtMostOne-Trace : {db final : Db} → AtMostOne db final → Trace db final
  AtMostOne-Trace (inl e) = rw e done
  AtMostOne-Trace (inr c) = Trace.next done c

  pub record_failure-AtMostOne :
      (now : Time) (i attempt_id : Uuid) (message : Text) (retryable : Bool) (rc mr : ℕ) (db : Db)
      → IsRead db i rc mr
      → AtMostOne db (record_failure now i attempt_id message retryable rc mr db).1
  record_failure-AtMostOne now i a message retryable rc mr db (read, was, same, within) =
      elim (record_failure_cases now i a message retryable rc mr db) [
        | inl e ↦ inl e
        | inr (row, _, c, found, runs) ↦
            let one : read ≡ row = some-injective read row (sym was ∙ found) in
            let final : Db = (record_failure now i a message retryable rc mr db).1 in
            inr (
              fails now i a message retryable rc row found runs (rw one at within) (
                subst (λ m. Fails now i a message retryable rc m row db final)
                  (same ∙ ap (λ r. r.max_retries) one) c))
      ]

  pub record_reclaim-AtMostOne :
      (now : Time) (i : Uuid) (rc mr : ℕ) (db : Db)
      → IsRead db i rc mr
      → AtMostOne db (record_reclaim now i rc mr db).1
  record_reclaim-AtMostOne now i rc mr db (read, was, same, within) =
      elim (record_reclaim_cases now i rc mr db) [
        | inl e ↦ inl e
        | inr (row, _, c, found, stale) ↦
            let one : read ≡ row = some-injective read row (sym was ∙ found) in
            let final : Db = (record_reclaim now i rc mr db).1 in
            inr (
              reclaims now i rc row found stale (rw one at within) (
                subst (λ m. Reclaims now i rc m row db final) (same ∙ ap (λ r. r.max_retries) one)
                  c))
      ]

  -- What is known of a world that a run has led to.
  abbrev pub Tracks : Db → List Held → List Selected → Type 0
  Tracks db held passes = Trace empty db × Every (HeldReads db) held × Every (PassReads db) passes

  pub Tracks-IsSound :
      {db : Db} (held : List Held) (passes : List Selected) → Tracks db held passes → IsSound db
  Tracks-IsSound held passes t = Trace-IsSound t.0 empty-IsSound

  moved :
      {db final : Db} (held : List Held) (passes : List Selected)
      → Tracks db held passes
      → Trace db final
      → Tracks final held passes
  moved held passes (before, reads, selects) r = (
    Trace-append before r,
    Every-map _ _ held (λ h q. Trace-HeldReads h r q) reads,
    Every-map _ _ passes (λ p q. Trace-IsRead p.task_id p.retry_count p.max_retries r q) selects,
  )

  module _ {db : Db} (held : List Held) (passes : List Selected) (t : Tracks db held passes)
      (before after : List Held) (h : Held) (e : held ≡ before ++ h ∷ after) where
    pub parted : HeldReads db h × Every (HeldReads db) (before ++ after)
    parted = Every-remove (HeldReads db) before h after (subst (Every (HeldReads db)) e t.1)

    dropped : Tracks db (before ++ after) passes
    dropped = (t.0, parted.1, t.2)

    replaced : (h' : Held) → HeldReads db h' → Tracks db (before ++ h' ∷ after) passes
    replaced h' q = (t.0, Every-insert (HeldReads db) before h' after q parted.1, t.2)

  module _ {db : Db} (held : List Held) (passes : List Selected) (t : Tracks db held passes)
      (before after : List Selected) (p : Selected) (e : passes ≡ before ++ p ∷ after) where
    pub taken : PassReads db p × Tracks db held (before ++ after)
    taken =
        let (q, rest) =
          Every-remove (PassReads db) before p after (subst (Every (PassReads db)) e t.2) in
        (q, (t.0, t.1, rest))

module _ ⦃database : Database⦄ (conf : CeleryConfig) where
  abbrev pub IsTracked : World conf → Type 0
  IsTracked w = Tracks w.db w.held w.passes

  abbrev holds : Uuid → Phase → Held
  holds id phase = record { task_id = id; phase = phase }

  Step-IsTracked :
      {w u : World conf} {lost : List Uuid} → Step conf w lost u → IsTracked w → IsTracked u
  Step-IsTracked {w} (submit id now body) t =
      moved w.held w.passes t
        (Reach-Trace (submitted id now body here) (Tracks-IsSound w.held w.passes t))
  Step-IsTracked {w} (requeue id) t =
      moved w.held w.passes t (Reach-Trace (requeued id here) (Tracks-IsSound w.held w.passes t))
  Step-IsTracked {w} (select_stale now id row found stale) t =
      (t.0, t.1, (row-IsRead w.db id row (Tracks-IsSound w.held w.passes t) found, t.2))
  Step-IsTracked {w} (reclaim before after p e) t =
      let (reads, rest) = taken w.held w.passes t before after p e in
      moved w.held (before ++ after) rest (
        AtMostOne-Trace
          (record_reclaim-AtMostOne p.now p.task_id p.retry_count p.max_retries w.db reads))
  Step-IsTracked {w} (abandon before after p e) t = (taken w.held w.passes t before after p e).1
  Step-IsTracked {w} (publish before after id e) t = t
  Step-IsTracked {w} (fail_to_publish before after id e) t = t
  Step-IsTracked {w} (duplicate id) t = t
  Step-IsTracked {w} (receive before after id e) t = (t.0, (tt, t.1), t.2)
  Step-IsTracked {w} (claim before after id settings now a worker e fine) t =
      let r = claim_task settings now a id worker w.db in
      moved (before ++ holds id (after_claim r.0) ∷ after) w.passes
        (replaced w.held w.passes t before after (holds id received) e (holds id (after_claim r.0))
          (after_claim-PhaseReads w.db id r.0))
        (Reach-Trace (claimed settings now a id worker here) (Tracks-IsSound w.held w.passes t))
  Step-IsTracked {w} (fail_to_claim before after id e) t =
      replaced w.held w.passes t before after (holds id received) e (holds id finished) tt
  Step-IsTracked {w} (complete before after id job now e returns) t =
      moved (before ++ holds id finished ∷ after) w.passes
        (replaced w.held w.passes t before after (holds id (working job)) e (holds id finished) tt)
        (Reach-Trace (completed now id job.attempt_id here) (Tracks-IsSound w.held w.passes t))
  Step-IsTracked {w} (select_failure before after id job exc row e raises found runs) t =
      replaced w.held w.passes t before after (holds id (working job)) e
        (holds id (failing job.attempt_id exc row.retry_count row.max_retries))
        (row-IsRead w.db id row (Tracks-IsSound w.held w.passes t) found)
  Step-IsTracked {w} (fail before after id a now exc rc mr e) t =
      let message = safe_error_message exc in
      let r = record_failure now id a message (is_retryable exc) rc mr w.db in
      let failed = holds id (failing a exc rc mr) in
      moved (before ++ holds id (after_failure r.0) ∷ after) w.passes
        (replaced w.held w.passes t before after failed e (holds id (after_failure r.0))
          (after_failure-PhaseReads w.db id r.0))
        (AtMostOne-Trace (
          record_failure-AtMostOne now id a message (is_retryable exc) rc mr w.db
            (parted w.held w.passes t before after failed e).0))
  Step-IsTracked {w} (give_up before after id job exc e raises late) t =
      replaced w.held w.passes t before after (holds id (working job)) e (holds id finished) tt
  Step-IsTracked {w} (retry before after id e) t =
      replaced w.held w.passes t before after (holds id retrying) e (holds id finished) tt
  Step-IsTracked {w} (fail_to_retry before after id e) t =
      replaced w.held w.passes t before after (holds id retrying) e (holds id finished) tt
  Step-IsTracked {w} (acknowledge before after id e) t =
      dropped w.held w.passes t before after (holds id finished) e
  Step-IsTracked {w} (die before after h e) t = dropped w.held w.passes t before after h e

  pub Run-IsTracked : {lost : List Uuid} {w : World conf} → Run conf lost w → IsTracked w
  Run-IsTracked start = (done, tt, tt)
  Run-IsTracked (next r step) = Step-IsTracked step (Run-IsTracked r)

  -- Whatever happens to messages, workers and publishers, the database has gone through a run of the
  -- abstract machine: changes of one task each, as the services make them one after the other.
  pub Run-Trace : {lost : List Uuid} {w : World conf} → Run conf lost w → Trace database.empty w.db
  Run-Trace r = (Run-IsTracked r).0
