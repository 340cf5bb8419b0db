-- ===== src/Delivery/Covered.antt =====
-- Every QUEUED task has a message on its way, however often workers are killed.
use task_mesh.Base.{
  ◌≡◌, ◌⊎◌, inl, inr, refl, ap, ◌∙◌, Bool, Bool-cases, true, false, ◌&&◌, ◌||◌, List, ◌∷◌, ◌++◌,
  Option, some, arith, ◌==◌, any, any-append,
}
use task_mesh.Model.{Uuid, Task, queued, has_status}
use task_mesh.Settings.{Settings}
use task_mesh.Database.{Database}
use task_mesh.Tasks.{LoadedTask, create_task, requeue_dead_letter_task}
use task_mesh.Errors.{Outcome, ok, raise}
use task_mesh.Lifecycle.Claim.{claim_task}
use task_mesh.Lifecycle.Retry.{safe_error_message}
use task_mesh.Lifecycle.Process.{is_retryable}
use task_mesh.Lifecycle.Failure.{record_failure}
use task_mesh.Recovery.{ReclaimedTask, record_reclaim}
use task_mesh.Workers.Config.{CeleryConfig, celery_app, requeues_lost}
use task_mesh.Delivery.{
  Phase, received, working, failing, select_stale, abandon, select_failure, retrying, finished,
  Held, World, Step, submit, requeue, reclaim, publish, fail_to_publish, duplicate, receive, claim,
  fail_to_claim, complete, fail, give_up, retry, fail_to_retry, acknowledge, die, Run, start, next,
  owes_created, owes_requeued, owes_reclaimed, after_claim, after_failure,
}
use task_mesh.Delivery.Effects.{
  queued_row, is_queued, create_task-queued, claim_task-queued, complete_task-queued,
  record_failure-queued, record_reclaim-queued, requeue-queued,
}

abbrev pub lists : Uuid → List Uuid → Bool
lists i = any (λ j. j == i)

-- Whether the worker has yet to claim the task, or to publish its retry.
abbrev pub is_pending : Phase → Bool
is_pending received = true
is_pending (working a) = false
is_pending (failing a exc retry_count max_retries) = false
is_pending retrying = true
is_pending finished = false

-- A message that will still lead to a claim or to a publication, whatever happens to its worker.
abbrev pub is_live : Uuid → Held → Bool
is_live i h = h.task_id == i && is_pending h.phase

module _ ⦃database : Database⦄ (conf : CeleryConfig) where
  -- A message for the task is in a queue, or with a worker that has yet to claim the task or to
  -- publish its retry, or is owed by a publisher.
  abbrev pub is_covered : Uuid → World conf → Bool
  is_covered i w = lists i w.pending || any (is_live i) w.held || lists i w.owed

module _ ⦃database : Database⦄ (conf : CeleryConfig) (requeues : requeues_lost conf ≡ true) where
  open database use {task-empty}

  abbrev Covers : Uuid → List Uuid → World conf → Type 0
  Covers i lost w = is_queued i w.db ≡ true → (is_covered conf i w || lists i lost) ≡ true

  -- One step takes an entry out of a list, or puts another in its place.
  module _ {A : Type 0} (p : A → Bool) (before after : List A) (a : A) (all : List A)
      (e : all ≡ before ++ a ∷ after) where
    any-remove :
        (any p all ≡ (any p before || (p a || any p after)))
        × (any p (before ++ after) ≡ (any p before || any p after))
    any-remove = (ap (any p) e ∙ any-append p before (a ∷ after), any-append p before after)

    any-replace :
        (b : A)
        → (any p all ≡ (any p before || (p a || any p after)))
          × (any p (before ++ b ∷ after) ≡ (any p before || (p b || any p after)))
    any-replace b =
        (ap (any p) e ∙ any-append p before (a ∷ after), any-append p before (b ∷ after))

  grows_created :
      {A : Type 0} (i id : Uuid) (r : Outcome A) (owed : List Uuid)
      → lists i owed ≡ true
      → lists i (owes_created id r owed) ≡ true
  grows_created i id (ok a) owed h = ground (arith, h)
  grows_created i id (raise e) owed h = h

  grows_requeued :
      (i id : Uuid) (r : Outcome (Option LoadedTask)) (owed : List Uuid)
      → lists i owed ≡ true
      → lists i (owes_requeued id r owed) ≡ true
  grows_requeued i id (ok (some a)) owed h = ground (arith, h)
  grows_requeued i id _ owed h = h

  grows_reclaimed :
      (i : Uuid) (r : Outcome (Option ReclaimedTask)) (owed : List Uuid)
      → lists i owed ≡ true
      → lists i (owes_reclaimed r owed) ≡ true
  grows_reclaimed i (ok (some r)) owed h = ground (arith, h)
  grows_reclaimed i _ owed h = h

  abbrev holds : Uuid → Phase → Held
  holds id phase = record { task_id = id; phase = phase }

  Step-Covers :
      {w u : World conf} {dropped : List Uuid} (i : Uuid) (lost : List Uuid)
      → Step conf w dropped u
      → Covers i lost w
      → Covers i (dropped ++ lost) u
  Step-Covers {w} i lost (submit id now body) c h =
      let r = (create_task id now body w.db).0 in
      elim (create_task-queued i id now body w.db h) [
        | inl before ↦ ground (arith, c before, grows_created i id r w.owed)
        | inr (same, (a, e)) ↦ rw e (ground (arith, same))
      ]
  Step-Covers {w} i lost (requeue id) c h =
      let r = (requeue_dead_letter_task id (λ u. u) w.db).0 in
      elim (requeue-queued id i w.db h) [
        | inl before ↦ ground (arith, c before, grows_requeued i id r w.owed)
        | inr (same, (a, e)) ↦ rw e (ground (arith, same))
      ]
  Step-Covers i lost (select_stale now id row found stale) c h = ground (arith, c h)
  Step-Covers i lost (abandon before after p e) c h = ground (arith, c h)
  Step-Covers {w} i lost (reclaim before after p listed) c h =
      let r = (record_reclaim p.now p.task_id p.retry_count p.max_retries w.db).0 in
      elim (record_reclaim-queued p.now p.task_id p.retry_count p.max_retries i w.db h) [
        | inl before ↦ ground (arith, c before, grows_reclaimed i r w.owed)
        | inr (same, (r, e, mine, waits)) ↦ rw (e, waits) (ground (arith, same, mine))
      ]
  Step-Covers {w} i lost (publish before after id e) c h =
      ground (arith, c h, any-remove (λ j. j == i) before after id w.owed e)
  Step-Covers {w} i lost (fail_to_publish before after id e) c h =
      ground (arith, c h, any-remove (λ j. j == i) before after id w.owed e)
  Step-Covers {w} i lost (duplicate id) c h = ground (arith, c h)
  Step-Covers {w} i lost (receive before after id e) c h =
      ground (arith, c h, any-remove (λ j. j == i) before after id w.pending e)
  Step-Covers {w} i lost (claim before after id settings now a worker e fine) c h =
      let (was, other) = claim_task-queued settings now a id worker i w.db fine h in
      let phase : Phase = after_claim (claim_task settings now a id worker w.db).0 in
      ground (
        arith,
        c was,
        other,
        any-replace (is_live i) before after (holds id received) w.held e (holds id phase),
      )
  Step-Covers {w} i lost (fail_to_claim before after id e) c h = ground (
    arith,
    c h,
    any-replace (is_live i) before after (holds id received) w.held e (holds id finished),
  )
  Step-Covers {w} i lost (complete before after id claimed now e returns) c h = ground (
    arith,
    c (complete_task-queued now id claimed.attempt_id i w.db h),
    any-replace (is_live i) before after (holds id (working claimed)) w.held e (holds id finished),
  )
  Step-Covers {w} i lost (select_failure before after id claimed exc row e raises found runs) c h =
      ground (
        arith,
        c h,
        any-replace (is_live i) before after (holds id (working claimed)) w.held e
            (holds id (failing claimed.attempt_id exc row.retry_count row.max_retries)),
      )
  Step-Covers {w} i lost (fail before after id a now exc rc mr e) c h =
      let message = safe_error_message exc in
      let r = (record_failure now id a message (is_retryable exc) rc mr w.db).0 in
      let swapped =
        any-replace (is_live i) before after (holds id (failing a exc rc mr)) w.held e
          (holds id (after_failure r)) in
      elim (record_failure-queued now id a message (is_retryable exc) rc mr i w.db h) [
        | inl was ↦ ground (arith, c was, swapped)
        | inr (same, (q, asks)) ↦ ground (arith, same, ap after_failure asks, swapped)
      ]
  Step-Covers {w} i lost (give_up before after id claimed exc e raises late) c h = ground (
    arith,
    c h,
    any-replace (is_live i) before after (holds id (working claimed)) w.held e (holds id finished),
  )
  Step-Covers {w} i lost (retry before after id e) c h = ground (
    arith,
    c h,
    any-replace (is_live i) before after (holds id retrying) w.held e (holds id finished),
  )
  Step-Covers {w} i lost (fail_to_retry before after id e) c h = ground (
    arith,
    c h,
    any-replace (is_live i) before after (holds id retrying) w.held e (holds id finished),
  )
  Step-Covers {w} i lost (acknowledge before after id e) c h =
      ground (arith, c h, any-remove (is_live i) before after (holds id finished) w.held e)
  Step-Covers {w} i lost (die before after held e) c h =
      ground (arith, c h, requeues, any-remove (is_live i) before after held w.held e)

  Run-Covers : {lost : List Uuid} {w : World conf} (i : Uuid) → Run conf lost w → Covers i lost w
  Run-Covers i start h = ground (arith, task-empty i, h)
  Run-Covers i (next {lost = lost} r step) h = Step-Covers i lost step (Run-Covers i r) h

-- With the configuration of Celery that the program sets, workers may be killed at any moment: every
-- QUEUED task has a message in a queue, or with a worker that has yet to claim the task or to publish
-- its retry, or owed by a publisher, unless a publication of the task failed or its publisher died,
-- or a claim of it could not be committed.
pub Run-covered :
    ⦃database : Database⦄ (settings : Settings) {lost : List Uuid} {w : World (celery_app settings)}
    (i : Uuid) (row : Task)
    → Run (celery_app settings) lost w
    → database.task i w.db ≡ some row
    → has_status queued row ≡ true
    → (is_covered (celery_app settings) i w ≡ true) ⊎ (lists i lost ≡ true)
Run-covered settings {lost} {w} i row r found waits =
    let known = Run-Covers (celery_app settings) refl i r (ap queued_row found ∙ waits) in
    elim (Bool-cases (lists i lost)) [
      | inl gone ↦ inr gone
      | inr here ↦ inl (ground (arith, known, here))
    ]
