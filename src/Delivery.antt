-- ===== src/Delivery.antt =====
-- Messages on their way: what the broker, the workers and the publishers hold, next to the database.
-- A message stands for the task whose UUID it carries; its queue and its place in it do not matter
-- here. The transactions are those of app/services, in the pieces between which a process can die.
pub mod Effects
pub mod History
pub mod Covered
pub mod Progress
pub mod Lifecycle
pub mod Completion
use task_mesh.Base.{
  ℕ, ◌≡◌, ◌≢◌, Bool, true, false, ◌||◌, List, [], ◌∷◌, ◌++◌, Option, none, some, ◌==◌, any,
  if◌then◌else◌,
}
use task_mesh.Text.{Text}
use task_mesh.Model.{
  Uuid, Time, Task, TaskStatus, queued, running, same_status, has_status, is_stale,
}
use task_mesh.Settings.{Settings}
use task_mesh.Database.{Database}
use task_mesh.Errors.{Outcome, ok, raise, RetryRequest, database_error}
use task_mesh.Tasks.{TaskCreate, LoadedTask, create_task, requeue_dead_letter_task}
use task_mesh.Execution.{JobError, execute_job}
use task_mesh.Lifecycle.Retry.{safe_error_message}
use task_mesh.Lifecycle.Process.{is_retryable}
use task_mesh.Lifecycle.Claim.{Claimed, claim_task}
use task_mesh.Lifecycle.Complete.{complete_task}
use task_mesh.Lifecycle.Failure.{record_failure}
use task_mesh.Recovery.{ReclaimedTask, record_reclaim}
use task_mesh.Workers.Config.{CeleryConfig, requeues_lost}

-- How far a worker is with the message that it holds, which is not acknowledged before `finished`.
pub data Phase : Type 0 where
  received : Phase
  -- The claim was committed: the attempt, and what the job is to run on.
  working : Claimed → Phase
  -- The job raised, and its row was read with these counts.
  failing : Uuid → JobError → ℕ → ℕ → Phase
  retrying : Phase
  finished : Phase

pub record Held : Type 0 where
  pub task_id : Uuid
  pub phase : Phase

-- A recovery pass that has read a stale row, with its counts, and has yet to write it.
pub record Selected : Type 0 where
  pub now : Time
  pub task_id : Uuid
  pub retry_count : ℕ
  pub max_retries : ℕ

abbrev pub selected : Time → Uuid → Task → Selected
selected now id row = record {
  now = now;
  task_id = id;
  retry_count = row.retry_count;
  max_retries = row.max_retries;
}

-- A claim that returned an attempt goes on with the job; every other ends the delivery.
abbrev pub after_claim : Outcome (Option Claimed) → Phase
after_claim (ok (some claimed)) = working claimed
after_claim _ = finished

-- A failure that was put down to be retried still has to be published.
abbrev pub after_failure : Outcome (Option RetryRequest) → Phase
after_failure (ok (some request)) = retrying
after_failure _ = finished

-- Whom the services owe a message after their COMMIT.
abbrev pub owes_created : Uuid → {A : Type 0} → Outcome A → List Uuid → List Uuid
owes_created id (ok row) owed = id ∷ owed
owes_created id (raise e) owed = owed

abbrev pub owes_requeued : Uuid → Outcome (Option LoadedTask) → List Uuid → List Uuid
owes_requeued id (ok (some found)) owed = id ∷ owed
owes_requeued id _ owed = owed

abbrev pub owes_reclaimed : Outcome (Option ReclaimedTask) → List Uuid → List Uuid
owes_reclaimed (ok (some result)) owed =
    if same_status queued result.outcome then result.task_id ∷ owed else owed
owes_reclaimed _ owed = owed

module _ ⦃database : Database⦄ (conf : CeleryConfig) where
  open database use {Db, empty}

  pub record World : Type 0 where
    pub db : Db
    -- In the queues.
    pub pending : List Uuid
    -- With the workers.
    pub held : List Held
    -- Committed and still to be published, by the API or by a recovery pass.
    pub owed : List Uuid
    -- With the recovery passes.
    pub passes : List Selected

  abbrev pub new_world : World
  new_world = record { db = empty; pending = []; held = []; owed = []; passes = [] }

  -- A killed worker's message, back in its queue if the configuration says so.
  abbrev pub give_back : Uuid → List Uuid → List Uuid
  give_back i pending = if requeues_lost conf then i ∷ pending else pending

  -- One step, with the tasks that it leaves without a message: a publication that failed, a publisher
  -- that died, or a claim that could not be committed, whose exception Celery acknowledges. A
  -- transaction that reads before it writes is two steps, and what it read is kept in between.
  pub data Step (w : World) : List Uuid → World → Type 0 where
    submit :
        (id : Uuid) (now : Time) (body : TaskCreate)
        → Step w [] (record w {
          db = (create_task id now body w.db).1;
          owed = owes_created id (create_task id now body w.db).0 w.owed;
        })
    requeue :
        (id : Uuid)
        → Step w [] (record w {
          db = (requeue_dead_letter_task id (λ u. u) w.db).1;
          owed = owes_requeued id (requeue_dead_letter_task id (λ u. u) w.db).0 w.owed;
        })
    select_stale :
        (now : Time) (id : Uuid) (row : Task)
        → database.task id w.db ≡ some row
        → is_stale now row ≡ true
        → Step w [] (record w { passes = selected now id row ∷ w.passes })
    reclaim :
        (before after : List Selected) (p : Selected)
        → w.passes ≡ before ++ p ∷ after
        → Step w [] (record w {
          db = (record_reclaim p.now p.task_id p.retry_count p.max_retries w.db).1;
          owed =
              owes_reclaimed
                (record_reclaim p.now p.task_id p.retry_count p.max_retries w.db).0
                w.owed;
          passes = before ++ after;
        })
    -- A pass whose second look finds nothing stale, or whose process dies.
    abandon :
        (before after : List Selected) (p : Selected)
        → w.passes ≡ before ++ p ∷ after
        → Step w [] (record w { passes = before ++ after })
    publish :
        (before after : List Uuid) (id : Uuid)
        → w.owed ≡ before ++ id ∷ after
        → Step w [] (record w { owed = before ++ after; pending = id ∷ w.pending })
    fail_to_publish :
        (before after : List Uuid) (id : Uuid)
        → w.owed ≡ before ++ id ∷ after
        → Step w (id ∷ []) (record w { owed = before ++ after })
    -- The redispatch endpoint, or the broker after its visibility timeout: one message more.
    duplicate : (id : Uuid) → Step w [] (record w { pending = id ∷ w.pending })
    receive :
        (before after : List Uuid) (id : Uuid)
        → w.pending ≡ before ++ id ∷ after
        → Step w [] (record w {
          pending = before ++ after;
          held = record { task_id = id; phase = received } ∷ w.held;
        })
    claim :
        (before after : List Held) (id : Uuid) (settings : Settings) (now : Time)
        (attempt_id : Uuid) (worker : Text)
        → w.held ≡ before ++ record { task_id = id; phase = received } ∷ after
        → (claim_task settings now attempt_id id worker w.db).0 ≢ raise database_error
        → Step w [] (record w {
          db = (claim_task settings now attempt_id id worker w.db).1;
          held =
              before
              ++ record {
                task_id = id;
                phase = after_claim (claim_task settings now attempt_id id worker w.db).0;
              }
                ∷ after;
        })
    fail_to_claim :
        (before after : List Held) (id : Uuid)
        → w.held ≡ before ++ record { task_id = id; phase = received } ∷ after
        → Step w
            (id ∷ [])
            (record w { held = before ++ record { task_id = id; phase = finished } ∷ after })
    -- The job returns.
    complete :
        (before after : List Held) (id : Uuid) (claimed : Claimed) (now : Time)
        → w.held ≡ before ++ record { task_id = id; phase = working claimed } ∷ after
        → execute_job claimed.task_type claimed.payload ≡ none
        → Step w [] (record w {
          db = (complete_task now id claimed.attempt_id w.db).1;
          held = before ++ record { task_id = id; phase = finished } ∷ after;
        })
    -- The job raises, and the SELECT of the failure finds the task RUNNING.
    select_failure :
        (before after : List Held) (id : Uuid) (claimed : Claimed) (exc : JobError) (row : Task)
        → w.held ≡ before ++ record { task_id = id; phase = working claimed } ∷ after
        → execute_job claimed.task_type claimed.payload ≡ some exc
        → database.task id w.db ≡ some row
        → has_status running row ≡ true
        → Step w [] (record w {
          held =
              before
              ++ record {
                task_id = id;
                phase = failing claimed.attempt_id exc row.retry_count row.max_retries;
              }
                ∷ after;
        })
    fail :
        (before after : List Held) (id attempt_id : Uuid) (now : Time) (exc : JobError)
        (retry_count max_retries : ℕ)
        → w.held
          ≡ before
            ++ record { task_id = id; phase = failing attempt_id exc retry_count max_retries }
              ∷ after
        → Step w [] (record w {
          db =
              (record_failure now id attempt_id
                (safe_error_message exc)
                (is_retryable exc)
                retry_count
                max_retries
                w.db).1;
          held =
              before
              ++ record {
                task_id = id;
                phase =
                    after_failure
                      (record_failure now id attempt_id
                        (safe_error_message exc)
                        (is_retryable exc)
                        retry_count
                        max_retries
                        w.db).0;
              }
                ∷ after;
        })
    -- The job raises, and the SELECT of the failure finds that the task has left RUNNING, and raises.
    give_up :
        (before after : List Held) (id : Uuid) (claimed : Claimed) (exc : JobError)
        → w.held ≡ before ++ record { task_id = id; phase = working claimed } ∷ after
        → execute_job claimed.task_type claimed.payload ≡ some exc
        → ((row : Task) → database.task id w.db ≡ some row → has_status running row ≡ false)
        → Step w []
            (record w { held = before ++ record { task_id = id; phase = finished } ∷ after })
    retry :
        (before after : List Held) (id : Uuid)
        → w.held ≡ before ++ record { task_id = id; phase = retrying } ∷ after
        → Step w [] (record w {
          pending = id ∷ w.pending;
          held = before ++ record { task_id = id; phase = finished } ∷ after;
        })
    fail_to_retry :
        (before after : List Held) (id : Uuid)
        → w.held ≡ before ++ record { task_id = id; phase = retrying } ∷ after
        → Step w
            (id ∷ [])
            (record w { held = before ++ record { task_id = id; phase = finished } ∷ after })
    acknowledge :
        (before after : List Held) (id : Uuid)
        → w.held ≡ before ++ record { task_id = id; phase = finished } ∷ after
        → Step w [] (record w { held = before ++ after })
    -- A worker is killed, whatever it was doing.
    die :
        (before after : List Held) (h : Held)
        → w.held ≡ before ++ h ∷ after
        → Step w [] (record w { held = before ++ after; pending = give_back h.task_id w.pending })

  -- The states that steps lead to, with the tasks that were left without a message on the way.
  pub data Run : List Uuid → World → Type 0 where
    start : Run [] new_world
    next :
        {lost dropped : List Uuid} {w u : World}
        → Run lost w
        → Step w dropped u
        → Run (dropped ++ lost) u
