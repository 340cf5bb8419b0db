-- ===== src/Tests/Workers.antt =====
-- A delivery, with a broker that takes every retry.
use task_mesh.Base.{ℕ, ◌+◌, ◌≡◌, ◌<◌, ◌⊎◌, arith, [], ◌∷◌, some, ltb, if◌then◌else◌}
use task_mesh.Text.{or_else}
use task_mesh.Settings.{defaults}
use task_mesh.Database.Memory.{memory}
use task_mesh.Dispatcher.Memory.{characters}
use task_mesh.Errors.{Error, ok, raise}
use task_mesh.Execution.{execute_job}
use task_mesh.Lifecycle.Budget.{alone}
use task_mesh.Lifecycle.Retry.{text}
use task_mesh.Lifecycle.Process.{LifecycleOutcome, process_task}
use task_mesh.Workers.{
  Delivery, CeleryRetry, RetryEnd, rescheduled, exhausted, returned, failed, execute_task,
}
use task_mesh.Workers.Laws.{execute_task_cases}
use task_mesh.Tests.Data.{waiting, w1}

abbrev count_retry : Delivery → ℕ → ℕ → ℕ → RetryEnd × ℕ
count_retry d countdown max_retries s =
    if ltb max_retries (d.retries + 1) then (exhausted, s) else (rescheduled, s + 1)

gives_up :
    (d : Delivery) (countdown max_retries s : ℕ)
    → (count_retry d countdown max_retries s).0 ≡ exhausted
    → max_retries < d.retries + 1
gives_up d countdown max_retries s h = ground arith

-- A broker that only counts the messages that are published again.
abbrev counting : CeleryRetry ℕ
counting = record { retry = count_retry; retry-exhausted = gives_up }

abbrev message : Delivery
message = record { task_id = 7 ∷ []; hostname = some w1; retries = 0 }

execute_task_cases_example :
    let (outcome, final) =
      process_task ⦃database = memory⦄ defaults execute_job w1
        (alone 2 3 100)
        characters.parse
        (text (7 ∷ []))
        waiting in
    let (end, db', s') =
      execute_task ⦃database = memory⦄ counting defaults characters.parse
        (alone 2 3 100)
        message
        waiting
        0 in
    (db' ≡ final)
    × (s' ≡ 0)
    × (((done : LifecycleOutcome) × (outcome ≡ ok done) × (end ≡ returned))
        ⊎ ((e : Error) × (outcome ≡ raise e) × (end ≡ failed e)))
unfolding or_else
execute_task_cases_example =
    execute_task_cases ⦃database = memory⦄ counting defaults characters.parse (alone 2 3 100)
      message waiting 0
