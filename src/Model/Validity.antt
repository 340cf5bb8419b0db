-- ===== src/Model/Validity.antt =====
-- What a row of `tasks` satisfies between transactions: the CHECK constraint on the retry
-- columns, and how the status goes with the time and error columns.
use task_mesh.Base.{◌≤◌, ◌≡◌, is_some, true, ◌||◌}
use task_mesh.Model.{Task, running, completed, failed, dead_letter, has_status}

pub record IsValid (t : Task) : Type 0 where
  pub within : t.retry_count ≤ t.max_retries
  -- A lease is held exactly while the task runs.
  pub leased : is_some t.lease_expires_at ≡ has_status running t
  pub finished : is_some t.completed_at ≡ has_status completed t
  pub started :
      (has_status running t || has_status completed t) ≡ true → is_some t.started_at ≡ true
  -- A task that failed or was dead-lettered tells why.
  pub explained :
      (has_status failed t || has_status dead_letter t) ≡ true → is_some t.last_error ≡ true
