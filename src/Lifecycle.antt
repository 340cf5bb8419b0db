-- ===== src/Lifecycle.antt =====
-- app/services/task_lifecycle.py, one module for each function.
pub mod Retry
pub mod Claim
pub mod Complete
pub mod Failure
pub mod Process
pub mod Budget
pub mod Drain
