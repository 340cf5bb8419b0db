-- ===== src/Settings.antt =====
-- app/core/config.py: the settings and their defaults. Reading the environment is the library's.
use task_mesh.Base.{ℕ, Bool, false}
use task_mesh.Text.{Text, codes}

pub record Settings : Type 0 where
  pub app_name : Text
  pub app_version : Text
  pub debug : Bool
  pub database_url : Text
  pub celery_broker_url : Text
  pub task_lease_seconds : ℕ
  pub task_recovery_interval_seconds : ℕ

-- The values of the class body, when the environment gives none.
abbrev pub defaults : Settings
defaults = record {
  app_name = codes "TaskMesh";
  app_version = codes "0.1.0";
  debug = false;
  database_url = codes "sqlite:///./taskmesh.db";
  celery_broker_url = codes "redis://localhost:6379/0";
  task_lease_seconds = 300;
  task_recovery_interval_seconds = 30;
}
