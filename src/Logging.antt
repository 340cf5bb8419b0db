-- ===== src/Logging.antt =====
-- app/core/logging.py: the logger of the application, which app/main.py and app/workers/celery_app.py
-- both configure.
use task_mesh.Base.{
  ℕ, ◌≡◌, refl, Bool, true, false, Bool-cases, inl, inr, List, [], ◌∷◌, ◌++◌, if◌then◌else◌,
}
use task_mesh.Text.{Text, codes}

-- The logger "taskmesh": a handler is its format.
pub record Logger : Type 0 where
  pub level : ℕ
  pub handlers : List Text
  pub propagate : Bool

-- The logger, and the module's `_configured`.
pub record Logging : Type 0 where
  pub app_logger : Logger
  pub configured : Bool

abbrev pub log_format : Text
log_format = codes "%(asctime)s %(levelname)-8s %(name)s: %(message)s"

unfoldable pub configure_logging : ℕ → Logging → Logging
configure_logging level s = if s.configured then s else record {
  app_logger = record {
    level = level;
    handlers = s.app_logger.handlers ++ log_format ∷ [];
    propagate = false;
  };
  configured = true;
}

-- However often it is called, and with whatever level, the logger stays as the first call left it: no
-- message is written twice.
pub configure_logging-configure_logging :
    (level again : ℕ) (s : Logging)
    → configure_logging again (configure_logging level s) ≡ configure_logging level s
unfolding configure_logging
configure_logging-configure_logging level again s = elim (Bool-cases s.configured) [
  | inl done ↦ rw done refl
  | inr first ↦ rw first refl
]
