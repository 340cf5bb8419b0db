-- ===== src/Session.antt =====
-- app/db/session.py: the engine, and the sessions that every transaction opens on it.
use task_mesh.Base.{Bool, true, false, Option, none, some, if◌then◌else◌}
use task_mesh.Text.{Text, codes, starts_with}
use task_mesh.Settings.{Settings}

pub record Engine : Type 0 where
  pub url : Text
  -- SQLite's own default holds when it is absent.
  pub check_same_thread : Option Bool
  pub pool_pre_ping : Bool

-- `sessionmaker`.
pub record SessionMaker : Type 0 where
  pub bind : Engine
  pub autoflush : Bool
  pub expire_on_commit : Bool

abbrev pub connect_args : Settings → Option Bool
connect_args settings =
    if starts_with (codes "sqlite") settings.database_url then some false else none

abbrev pub engine : Settings → Engine
engine settings = record {
  url = settings.database_url;
  check_same_thread = connect_args settings;
  pool_pre_ping = true;
}

abbrev pub session_local : Settings → SessionMaker
session_local settings = record {
  bind = engine settings;
  autoflush = false;
  expire_on_commit = false;
}
