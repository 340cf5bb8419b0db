-- ===== src/Tests/Migrations.antt =====
-- The migrations on a schema that starts out empty.
use task_mesh.Base.{◌≡◌, refl, [], true, none, some, Option, if◌then◌else◌}
use task_mesh.Text.{Text, codes}
use task_mesh.Settings.{Settings, defaults}
use task_mesh.Migrations.Environment.{at_url, main_option, run_environment, run_environment-url}
use task_mesh.Schema.{Operation, View}
use task_mesh.Schema.Alembic.{Alembic, accepts, effect, run_all}
use task_mesh.Migrations.Models.{task_model, task_indexes, attempt_model, attempt_indexes}
use task_mesh.Migrations.Steps.{IsFree}
use task_mesh.Migrations.Laws.{
  all_upgrades, all_downgrades, Realizes, HasIndexes, downgrade-upgrade, upgrade-Realizes,
}

-- A database that is its schema, and refuses what it need not accept.
abbrev strict : Operation → View → Option View
strict op v = if accepts op v then some (effect op v) else none

abbrev local_alembic : Alembic
local_alembic = record {
  Schema = View;
  view = λ v. v;
  run = strict;
  run-accepted = λ op v h. (effect op v, rw h refl, refl);
}

abbrev empty_schema : View
empty_schema = record { tables = λ name. none; indexes = λ name. none; referrers = λ name. [] }

empty-IsFree : IsFree empty_schema
empty-IsFree = record {
  tasks_unused = (refl, refl);
  attempts_unused = (refl, refl);
  priority_unused = (refl, refl);
  status_unused = (refl, refl);
  task_type_unused = (refl, refl);
  task_id_unused = (refl, refl);
  lease_unused = (refl, refl);
  off_tasks = refl;
  off_attempts = refl;
  to_tasks = refl;
  to_attempts = refl;
  from_tasks = refl;
  from_attempts = refl;
}

downgrade-upgrade_example :
    (up down : View) × (run_all ⦃alembic = local_alembic⦄ all_upgrades empty_schema ≡ some up)
    × (run_all ⦃alembic = local_alembic⦄ all_downgrades up ≡ some down)
    × (down ≡ empty_schema)
downgrade-upgrade_example = downgrade-upgrade ⦃alembic = local_alembic⦄ empty_schema empty-IsFree

upgrade-Realizes_example :
    (up : View) × (run_all ⦃alembic = local_alembic⦄ all_upgrades empty_schema ≡ some up)
    × Realizes up task_model
    × Realizes up attempt_model
    × HasIndexes up task_indexes
    × HasIndexes up attempt_indexes
upgrade-Realizes_example = upgrade-Realizes ⦃alembic = local_alembic⦄ empty_schema empty-IsFree

-- A password with an escaped "@".
abbrev hosted : Settings
hosted = record defaults { database_url = codes "postgresql://u:p%40q@db/tasks" }

abbrev no_references : Text → Option Text
no_references s = none

-- Without the escape the "%" is refused, or read as a reference.
unescaped : main_option no_references hosted.database_url ≡ none
unfolding main_option
unescaped = refl

unescaped_reference : main_option no_references (codes "%(home)s") ≡ none
unfolding main_option
unescaped_reference = refl

run_environment-url_example :
    run_environment no_references hosted true
    ≡ some (at_url true (codes "postgresql://u:p%40q@db/tasks"))
run_environment-url_example = run_environment-url no_references hosted true
