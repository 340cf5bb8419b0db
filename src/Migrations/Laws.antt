-- ===== src/Migrations/Laws.antt =====
-- The migrations one behind the other, up and down again, and the schema that they lead to.
use task_mesh.Base.{◌≡◌, refl, ap, ◌∙◌, true, List, [], ◌∷◌, ◌++◌, some}
use mathlib.Core.List.{Perm, perm_middle}
use mathlib.Core.List.Perm
use task_mesh.Text.{same_text}
use task_mesh.Schema.{Table, Index, Operation, View}
use task_mesh.Schema.Laws.{run_all-accepted, accepts_all-append}
use task_mesh.Schema.Alembic.{Alembic, run_all, effects, accepts_all}
use task_mesh.Migrations.Models.{task_model, task_indexes, attempt_model, attempt_indexes}
use task_mesh.Migrations.{create_task_tables, add_task_lease_recovery}
use task_mesh.Migrations.Steps.{
  IsFree, first_up, first_down, first_back, second_up, second_down, second_back,
}

abbrev pub all_upgrades : List Operation
all_upgrades = create_task_tables.upgrade ++ add_task_lease_recovery.upgrade

abbrev pub all_downgrades : List Operation
all_downgrades = add_task_lease_recovery.downgrade ++ create_task_tables.downgrade

module _ (v : View) (free : IsFree v) where
  upgrades_accepted : accepts_all all_upgrades v ≡ true
  upgrades_accepted =
      accepts_all-append create_task_tables.upgrade add_task_lease_recovery.upgrade v
        (first_up v free) (second_up v free)

  downgrades_accepted : accepts_all all_downgrades (effects all_upgrades v) ≡ true
  downgrades_accepted =
      accepts_all-append add_task_lease_recovery.downgrade create_task_tables.downgrade
        (effects all_upgrades v) (second_down v free)
        (ap (accepts_all create_task_tables.downgrade) (second_back v free) ∙ first_down v free)

  downgrades_back : effects all_downgrades (effects all_upgrades v) ≡ v
  downgrades_back =
      ap (effects create_task_tables.downgrade) (second_back v free) ∙ first_back v free

-- The table is there with the columns of the model in their order, and its constraints in any order.
abbrev pub Realizes : View → Table → Type 0
Realizes v model =
    (t : Table) × (v.tables model.name ≡ some t)
    × (t.name ≡ model.name)
    × (t.columns ≡ model.columns)
    × Perm t.constraints model.constraints

abbrev pub HasIndexes : View → List Index → Type 0
HasIndexes v [] = Unit {0}
HasIndexes v (ix ∷ rest) = (v.indexes ix.name ≡ some ix) × HasIndexes v rest

module _ ⦃alembic : Alembic⦄ where
  open alembic use {Schema, view}

  -- From a schema that is free for them, both upgrades succeed, and both downgrades behind them
  -- succeed too and give back a schema with the tables and indexes of the first.
  pub downgrade-upgrade :
      (s : Schema)
      → IsFree (view s)
      → (up down : Schema) × (run_all all_upgrades s ≡ some up)
        × (run_all all_downgrades up ≡ some down)
        × (view down ≡ view s)
  downgrade-upgrade s free =
      let v = view s in
      let (up, r, e) = run_all-accepted all_upgrades s (upgrades_accepted v free) in
      let (down, q, f) = run_all-accepted all_downgrades up (rw e (downgrades_accepted v free)) in
      (up, down, r, q, f ∙ ap (effects all_downgrades) e ∙ downgrades_back v free)

  -- From such a schema the upgrades lead to the tables and indexes that the models declare.
  pub upgrade-Realizes :
      (s : Schema)
      → IsFree (view s)
      → (up : Schema) × (run_all all_upgrades s ≡ some up)
        × Realizes (view up) task_model
        × Realizes (view up) attempt_model
        × HasIndexes (view up) task_indexes
        × HasIndexes (view up) attempt_indexes
  unfolding same_text
  upgrade-Realizes s free =
      let v = view s in
      let (up, r, e) = run_all-accepted all_upgrades s (upgrades_accepted v free) in
      (
        up,
        r,
        rw e (_, refl, refl, refl, Perm.swap _ _ _),
        rw e (_, refl, refl, refl, Perm.cons _ (perm_middle (_ ∷ _ ∷ []) [])),
        rw e (refl, (refl, (refl, (refl, tt)))),
        rw e (refl, tt),
      )
