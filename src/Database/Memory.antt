-- ===== src/Database/Memory.antt =====
-- A database in memory that meets the interface: the interface can be met, and the code can be
-- run on it.
pub mod Health
use mathlib.Core.Option
use task_mesh.Base.Sorting.{length-sorted}
use task_mesh.Base.{
  ◌≡◌, refl, ap, Bool, true, false, not, ◌&&◌, List, [], ◌∷◌, map, Option, none, some, arith, ◌==◌,
  if◌then◌else◌, is_some, keep, ◌∙◌,
}
use task_mesh.Text.{Text}
use task_mesh.Model.{Uuid, Time, Task, TaskExecutionAttempt}
use task_mesh.Database.Rows.{
  Values, assign, find_task, find_attempt, update_row, matched, insert_sorted, close_row, IsKeyed,
}
use task_mesh.Database.Order.{
  is_newer, sort_newest, newest_first-sort_newest, find-sort_newest, find-keep, keep-IsKeyed,
}
use task_mesh.Database.{Database}

pub record Memory : Type 0 where
  pub tasks : List Task
  pub keyed : IsKeyed tasks
  pub runs : List TaskExecutionAttempt
  -- No flush has failed.
  pub sound : Bool

unfoldable pub update_rows : Uuid → (Task → Bool) → Values → List Task → List Task
update_rows i p v [] = []
update_rows i p v (t ∷ ts) =
    if t.id == i then (if p t then assign v t else t) ∷ ts else t ∷ update_rows i p v ts

pub find-update_rows :
    (j i : Uuid) (p : Task → Bool) (v : Values) (ts : List Task)
    → find_task j (update_rows i p v ts)
      ≡ (if i == j then update_row p v (find_task j ts) else find_task j ts)
unfolding update_rows
find-update_rows j i p v [] = ground arith
find-update_rows j i p v (t ∷ ts) = ground (arith, find-update_rows j i p v ts)

pub update_rows-IsKeyed :
    (i : Uuid) (p : Task → Bool) (v : Values) (ts : List Task)
    → IsKeyed ts
    → IsKeyed (update_rows i p v ts)
unfolding update_rows
update_rows-IsKeyed i p v [] h = tt
update_rows-IsKeyed i p v (t ∷ ts) h =
    ground (arith, update_rows-IsKeyed i p v ts h.1, find-update_rows t.id i p v ts)

unfoldable pub add_row :
    (t : Task) (db : Memory) (o : Option Task) → find_task t.id db.tasks ≡ o → Memory
add_row t db none e = record db { tasks = t ∷ db.tasks; keyed = (e, db.keyed) }
add_row t db (some old) e = record db { sound = false }

module _ (t : Task) (db : Memory) where
  pub add_row-sound :
      (o : Option Task) (e : find_task t.id db.tasks ≡ o)
      → (add_row t db o e).sound ≡ true
      → o ≡ none
  unfolding add_row
  add_row-sound none e h = refl
  add_row-sound (some old) e h = cc

  pub find-add_row :
      (j : Uuid) (o : Option Task) (e : find_task t.id db.tasks ≡ o)
      → o ≡ none
      → find_task j (add_row t db o e).tasks ≡ (if t.id == j then some t else find_task j db.tasks)
  unfolding add_row
  find-add_row j none e h = refl
  find-add_row j (some old) e h = cc

  pub runs-add_row :
      (o : Option Task) (e : find_task t.id db.tasks ≡ o) → (add_row t db o e).runs ≡ db.runs
  unfolding add_row
  runs-add_row none e = refl
  runs-add_row (some old) e = refl

abbrev pub attempts_of : Uuid → List TaskExecutionAttempt → List TaskExecutionAttempt
attempts_of j [] = []
attempts_of j (a ∷ rest) =
    if a.task_id == j then insert_sorted a (attempts_of j rest) else attempts_of j rest

module _ (k : Uuid) (now : Time) (e : Option Text) where
  map-insert_sorted :
      (a : TaskExecutionAttempt) (rest : List TaskExecutionAttempt)
      → map (close_row k now e) (insert_sorted a rest)
        ≡ insert_sorted (close_row k now e a) (map (close_row k now e) rest)
  map-insert_sorted a [] = refl
  map-insert_sorted a (b ∷ rest) = ground (arith, map-insert_sorted a rest)

  pub attempts_of-map :
      (j : Uuid) (rest : List TaskExecutionAttempt)
      → attempts_of j (map (close_row k now e) rest) ≡ map (close_row k now e) (attempts_of j rest)
  attempts_of-map j [] = refl
  attempts_of-map j (a ∷ rest) =
      ground (arith, attempts_of-map j rest, map-insert_sorted a (attempts_of j rest))

  pub find_attempt-map :
      (i : Uuid) (rest : List TaskExecutionAttempt)
      → find_attempt i (map (close_row k now e) rest)
        ≡ Option.map (close_row k now e) (find_attempt i rest)
  find_attempt-map i [] = refl
  find_attempt-map i (a ∷ rest) = ground (arith, find_attempt-map i rest)

pub fresh_run :
    (a : TaskExecutionAttempt) (db : Memory)
    → (db.sound && not (is_some (find_attempt a.id db.runs))) ≡ true
    → find_attempt a.id db.runs ≡ none
fresh_run a db h = ground arith

abbrev pub memory : Database
memory = record {
  Db = Memory;
  empty = record { tasks = []; keyed = tt; runs = []; sound = true };
  rows = λ db. db.tasks;
  task = λ i db. find_task i db.tasks;
  newest = λ p db. sort_newest (keep p db.tasks);
  attempts = λ i db. attempts_of i db.runs;
  attempt = λ k db. find_attempt k db.runs;
  insert_task = λ t db. add_row t db (find_task t.id db.tasks) refl;
  update_task = λ i p v db. (
    matched p (find_task i db.tasks),
    record db {
      tasks = update_rows i p v db.tasks;
      keyed = update_rows-IsKeyed i p v db.tasks db.keyed;
    },
  );
  insert_attempt = λ a db. record db {
    runs = a ∷ db.runs;
    sound = db.sound && not (is_some (find_attempt a.id db.runs));
  };
  close_attempt = λ k now e db. record db { runs = map (close_row k now e) db.runs };
  commits = λ db. db.sound;
  rows-IsKeyed = λ db. db.keyed;
  task-rows = λ i db. refl;
  newest-newest_first = λ p db. newest_first-sort_newest (keep p db.tasks);
  find-newest = λ j p db.
      find-sort_newest j (keep p db.tasks) (keep-IsKeyed p db.tasks db.keyed)
      ∙ find-keep j p db.tasks db.keyed;
  length-newest = λ p db. length-sorted is_newer (keep p db.tasks);
  task-empty = λ i. refl;
  attempts-empty = λ i. refl;
  insert_task-fresh = λ t db. add_row-sound t db (find_task t.id db.tasks) refl;
  task-insert_task = λ j t db. find-add_row t db j (find_task t.id db.tasks) refl;
  attempts-insert_task =
      λ j t db. ap (attempts_of j) (runs-add_row t db (find_task t.id db.tasks) refl);
  attempt-insert_task =
      λ k t db. ap (find_attempt k) (runs-add_row t db (find_task t.id db.tasks) refl);
  rowcount = λ i p v db. refl;
  task-update_task = λ j i p v db. find-update_rows j i p v db.tasks;
  attempts-update_task = λ j i p v db. refl;
  attempt-update_task = λ k i p v db. refl;
  insert_attempt-fresh = fresh_run;
  task-insert_attempt = λ j a db. refl;
  attempts-insert_attempt = λ j a db. refl;
  attempt-insert_attempt = λ k a db h. refl;
  task-close_attempt = λ j k now e db. refl;
  attempts-close_attempt = λ j k now e db. attempts_of-map k now e j db.runs;
  attempt-close_attempt = λ i k now e db. find_attempt-map k now e i db.runs;
}
