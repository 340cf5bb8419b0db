-- ===== src/Tasks/Listing/Laws.antt =====
-- What the pages of the task table hold.
use task_mesh.Base.{
  ℕ, zero, suc, Bool, Option, none, some, ◌⊎◌, ◌↔◌, inl, inr, ◌+◌, ◌≤◌, ◌≡◌, refl, sym, ap, ◌∙◌,
  true, List, [], ◌∷◌, ◌++◌, map, arith, length, take, drop, length-take, length-keep, take_all,
  take-take-drop, drop-drop,
}
use task_mesh.Text.{same_text}
use task_mesh.Text.Laws.{same_text→eq, same_text_refl}
use task_mesh.Model.{
  Uuid, Task, TaskPriority, high, medium, low, TaskStatus, queued, running, completed, failed,
  dead_letter, same_priority, same_status,
}
use task_mesh.Database.{Database}
use task_mesh.Database.Rows.{find_task}
use task_mesh.Database.Order.{newest_first, newer_than_all, passing, passing-some}
use task_mesh.Tasks.{LoadedTask}
use task_mesh.Tasks.Listing.{Filters, where_equal, matches, load, page_rows, list_tasks}

length-map : {A B : Type 0} (g : A → B) (xs : List A) → length (map g xs) ≡ length xs
length-map g [] = refl
length-map g (x ∷ xs) = omega (arith, length-map g xs)

map-append : {A B : Type 0} (g : A → B) (xs ys : List A) → map g (xs ++ ys) ≡ map g xs ++ map g ys
map-append g [] ys = refl
map-append g (x ∷ xs) ys = ap (λ zs. g x ∷ zs) (map-append g xs ys)

newer_than_all-take :
    (n : ℕ) (t : Task) (ts : List Task)
    → newer_than_all t ts ≡ true
    → newer_than_all t (take n ts) ≡ true
newer_than_all-take zero t ts h = refl
newer_than_all-take (suc n) t [] h = refl
newer_than_all-take (suc n) t (u ∷ us) h = ground (arith, newer_than_all-take n t us)

newest_first-take :
    (n : ℕ) (ts : List Task) → newest_first ts ≡ true → newest_first (take n ts) ≡ true
newest_first-take zero ts h = refl
newest_first-take (suc n) [] h = refl
newest_first-take (suc n) (t ∷ ts) h =
    ground (arith, newest_first-take n ts, newer_than_all-take n t ts)

newest_first-drop :
    (n : ℕ) (ts : List Task) → newest_first ts ≡ true → newest_first (drop n ts) ≡ true
newest_first-drop zero ts h = h
newest_first-drop (suc n) [] h = refl
newest_first-drop (suc n) (t ∷ ts) h = newest_first-drop n ts (ground arith)

-- An optional filter does not speak against a value.
abbrev pub IsWanted : {A : Type 0} → Option A → A → Type 0
IsWanted wanted a = (wanted ≡ none) ⊎ (wanted ≡ some a)

where_equal→IsWanted :
    {A : Type 0} (same : A → A → Bool)
    → ((a b : A) → same a b ≡ true → a ≡ b)
    → (wanted : Option A) (a : A) → where_equal same wanted a ≡ true
    → IsWanted wanted a
where_equal→IsWanted same exact none a h = inl refl
where_equal→IsWanted same exact (some b) a h = inr (ap some (exact b a h))

IsWanted→where_equal :
    {A : Type 0} (same : A → A → Bool)
    → ((a : A) → same a a ≡ true)
    → (wanted : Option A) (a : A) → IsWanted wanted a
    → where_equal same wanted a ≡ true
IsWanted→where_equal same self wanted a (inl e) = rw e refl
IsWanted→where_equal same self wanted a (inr e) = rw e (self a)

same_priority→eq : (p q : TaskPriority) → same_priority p q ≡ true → p ≡ q
same_priority→eq high high h = refl
same_priority→eq medium medium h = refl
same_priority→eq low low h = refl
same_priority→eq _ _ h = cc

same_priority_refl : (p : TaskPriority) → same_priority p p ≡ true
same_priority_refl high = refl
same_priority_refl medium = refl
same_priority_refl low = refl

same_status→eq : (s u : TaskStatus) → same_status s u ≡ true → s ≡ u
same_status→eq queued queued h = refl
same_status→eq running running h = refl
same_status→eq completed completed h = refl
same_status→eq failed failed h = refl
same_status→eq dead_letter dead_letter h = refl
same_status→eq _ _ h = cc

same_status_refl : (s : TaskStatus) → same_status s s ≡ true
same_status_refl queued = refl
same_status_refl running = refl
same_status_refl completed = refl
same_status_refl failed = refl
same_status_refl dead_letter = refl

abbrev Fits : Filters → Task → Type 0
Fits f t =
    IsWanted f.priority t.priority
    × IsWanted f.task_status t.status
    × IsWanted f.task_type t.task_type

matches→IsWanted : (f : Filters) (t : Task) → matches f t ≡ true → Fits f t
matches→IsWanted f t h = (
  where_equal→IsWanted same_priority same_priority→eq f.priority t.priority (ground (arith, h)),
  where_equal→IsWanted same_status same_status→eq f.task_status t.status (ground (arith, h)),
  where_equal→IsWanted same_text same_text→eq f.task_type t.task_type (ground (arith, h)),
)

IsWanted→matches : (f : Filters) (t : Task) → Fits f t → matches f t ≡ true
IsWanted→matches f t (p, s, u) = ground (
  arith,
  IsWanted→where_equal same_priority same_priority_refl f.priority t.priority p,
  IsWanted→where_equal same_status same_status_refl f.task_status t.status s,
  IsWanted→where_equal same_text same_text_refl f.task_type t.task_type u,
)

-- The rows of loaded tasks.
abbrev pub rows_of : List LoadedTask → List Task
rows_of = map (λ l. l.row)

module _ ⦃database : Database⦄ where
  open database use {
    Db, rows, task, attempts, newest, newest-newest_first, find-newest, length-newest, task-rows,
  }

  pub rows_of-load : (db : Db) (ts : List Task) → rows_of (map (load db) ts) ≡ ts
  rows_of-load db [] = refl
  rows_of-load db (t ∷ ts) = ap (λ us. t ∷ us) (rows_of-load db ts)

  joint_page :
      (offset m n : ℕ) (f : Filters) (db : Db)
      → list_tasks offset m f db ++ list_tasks (offset + m) n f db ≡ list_tasks offset (m + n) f db
  unfolding list_tasks page_rows
  joint_page offset m n f db =
      let all : List Task = newest (matches f) db in
      sym (map-append (load db) (take m (drop offset all)) (take n (drop (offset + m) all)))
      ∙ ap (λ ts. map (load db) (take m (drop offset all) ++ take n ts))
          (sym (drop-drop offset m all))
      ∙ ap (map (load db)) (take-take-drop m n (drop offset all))

  -- The newest rows that pass a test, loaded: no more than asked for, and in order.
  pub page-ordered :
      (limit : ℕ) (p : Task → Bool) (db : Db)
      → (length (map (load db) (take limit (newest p db))) ≤ limit)
        × (newest_first (rows_of (map (load db) (take limit (newest p db)))) ≡ true)
  page-ordered limit p db =
      let page : List Task = take limit (newest p db) in
      (
        omega (arith, length-map (load db) page, length-take limit (newest p db)),
        rw (rows_of-load db page)
            (newest_first-take limit (newest p db) (newest-newest_first p db)),
      )

  -- A page has at most `limit` tasks, with the newest first.
  pub list_tasks-ordered :
      (offset limit : ℕ) (f : Filters) (db : Db)
      → (length (list_tasks offset limit f db) ≤ limit)
        × (newest_first (rows_of (list_tasks offset limit f db)) ≡ true)
  unfolding list_tasks page_rows
  list_tasks-ordered offset limit f db =
      let rest : List Task = drop offset (newest (matches f) db) in
      let page : List Task = take limit rest in
      (
        omega (arith, length-map (load db) page, length-take limit rest),
        rw (rows_of-load db page) (
            newest_first-take limit rest (
              newest_first-drop offset (newest (matches f) db)
                (newest-newest_first (matches f) db))),
      )

  -- Two neighbouring pages are one page of their joint length, with the newest first from the first of
  -- one to the last of the other: nothing is skipped between them and nothing is listed twice, as long
  -- as the table does not change.
  pub list_tasks-pages :
      (offset m n : ℕ) (f : Filters) (db : Db)
      → let both = list_tasks offset m f db ++ list_tasks (offset + m) n f db in
        (both ≡ list_tasks offset (m + n) f db) × (newest_first (rows_of both) ≡ true)
  list_tasks-pages offset m n f db =
      let joint = joint_page offset m n f db in
      (joint, rw joint (list_tasks-ordered offset (m + n) f db).1)

  listed :
      (limit : ℕ) (f : Filters) (j : Uuid) (db : Db)
      → length (rows db) ≤ limit
      → find_task j (rows_of (list_tasks 0 limit f db)) ≡ passing (matches f) (task j db)
  unfolding list_tasks page_rows
  listed limit f j db enough =
      let all : List Task = newest (matches f) db in
      let fits : length all ≤ limit =
        omega (arith, length-newest (matches f) db, length-keep (matches f) (rows db)) in
      ap (find_task j) (rows_of-load db (take limit all) ∙ take_all limit all fits)
      ∙ find-newest j (matches f) db
      ∙ ap (passing (matches f)) (sym (task-rows j db))

  -- A first page that is as long as the table lists a task exactly if it is in the table, with the row
  -- that the table has, and each filter that is given is the row's value.
  pub list_tasks_complete :
      (limit : ℕ) (f : Filters) (j : Uuid) (t : Task) (db : Db)
      → length (rows db) ≤ limit
      → (find_task j (rows_of (list_tasks 0 limit f db)) ≡ some t) ↔ (
          (task j db ≡ some t)
          × IsWanted f.priority t.priority
          × IsWanted f.task_status t.status
          × IsWanted f.task_type t.task_type)
  list_tasks_complete limit f j t db enough = (
    (λ shown.
        let (found, good) =
          passing-some (matches f) t (task j db) (sym (listed limit f j db enough) ∙ shown) in
        let (p, s, u) = matches→IsWanted f t good in (found, p, s, u)),
    (λ (found, p, s, u).
        listed limit f j db enough
        ∙ ap (passing (matches f)) found
        ∙ rw (IsWanted→matches f t (p, s, u)) refl),
  )
