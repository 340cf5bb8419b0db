-- ===== src/Database/Order.antt =====
-- `ORDER BY created_at DESC, id DESC` on rows of tasks: what it promises, and a sort that keeps the
-- promise.

use task_mesh.Base.{
  ◌≡◌, refl, ap, Bool-cases, inl, inr, ◌∙◌, Bool, true, false, ◌&&◌, ◌||◌, List, [], ◌∷◌, Option,
  none, some, arith, ◌==◌, ltb, leb, if◌then◌else◌, ==→eq, keep,
}
use task_mesh.Base.Sorting.{insert, sorted, before_all, is_sorted, sorted_in_order}
use task_mesh.Model.{Uuid, Task}
use task_mesh.Database.Rows.{find_task, IsKeyed}

-- The first task is listed no later than the second.
abbrev pub is_newer : Task → Task → Bool
is_newer t u = ltb u.created_at t.created_at || (t.created_at == u.created_at && leb u.id t.id)

abbrev pub newer_than_all : Task → List Task → Bool
newer_than_all t ts = before_all is_newer t ts

abbrev pub newest_first : List Task → Bool
newest_first ts = is_sorted is_newer ts

abbrev pub sort_newest : List Task → List Task
sort_newest ts = sorted is_newer ts

-- A row of a table, if it passes a WHERE clause.
abbrev pub passing : (Task → Bool) → Option Task → Option Task
passing p none = none
passing p (some t) = if p t then some t else none

pub passing-some :
    (p : Task → Bool) (t : Task) (o : Option Task)
    → passing p o ≡ some t
    → (o ≡ some t) × (p t ≡ true)
passing-some p t none h = absurd (cc h)
passing-some p t (some u) h = elim (Bool-cases (p u)) [
  | inl good ↦ ground (arith, good)
  | inr bad ↦ absurd (ground (arith, bad))
]

is_newer_total : (t u : Task) → is_newer t u ≡ false → is_newer u t ≡ true
is_newer_total t u h = ground arith

is_newer_trans : (t u v : Task) → is_newer t u ≡ true → is_newer u v ≡ true → is_newer t v ≡ true
is_newer_trans t u v h k = ground arith

pub newest_first-sort_newest : (ts : List Task) → newest_first (sort_newest ts) ≡ true
newest_first-sort_newest ts = sorted_in_order is_newer is_newer_total is_newer_trans ts

find-insert :
    (j : Uuid) (t : Task) (ts : List Task)
    → find_task t.id ts ≡ none
    → find_task j (insert is_newer t ts) ≡ (if t.id == j then some t else find_task j ts)
unfolding insert
find-insert j t [] h = refl
find-insert j t (u ∷ us) h = ground (arith, find-insert j t us, ==→eq t.id j, ==→eq u.id j)

pub find-keep :
    (j : Uuid) (p : Task → Bool) (ts : List Task)
    → IsKeyed ts
    → find_task j (keep p ts) ≡ passing p (find_task j ts)
find-keep j p [] keyed = refl
find-keep j p (t ∷ ts) keyed = ground (arith, find-keep j p ts keyed.1, keyed.0, ==→eq t.id j)

pub keep-IsKeyed : (p : Task → Bool) (ts : List Task) → IsKeyed ts → IsKeyed (keep p ts)
keep-IsKeyed p [] keyed = tt
keep-IsKeyed p (t ∷ ts) keyed =
    ground (arith, keep-IsKeyed p ts keyed.1, keyed.0, find-keep t.id p ts keyed.1)

pub find-sort_newest :
    (j : Uuid) (ts : List Task) → IsKeyed ts → find_task j (sort_newest ts) ≡ find_task j ts
unfolding sorted
find-sort_newest j [] keyed = refl
find-sort_newest j (t ∷ ts) keyed =
    find-insert j t (sort_newest ts) (find-sort_newest t.id ts keyed.1 ∙ keyed.0)
    ∙ ap (λ o. if t.id == j then some t else o) (find-sort_newest j ts keyed.1)
