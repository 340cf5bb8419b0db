-- ===== src/Monitoring/Counts.antt =====
-- Counting the rows of each status, by GROUP BY and by a test.
use task_mesh.Base.{
  ℕ, ◌+◌, ◌≡◌, ◌≤◌, refl, sym, ap, ◌∙◌, Bool, true, false, List, [], ◌∷◌, arith, length, keep,
  Bool-cases, inl, inr, if◌then◌else◌,
}
use mathlib.Core.Bool.{true≢false}
use task_mesh.Model.{
  Task, TaskStatus, queued, running, completed, failed, dead_letter, has_status, same_status,
}
use task_mesh.Monitoring.{count_one, count_of, group_by_status}

same_status_refl : (s : TaskStatus) → same_status s s ≡ true
same_status_refl queued = refl
same_status_refl running = refl
same_status_refl completed = refl
same_status_refl failed = refl
same_status_refl dead_letter = refl

same_status→eq : (s u : TaskStatus) → same_status s u ≡ true → s ≡ u
same_status→eq s u h = ground arith

same_status_sym : (s u : TaskStatus) → same_status s u ≡ true → same_status u s ≡ true
same_status_sym s u h = rw (same_status→eq s u h) (same_status_refl u)

same_status_cong : (s u v : TaskStatus) → same_status u v ≡ true → same_status s u ≡ same_status s v
same_status_cong s u v h = ap (same_status s) (same_status→eq u v h)

same_status_apart :
    (s u v : TaskStatus)
    → same_status u v ≡ false
    → same_status s v ≡ true
    → same_status s u ≡ false
same_status_apart s u v apart h =
    let e : v ≡ s = sym (same_status→eq s v h) in
    elim (Bool-cases (same_status s u)) [
      | inr other ↦ other
      | inl same ↦
          absurd (true≢false (sym (same_status_sym s u same) ∙ ap (same_status u) (sym e) ∙ apart))
    ]

one_more :
    (b c : Bool) (n m k : ℕ)
    → (c ≡ true → b ≡ false)
    → k ≡ (if b then m + 1 else m)
    → (if c then n else k) ≡ (if b then (if c then n else m) + 1 else (if c then n else m))
one_more b c n m k apart e = ground arith

count_of-count_one :
    (s u : TaskStatus) (rest : List (TaskStatus × ℕ))
    → count_of s (count_one u rest)
      ≡ (if same_status s u then count_of s rest + 1 else count_of s rest)
count_of-count_one s u [] = refl
count_of-count_one s u ((v, n) ∷ rest) = elim (Bool-cases (same_status u v)) [
  | inl same ↦
      rw (same, same_status_cong s u v same)
        (elim (Bool-cases (same_status s v)) [
          | inl here ↦ rw here refl
          | inr there ↦ rw there refl
        ])
  | inr apart ↦ rw apart (
      one_more (same_status s u) (same_status s v) n (count_of s rest)
        (count_of s (count_one u rest)) (same_status_apart s u v apart)
        (count_of-count_one s u rest))
]

-- Grouping, then looking up a status, counts the rows of that status.
pub count_of-group_by_status :
    (s : TaskStatus) (ts : List Task)
    → count_of s (group_by_status ts) ≡ length (keep (has_status s) ts)
unfolding group_by_status
count_of-group_by_status s [] = refl
count_of-group_by_status s (t ∷ ts) =
    ground
      (arith, count_of-group_by_status s ts, count_of-count_one s t.status (group_by_status ts))

-- Every row has one of the five statuses.
pub statuses_total :
    (ts : List Task)
    → length (keep (has_status queued) ts)
        + length (keep (has_status running) ts)
        + length (keep (has_status completed) ts)
        + length (keep (has_status failed) ts)
        + length (keep (has_status dead_letter) ts)
      ≡ length ts
statuses_total [] = omega arith
statuses_total (t ∷ ts) = ground (arith, statuses_total ts)

pub length-keep_imp :
    (p q : Task → Bool) (ts : List Task)
    → ((t : Task) → p t ≡ true → q t ≡ true)
    → length (keep p ts) ≤ length (keep q ts)
length-keep_imp p q [] h = omega arith
length-keep_imp p q (t ∷ ts) h = ground (arith, length-keep_imp p q ts h, h t)
