-- ===== src/System/Attempts.antt =====
-- The attempt history of a task: numbered from 1 without gaps, and only ever extended.
use task_mesh.Base.{
  ℕ, ◌+◌, ◌≤◌, ◌≡◌, refl, sym, ◌∙◌, ap, true, Bool-cases, inl, inr, none, some, Option, List, [],
  ◌∷◌, ◌++◌, map, arith, ◌==◌, ==→eq, if◌then◌else◌, length, max,
}
use mathlib.Core.List.{append-nil, append_assoc, map-append}
use task_mesh.Text.{Text}
use task_mesh.Model.{Uuid, Time, TaskExecutionAttempt}
use task_mesh.Database.{Database}
use task_mesh.Database.Rows.{insert_sorted, close_row}
use task_mesh.Lifecycle.Claim.{max_number, next_number}
use task_mesh.Recovery.{open_attempt}
use task_mesh.Recovery.Laws.{close_rows}
use task_mesh.System.Trace.{
  Change, creates, claims, completes, fails, reclaims, requeues, Trace, done, next,
}

-- The attempt numbers are n, n + 1, and so on.
abbrev pub IsNumbered : ℕ → List TaskExecutionAttempt → Type 0
IsNumbered n [] = Unit {0}
IsNumbered n (a ∷ rest) = (a.attempt_number ≡ n) × IsNumbered (n + 1) rest

max_number-IsNumbered :
    (n : ℕ) (l : List TaskExecutionAttempt)
    → IsNumbered (n + 1) l
    → max n (max_number l) ≡ n + length l
max_number-IsNumbered n [] h = omega arith
max_number-IsNumbered n (a ∷ rest) h = omega (arith, max_number-IsNumbered (n + 1) rest h.1)

-- The next number is one more than the number of attempts.
next_number-length : (l : List TaskExecutionAttempt) → IsNumbered 1 l → next_number l ≡ length l + 1
next_number-length l h = omega (arith, max_number-IsNumbered 0 l h)

insert_sorted-last :
    (a : TaskExecutionAttempt) (n : ℕ) (l : List TaskExecutionAttempt)
    → IsNumbered n l
    → n + length l ≤ a.attempt_number
    → insert_sorted a l ≡ l ++ a ∷ []
insert_sorted-last a n [] h le = refl
insert_sorted-last a n (b ∷ l) h le = ground (arith, insert_sorted-last a (n + 1) l h.1)

IsNumbered-append :
    (a : TaskExecutionAttempt) (n : ℕ) (l : List TaskExecutionAttempt)
    → IsNumbered n l
    → a.attempt_number ≡ n + length l
    → IsNumbered n (l ++ a ∷ [])
IsNumbered-append a n [] h e = (omega arith, tt)
IsNumbered-append a n (b ∷ l) h e = (h.0, IsNumbered-append a (n + 1) l h.1 (omega arith))

close_row-IsNumbered :
    (k : Uuid) (now : Time) (e : Option Text) (n : ℕ) (l : List TaskExecutionAttempt)
    → IsNumbered n l
    → IsNumbered n (map (close_row k now e) l)
close_row-IsNumbered k now e n [] h = tt
close_row-IsNumbered k now e n (a ∷ l) h =
    (ground arith, close_row-IsNumbered k now e (n + 1) l h.1)

close_rows-IsNumbered :
    (now : Time) (o : Option TaskExecutionAttempt) (n : ℕ) (l : List TaskExecutionAttempt)
    → IsNumbered n l
    → IsNumbered n (close_rows now o l)
close_rows-IsNumbered now none n l h = h
close_rows-IsNumbered now (some a) n l h = close_row-IsNumbered a.id now _ n l h

-- A claim goes to the end of the history, under the next number.
claim-append :
    (a : TaskExecutionAttempt) (l : List TaskExecutionAttempt)
    → IsNumbered 1 l
    → a.attempt_number ≡ next_number l
    → (insert_sorted a l ≡ l ++ a ∷ []) × (a.attempt_number ≡ 1 + length l)
claim-append a l h e =
    let next = next_number-length l h in (insert_sorted-last a 1 l h (omega arith), omega arith)

abbrev pub ids : List TaskExecutionAttempt → List Uuid
ids = map (λ a. a.id)

close_row-ids :
    (k : Uuid) (now : Time) (e : Option Text) (l : List TaskExecutionAttempt)
    → ids (map (close_row k now e) l) ≡ ids l
close_row-ids k now e [] = refl
close_row-ids k now e (a ∷ l) = ground (arith, close_row-ids k now e l)

close_rows-ids :
    (now : Time) (o : Option TaskExecutionAttempt) (l : List TaskExecutionAttempt)
    → ids (close_rows now o l) ≡ ids l
close_rows-ids now none l = refl
close_rows-ids now (some a) l = close_row-ids a.id now _ l

module _ ⦃database : Database⦄ where
  open database use {Db, attempts, empty, attempts-empty}

  abbrev pub Numbered : Db → Type 0
  Numbered db = (i : Uuid) → IsNumbered 1 (attempts i db)

  pub empty-Numbered : Numbered empty
  empty-Numbered i = rw (attempts-empty i) tt

  -- The attempts of every task are there, in order, at the head of the later history.
  abbrev pub Extends : Db → Db → Type 0
  Extends s u = (i : Uuid) → (rest : List Uuid) × (ids (attempts i u) ≡ ids (attempts i s) ++ rest)

  same-Extends : (s u : Db) → ((i : Uuid) → ids (attempts i u) ≡ ids (attempts i s)) → Extends s u
  same-Extends s u h i = ([], h i ∙ sym (append-nil _))

  abbrev Grows : Db → Db → Type 0
  Grows db final = Numbered db → Numbered final × Extends db final

  claim-Grows :
      (task_id : Uuid) (a : TaskExecutionAttempt) (db final : Db)
      → a.attempt_number ≡ next_number (attempts task_id db)
      → ((j : Uuid)
          → attempts j final
            ≡ (if task_id == j then insert_sorted a (attempts j db) else attempts j db))
      → Grows db final
  claim-Grows task_id a db final e after numbered = (
    λ j. elim (Bool-cases (task_id == j)) [
      | inl same ↦
          rw (after j, same, (mine j same).0)
            (IsNumbered-append a 1 (attempts j db) (numbered j) (mine j same).1)
      | inr other ↦ rw (after j, other) (numbered j)
    ],
    λ j. elim (Bool-cases (task_id == j)) [
      | inl same ↦
          (a.id ∷ [], rw (after j, same, (mine j same).0) (map-append _ (attempts j db) (a ∷ [])))
      | inr other ↦ ([], rw (after j, other) (sym (append-nil _)))
    ],
  )
    where
      mine :
          (j : Uuid)
          → (task_id == j) ≡ true
          → (insert_sorted a (attempts j db) ≡ attempts j db ++ a ∷ [])
            × (a.attempt_number ≡ 1 + length (attempts j db))
      mine j same =
          claim-append a (attempts j db) (numbered j)
            (e ∙ ap (λ i. next_number (attempts i db)) (==→eq task_id j same))

  close-Grows :
      (close : List TaskExecutionAttempt → List TaskExecutionAttempt) (db final : Db)
      → ((l : List TaskExecutionAttempt) → IsNumbered 1 l → IsNumbered 1 (close l))
      → ((l : List TaskExecutionAttempt) → ids (close l) ≡ ids l)
      → ((j : Uuid) → attempts j final ≡ close (attempts j db))
      → Grows db final
  close-Grows close db final keeps same after numbered = (
    λ j. rw (after j) (keeps (attempts j db) (numbered j)),
    same-Extends db final (λ j. rw (after j) (same (attempts j db))),
  )

  Change-Grows : {db final : Db} → Change db final → Grows db final
  Change-Grows (creates id now body c) =
      close-Grows (λ l. l) _ _ (λ l h. h) (λ l. refl) c.attempts_after
  Change-Grows (claims settings now attempt_id i worker row _ _ c) =
      claim-Grows i _ _ _ refl c.attempts_after
  Change-Grows (completes now i attempt_id row _ _ c) =
      close-Grows _ _ _ (close_row-IsNumbered attempt_id now none 1)
        (close_row-ids attempt_id now none) c.attempts_after
  Change-Grows (fails now i attempt_id message retryable count row _ _ _ c) =
      close-Grows _ _ _ (close_row-IsNumbered attempt_id now (some message) 1)
        (close_row-ids attempt_id now (some message)) c.attempts_after
  Change-Grows {db} (reclaims now i count row _ _ _ c) =
      let o : Option TaskExecutionAttempt = open_attempt (attempts i db) in
      close-Grows (close_rows now o) _ _ (close_rows-IsNumbered now o 1) (close_rows-ids now o)
        c.attempts_after
  Change-Grows (requeues i row _ _ c) =
      close-Grows (λ l. l) _ _ (λ l h. h) (λ l. refl) c.attempts_after

  pub Trace-Grows : {s u : Db} → Trace s u → Grows s u
  Trace-Grows {s} done = λ numbered. (numbered, same-Extends s s (λ i. refl))
  Trace-Grows (next r c) = λ numbered.
      let (mid, older) = Trace-Grows r numbered in
      let (final, newer) = Change-Grows c mid in
      (
        final,
        λ i.
            let (xs, e) = older i in
            let (ys, e') = newer i in (xs ++ ys, e' ∙ rw e (append_assoc _ xs ys)),
      )
