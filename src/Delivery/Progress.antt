-- ===== src/Delivery/Progress.antt =====
-- A QUEUED task whose message is on its way can be claimed from where things stand.
use task_mesh.Base.{
  ◌≡◌, ◌≢◌, refl, ap, ◌∙◌, Bool, Bool-cases, inl, inr, ◌⊎◌, true, false, ◌||◌, List, [], ◌∷◌, ◌++◌,
  none, some, arith, ◌==◌, ==→eq, ==_refl, any,
}
use task_mesh.Text.{Text}
use task_mesh.Model.{Uuid, Time, Task, TaskExecutionAttempt, queued, running, has_status}
use task_mesh.Settings.{Settings}
use task_mesh.Database.{Database}
use task_mesh.Database.Healthy.{IsHealthy}
use task_mesh.Errors.{raise, database_error}
use task_mesh.Database.Rows.{assign}
use task_mesh.Lifecycle.Claim.{Claimed, claim_values, claim_task}
use task_mesh.Lifecycle.Claim.Laws.{
  recorded, claimed_of, claim_task-free, stored, stored-Claims, stored-Healthy,
}
use task_mesh.Workers.Config.{CeleryConfig}
use task_mesh.Delivery.{
  Phase, received, working, failing, after_claim, retrying, finished, Held, World, Step, publish,
  receive, claim, retry,
}
use task_mesh.Delivery.Covered.{is_pending, lists, is_live, is_covered}

-- An item that passes a test stands somewhere.
pub any-find :
    {A : Type 0} (p : A → Bool) (xs : List A)
    → any p xs ≡ true
    → (before : List A) × (a : A) × (after : List A) × (xs ≡ before ++ a ∷ after) × (p a ≡ true)
any-find p [] h = cc
any-find p (x ∷ xs) h = elim (Bool-cases (p x)) [
  | inl good ↦ ([], x, xs, refl, good)
  | inr bad ↦
      let (before, a, after, e, good) = any-find p xs (rw bad at h) in
      (x ∷ before, a, after, ap (λ ys. x ∷ ys) e, good)
]

lists-find :
    (i : Uuid) (xs : List Uuid)
    → lists i xs ≡ true
    → (before after : List Uuid) × (xs ≡ before ++ i ∷ after)
lists-find i xs h =
    let (before, a, after, e, same) = any-find (λ j. j == i) xs h in
    (before, after, e ∙ ap (λ (j : Uuid). before ++ j ∷ after) (==→eq a i same))

owed : {a b c : Bool} → a ≡ false → b ≡ false → (a || b || c) ≡ true → c ≡ true
owed h k e = ground (arith, h, k, e)

live-cases :
    (i : Uuid) (h : Held)
    → is_live i h ≡ true
    → (h.task_id ≡ i) × ((h.phase ≡ received) ⊎ (h.phase ≡ retrying))
live-cases i h live =
    (==→eq h.task_id i (ground (arith, live)), live_phase h.phase (ground (arith, live)))
  where
    live_phase : (p : Phase) → is_pending p ≡ true → (p ≡ received) ⊎ (p ≡ retrying)
    live_phase received h = inl refl
    live_phase retrying h = inr refl
    live_phase (working a) h = cc
    live_phase (failing a exc rc mr) h = cc
    live_phase finished h = cc

module _ ⦃database : Database⦄ (conf : CeleryConfig) where
  -- Steps that leave no task without a message.
  pub data Leads (w : World conf) : World conf → Type 0 where
    stay : Leads w w
    more : {t u : World conf} → Leads w t → Step conf t [] u → Leads w u

  pub Leads-append : {w t u : World conf} → Leads w t → Leads t u → Leads w u
  Leads-append l stay = l
  Leads-append l (more k step) = more (Leads-append l k) step

module _ ⦃database : Database⦄ (conf : CeleryConfig) (settings : Settings) (now : Time)
    (attempt_id : Uuid) (worker : Text) {H : database.Db → Type 0} (healthy : IsHealthy H)
    (i : Uuid) (row : Task) where
  open database use {Db, task, attempt}

  -- What the worker that claims the task is to run.
  abbrev pub claim_of : Claimed
  claim_of = claimed_of settings now attempt_id i worker row

  -- A healthy database in which the task waits, as the steps before the claim leave it.
  record Waits (db : Db) : Type 0 where
    works : H db
    fresh : attempt attempt_id db ≡ none
    found : task i db ≡ some row
    waits : has_status queued row ≡ true

  -- A worker with the message of the task has claimed it, and the database still works.
  pub record Working (u : World conf) : Type 0 where
    pub works : H u.db
    pub claimed_row : Task
    pub found : task i u.db ≡ some claimed_row
    pub runs : has_status running claimed_row ≡ true
    pub claimed_attempt : TaskExecutionAttempt
    pub known : attempt attempt_id u.db ≡ some claimed_attempt
    pub before : List Held
    pub after : List Held
    pub holds : u.held ≡ before ++ record { task_id = i; phase = working claim_of } ∷ after

  abbrev pub Leads-Working : World conf → Type 0
  Leads-Working w = (u : World conf) × Leads conf w u × Working u

  abbrev pub Claimable : World conf → Type 0
  Claimable w =
      (u : World conf) × Leads conf w u
      × ((t : Task) × (task i u.db ≡ some t) × (has_status running t ≡ true))

  -- A worker with the message claims the task.
  from_received :
      (w t : World conf) (before after : List Held)
      → Waits t.db
      → Leads conf w t
      → t.held ≡ before ++ record { task_id = i; phase = received } ∷ after
      → Leads-Working w
  from_received w t before after h l e =
      let final : Db = stored settings now attempt_id i worker t.db in
      let through =
        healthy.commits_all final
          (stored-Healthy settings now attempt_id i worker healthy t.db h.works h.fresh) in
      let r = claim_task-free settings now attempt_id i worker t.db row h.found h.waits in
      let c = stored-Claims settings now attempt_id i worker t.db row h.found h.waits through in
      let fine : (claim_task settings now attempt_id i worker t.db).0 ≢ raise database_error =
        λ bad. cc (rw (r, through) at bad) in
      let phase : after_claim (claim_task settings now attempt_id i worker t.db).0
          ≡ working claim_of =
        rw (r, through) refl in
      (
        _,
        more l (claim before after i settings now attempt_id worker e fine),
        record {
          works =
              rw (r, through)
                (stored-Healthy settings now attempt_id i worker healthy t.db h.works h.fresh);
          claimed_row = assign (claim_values settings now) row;
          found = rw (r, through) (rw (==_refl i) at (c.rows_after i));
          runs = refl;
          claimed_attempt = recorded settings now attempt_id i worker t.db;
          known = rw (r, through) (rw (==_refl attempt_id) at (c.attempt_after attempt_id));
          before = before;
          after = after;
          holds = ap (λ p. before ++ record { task_id = i; phase = p } ∷ after) phase;
        },
      )

  from_pending :
      (w t : World conf) → Waits t.db → Leads conf w t → lists i t.pending ≡ true → Leads-Working w
  from_pending w t h l listed =
      let (before, after, e) = lists-find i t.pending listed in
      from_received w _ [] t.held h (more l (receive before after i e)) refl

  from_retrying :
      (w : World conf) (before after : List Held)
      → Waits w.db
      → w.held ≡ before ++ record { task_id = i; phase = retrying } ∷ after
      → Leads-Working w
  from_retrying w before after h e =
      from_pending w _ h (more stay (retry before after i e)) (ground (arith, ==_refl i))

  from_owed : (w : World conf) → Waits w.db → lists i w.owed ≡ true → Leads-Working w
  from_owed w h listed =
      let (before, after, e) = lists-find i w.owed listed in
      from_pending w _ h (more stay (publish before after i e)) (ground (arith, ==_refl i))

  from_held : (w : World conf) → Waits w.db → any (is_live i) w.held ≡ true → Leads-Working w
  from_held w h listed =
      let (before, a, after, e, live) = any-find (is_live i) w.held listed in
      let (mine, phases) = live-cases i a live in
      elim phases [
        | inl p ↦
            from_received w w before after h stay
              (e ∙ ap (λ b. before ++ b ∷ after) (ground (arith, mine, p)))
        | inr p ↦
            from_retrying w before after h
              (e ∙ ap (λ b. before ++ b ∷ after) (ground (arith, mine, p)))
      ]

  pub covered-Leads-Working :
      (w : World conf)
      → H w.db
      → attempt attempt_id w.db ≡ none
      → task i w.db ≡ some row
      → has_status queued row ≡ true
      → is_covered conf i w ≡ true
      → Leads-Working w
  covered-Leads-Working w works fresh found waits covered =
      let h : Waits w.db = record { works = works; fresh = fresh; found = found; waits = waits } in
      elim (Bool-cases (lists i w.pending)) [
        | inl listed ↦ from_pending w w h stay listed
        | inr absent ↦ elim (Bool-cases (any (is_live i) w.held)) [
          | inl held ↦ from_held w h held
          | inr unheld ↦ from_owed w h (owed absent unheld covered)
        ]
      ]

  -- On a database that works, a QUEUED task whose message is on its way can become RUNNING:
  -- steps lead there on which its message is published, received and claimed, and no task is left
  -- without a message.
  pub covered-Claimable :
      (w : World conf)
      → H w.db
      → attempt attempt_id w.db ≡ none
      → task i w.db ≡ some row
      → has_status queued row ≡ true
      → is_covered conf i w ≡ true
      → Claimable w
  covered-Claimable w works fresh found waits covered =
      let (u, l, done) = covered-Leads-Working w works fresh found waits covered in
      (u, l, (done.claimed_row, done.found, done.runs))
