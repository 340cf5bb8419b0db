-- ===== src/Api/Laws.antt =====
-- What the endpoints answer, and what an answer promises.
use task_mesh.Base.{
  ◌≡◌, ◌⊎◌, inl, inr, refl, ap, Bool-cases, true, false, [], ◌∷◌, ◌++◌, none, some, Option-cases,
  if◌then◌else◌, is_some, ==_refl, arith,
}
use task_mesh.Model.{Uuid, Time, Task, TaskPriority, queued, dead_letter, has_status, same_priority}
use task_mesh.Database.{Database}
use task_mesh.Dispatcher.{Dispatcher, Broker, UuidText, queue_for_priority, dispatch}
use task_mesh.Dispatcher.Laws.{dispatch_delivers}
use task_mesh.Tasks.{TaskCreate, LoadedTask, new_task, get_task}
use task_mesh.Tasks.Laws.{
  Creates, create_task_cases, Requeues, requeue-refused, requeue-dead, stored, stored-Requeues,
}
use task_mesh.Api.{Response, status_code, submit_task, requeue_task, redispatch_task}

module _ ⦃database : Database⦄ {Queues : Type 0} (dispatcher : Dispatcher Queues) where
  open database use {Db, task, commits}

  abbrev pub SubmitCases :
      Uuid → Time → TaskCreate → Db → Queues → Response Task × Db × Queues → Type 0
  SubmitCases id now body db s (r, final, s') =
      ((status_code r ≡ 500) × (final ≡ db) × (s' ≡ s))
      ⊎ Creates (new_task id now body) db final
        × (status_code r ≡ (if (dispatcher id body.priority s).0 then 201 else 503))
        × (s' ≡ (dispatcher id body.priority s).1)

  -- A submission fails with 500 and leaves tables and queues as they were, or the QUEUED row is
  -- committed, one message for it is handed to the dispatcher under its priority, and the answer is 201
  -- or, if the dispatcher raised, 503.
  pub submit_task_cases :
      (id : Uuid) (now : Time) (body : TaskCreate) (db : Db) (s : Queues)
      → SubmitCases id now body db s (submit_task dispatcher id now body db s)
  unfolding submit_task
  submit_task_cases id now body db s = elim (create_task_cases id now body db) [
    | inl failed ↦ inl (rw (failed, submit_task) (refl, ap (λ r. r.1) failed, refl))
    | inr (returned, c) ↦ inr (
        rw (returned, submit_task)
          (elim (Bool-cases (dispatcher id body.priority s).0) [
            | inl sent ↦ (c, rw sent refl, refl)
            | inr lost ↦ (c, rw lost refl, refl)
          ]))
  ]

  abbrev pub RequeueCases :
      Uuid → (Db → Db) → Db → Queues → Response LoadedTask × Db × Queues → Type 0
  RequeueCases task_id between db s (r, final, s') =
      ((row : Task) → task task_id db ≡ some row → has_status dead_letter row ≡ false)
        × (status_code r ≡ (if is_some (task task_id (between db)) then 409 else 404))
        × (final ≡ between db)
        × (s' ≡ s)
      ⊎ ((row : Task) × (task task_id db ≡ some row)
          × (has_status dead_letter row ≡ true)
          × ((status_code r ≡ 500) × (final ≡ db) × (s' ≡ s)
              ⊎ Requeues task_id row db final
                × (status_code r ≡ (if (dispatcher row.id row.priority s).0 then 200 else 503))
                × (s' ≡ (dispatcher row.id row.priority s).1)))

  -- A task that is not in DEAD_LETTER is not requeued: nothing is written or published, and the answer
  -- is 404 or 409, by whether the task is there at the second look. A dead-lettered task whose new state
  -- is read before others change it is either left alone, with 500, or requeued with one message for it
  -- handed to the dispatcher, and 200 or, if the dispatcher raised, 503.
  pub requeue_task_cases :
      (task_id : Uuid) (between : Db → Db) (db : Db) (s : Queues)
      → RequeueCases task_id between db s (requeue_task dispatcher task_id (λ u. u) between db s)
  unfolding requeue_task get_task
  requeue_task_cases task_id between db s = elim (Option-cases (task task_id db)) [
    | inl missing ↦ refused (λ row e. ground (arith, missing))
    | inr (row, found) ↦ elim (Bool-cases (has_status dead_letter row)) [
      | inr alive ↦ refused (λ other e. ground (arith, alive, found))
      | inl dead ↦ inr (
        row,
        found,
        dead,
        elim (Bool-cases (commits (stored task_id (λ u. u) db))) [
          | inr lost ↦
              inl (rw (requeue-dead task_id (λ u. u) db row found dead, lost) (refl, refl, refl))
          | inl through ↦
              let r = stored-Requeues task_id (λ u. u) db row found dead in
              let mine = rw (==_refl task_id) at (r.rows_after task_id) in
              inr (
                rw (requeue-dead task_id (λ u. u) db row found dead, through, get_task, mine)
                  (elim (Bool-cases (dispatcher row.id row.priority s).0) [
                    | inl sent ↦ (r, rw sent refl, refl)
                    | inr failed ↦ (r, rw failed refl, refl)
                  ]))
        ],
      )
    ]
  ]
    where
      refused :
          ((row : Task) → task task_id db ≡ some row → has_status dead_letter row ≡ false)
          → RequeueCases task_id between db s
              (requeue_task dispatcher task_id (λ u. u) between db s)
      refused alive =
          let same = requeue-refused task_id (λ u. u) db alive in
          inl (elim (Option-cases (task task_id (between db))) [
            | inl gone ↦ rw (same, get_task, gone) (alive, refl, refl, refl)
            | inr (row, there) ↦ rw (same, get_task, there) (alive, refl, refl, refl)
          ])

  abbrev pub RedispatchCases : Uuid → Db → Queues → Response LoadedTask × Db × Queues → Type 0
  RedispatchCases task_id db s (r, final, s') =
      (final ≡ db)
      × ((task task_id db ≡ none) × (status_code r ≡ 404) × (s' ≡ s)
          ⊎ ((row : Task) × (task task_id db ≡ some row)
              × ((has_status queued row ≡ false) × (status_code r ≡ 409) × (s' ≡ s)
                  ⊎ (has_status queued row ≡ true)
                    × (status_code r ≡ (if (dispatcher row.id row.priority s).0 then 200 else 503))
                    × (s' ≡ (dispatcher row.id row.priority s).1))))

  -- Redispatching never writes to the tables. It answers 404 for an unknown task and 409 for one that is
  -- not QUEUED, without a message; for a QUEUED task it hands one message to the dispatcher and answers
  -- 200 or, if the dispatcher raised, 503.
  pub redispatch_task_cases :
      (task_id : Uuid) (db : Db) (s : Queues)
      → RedispatchCases task_id db s (redispatch_task dispatcher task_id db s)
  unfolding redispatch_task get_task
  redispatch_task_cases task_id db s = elim (Option-cases (task task_id db)) [
    | inl missing ↦ rw (missing, redispatch_task, get_task) (refl, inl (refl, refl, refl))
    | inr (row, found) ↦
        rw (found, redispatch_task, get_task)
          (elim (Bool-cases (has_status queued row)) [
            | inr other ↦ rw other (refl, inr (row, refl, inl (other, refl, refl)))
            | inl waits ↦ rw waits (elim (Bool-cases (dispatcher row.id row.priority s).0) [
              | inl sent ↦ (refl, inr (row, refl, inr (waits, rw sent refl, refl)))
              | inr lost ↦ (refl, inr (row, refl, inr (waits, rw lost refl, refl)))
            ])
          ])
  ]

module _ ⦃database : Database⦄ ⦃broker : Broker⦄ (uuid_text : UuidText) where
  open database use {Db}
  open broker use {Queues, pending}
  open uuid_text use {print}

  -- A submission that is answered with 201 has committed the new QUEUED row, and has put one message
  -- with its UUID at the end of the queue of its priority, the queues of the others left alone.
  pub submit_task-delivers :
      (id : Uuid) (now : Time) (body : TaskCreate) (q : TaskPriority) (db : Db) (s : Queues)
      → status_code (submit_task (dispatch uuid_text) id now body db s).0 ≡ 201
      → Creates (new_task id now body) db (submit_task (dispatch uuid_text) id now body db s).1
        × (pending (queue_for_priority q) (submit_task (dispatch uuid_text) id now body db s).2 ≡ (
            if same_priority body.priority q
            then pending (queue_for_priority q) s ++ print id ∷ []
            else pending (queue_for_priority q) s))
  submit_task-delivers id now body q db s created =
      elim (submit_task_cases (dispatch uuid_text) id now body db s) [
        | inl (failed, _, _) ↦ absurd (omega (arith, failed, created))
        | inr (c, answer, queues) ↦ elim (Bool-cases (dispatch uuid_text id body.priority s).0) [
          | inl sent ↦ (c, rw queues (dispatch_delivers uuid_text id body.priority q s sent).0)
          | inr lost ↦ absurd (ground (arith, answer, created, lost))
        ]
      ]
