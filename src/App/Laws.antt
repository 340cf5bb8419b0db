-- ===== src/App/Laws.antt =====
-- What a request may do to the database and to the queues.
use task_mesh.Base.{
  ◌≡◌, refl, sym, ap, subst, ◌∙◌, ◌⊎◌, inl, inr, Bool, true, false, Option-cases, List, [], ◌∷◌,
  Option, none, some, arith, Every, Every-remove,
}
use task_mesh.Text.{Text, codes}
use task_mesh.Model.{Uuid, Time, Task}
use task_mesh.Model.Json.{Json}
use task_mesh.Database.{Database}
use task_mesh.Errors.{Outcome, ok, raise}
use task_mesh.Dispatcher.{Dispatcher}
use task_mesh.Tasks.{TaskCreate, LoadedTask, create_task, get_task, requeue_dead_letter_task}
use task_mesh.Recovery.{ReclaimedTask, Others, recover_stale_tasks}
use task_mesh.Api as api
use task_mesh.Api.{Response, answer_requeue, answer_recovery}
use task_mesh.Api.Submission.{post_task, post_task_cases}
use task_mesh.System.{Reach, here, submitted}
use task_mesh.System.Services.{
  Reach-append, Interleaves, OthersReach, requeue_dead_letter_task-Reach, recover_stale_tasks-Reach,
}
use task_mesh.App.Routes.{
  Method, post, Endpoint, submit_task, read_tasks, read_task, requeue_task, redispatch_task,
  monitoring_summary, run_stale_running_recovery, dashboard, read_root, read_health, Route, Router,
  routes,
}
use task_mesh.App.{Body, Request, Context, with_task_id, run_endpoint, handle}

-- The endpoints that may write.
abbrev pub writes : Endpoint → Bool
writes submit_task = true
writes requeue_task = true
writes redispatch_task = true
writes run_stale_running_recovery = true
writes _ = false

-- Every route to such an endpoint is for POST.
abbrev Posts : Route → Type 0
Posts r = writes r.endpoint ≡ true → r.method ≡ post

routes-Posts : Every Posts routes
routes-Posts = ground arith

found-posts :
    (router : Router) (method : Method) (path : Text) (e : Endpoint) (values : List Text)
    → router.find_route method path routes ≡ some (e, values)
    → writes e ≡ true
    → method ≡ post
found-posts router method path e values found w =
    let (before, r, after, there, mine, same) =
      router.find_route-found method path routes e values found in
    let posted = (Every-remove Posts before r after (subst (Every Posts) there routes-Posts)).0 in
    sym mine ∙ posted (ap writes same ∙ w)

module _ ⦃database : Database⦄ {Queues : Type 0} (dispatcher : Dispatcher Queues) where
  open database use {Db}

  submit_task-Reach :
      (id : Uuid) (now : Time) (body : TaskCreate) (db : Db) (s : Queues)
      → Reach db (api.submit_task dispatcher id now body db s).1
  unfolding api.submit_task
  submit_task-Reach id now body db s = go (create_task id now body db) (submitted id now body here)
    where
      go :
          (r : Outcome Task × Db)
          → Reach db r.1
          → Reach db
              (elim r.0 as (λ o. Response Task × Db × Queues) [
                | raise e ↦ (api.server_error e, r.1, s)
                | ok row ↦
                    api.dispatch_or dispatcher row
                      (api.success 201 row)
                      (api.http_exception 503 (
                        api.task_detail
                          (codes "Task was persisted but could not be dispatched")
                          row.id))
                      r.1
                      s
              ]).1
      go (raise e, db') r = r
      go (ok row, db') r = r

  post_task-Reach :
      (strip : Text → Text) (id : Uuid) (now : Time) (json : Json) (db : Db) (s : Queues)
      → Reach db (post_task dispatcher strip id now json db s).1
  post_task-Reach strip id now json db s =
      elim (post_task_cases dispatcher strip id now json db s) [
        | inl (body, _, e) ↦ rw e (submit_task-Reach id now body db s)
        | inr (_, e) ↦ rw e here
      ]

  answer_requeue-Reach :
      (i : Uuid) (between : Db → Db) (s : Queues) (start : Db)
      (r : Outcome (Option LoadedTask) × Db)
      → Interleaves between
      → Reach start r.1
      → Reach start (answer_requeue dispatcher i between s r).1
  answer_requeue-Reach i between s start (raise e, db) moves r = r
  answer_requeue-Reach i between s start (ok none, db) moves r = Reach-append r (moves db)
  answer_requeue-Reach i between s start (ok (some found), db) moves r = r

  answer_recovery-Reach :
      (start : Db) (r : Outcome (List ReclaimedTask) × Db × Queues)
      → Reach start r.1
      → Reach start (answer_recovery dispatcher r).1
  answer_recovery-Reach start (raise e, db, s) r = r
  answer_recovery-Reach start (ok found, db, s) r = r

  redispatch_task-db :
      (i : Uuid) (db : Db) (s : Queues) → (api.redispatch_task dispatcher i db s).1 ≡ db
  unfolding api.redispatch_task
  redispatch_task-db i db s = elim (Option-cases (get_task i db)) [
    | inl missing ↦ rw (missing, api.redispatch_task) refl
    | inr (found, there) ↦ ground (arith, there)
  ]

  requeue_task-Reach :
      (i : Uuid) (leaving between : Db → Db)
      → Interleaves leaving
      → Interleaves between
      → (db : Db) (s : Queues) → Reach db (api.requeue_task dispatcher i leaving between db s).1
  unfolding api.requeue_task
  requeue_task-Reach i leaving between leaves passes db s =
      answer_requeue-Reach i between s db (requeue_dead_letter_task i leaving db) passes
        (requeue_dead_letter_task-Reach i leaving db leaves)

  recovery-Reach :
      (now : Time) (others : Others Db) (moves : OthersReach others) (db : Db) (s : Queues)
      → Reach db (api.run_stale_running_recovery dispatcher now others db s).1
  unfolding api.run_stale_running_recovery
  recovery-Reach now others moves db s =
      answer_recovery-Reach db (recover_stale_tasks now dispatcher others db s)
        (recover_stale_tasks-Reach now dispatcher others moves db s)

-- What other sessions commit during a request is done by the services too.
pub record ContextReach ⦃database : Database⦄ {Queues : Type 0}
    (context : Context database.Db Queues) : Type 0 where
  pub others : OthersReach context.others
  pub leaving : Interleaves context.leaving
  pub between : Interleaves context.between

module _ ⦃database : Database⦄ {Queues : Type 0} (context : Context database.Db Queues)
    (moves : ContextReach context) where
  open database use {Db}

  -- Nothing is written, or this may write and what it does to the database the services do.
  abbrev Effect : Bool → Db → Queues → Db → Queues → Type 0
  Effect may_write db s db' s' = ((db' ≡ db) × (s' ≡ s)) ⊎ ((may_write ≡ true) × Reach db db')

  with_task_id-Effect :
      (values : List Text) (f : Uuid → Response Body × Db × Queues) (invalid : Response Body)
      (may_write : Bool) (db : Db) (s : Queues)
      → ((id : Uuid) → Effect may_write db s (f id).1 (f id).2)
      → let (r, db', s') = with_task_id context values f (invalid, db, s) in
        Effect may_write db s db' s'
  with_task_id-Effect [] f invalid may_write db s h = inl (refl, refl)
  with_task_id-Effect (value ∷ values) f invalid may_write db s h =
      elim (Option-cases (context.parse_uuid value)) [
        | inl bad ↦ rw (bad, with_task_id) (inl (refl, refl))
        | inr (id, good) ↦ rw (good, with_task_id) (h id)
      ]

  run_endpoint-Effect :
      (e : Endpoint) (values : List Text) (request : Request) (db : Db) (s : Queues)
      → let (r, db', s') = run_endpoint context e values request db s in
        Effect (writes e) db s db' s'
  unfolding run_endpoint
  run_endpoint-Effect submit_task values request db s = elim (Option-cases request.body) [
    | inl absent ↦ rw absent (inl (refl, refl))
    | inr (json, there) ↦ rw there (
        inr (
          refl,
          post_task-Reach context.dispatcher context.strip context.fresh_id context.now json db s,
        ))
  ]
  run_endpoint-Effect read_tasks values request db s = elim (Option-cases request.query) [
    | inl absent ↦ rw absent (inl (refl, refl))
    | inr (query, there) ↦ rw there (inl (refl, refl))
  ]
  run_endpoint-Effect read_task values request db s =
      with_task_id-Effect values _ _ false db s (λ id. inl (refl, refl))
  run_endpoint-Effect requeue_task values request db s =
      with_task_id-Effect values _ _ true db s (λ id. inr (
        refl,
        requeue_task-Reach context.dispatcher id context.leaving context.between moves.leaving
            moves.between db s,
      ))
  run_endpoint-Effect redispatch_task values request db s =
      with_task_id-Effect values _ _ true db s
        (λ id. inr (refl, rw (redispatch_task-db context.dispatcher id db s) here))
  run_endpoint-Effect monitoring_summary values request db s = inl (refl, refl)
  run_endpoint-Effect run_stale_running_recovery values request db s =
      inr (refl, recovery-Reach context.dispatcher context.now context.others moves.others db s)
  run_endpoint-Effect dashboard values request db s = inl (refl, refl)
  run_endpoint-Effect read_root values request db s = inl (refl, refl)
  run_endpoint-Effect read_health values request db s = inl (refl, refl)

  -- A request leaves the database and the queues as they are, or it is a POST, and what it does to the
  -- database is a sequence of the services' transactions, those of other sessions during it included.
  pub handle_cases :
      (request : Request) (db : Db) (s : Queues)
      → let (answer, db', s') = handle context request db s in
        ((db' ≡ db) × (s' ≡ s)) ⊎ ((request.method ≡ post) × Reach db db')
  unfolding handle
  handle_cases request db s =
      elim (Option-cases (context.router.find_route request.method request.path routes)) [
        | inl absent ↦ rw (absent, handle) (inl (refl, refl))
        | inr ((e, values), found) ↦
            rw (found, handle)
              (elim (run_endpoint-Effect e values request db s) [
                | inl same ↦ inl same
                | inr (w, r) ↦
                    inr (found-posts context.router request.method request.path e values found w, r)
              ])
      ]
