-- ===== src/App/Routes.antt =====
-- app/main.py and the routers of app/api: which method and path belong to which endpoint, in the order
-- in which the routers are included.
use task_mesh.Base.{◌≡◌, List, [], ◌∷◌, ◌++◌, Option, some}
use task_mesh.Text.{Text, codes}

pub data Method : Type 0 where
  get post other_method : Method

pub data Segment : Type 0 where
  literal : Text → Segment
  -- `{task_id}`: one segment that is not empty.
  param : Segment

pub data Endpoint : Type 0 where
  submit_task read_tasks read_task requeue_task redispatch_task : Endpoint
  monitoring_summary run_stale_running_recovery : Endpoint
  dashboard read_root read_health : Endpoint

pub record Route : Type 0 where
  pub method : Method
  pub path : List Segment
  pub endpoint : Endpoint

abbrev pub route : Method → List Segment → Endpoint → Route
route method path endpoint = record { method = method; path = path; endpoint = endpoint }

-- `APIRouter(prefix=...)`.
abbrev pub with_prefix : Text → List Route → List Route
with_prefix prefix [] = []
with_prefix prefix (r ∷ rest) =
    record r { path = literal prefix ∷ r.path } ∷ with_prefix prefix rest

abbrev pub tasks_router : List Route
tasks_router = with_prefix (codes "tasks") (
    route post [] submit_task
    ∷ route get [] read_tasks
    ∷ route get (param ∷ []) read_task
    ∷ route post (param ∷ literal (codes "requeue") ∷ []) requeue_task
    ∷ route post (param ∷ literal (codes "redispatch") ∷ []) redispatch_task
    ∷ [])

abbrev pub monitoring_router : List Route
monitoring_router =
    with_prefix (codes "monitoring")
      (route get (literal (codes "summary") ∷ []) monitoring_summary ∷ [])

abbrev pub recovery_router : List Route
recovery_router =
    with_prefix (codes "recovery")
      (route post (literal (codes "stale-running") ∷ []) run_stale_running_recovery ∷ [])

abbrev pub dashboard_router : List Route
dashboard_router = route get (literal (codes "dashboard") ∷ []) dashboard ∷ []

-- The routers as they are included, and the two routes of the application itself.
abbrev pub routes : List Route
routes =
    tasks_router
    ++ monitoring_router
    ++ recovery_router
    ++ dashboard_router
    ++ route get (literal [] ∷ []) read_root
      ∷ route get (literal (codes "health") ∷ []) read_health
      ∷ []

-- What FastAPI does with a method and a path: the endpoint of the route that it finds, and the values
-- of the parameters. It goes by the routes that it was given, and by their method.
pub record Router : Type 0 where
  pub find_route : Method → Text → List Route → Option (Endpoint × List Text)
  pub find_route-found :
      (method : Method) (path : Text) (rs : List Route) (e : Endpoint) (values : List Text)
      → find_route method path rs ≡ some (e, values)
      → (before : List Route) × (r : Route) × (after : List Route) × (rs ≡ before ++ r ∷ after)
        × (r.method ≡ method)
        × (r.endpoint ≡ e)
