-- ===== src/Tests/App.antt =====
-- Requests to the application, by their method and path.
use task_mesh.Base.{◌≡◌, ◌⊎◌, refl, true, List, [], ◌∷◌, ◌++◌, Option, none, some}
use task_mesh.Text.{Text, codes, strip}
use task_mesh.Settings.{defaults}
use task_mesh.Database.Memory.{Memory, memory}
use task_mesh.Dispatcher.{dispatch}
use task_mesh.Dispatcher.Memory.{local_broker, characters, read_character}
use task_mesh.Recovery.Scan.{quiet}
use task_mesh.System.{Reach, here}
use task_mesh.Api.{success}
use task_mesh.Monitoring.{Views}
use task_mesh.App.Routes.{Method, get, post, Endpoint, requeue_task, dashboard, routes}
use task_mesh.App.Matching.{local_router, first_route, match_path, split_path}
use task_mesh.App.{Request, Context, routed, fields_body, handle}
use task_mesh.App.Laws.{ContextReach, handle_cases}
use task_mesh.Tests.Data.{program, dead}

-- All statements see the same state.
abbrev one_view : Memory → Views Memory
one_view db = record { grouping = db; staleness = db; window = db; recency = db; failure = db }

-- One character of a path is a UUID.
abbrev local_context : Context Memory (List (Text × Text))
local_context = record {
  router = local_router;
  settings = defaults;
  strip = strip;
  parse_uuid = read_character;
  dispatcher = dispatch ⦃broker = local_broker⦄ characters;
  now = 1;
  fresh_id = 8;
  inspector = record { ping = none; active = none; reserved = none };
  llen = λ queue. none;
  reachable = true;
  views = one_view;
  others = quiet;
  leaving = λ db. db;
  between = λ db. db;
}

abbrev alone : ContextReach ⦃database = memory⦄ local_context
alone = record {
  others = record { arriving = λ i db. here; between = λ i db. here; leaving = λ i db. here };
  leaving = λ db. here;
  between = λ db. here;
}

abbrev request : Method → Text → Request
request method path = record { method = method; path = path; query = none; body = none }

-- "\u{7}" is the text of the UUID 7.
abbrev requeue_path : Text
requeue_path = codes "/tasks/" ++ 7 ∷ codes "/requeue"

abbrev found : Method → Text → Option (Endpoint × List Text)
found method path = local_router.find_route method path routes

requeue_route : found post requeue_path ≡ some (requeue_task, (7 ∷ []) ∷ [])
unfolding program first_route match_path split_path
requeue_route = refl

wrong_method : found get requeue_path ≡ none
unfolding program first_route match_path split_path
wrong_method = refl

no_task_id : found get (codes "/tasks/") ≡ none
unfolding program first_route match_path split_path
no_task_id = refl

dashboard_route : found get (codes "/dashboard") ≡ some (dashboard, [])
unfolding program first_route match_path split_path
dashboard_route = refl

health :
    handle ⦃database = memory⦄ local_context (request get (codes "/health")) dead []
    ≡ (routed (success 200 (fields_body ((codes "status", codes "healthy") ∷ []))), dead, [])
unfolding program handle first_route match_path split_path
health = refl

handle_cases_example :
    let (answer, db', s') =
      handle ⦃database = memory⦄ local_context (request post requeue_path) dead [] in
    ((db' ≡ dead) × (s' ≡ [])) ⊎ ((post ≡ post) × Reach ⦃database = memory⦄ dead db')
handle_cases_example =
    handle_cases ⦃database = memory⦄ local_context alone (request post requeue_path) dead []
