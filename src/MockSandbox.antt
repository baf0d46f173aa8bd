-- ===== src/MockSandbox.antt =====
-- mock-sandbox/internal/server/server.go: the program that runs in a sandbox's pod. The router
-- (github.com/gorilla/mux) is a parameter.
use k8s_sched_demo.Pool.{decimal_loop}
use k8s_sched_demo.Types.Ids.{SandboxId}
use k8s_sched_demo.Kube.Spec.{sandbox_container}
use k8s_sched_demo.Base.{
  refl, ◌++◌, false, ◌≡◌, ◌&&◌, [], ◌∷◌, text_eq, All, ℕ, codes, Text, String, List,
}

-- What a handler does to the process once its response is sent.
pub data Fate : Type 0 where
  keeps_running : Fate
  panics_after_ms : ℕ → Fate
  exits_after_ms : ℕ → ℕ → Fate  -- after that time, with that code

-- What a handler writes, and what becomes of the process.
pub record Handled : Type 0 where
  pub status_code : ℕ
  pub body : Text
  pub fate : Fate

abbrev pub health_handler : Handled
health_handler = record { status_code = 200; body = codes "OK"; fate = keeps_running }

abbrev pub ready_handler : Handled
ready_handler = record { status_code = 200; body = codes "Ready"; fate = keeps_running }

abbrev pub crash_handler : Handled
crash_handler = record { status_code = 200; body = codes "Crashing..."; fate = panics_after_ms 100 }

abbrev pub exit_handler : Handled
exit_handler = record {
  status_code = 200;
  body = codes "Exiting gracefully...";
  fate = exits_after_ms 100 0;
}

abbrev pub slow_shutdown_handler : Handled
slow_shutdown_handler = record {
  status_code = 200;
  body = codes "Initiating slow shutdown...";
  fate = exits_after_ms 30000 0;
}

abbrev pub root_handler : Handled
root_handler = record { status_code = 200; body = codes "Sandbox is running"; fate = keeps_running }

-- `router.HandleFunc(path, handler).Methods(method)`
pub record Registered : Type 0 where
  pub path : Text
  pub method : Text
  pub handler : Handled

abbrev get_route : String → Handled → Registered
get_route path handler = record { path = codes path; method = codes "GET"; handler = handler }

unfoldable pub register_routes : List Registered
register_routes =
    get_route "/health" health_handler
    ∷ get_route "/ready" ready_handler
    ∷ get_route "/crash" crash_handler
    ∷ get_route "/exit" exit_handler
    ∷ get_route "/slow-shutdown" slow_shutdown_handler
    ∷ get_route "/" root_handler
    ∷ []

-- What the router answers to a method and a path, by the routes that were registered.
abbrev pub Router : Type 0
Router = List Registered → Text → Text → Handled

pub record Server : Type 0 where
  pub addr : Text
  pub serve : Text → Text → Handled

unfoldable pub new_server : Router → Server
new_server router = record { addr = codes ":8000"; serve = router register_routes }

-- The router takes the first route whose path and method are those of the request.
abbrev pub IsFirstMatch : Router → Type 0
IsFirstMatch router =
    (before after : List Registered) (route : Registered)
    → All
        (λ (other : Registered).
          (text_eq other.path route.path && text_eq other.method route.method) ≡ false)
        before
    → router (before ++ route ∷ after) route.method route.path ≡ route.handler

-- With a router that gives a request to the first route with its path and its method, the mock
-- sandbox answers the GET requests of the liveness and of the startup probe in the pod
-- specification of a sandbox by the health handler and the ready handler, on the port that these
-- probes ask.
pub probes_answered :
    (router : Router) (sandbox_image : Text) (sandbox_id : SandboxId)
    → IsFirstMatch router
    → let container = sandbox_container sandbox_image sandbox_id in
      ((new_server router).serve (codes "GET") container.liveness_probe.path ≡ health_handler)
      × ((new_server router).serve (codes "GET") container.startup_probe.path ≡ ready_handler)
      × ((new_server router).addr ≡ codes ":" ++ decimal_loop 20 container.liveness_probe.port [])
      × ((new_server router).addr ≡ codes ":" ++ decimal_loop 20 container.startup_probe.port [])
unfolding new_server register_routes sandbox_container text_eq decimal_loop
probes_answered router sandbox_image sandbox_id law = (
  law [] _ (get_route "/health" health_handler) tt,
  law (get_route "/health" health_handler ∷ []) _ (get_route "/ready" ready_handler) (refl, tt),
  refl,
  refl,
)
