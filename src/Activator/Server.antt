-- ===== src/Activator/Server.antt =====
-- The HTTP server of the activator and its settings (activator/internal/transport/http.go,
-- config/config.go, `NewActivatorService` of service/activator.go). The library that reads the
-- settings from the environment is a parameter. Times are in ns.
use k8s_sched_demo.Errors.{wrap_result, Result}
use k8s_sched_demo.Base.{[], text_eq, if◌then◌else◌, false, ◌^◌, ◌*◌, Bool, ℕ, codes, Text}
use k8s_sched_demo.Activator.{handle_request, Reply, Incoming, Network, ActivatorService}

-- The settings that the service and its client read.
pub record Config : Type 0 where
  pub server_port : ℕ
  pub scheduler_address : Text
  pub scheduler_timeout : ℕ
  pub logging_development : Bool
  pub http_timeout : ℕ
  pub http_max_retries : ℕ
  pub http_initial_backoff : ℕ
  pub http_max_backoff : ℕ
  pub http_backoff_scale : ℕ → ℕ  -- the product with the factor, a float64

-- The defaults of the structs' tags.
abbrev pub defaults : Config
defaults = record {
  server_port = 8080;
  scheduler_address = codes "localhost:50051";
  scheduler_timeout = 10 * 10 ^ 9;
  logging_development = false;
  http_timeout = 30 * 10 ^ 9;
  http_max_retries = 3;
  http_initial_backoff = 500 * 10 ^ 6;
  http_max_backoff = 5 * 10 ^ 9;
  http_backoff_scale = λ backoff. 2 * backoff;
}

unfoldable pub load_config : (Config → Result Config) → Result Config
load_config process = wrap_result "failed to load configuration" (process defaults)

unfoldable pub new_activator_service : Config → ActivatorService
new_activator_service cfg = record {
  max_retries = cfg.http_max_retries;
  initial_backoff = cfg.http_initial_backoff;
  max_backoff = cfg.http_max_backoff;
  scale = cfg.http_backoff_scale;
}

abbrev pub health_path : Text
health_path = codes "/healthz"

-- The two patterns of the mux, for a path that the mux does not redirect.
unfoldable pub serve : {H : Type 0} → ActivatorService → Network H → Incoming → H → Reply × H
serve svc net r s =
    if text_eq r.path health_path
    then (record { status_code = 200; headers = []; body = [] }, s)
    else handle_request svc net r s
