-- ===== src/Config.antt =====
-- scheduler/internal/config/config.go: the settings of the scheduler. The library that reads them
-- from the environment (github.com/kelseyhightower/envconfig) is a parameter. Times are in seconds.
use k8s_sched_demo.Errors.{wrap_result, Result}
use k8s_sched_demo.Base.{true, ◌*◌, Text, codes, Bool, ℕ, false}

pub record Config : Type 0 where
  pub port : ℕ
  pub xds_port : ℕ
  pub mock_mode : Bool
  pub namespace : Text
  pub use_gvisor : Bool
  pub sandbox_image : Text
  pub cleanup_interval_secs : ℕ
  pub cleanup_batch_size : ℕ
  pub sandbox_ttl : ℕ
  pub pool_enabled : Bool
  pub pool_size : ℕ
  pub pool_refresh_interval_secs : ℕ
  pub pool_max_pending : ℕ
  pub pool_sandbox_timeout : ℕ
  pub redis_uri : Text
  pub development_logging : Bool

-- The defaults of the struct's tags.
abbrev pub defaults : Config
defaults = record {
  port = 50051;
  xds_port = 50052;
  mock_mode = false;
  namespace = codes "sandbox";
  use_gvisor = false;
  sandbox_image = codes "mock-sandbox:latest";
  cleanup_interval_secs = 60;
  cleanup_batch_size = 50;
  sandbox_ttl = 15 * 60;
  pool_enabled = true;
  pool_size = 5;
  pool_refresh_interval_secs = 15;
  pool_max_pending = 10;
  pool_sandbox_timeout = 5 * 60;
  redis_uri = codes "redis://localhost:6379/0";
  development_logging = false;
}

-- `process` fills in what the environment sets, over the defaults.
unfoldable pub load_config : (Config → Result Config) → Result Config
load_config process = wrap_result "failed to process environment config" (process defaults)
