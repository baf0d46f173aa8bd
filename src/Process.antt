-- ===== src/Process.antt =====
-- The scheduler as a process: the hooks that its packages register for its start and its stop
-- (module.go of each package under scheduler/internal), and what they do to the goroutines, the
-- contexts and the connections of the process. The library that runs the hooks (go.uber.org/fx) is
-- a parameter.
pub mod App
pub mod Builds
pub mod Starting
pub mod Started
pub mod Stopping
pub mod Servers
use k8s_sched_demo.Xds.Startup.{new, on_start}
use k8s_sched_demo.Config.{Config}
use k8s_sched_demo.Xds.{Service, done, blocked, ControlPlane}
use k8s_sched_demo.Pool.{decimal_loop}
use k8s_sched_demo.Persistence.Store.{RedisStore}
use k8s_sched_demo.Types.Ids.{ProjectId}
use k8s_sched_demo.Kube.Stopping.{new_event_chan}
use k8s_sched_demo.Errors.{Error}
use k8s_sched_demo.Kube.Events.{EventChan, stop_watchers}
use k8s_sched_demo.Base.{
  [], List, ◌++◌, some, not, codes, ◌∷◌, true, none, if◌then◌else◌, false, Text, String, Option,
  Bool, ℕ,
}

-- How a call of a hook ends.
pub data Ran (S : Type 0) : Type 0 where
  returned : Option Error → S → Ran S
  panicked : Ran S
  hangs : S → Ran S

abbrev pub end_of : {S : Type 0} → Ran S → Option S
end_of (returned e s) = some s
end_of panicked = none
end_of (hangs s) = none

-- fx.Hook. One that is left out returns at once.
pub record Hook (S : Type 0) : Type 0 where
  pub on_start : S → Ran S
  pub on_stop : S → Ran S

-- What is started with `go`.
pub data Goroutine : Type 0 where
  watches_pods : Goroutine
  processes_events : Goroutine
  maintains_pool : Goroutine
  serves_api : Text → Goroutine
  cleans_up : ℕ → Goroutine  -- once in so many seconds
  follows_updates : Goroutine
  updates_snapshots : Goroutine
  serves_xds : Text → Goroutine

-- `goroutines` holds the ones that were started, the latest first. A context is cancelled or not.
pub record Process (R C : Type 0) : Type 0 where
  pub redis : R
  pub redis_closed : Bool
  pub event_chan : EventChan
  pub watch_cancelled : Bool
  pub event_processing_running : Bool
  pub events_cancelled : Bool
  pub pool_cancelled : Bool
  pub xds : Service C
  pub grpc_stopped : Bool
  pub goroutines : List Goroutine

-- The process before its start.
unfoldable pub new_process : {R C : Type 0} → R → C → Process R C
new_process redis snapshot_cache = record {
  redis = redis;
  redis_closed = false;
  event_chan = new_event_chan;
  watch_cancelled = false;
  event_processing_running = false;
  events_cancelled = false;
  pool_cancelled = false;
  xds = new snapshot_cache;
  grpc_stopped = false;
  goroutines = [];
}

abbrev pub go : {R C : Type 0} → Goroutine → Process R C → Process R C
go g p = record p { goroutines = g ∷ p.goroutines }

-- fmt.Sprintf of a port behind a host.
abbrev pub address : String → ℕ → Text
address host port = codes host ++ decimal_loop 20 port []

module _ {R C : Type 0} where
  -- `StartWatchers`
  unfoldable pub start_watchers : Process R C → Process R C
  start_watchers p = go watches_pods p

  -- `StopWatchers`
  unfoldable pub stop_pod_watchers : Process R C → Ran (Process R C)
  stop_pod_watchers p = elim (stop_watchers p.event_chan) [
    | none ↦ panicked
    | some chan ↦ returned none (record p { watch_cancelled = true; event_chan = chan })
  ]

  -- `StartEventProcessing`
  unfoldable pub start_event_processing : Process R C → Process R C
  start_event_processing p =
      if p.event_processing_running
      then p
      else go processes_events (record p { event_processing_running = true })

  -- `Close`
  unfoldable pub close : Process R C → Option Error × Process R C
  close p = (none, record p { events_cancelled = true })

  -- `RegisterHooks`
  unfoldable pub register_hooks : Hook (Process R C)
  unfolding start_watchers stop_pod_watchers
  register_hooks = record {
    on_start = λ p. returned none (start_watchers p);
    on_stop = λ p. stop_pod_watchers p;
  }

  -- The hook of `ProvideRedisClient`, which has no OnStart.
  unfoldable pub redis_hook : (R → Option Error × R) → Hook (Process R C)
  redis_hook close_client = record {
    on_start = λ p. returned none p;
    on_stop = λ p.
        let (error, r) = close_client p.redis in
        returned error (record p { redis = r; redis_closed = true });
  }

  -- `StartService` of the scheduler service; what `Close` returns is dropped.
  unfoldable pub start_service : Hook (Process R C)
  unfolding start_event_processing close
  start_service = record {
    on_start = λ p. returned none (start_event_processing p);
    on_stop = λ p. returned none (close p).1;
  }

  -- `Start` of the sandbox pool, up to the goroutine.
  unfoldable pub start_pool : Config → Process R C → Process R C
  start_pool cfg p = if not cfg.pool_enabled then p else go maintains_pool p

  -- `Stop` of the sandbox pool.
  unfoldable pub stop_pool : Process R C → Process R C
  stop_pool p = record p { pool_cancelled = true }

  -- `StartService` of the sandbox pool.
  unfoldable pub start_pool_service : Config → Hook (Process R C)
  unfolding start_pool stop_pool
  start_pool_service cfg = record {
    on_start = λ p. returned none (start_pool cfg p);
    on_stop = λ p. returned none (stop_pool p);
  }

  -- `ProvideServer`; the goroutine serves the project service until the process exits.
  unfoldable pub provide_server : Config → Hook (Process R C)
  provide_server cfg = record {
    on_start = λ p. returned none (go (serves_api (address ":" cfg.port)) p);
    on_stop = λ p. returned none p;
  }

  -- `ProvideManager`: the manager and its cancel function are not kept.
  unfoldable pub provide_cleanup : Config → Hook (Process R C)
  provide_cleanup cfg = record {
    on_start = λ p. returned none (go (cleans_up cfg.cleanup_interval_secs) p);
    on_stop = λ p. returned none p;
  }

  -- `StartServer` of the control plane, up to its wait; a port that cannot be had ends the process.
  unfoldable pub start_server : Config → Process R C → Process R C
  start_server cfg p = go (serves_xds (address "0.0.0.0:" cfg.xds_port)) p

  -- The hook of `New` in the xds package; the error of the first snapshot is logged only, and
  -- `GracefulStop` ends `StartServer`.
  unfoldable pub xds_hook :
      {A S : Type 0}
      → ControlPlane A S C
      → (ProjectId → Text)
      → RedisStore R
      → ℕ
      → Config
      → Hook (Process R C)
  unfolding start_server
  xds_hook plane hostname store version cfg = record {
    on_start = λ p.
        let (loaded, r) = on_start plane hostname store version p.redis p.xds in
        elim loaded [
          | blocked xds ↦ hangs (record p { redis = r; xds = xds })
          | done error xds ↦ returned none (
              start_server cfg
                (go updates_snapshots (go follows_updates (record p { redis = r; xds = xds }))))
        ];
    on_stop = λ p. returned none (record p { grpc_stopped = true });
  }
