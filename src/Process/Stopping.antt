-- ===== src/Process/Stopping.antt =====
-- The stop of the scheduler (the OnStop hooks of the packages under scheduler/internal), whatever
-- order its functions were called in (scheduler/cmd/server/main.go).
use k8s_sched_demo.Errors.{Error}
use k8s_sched_demo.Persistence.Store.{RedisStore}
use k8s_sched_demo.Types.Ids.{ProjectId}
use k8s_sched_demo.Base.{◌||◌, Option, ◌≡◌, Text, List, ℕ}
use k8s_sched_demo.Process.{Hook, Process}
use k8s_sched_demo.Process.App.{
  invokes_server, invokes_server, provides_xds, new_app, invokes_pool, IsOrderly, invokes_scheduler,
  Fx, provides_redis_client, invokes_hooks, has, Call,
}
use k8s_sched_demo.Xds.{ControlPlane}
use k8s_sched_demo.Config.{Config}

-- What the stop of the hooks of some calls does.
record Stopped {R C : Type 0} (cs : List Call) (p p' : Process R C) : Type 0 where
  goroutines : p'.goroutines ≡ p.goroutines
  watch : p'.watch_cancelled ≡ (has invokes_hooks cs || p.watch_cancelled)
  chan : p'.event_chan.closed ≡ (has invokes_hooks cs || p.event_chan.closed)
  events : p'.events_cancelled ≡ (has invokes_scheduler cs || p.events_cancelled)
  pool : p'.pool_cancelled ≡ (has invokes_pool cs || p.pool_cancelled)
  redis : p'.redis_closed ≡ (has provides_redis_client cs || p.redis_closed)
  grpc : p'.grpc_stopped ≡ (has provides_xds cs || p.grpc_stopped)

module _ {R C A S : Type 0} (plane : ControlPlane A S C) (hostname : ProjectId → Text)
    (store : RedisStore R) (close_client : R → Option Error × R) (version : ℕ) (cfg : Config)
    (fx : Fx (Process R C)) (orderly : IsOrderly fx) where
  abbrev app : List Call → List (Hook (Process R C))
  app = new_app plane hostname store close_client version cfg
