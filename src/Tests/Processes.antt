-- ===== src/Tests/Processes.antt =====
-- The start and the stop of the scheduler with a lifecycle that runs hooks one after the other.
use k8s_sched_demo.Errors.{Error}
use k8s_sched_demo.Tests.Fakes.{fake_redis}
use k8s_sched_demo.Persistence.Store.{RedisStore}
use k8s_sched_demo.Persistence.Redis.{Db}
use k8s_sched_demo.Base.{codes, Option, [], none, ◌∷◌, ◌++◌, List}
use k8s_sched_demo.Process.{Process, returned, Ran, Hook}
use k8s_sched_demo.Process.App.{
  invokes_xds, provides_xds, invokes_manager, invokes_server, provides_project, invokes_pool,
  provides_pool, provides_pool_store, invokes_scheduler, invokes_hooks, provides_scheduler,
  provides_k8s_client, provides_store, provides_logger, provides_redis_client,
  provides_idempotence_store, provides_config, Fx, Call,
}

module _ {S : Type 0} where
  start_in_turn : List (Hook S) → S → Ran S
  start_in_turn [] s = returned none s
  start_in_turn (h ∷ hs) s = elim (h.on_start s) [
    | returned none s' ↦ start_in_turn hs s'
    | other ↦ other
  ]

  stop_in_turn : List (Hook S) → S → Ran S
  stop_in_turn [] s = returned none s
  stop_in_turn (h ∷ hs) s = elim (stop_in_turn hs s) [
    | returned e s' ↦ h.on_stop s'
    | other ↦ other
  ]

  in_turn : Fx S
  in_turn = record { start = start_in_turn; stop = stop_in_turn }

abbrev before_redis : List Call
before_redis = provides_config ∷ provides_logger ∷ provides_k8s_client ∷ invokes_hooks ∷ []

abbrev after_redis : List Call
after_redis =
    provides_idempotence_store ∷ provides_store ∷ provides_scheduler ∷ invokes_scheduler
    ∷ provides_pool_store ∷ provides_pool ∷ invokes_pool ∷ provides_project ∷ invokes_server
    ∷ invokes_manager ∷ provides_xds ∷ invokes_xds ∷ []

-- Each constructor is called when the first invocation needs it.
abbrev as_needed : List Call
as_needed = before_redis ++ provides_redis_client ∷ after_redis

abbrev closes : Db → Option Error × Db
closes d = (none, d)

abbrev mappings : RedisStore Db
mappings = record { client = fake_redis; key_prefix = codes "sch:" }
