-- ===== src/Process/Starting.antt =====
-- What the start of the scheduler starts (scheduler/cmd/server/main.go and the OnStart hooks of the
-- packages under scheduler/internal).
use k8s_sched_demo.Process.Builds.{same_call-eq}
use k8s_sched_demo.Xds.Startup.{on_start-done, on_start}
use k8s_sched_demo.Errors.{Error}
use k8s_sched_demo.Persistence.Store.{RedisStore}
use k8s_sched_demo.Types.Ids.{ProjectId}
use k8s_sched_demo.Base.{
  subst, Bool-cases, ◌∙◌, none, refl, arith, inl, inr, true, false, ◌||◌, ◌++◌, ◌+◌, Option,
  if◌then◌else◌, [], ◌∷◌, Text, ◌≡◌, List, Bool, ℕ,
}
use k8s_sched_demo.Process.{
  go, start_pool, start_event_processing, start_watchers, xds_hook, provide_cleanup, provide_server,
  start_pool_service, start_service, returned, redis_hook, register_hooks, updates_snapshots, Hook,
  serves_xds, follows_updates, cleans_up, address, serves_api, maintains_pool, processes_events,
  watches_pods, Process, Goroutine,
}
use k8s_sched_demo.Process.App.{
  provides_redis_client, has, AreOnce, provides_xds, invokes_manager, invokes_server, invokes_pool,
  invokes_scheduler, same_call, new_app, invokes_hooks, hooks_of, IsOrderly, Fx, Call,
}
use k8s_sched_demo.Xds.{ControlPlane}
use k8s_sched_demo.Config.{Config}

-- How many goroutines of a list pass a test.
abbrev pub tally : (Goroutine → Bool) → List Goroutine → ℕ
tally f [] = 0
tally f (g ∷ gs) = (if f g then 1 else 0) + tally f gs

-- The parts of the process that a start leaves as they are.
pub record Kept {R C : Type 0} (p p' : Process R C) : Type 0 where
  pub redis_closed : p'.redis_closed ≡ p.redis_closed
  pub event_chan : p'.event_chan ≡ p.event_chan
  pub watch_cancelled : p'.watch_cancelled ≡ p.watch_cancelled
  pub events_cancelled : p'.events_cancelled ≡ p.events_cancelled
  pub pool_cancelled : p'.pool_cancelled ≡ p.pool_cancelled
  pub grpc_stopped : p'.grpc_stopped ≡ p.grpc_stopped
  pub mu : p'.xds.mu ≡ p.xds.mu

-- The goroutines of a scheduler that runs.
abbrev pub running : Config → List Goroutine
running cfg =
    watches_pods
    ∷ processes_events
    ∷ serves_api (address ":" cfg.port)
    ∷ cleans_up cfg.cleanup_interval_secs
    ∷ follows_updates
    ∷ updates_snapshots
    ∷ serves_xds (address "0.0.0.0:" cfg.xds_port)
    ∷ (if cfg.pool_enabled then maintains_pool ∷ [] else [])

-- Those that the hooks of a call start.
unfoldable pub begins : Config → Call → List Goroutine
begins cfg invokes_hooks = watches_pods ∷ []
begins cfg invokes_scheduler = processes_events ∷ []
begins cfg invokes_pool = if cfg.pool_enabled then maintains_pool ∷ [] else []
begins cfg invokes_server = serves_api (address ":" cfg.port) ∷ []
begins cfg invokes_manager = cleans_up cfg.cleanup_interval_secs ∷ []
begins cfg provides_xds =
    serves_xds (address "0.0.0.0:" cfg.xds_port) ∷ updates_snapshots ∷ follows_updates ∷ []
begins cfg other = []

-- How many goroutines that pass a test some calls start.
unfoldable pub weight : Config → (Goroutine → Bool) → List Call → ℕ
weight cfg f [] = 0
weight cfg f (c ∷ cs) = tally f (begins cfg c) + weight cfg f cs

module _ {R C A S : Type 0} (plane : ControlPlane A S C) (hostname : ProjectId → Text)
    (store : RedisStore R) (close_client : R → Option Error × R) (version : ℕ) (cfg : Config)
    (fx : Fx (Process R C)) (orderly : IsOrderly fx) where
  abbrev hooks : Call → List (Hook (Process R C))
  hooks = hooks_of plane hostname store close_client version cfg

  abbrev app : List Call → List (Hook (Process R C))
  app = new_app plane hostname store close_client version cfg

  -- The start of the hooks of one call, and what is left of the lifecycle after it.
  abbrev Begun : Call → Process R C → Process R C → Type 0
  Begun c p p₁ =
      ((hs : List (Hook (Process R C))) → fx.start (hooks c ++ hs) p ≡ fx.start hs p₁)
      × ((f : Goroutine → Bool)
          → tally f p₁.goroutines ≡ tally f (begins cfg c) + tally f p.goroutines)
      × Kept p p₁
      × (p₁.event_processing_running
          ≡ (p.event_processing_running || same_call c invokes_scheduler))

  start_one :
      (c : Call) (p : Process R C)
      → (same_call c invokes_scheduler ≡ true → p.event_processing_running ≡ false)
      → p.xds.mu.writer ≡ false
      → p.xds.mu.readers ≡ 0
      → (p₁ : Process R C) × Begun c p p₁
  unfolding hooks_of begins same_call register_hooks redis_hook start_service start_pool_service
      provide_server provide_cleanup xds_hook start_watchers start_event_processing start_pool
  start_one invokes_hooks p fresh free alone = (
    start_watchers p,
    (
      (λ hs. orderly.start_first register_hooks hs p (start_watchers p) refl),
      (λ f. ground arith),
      ground arith,
      ground arith,
    ),
  )
  start_one invokes_scheduler p fresh free alone =
      let p₁ : Process R C = go processes_events (record p { event_processing_running = true }) in
      (
        p₁,
        (
          (λ hs. orderly.start_first start_service hs p p₁ (rw (fresh refl) refl)),
          (λ f. ground arith),
          ground arith,
          ground arith,
        ),
      )
  start_one invokes_pool p fresh free alone = (
    start_pool cfg p,
    (
      (λ hs. orderly.start_first (start_pool_service cfg) hs p (start_pool cfg p) refl),
      (λ f. ground arith),
      ground arith,
      ground arith,
    ),
  )
  start_one invokes_server p fresh free alone =
      let p₁ : Process R C = go (serves_api (address ":" cfg.port)) p in
      (
        p₁,
        (
          (λ hs. orderly.start_first (provide_server cfg) hs p p₁ refl),
          (λ f. ground arith),
          ground arith,
          ground arith,
        ),
      )
  start_one invokes_manager p fresh free alone =
      let p₁ : Process R C = go (cleans_up cfg.cleanup_interval_secs) p in
      (
        p₁,
        (
          (λ hs. orderly.start_first (provide_cleanup cfg) hs p p₁ refl),
          (λ f. ground arith),
          ground arith,
          ground arith,
        ),
      )
  start_one provides_xds p fresh free alone =
      let (error, svc, loaded, mu) =
        on_start-done plane hostname store version p.redis p.xds free alone in
      let r = (on_start plane hostname store version p.redis p.xds).1 in
      let p₁ : Process R C =
        go (serves_xds (address "0.0.0.0:" cfg.xds_port))
          (go updates_snapshots (go follows_updates (record p { redis = r; xds = svc }))) in
      (
        p₁,
        (
          (λ hs.
              orderly.start_first (xds_hook plane hostname store version cfg) hs p p₁
                (rw (loaded, xds_hook) refl)),
          (λ f. ground arith),
          ground (arith, mu),
          ground arith,
        ),
      )
  start_one provides_redis_client p fresh free alone = (
    p,
    (
      (λ hs. orderly.start_first (redis_hook close_client) hs p p refl),
      (λ f. ground arith),
      ground arith,
      ground arith,
    ),
  )
  start_one other p fresh free alone =
      (p, ((λ hs. refl), (λ f. ground arith), ground arith, ground arith))

  -- The event loop is not started twice.
  started_later :
      (c : Call) (cs : List Call) (p p₁ : Process R C)
      → has c cs ≡ false
      → (has invokes_scheduler (c ∷ cs) ≡ true → p.event_processing_running ≡ false)
      → p₁.event_processing_running ≡ (p.event_processing_running || same_call c invokes_scheduler)
      → has invokes_scheduler cs ≡ true
      → p₁.event_processing_running ≡ false
  started_later c cs p p₁ here fresh started later =
      elim (Bool-cases (same_call c invokes_scheduler)) [
        | inl same ↦
            let gone : has invokes_scheduler cs ≡ false =
              subst (λ d. has d cs ≡ false) (same_call-eq c invokes_scheduler same) here in
            cc
        | inr other ↦
            let idle = fresh (ground (arith, later)) in ground (arith, started, idle, other)
      ]

  pub start_all :
      (cs : List Call) (p : Process R C)
      → AreOnce cs
      → (has invokes_scheduler cs ≡ true → p.event_processing_running ≡ false)
      → p.xds.mu.writer ≡ false
      → p.xds.mu.readers ≡ 0
      → (p' : Process R C) × (fx.start (app cs) p ≡ returned none p')
        × ((f : Goroutine → Bool) → tally f p'.goroutines ≡ weight cfg f cs + tally f p.goroutines)
        × Kept p p'
  unfolding new_app weight
  start_all [] p once fresh free alone = (p, orderly.start_none p, (λ f. omega arith), ground arith)
  start_all (c ∷ cs) p (here, once) fresh free alone =
      let (p₁, begun) = start_one c p (λ same. fresh (ground (arith, same))) free alone in
      let (first, more, kept, started) = begun in
      let (p', rest, more', kept') =
        start_all cs p₁ once (started_later c cs p p₁ here fresh started)
          (ground (arith, kept, free)) (ground (arith, kept, alone)) in
      (
        p',
        first (app cs) ∙ rest,
        (λ f. omega (arith, more f, more' f)),
        ground (arith, kept, kept'),
      )
