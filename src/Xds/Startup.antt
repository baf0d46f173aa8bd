-- ===== src/Xds/Startup.antt =====
-- How the control plane starts (scheduler/internal/xds/server.go, `New`, `loadInitialRoutes`,
-- `backgroundUpdater`), with the mappings that the store holds
-- (scheduler/internal/persistence/redis.go), and where requests go then.
use k8s_sched_demo.Persistence.Store.AllMappings.Unique.{get_all-IsMap}
use k8s_sched_demo.Xds.Snapshot.{connection_manager, HttpConnectionManager, resources}
use k8s_sched_demo.Xds.Routing.{destination-meant_for, destination}
use k8s_sched_demo.Persistence.Redis.{IsServed}
use k8s_sched_demo.Xds.{
  build_snapshot, publish_snapshot, Service, blocked, update_snapshot, load_initial_routes, done,
  add_all, Outcome, ControlPlane,
}
use k8s_sched_demo.Persistence.Store.AllMappings.{
  get_all-lookup, to_option, names, IsPipelined, get_all_project_sandbox_mappings,
}
use k8s_sched_demo.Errors.{wrap_error, err, wrap, Result-cases, ok, is_some, Error}
use k8s_sched_demo.Persistence.Store.{get_project_sandbox, form_all_projects_set_key, RedisStore}
use k8s_sched_demo.Base.{
  inl, inr, ◌∙◌, codes, ◌&&◌, some, insert, lookup-insert, text_eq_iff, refl, arith, ◌∷◌, none,
  if◌then◌else◌, ◌≡◌, lookup, Option, IsMap, ℕ, [], false, Text, List,
}
use k8s_sched_demo.Types.Ids.{SandboxId, ProjectId}

-- `New`: no routes, and a mutex that nobody holds.
unfoldable pub new : {C : Type 0} → C → Service C
new snapshot_cache = record {
  snapshot_cache = snapshot_cache;
  mu = record { writer = false; readers = 0 };
  routes = [];
}

module _ {A S C : Type 0} (plane : ControlPlane A S C) (hostname : ProjectId → Text) where
  -- The first step of `OnStart`; the error is logged only. The subscription, the background updater
  -- and the gRPC server are goroutines that it starts.
  unfoldable pub on_start :
      {R : Type 0} → RedisStore R → ℕ → R → Service C → Outcome (Service C) (Option Error) × R
  on_start store version s svc =
      let (mappings, s') = get_all_project_sandbox_mappings store s in
      (load_initial_routes plane hostname version mappings svc, s')

  -- The loop of `backgroundUpdater` on some ticks, each with the version that it gives; errors are
  -- logged only.
  unfoldable pub background_updater : List ℕ → Service C → Outcome (Service C) (Option Error)
  background_updater [] svc = done none svc
  background_updater (version ∷ versions) svc = elim (update_snapshot plane hostname version svc) [
    | blocked svc' ↦ blocked svc'
    | done error svc' ↦ background_updater versions svc'
  ]

  -- The routes that the store's mappings come to at the start.
  abbrev pub initial_routes : {R : Type 0} → RedisStore R → R → List (ProjectId × SandboxId)
  initial_routes store s = elim (get_all_project_sandbox_mappings store s).0 [
    | err e ↦ []
    | ok mappings ↦ add_all plane hostname mappings []
  ]

  lookup-add_all :
      (p : ProjectId) (ms routes : List (ProjectId × SandboxId))
      → IsMap ms
      → lookup p (add_all plane hostname ms routes)
        ≡ (if is_some (lookup p ms) then lookup p ms else lookup p routes)
  unfolding add_all lookup
  lookup-add_all p [] routes h = refl
  lookup-add_all p ((q, x) ∷ ms) routes (new_key, h) = ground (
    arith,
    text_eq_iff q p,
    lookup-insert q p x routes,
    lookup-add_all p ms (insert q x routes) h,
  )

  pub publish_snapshot-keeps :
      (version : ℕ) (svc : Service C)
      → let svc' = (publish_snapshot plane hostname version svc).1 in
        (svc'.routes ≡ svc.routes) × (svc'.mu ≡ svc.mu)
  unfolding publish_snapshot
  publish_snapshot-keeps version svc = ground arith

  -- With a mutex that nobody holds, the first step of the start returns.
  pub on_start-done :
      {R : Type 0} (store : RedisStore R) (version : ℕ) (s : R) (svc : Service C)
      → svc.mu.writer ≡ false
      → svc.mu.readers ≡ 0
      → (error : Option Error) × (svc' : Service C) × ((on_start store version s svc).0
          ≡ done error svc')
        × (svc'.mu ≡ svc.mu)
  unfolding on_start load_initial_routes update_snapshot
  on_start-done store version s svc free alone =
      elim (Result-cases (get_all_project_sandbox_mappings store s).0) [
        | inr (e, bad) ↦
            (some (wrap "failed to get project-sandbox mappings" e), svc, rw bad refl, refl)
        | inl (m, e) ↦
            let svc₁ : Service C = record svc { routes = add_all plane hostname m svc.routes } in
            let published = publish_snapshot plane hostname version svc₁ in
            (
              published.0,
              published.1,
              ground (arith, e, free, alone),
              (publish_snapshot-keeps version svc₁).1,
            )
      ]

  -- While nobody holds the mutex to write, the background updater never waits, and it leaves the
  -- routes and the mutex as they are.
  pub background_updater-done :
      (versions : List ℕ) (svc : Service C)
      → svc.mu.writer ≡ false
      → (error : Option Error) × (svc' : Service C) × (background_updater versions svc
          ≡ done error svc')
        × (svc'.routes ≡ svc.routes)
        × (svc'.mu ≡ svc.mu)
  unfolding background_updater update_snapshot
  background_updater-done [] svc free = (none, svc, refl, refl, refl)
  background_updater-done (version ∷ versions) svc free =
      let svc₁ = (publish_snapshot plane hostname version svc).1 in
      let (routes, mu) = publish_snapshot-keeps version svc in
      let (error, svc', ran, routes', mu') =
        background_updater-done versions svc₁ (ground (arith, mu, free)) in
      (error, svc', ground (arith, free, ran), routes' ∙ routes, mu' ∙ mu)

  module _ {R : Type 0} (r : RedisStore R) (served : IsServed r.client)
      (pipelined : IsPipelined r.client served) where
    -- The control plane starts on a server that replies to each command and whose set of projects
    -- lists some members. The connection manager for the routes of the mappings is packed in a form
    -- that Envoy can read back, and a snapshot is made of the resources for these routes with the
    -- packed manager in the listener: then that snapshot is set for the node envoy-node. By these
    -- resources the listener sends a request with the header of a project to the hostname of that
    -- project on port 8000, if a member names the project and GetProjectSandbox finds a sandbox for
    -- it, and to the activator on port 80 otherwise; a request with no header goes to the
    -- activator.
    pub on_start-destination :
        (unpack : A → HttpConnectionManager) (strs : List Text) (p : ProjectId) (version : ℕ)
        (s : R) (cache : C) (packed : A) (snapshot : S)
        → (r.client.s_members (form_all_projects_set_key r) s).0 ≡ ok strs
        → plane.pack (connection_manager (initial_routes r s)) ≡ ok packed
        → unpack packed ≡ connection_manager (initial_routes r s)
        → plane.new_snapshot version (resources hostname packed (initial_routes r s)) ≡ ok snapshot
        → let (error, cache') = plane.set_snapshot (codes "envoy-node") snapshot cache in
          ((on_start r version s (new cache)).0
            ≡ done
                (wrap_error "failed to set snapshot" error)
                (record (new cache) { snapshot_cache = cache'; routes = initial_routes r s }))
          × (destination unpack (some p) (resources hostname packed (initial_routes r s))
              ≡ some (
                  if names p strs && is_some (to_option (get_project_sandbox r p s).0)
                  then (hostname p, 8000)
                  else (codes "activator.sandbox.svc", 80)))
          × (destination unpack none (resources hostname packed (initial_routes r s))
              ≡ some (codes "activator.sandbox.svc", 80))
    unfolding on_start new load_initial_routes update_snapshot publish_snapshot build_snapshot
        lookup
    on_start-destination unpack strs p version s cache packed snapshot listed packs unpacks made =
        let (m, got, found) = get_all-lookup r served pipelined strs p s listed in
        let goes = destination-meant_for unpack hostname packed in
        (
          ground (arith, got, packs, made),
          ground (
            arith,
            got,
            goes (some p) (initial_routes r s) unpacks,
            found,
            lookup-add_all p m [] (get_all-IsMap r m s got),
          ),
          goes none (initial_routes r s) unpacks,
        )
