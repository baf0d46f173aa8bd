-- ===== src/Xds.antt =====
-- scheduler/internal/xds/server.go: the control plane that tells Envoy to send the requests of each
-- project to its own cluster, and all others to the activator.
pub mod Snapshot
pub mod Routing
pub mod Deadlock
pub mod Startup
use k8s_sched_demo.Errors.{wrap_error, wrap_result, ok, wrap, err, Error, Result}
use k8s_sched_demo.Xds.Snapshot.{resources, connection_manager, Resources, HttpConnectionManager}
use k8s_sched_demo.Types.Ids.{SandboxId, ProjectId}
use k8s_sched_demo.Base.{
  [], ◌∷◌, false, true, ltb, codes, ◌||◌, some, insert, if◌then◌else◌, delete, Option, ℕ, Text,
  List, Bool, ◌≡◌,
}

-- sync.RWMutex: whether a writer holds it, and how many readers do.
pub record RwMutex : Type 0 where
  pub writer : Bool
  pub readers : ℕ

-- A call returns, or waits for ever: nothing but the waiting call itself would let it go on.
pub data Outcome {ℓ} (S : Type ℓ) (A : Type ℓ) : Type ℓ where
  done : A → S → Outcome S A
  blocked : S → Outcome S A

-- go-control-plane and protobuf, as the code calls them: `A` stands for packed messages, `S` for
-- snapshots and `C` for the state of the snapshot cache.
pub record ControlPlane (A S C : Type 0) : Type 0 where
  pub pack : HttpConnectionManager → Result A
  pub new_snapshot : ℕ → Resources A → Result S
  pub set_snapshot : Text → S → C → Option Error × C

pub record Service (C : Type 0) : Type 0 where
  pub snapshot_cache : C
  pub mu : RwMutex
  pub routes : List (ProjectId × SandboxId)

module _ {A S C : Type 0} (plane : ControlPlane A S C) (hostname : ProjectId → Text) where
  -- The body of `UpdateSnapshot` between RLock and RUnlock; `version` is time.Now().UnixNano().
  unfoldable pub build_snapshot : ℕ → List (ProjectId × SandboxId) → Result S
  build_snapshot version routes = elim (plane.pack (connection_manager routes)) [
    | err e ↦ err (wrap "failed to marshal HTTP connection manager" e)
    | ok packed ↦
        wrap_result "failed to create snapshot"
          (plane.new_snapshot version (resources hostname packed routes))
  ]

  unfoldable pub publish_snapshot : ℕ → Service C → Option Error × Service C
  publish_snapshot version s = elim (build_snapshot version s.routes) [
    | err e ↦ (some e, s)
    | ok snapshot ↦
        let (error, cache) = plane.set_snapshot (codes "envoy-node") snapshot s.snapshot_cache in
        (wrap_error "failed to set snapshot" error, record s { snapshot_cache = cache })
  ]

  -- RLock waits while a writer holds the mutex. The deferred RUnlock restores what RLock changed.
  unfoldable pub update_snapshot : ℕ → Service C → Outcome (Service C) (Option Error)
  update_snapshot version s =
      if s.mu.writer
      then blocked s
      else let (error, s') = publish_snapshot version s in done error s'

  -- Lock, and what a call does while it holds the mutex; then the deferred Unlock.
  unfoldable pub with_lock :
      (Service C → Outcome (Service C) (Option Error))
      → Service C
      → Outcome (Service C) (Option Error)
  with_lock body s =
      if s.mu.writer || ltb 0 s.mu.readers
      then blocked s
      else elim (body (record s { mu = record { writer = true; readers = 0 } })) [
        | blocked s' ↦ blocked s'
        | done error s' ↦ done error (record s' { mu = record { writer = false; readers = 0 } })
      ]

  unfoldable pub add_or_update_route :
      ℕ → ProjectId → SandboxId → Service C → Outcome (Service C) (Option Error)
  add_or_update_route version project_id sandbox_id =
      with_lock
        λ s. update_snapshot version (record s { routes = insert project_id sandbox_id s.routes })

  unfoldable pub remove_route : ℕ → ProjectId → Service C → Outcome (Service C) (Option Error)
  remove_route version project_id =
      with_lock λ s. update_snapshot version (record s { routes = delete project_id s.routes })

  -- The error is logged only.
  unfoldable pub handle_project_sandbox_update :
      ℕ → ProjectId → SandboxId → Bool → Service C → Outcome (Service C) (Option Error)
  handle_project_sandbox_update version project_id sandbox_id is_removal s =
      if is_removal
      then remove_route version project_id s
      else add_or_update_route version project_id sandbox_id s

  unfoldable pub add_all :
      List (ProjectId × SandboxId) → List (ProjectId × SandboxId) → List (ProjectId × SandboxId)
  add_all [] routes = routes
  add_all ((project_id, sandbox_id) ∷ mappings) routes =
      add_all mappings (insert project_id sandbox_id routes)

  -- The lock is given back before the snapshot is built.
  unfoldable pub load_initial_routes :
      ℕ → Result (List (ProjectId × SandboxId)) → Service C → Outcome (Service C) (Option Error)
  load_initial_routes version (err e) s =
      done (some (wrap "failed to get project-sandbox mappings" e)) s
  load_initial_routes version (ok mappings) s =
      if s.mu.writer || ltb 0 s.mu.readers
      then blocked s
      else update_snapshot version (record s { routes = add_all mappings s.routes })
