-- ===== src/Xds/Deadlock.antt =====
-- `AddOrUpdateRoute` and `RemoveRoute` hold the mutex while they ask for it again
-- (scheduler/internal/xds/server.go).
use k8s_sched_demo.Types.Ids.{SandboxId, ProjectId}
use k8s_sched_demo.Base.{refl, insert, true, arith, delete, false, Bool, ℕ, Text, ◌≡◌}
use k8s_sched_demo.Xds.{
  blocked, update_snapshot, with_lock, remove_route, add_or_update_route,
  handle_project_sandbox_update, ControlPlane, Service,
}

module _ {A S C : Type 0} (plane : ControlPlane A S C) (hostname : ProjectId → Text) where
  -- On a mutex that nobody holds, an update or a removal of a project never returns and keeps the
  -- mutex, so that every later update and every run of the background updater waits as well, and
  -- the snapshot that Envoy is given stays what it was.
  pub update_blocks :
      (version later : ℕ) (p q : ProjectId) (x y : SandboxId) (removal removal' : Bool)
      (s : Service C)
      → s.mu ≡ record { writer = false; readers = 0 }
      → (s' : Service C) × (handle_project_sandbox_update plane hostname version p x removal s
          ≡ blocked s')
        × (s'.snapshot_cache ≡ s.snapshot_cache)
        × (update_snapshot plane hostname later s' ≡ blocked s')
        × (handle_project_sandbox_update plane hostname later q y removal' s' ≡ blocked s')
  unfolding handle_project_sandbox_update add_or_update_route remove_route with_lock update_snapshot
  update_blocks version later p q x y true removal' s free =
      (stuck, ground arith, refl, refl, waits removal')
    where
      stuck : Service C
      stuck = record s { mu = record { writer = true; readers = 0 }; routes = delete p s.routes }

      waits :
          (b : Bool)
          → handle_project_sandbox_update plane hostname later q y b stuck ≡ blocked stuck
      waits true = refl
      waits false = refl
  update_blocks version later p q x y false removal' s free =
      (stuck, ground arith, refl, refl, waits removal')
    where
      stuck : Service C
      stuck = record s { mu = record { writer = true; readers = 0 }; routes = insert p x s.routes }

      waits :
          (b : Bool)
          → handle_project_sandbox_update plane hostname later q y b stuck ≡ blocked stuck
      waits true = refl
      waits false = refl
