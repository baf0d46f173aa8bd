-- ===== src/Persistence/Store/Stale.antt =====
-- A project that moves to a new sandbox leaves the old sandbox pointing at it
-- (scheduler/internal/persistence/redis.go, `SetProjectSandbox` then `RemoveSandboxMapping`).
use k8s_sched_demo.Base.{text_eq_sym, ◌≡◌, false, text_eq, text_eq_refl, arith}
use k8s_sched_demo.Errors.{ok, err, not_found}
use k8s_sched_demo.Types.Ids.{SandboxId, ProjectId, IsSandboxId, IsProjectId}
use k8s_sched_demo.Persistence.Redis.{IsServed}
use k8s_sched_demo.Persistence.Store.{
  RedisStore, get_project_sandbox, set_project_sandbox, find_project_for_sandbox,
  remove_sandbox_mapping,
}
use k8s_sched_demo.Persistence.Store.Mapping.{get-set_project_sandbox}
use k8s_sched_demo.Persistence.Store.Removal.{remove_sandbox_mapping_lem}

module _ {R : Type 0} (r : RedisStore R) (served : IsServed r.client) where
  -- A project that is given sandbox x and later another sandbox y, all with IDs that are read back
  -- as they are written, loses y when x is released: its sandbox is y before that call, and
  -- afterwards it is not found.
  pub remove_stale_sandbox :
      (p : ProjectId) (x y : SandboxId) (s : R)
      → IsProjectId p
      → IsSandboxId x
      → IsSandboxId y
      → text_eq x y ≡ false
      → let moved = (set_project_sandbox r p y (set_project_sandbox r p x s).1).1 in
        ((get_project_sandbox r p moved).0 ≡ ok y)
        × ((get_project_sandbox r p (remove_sandbox_mapping r x moved).1).0 ≡ err not_found)
  remove_stale_sandbox p x y s pi xi yi ne = (current, forgotten)
    where
      first : R
      first = (set_project_sandbox r p x s).1

      moved : R
      moved = (set_project_sandbox r p y first).1

      current : (get_project_sandbox r p moved).0 ≡ ok y
      current = ground (arith, get-set_project_sandbox r served p p y x first pi yi, text_eq_refl p)

      -- The reverse mapping of `x` still names the project.
      stale : (find_project_for_sandbox r x moved).0 ≡ ok p
      stale = ground (
        arith,
        get-set_project_sandbox r served p p y x first pi yi,
        get-set_project_sandbox r served p p x x s pi xi,
        text_eq_refl x,
        text_eq_sym x y,
      )

      forgotten : (get_project_sandbox r p (remove_sandbox_mapping r x moved).1).0 ≡ err not_found
      forgotten =
          ground (
            arith,
            remove_sandbox_mapping_lem r served p p x x moved stale,
            text_eq_refl p,
            pi.valid,
          )
