-- ===== src/Project/Repeated.antt =====
-- Two calls of `GetProjectSandbox` in a row (scheduler/internal/project/service.go), on a Redis
-- server that answers.
use k8s_sched_demo.Persistence.Store.Refinement.{released-kept}
use k8s_sched_demo.Persistence.Store.Mapping.{get-set_project_sandbox}
use k8s_sched_demo.Errors.{ok}
use k8s_sched_demo.Persistence.Store.{form_released_key, form_project_sandbox_key}
use k8s_sched_demo.Persistence.Store.Effects.{released-reply}
use k8s_sched_demo.Scheduler.{Sys, ask_cluster_gone, is_sandbox_gone}
use k8s_sched_demo.Types.Ids.{IsSandboxId, IsProjectId, SandboxId, ProjectId}
use k8s_sched_demo.Base.{text_eq_refl, false, Bool, arith, ◌≡◌}
use k8s_sched_demo.Persistence.Redis.{IsServed}
use k8s_sched_demo.Persistence.Store
use k8s_sched_demo.Project.{
  active, creating, respond, assign_sandbox, Surroundings, ProjectService, get_project_sandbox,
}

module _ {R K : Type 0} (svc : ProjectService R K) (around later : Surroundings R K)
    (served : IsServed svc.store.client) (wired : svc.scheduler_service.store ≡ svc.store) where
  open served use {db}

  released-same :
      (p : ProjectId) (x : SandboxId) (s : R)
      → (Store.is_sandbox_released svc.store x (Store.get_project_sandbox svc.store p s).1).0
        ≡ (Store.is_sandbox_released svc.store x s).0
  unfolding Store.get_project_sandbox
  released-same p x s = ground (
    arith,
    released-reply svc.store served x s,
    released-reply svc.store served x (Store.get_project_sandbox svc.store p s).1,
    served.get_db (form_project_sandbox_key svc.store p) s,
  )

  gone-alive :
      (x : SandboxId) (s : Sys R K)
      → (Store.is_sandbox_released svc.store x s.redis).0 ≡ ok false
      → (svc.scheduler_service.k8s_client.is_sandbox_gone x s.kube).0 ≡ ok false
      → let (gone, s') = is_sandbox_gone svc.scheduler_service x s in
        (gone ≡ ok false) × (db s'.redis ≡ db s.redis)
  unfolding is_sandbox_gone ask_cluster_gone Store.is_sandbox_released
  gone-alive x s kept there =
      rw wired (ground (arith, served.exists_db (form_released_key svc.store x) s.redis))

  -- GetProjectSandbox, which does not wait, has chosen x for p, with IDs that are read back as they
  -- are written, on a Redis server that answers; x is not marked as released, and after the call
  -- the cluster answers, without an error, that x is not gone. The call answers CREATING with the
  -- hostname of p, and the next call for p, whether it waits or not, answers x as ACTIVE with that
  -- hostname and leaves Redis as it is.
  pub second_call-active :
      (p : ProjectId) (wait : Bool) (x : SandboxId) (s : Sys R K)
      → IsProjectId p
      → IsSandboxId x
      → (Store.is_sandbox_released svc.store x s.redis).0 ≡ ok false
      → (svc.scheduler_service.k8s_client.is_sandbox_gone x
          (assign_sandbox svc around p false x s).1.kube).0
        ≡ ok false
      → let (first, s₁) = assign_sandbox svc around p false x s in
        let (second, s₂) = get_project_sandbox svc later p wait s₁ in
        (first ≡ respond x creating (svc.k8s_client.get_project_service_hostname p))
        × (second ≡ respond x active (svc.k8s_client.get_project_service_hostname p))
        × (db s₂.redis ≡ db s₁.redis)
  unfolding assign_sandbox get_project_sandbox Store.get_project_sandbox
  second_call-active p wait x s pi xi kept there =
      let r₁ = (Store.set_project_sandbox svc.store p x s.redis).1 in
      let r₂ = (Store.get_project_sandbox svc.store p r₁).1 in
      let s₁ : Sys R K = (assign_sandbox svc around p false x s).1 in
      ground (
        arith,
        get-set_project_sandbox svc.store served p p x x s.redis pi xi,
        text_eq_refl p,
        xi.valid,
        released-kept svc.store served p x x s.redis,
        released-same p x r₁,
        served.get_db (form_project_sandbox_key svc.store p) r₁,
        gone-alive x (record s₁ { redis = r₂ }),
      )
