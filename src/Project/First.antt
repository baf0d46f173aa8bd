-- ===== src/Project/First.antt =====
-- The first call of `GetProjectSandbox` for a project (scheduler/internal/project/service.go), from
-- the empty pool to the sandbox that is ready, on a Redis server that answers.
use k8s_sched_demo.Project.{
  get_project_sandbox, active, respond, assign_sandbox, answer_choice, schedule_for, choose_sandbox,
  create_sandbox, Surroundings, ProjectService,
}
use k8s_sched_demo.Persistence.Store.Mapping.{get-set_project_sandbox}
use k8s_sched_demo.Scheduler.Idempotency.{schedule_fresh}
use k8s_sched_demo.Persistence.Idempotence.Effects.{pending, recorded}
use k8s_sched_demo.Pool.{get_sandbox}
use k8s_sched_demo.Errors.{ok, pool_empty, not_found, err}
use k8s_sched_demo.Types.Ids.{IsSandboxId, IsProjectId, SandboxId, ProjectId}
use k8s_sched_demo.Persistence.Idempotence.{IdempotenceStore}
use k8s_sched_demo.Kube.Interface.{K8sInterface}
use k8s_sched_demo.Persistence.Redis.{IsServed}
use k8s_sched_demo.Base.{text_eq_refl, arith, true, none, ◌≡◌}
use k8s_sched_demo.Persistence.Store
use k8s_sched_demo.Scheduler.{schedule_sandbox, Sys, wait_for_sandbox_ready}

module _ {R K : Type 0} (svc : ProjectService R K) (around : Surroundings R K)
    (served : IsServed svc.store.client)
    (served_keys : IsServed svc.scheduler_service.idempotence_store.client) where
  abbrev keys : IdempotenceStore R
  keys = svc.scheduler_service.idempotence_store

  abbrev cluster : K8sInterface K
  cluster = svc.scheduler_service.k8s_client

  -- GetProjectSandbox is called for p to wait, on a Redis server that answers; no sandbox is on
  -- record for p, the pool is empty, after its maintenance the key p has no sandbox and no marker,
  -- the claim context is live, the pod is created as x, with IDs that are read back as they are
  -- written, and the wait finds it ready. The call answers x as ACTIVE with the hostname of p, and
  -- x is the sandbox on record for p; the cluster is asked to create the pod, then to set the
  -- service of p on it, then whether it is ready, and nothing else.
  pub first_call-active :
      (p : ProjectId) (x : SandboxId) (s s₁ : Sys R K) (k₁ : K)
      → around.claim_ctx.done ≡ none
      → IsProjectId p
      → IsSandboxId x
      → (Store.get_project_sandbox svc.store p s.redis).0 ≡ err not_found
      → get_sandbox svc.sandbox_pool around.elapse p
          (record s { redis = (Store.get_project_sandbox svc.store p s.redis).1 })
        ≡ (err pool_empty, s₁)
      → recorded keys p (served_keys.db (around.maintenance s₁).redis) ≡ none
      → pending keys p (served_keys.db (around.maintenance s₁).redis) ≡ none
      → cluster.schedule_sandbox around.nanos around.random (around.maintenance s₁).kube
        ≡ (ok x, k₁)
      → let k₂ = (svc.k8s_client.create_or_update_project_service p x k₁).1 in
        (cluster.wait_for_sandbox_ready around.wait_ctx x k₂).0 ≡ ok true
        → let (answer, s') = get_project_sandbox svc around p true s in
          (answer ≡ respond x active (svc.k8s_client.get_project_service_hostname p))
          × ((Store.get_project_sandbox svc.store p s'.redis).0 ≡ ok x)
          × (s'.kube
              ≡ (cluster.wait_for_sandbox_ready around.wait_ctx x
                  (svc.k8s_client.create_or_update_project_service p x k₁).1).1)
  unfolding get_project_sandbox create_sandbox choose_sandbox schedule_for answer_choice
      assign_sandbox wait_for_sandbox_ready
  first_call-active p x s s₁ k₁ live pi xi unknown empty free unmarked created ready =
      let s₂ = around.maintenance s₁ in
      let scheduled =
        schedule_sandbox svc.scheduler_service around.elapse around.claim_ctx around.nanos
          around.random p s₂ in
      let (got, kube, kept, done) =
        schedule_fresh svc.scheduler_service served_keys around.elapse around.claim_ctx around.nanos
          around.random p x s₂ k₁ live (ground (arith, pi.valid)) free unmarked created in
      ground (
        arith,
        unknown,
        empty,
        got,
        kube,
        ready,
        get-set_project_sandbox svc.store served p p x x scheduled.1.redis pi xi,
        text_eq_refl p,
      )
