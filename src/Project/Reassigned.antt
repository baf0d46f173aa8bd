-- ===== src/Project/Reassigned.antt =====
-- A project gets its released sandbox back, because its idempotence key is the project's ID and
-- outlives the sandbox (scheduler/internal/project/service.go, scheduler/internal/scheduler/service.go).
use k8s_sched_demo.Scheduler.Idempotency.{schedule_recorded}
use k8s_sched_demo.Errors.{pool_empty, err, ok}
use k8s_sched_demo.Types.Ids.{IsSandboxId, SandboxId, ProjectId}
use k8s_sched_demo.Scheduler.Deployed.{
  forgotten_after_release, gone_after_release, still_recorded, deployed,
}
use k8s_sched_demo.Persistence.Idempotence.Effects.{recorded}
use k8s_sched_demo.Pool.{get_sandbox, PoolService}
use k8s_sched_demo.Kube.Interface.{K8sInterface}
use k8s_sched_demo.Persistence.Redis.{IsServed, Redis}
use k8s_sched_demo.Base.{◌∙◌, arith, true, some, false, is_empty, none, Option, Text, ℕ, ◌≡◌}
use k8s_sched_demo.Scheduler.{Sys, schedule_sandbox, is_sandbox_gone, release_sandbox}
use k8s_sched_demo.Persistence.Store
use k8s_sched_demo.Project.{
  assign_sandbox, choose_sandbox, create_sandbox, creating, respond, Surroundings, ProjectService,
  get_project_sandbox,
}

module _ {R K : Type 0} (client : Redis R) (k8s : K8sInterface K) (ttl : ℕ)
    (served : IsServed client) where
  open served use {db}

  -- The project service over the services as they are wired.
  abbrev pub wired : PoolService R K → ProjectService R K
  wired pool = record {
    scheduler_service = deployed client k8s ttl;
    sandbox_pool = pool;
    store = (deployed client k8s ttl).store;
    k8s_client = k8s;
  }

  abbrev remembered : Text → R → Option Text
  remembered key r = recorded (deployed client k8s ttl).idempotence_store key (db r)

  -- The state when `x` is released and the sandbox of `p` is then looked up.
  abbrev pub looked_up : ProjectId → SandboxId → Sys R K → Sys R K
  looked_up p x s₀ =
      let s = release_sandbox (deployed client k8s ttl) x s₀ in
      record s { redis = (Store.get_project_sandbox (deployed client k8s ttl).store p s.redis).1 }

  rescheduled :
      (around : Surroundings R K) (p : ProjectId) (x : SandboxId) (s : Sys R K)
      → around.claim_ctx.done ≡ none
      → is_empty p ≡ false
      → IsSandboxId x
      → remembered p s.redis ≡ some x
      → (schedule_sandbox
          (deployed client k8s ttl)
          around.elapse
          around.claim_ctx
          around.nanos
          around.random
          p
          s).0
        ≡ ok x
  unfolding deployed
  rescheduled around p x s live named xi key =
      (schedule_recorded (deployed client k8s ttl) served around.elapse around.claim_ctx
        around.nanos around.random p x s live named xi key).0

  -- On a Redis server that answers, a sandbox x that project p owns, with an ID that is read back
  -- as it is written, scheduled under the key p that is still remembered, is released. The next
  -- call of GetProjectSandbox for p that does not wait and finds the pool empty, with a live claim
  -- context, while the maintenance leaves that key alone, answers that x is being created, though
  -- the scheduler says that x is gone.
  pub released_sandbox_reassigned :
      (pool : PoolService R K) (around : Surroundings R K) (p : ProjectId) (x : SandboxId)
      (s₀ s₁ : Sys R K)
      → around.claim_ctx.done ≡ none
      → is_empty p ≡ false
      → IsSandboxId x
      → remembered p s₀.redis ≡ some x
      → (Store.find_project_for_sandbox (deployed client k8s ttl).store x s₀.redis).0 ≡ ok p
      → get_sandbox pool around.elapse p (looked_up p x s₀) ≡ (err pool_empty, s₁)
      → remembered p (around.maintenance s₁).redis
        ≡ remembered p (release_sandbox (deployed client k8s ttl) x s₀).redis
      → let s = release_sandbox (deployed client k8s ttl) x s₀ in
        ((is_sandbox_gone (deployed client k8s ttl) x s).0 ≡ ok true)
        × ((get_project_sandbox (wired pool) around p false s).0
            ≡ respond x creating (k8s.get_project_service_hostname p))
  unfolding get_project_sandbox create_sandbox choose_sandbox assign_sandbox
  released_sandbox_reassigned pool around p x s₀ s₁ live named xi key owner empty kept =
      let still = still_recorded client k8s ttl served around.elapse p p x s₀ owner in
      ground (
        arith,
        gone_after_release client k8s ttl served around.elapse p x s₀ owner,
        forgotten_after_release client k8s ttl served around.elapse p x s₀ named owner,
        rescheduled around p x (around.maintenance s₁) live named xi (kept ∙ still ∙ key),
      )
