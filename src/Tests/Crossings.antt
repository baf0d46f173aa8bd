-- ===== src/Tests/Crossings.antt =====
-- Two calls for one project that cross, at a pool of two ready sandboxes.
use k8s_sched_demo.Errors.{not_found, err, ok}
use k8s_sched_demo.Tests.Fakes.{fake_served, fake_sorted}
use k8s_sched_demo.Project.Concurrent.{concurrent_calls, ready}
use k8s_sched_demo.Kube.Api.{Pod}
use k8s_sched_demo.Project.{creating, respond, answer_choice, choose_sandbox}
use k8s_sched_demo.Types.Ids.{IsSandboxId, SandboxId}
use k8s_sched_demo.Persistence.Redis.{Db}
use k8s_sched_demo.Persistence.PoolStore.{get_key, add_ready_sandbox}
use k8s_sched_demo.Base.{[], ◌∷◌, ◌≡◌, false, refl, codes, List, text_eq, strip_prefix}
use k8s_sched_demo.Tests.Projects.{projects, around, p, x, p-IsProjectId, x-IsSandboxId, start}
use k8s_sched_demo.Persistence.Store
use k8s_sched_demo.Scheduler.{Sys, release_sandbox}

abbrev y : SandboxId
y = codes "12"

y-IsSandboxId : IsSandboxId y
unfolding strip_prefix
y-IsSandboxId = record { valid = refl; bare = refl }

abbrev two_ready : Sys Db (List Pod)
two_ready = record start {
  redis =
      (add_ready_sandbox projects.sandbox_pool.pool_store 13 y
        (add_ready_sandbox projects.sandbox_pool.pool_store 12 x start.redis).1).1;
}

two_ready-front : ready projects around around fake_sorted fake_served refl two_ready ≡ x ∷ y ∷ []
unfolding add_ready_sandbox get_key text_eq
two_ready-front = refl

concurrent_calls_example :
    let (choice₁, s₁) = choose_sandbox projects around p two_ready in
    let (choice₂, s₂) = choose_sandbox projects around p s₁ in
    let (answer₁, s₃) = answer_choice projects around p false choice₁ s₂ in
    let (answer₂, s₄) = answer_choice projects around p false choice₂ s₃ in
    let hostname = projects.k8s_client.get_project_service_hostname p in
    let s₅ = release_sandbox projects.scheduler_service x s₄ in
    (answer₁ ≡ respond x creating hostname)
    × (answer₂ ≡ respond y creating hostname)
    × ((Store.get_project_sandbox projects.store p s₄.redis).0 ≡ ok y)
    × ((Store.get_project_sandbox projects.store p s₅.redis).0 ≡ err not_found)
unfolding text_eq
concurrent_calls_example =
    concurrent_calls projects around around fake_sorted fake_served refl p x y [] two_ready
      p-IsProjectId x-IsSandboxId y-IsSandboxId refl two_ready-front (λ s. refl) (λ s. refl)
