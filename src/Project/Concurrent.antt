-- ===== src/Project/Concurrent.antt =====
-- Two calls of `GetProjectSandbox` for one project at the same time
-- (scheduler/internal/project/service.go), on a Redis server that answers.
use k8s_sched_demo.Persistence.Store.{RedisStore}
use k8s_sched_demo.Persistence.Store.Stale.{remove_stale_sandbox}
use k8s_sched_demo.Errors.{not_found, err, ok}
use k8s_sched_demo.Pool.{get_sandbox}
use k8s_sched_demo.Types.Ids.{IsProjectId, IsSandboxId, SandboxId, ProjectId, new_sandbox_id}
use k8s_sched_demo.Pool.Fifo.{get_sandbox-pops, ready_members}
use k8s_sched_demo.Persistence.Redis.{IsServed, IsSorted}
use k8s_sched_demo.Project.{
  creating, respond, assign_sandbox, answer_choice, chosen, choose_sandbox, Surroundings,
  ProjectService,
}
use k8s_sched_demo.Base.{sym, subst, refl, text_eq, false, arith, ◌∷◌, trim_prefix, ◌≡◌, List, Text}
use k8s_sched_demo.Persistence.Store
use k8s_sched_demo.Scheduler.{release_sandbox, Sys}

module _ {R K : Type 0} (svc : ProjectService R K) (around₁ around₂ : Surroundings R K)
    {sorted : R → Text → List Text}
    (sorted_sets : IsSorted svc.sandbox_pool.pool_store.client sorted)
    (served : IsServed svc.store.client) (wired : svc.scheduler_service.store ≡ svc.store) where
  -- The members of the pool that are ready, the first one first.
  abbrev pub ready : Sys R K → List Text
  ready s = ready_members svc.sandbox_pool around₁.elapse sorted_sets s

  choose-ready :
      (around : Surroundings R K) (p : ProjectId) (x : SandboxId) (xs : List Text) (s : Sys R K)
      → IsSandboxId x
      → ready s ≡ x ∷ xs
      → ((s' : Sys R K) → ready (around.maintenance s') ≡ ready s')
      → let (choice, s') = choose_sandbox svc around p s in (choice ≡ chosen x) × (ready s' ≡ xs)
  unfolding choose_sandbox new_sandbox_id trim_prefix
  choose-ready around p x xs s xi front quiet =
      let (popped, left) = get_sandbox-pops svc.sandbox_pool around.elapse sorted_sets p s in
      ground (
        arith,
        popped,
        left,
        front,
        xi.valid,
        xi.bare,
        quiet (get_sandbox svc.sandbox_pool around.elapse p s).1,
      )

  assign-sets :
      (around : Surroundings R K) (p : ProjectId) (x : SandboxId) (s : Sys R K)
      → let (answer, s') = answer_choice svc around p false (chosen x) s in
        (answer ≡ respond x creating (svc.k8s_client.get_project_service_hostname p))
        × (s'.redis ≡ (Store.set_project_sandbox svc.store p x s.redis).1)
  unfolding answer_choice assign_sandbox
  assign-sets around p x s = (refl, refl)

  -- Two calls of GetProjectSandbox for p that do not wait have both found no sandbox and cross, on
  -- a Redis server that answers and at a pool whose first two ready members are x and y, with
  -- different IDs that are read back as they are written, while the maintenance keeps the ready
  -- members: one call answers x and the other y, both as CREATING with the hostname of p. The
  -- sandbox of p is y; once x is released, p has none.
  pub concurrent_calls :
      (p : ProjectId) (x y : SandboxId) (others : List Text) (s : Sys R K)
      → IsProjectId p
      → IsSandboxId x
      → IsSandboxId y
      → text_eq x y ≡ false
      → ready s ≡ x ∷ y ∷ others
      → ((s' : Sys R K) → ready (around₁.maintenance s') ≡ ready s')
      → ((s' : Sys R K) → ready (around₂.maintenance s') ≡ ready s')
      → let (choice₁, s₁) = choose_sandbox svc around₁ p s in
        let (choice₂, s₂) = choose_sandbox svc around₂ p s₁ in
        let (answer₁, s₃) = answer_choice svc around₁ p false choice₁ s₂ in
        let (answer₂, s₄) = answer_choice svc around₂ p false choice₂ s₃ in
        let hostname = svc.k8s_client.get_project_service_hostname p in
        let s₅ = release_sandbox svc.scheduler_service x s₄ in
        (answer₁ ≡ respond x creating hostname)
        × (answer₂ ≡ respond y creating hostname)
        × ((Store.get_project_sandbox svc.store p s₄.redis).0 ≡ ok y)
        × ((Store.get_project_sandbox svc.store p s₅.redis).0 ≡ err not_found)
  unfolding release_sandbox
  concurrent_calls p x y others s pi xi yi ne front quiet₁ quiet₂ =
      let (first, left) = choose-ready around₁ p x (y ∷ others) s xi front quiet₁ in
      let s₁ = (choose_sandbox svc around₁ p s).1 in
      let (second, gone) = choose-ready around₂ p y others s₁ yi left quiet₂ in
      let s₂ = (choose_sandbox svc around₂ p s₁).1 in
      let (answer₁, set₁) = assign-sets around₁ p x s₂ in
      let s₃ = (answer_choice svc around₁ p false (chosen x) s₂).1 in
      let (answer₂, set₂) = assign-sets around₂ p y s₃ in
      let (current, forgotten) = remove_stale_sandbox svc.store served p x y s₂.redis pi xi yi ne in
      let s₄ = (answer_choice svc around₂ p false (chosen y) s₃).1 in
      let lost =
        subst
          (λ (store : RedisStore R).
            (Store.get_project_sandbox svc.store p
              (Store.remove_sandbox_mapping store x s₄.redis).1).0
            ≡ err not_found)
          (sym wired) (rw (set₂, set₁) forgotten) in
      rw (first, second) (answer₁, answer₂, rw (set₂, set₁) current, lost)
