-- ===== src/Pool/Job.antt =====
-- The maintenance job of the pool (scheduler/internal/sandboxpool/service.go, `New`, `Start`,
-- `Stop`, `runMaintenanceJob`), and that no round of it loses a sandbox.
use k8s_sched_demo.Errors.{value_or}
use k8s_sched_demo.Scheduler.Sorted.{schedule_sandbox-sorted}
use k8s_sched_demo.Types.Ids.{SandboxId}
use k8s_sched_demo.Pool.Check.{
  contains-remove, contains-append, check_pending_sandboxes-holds, holds,
}
use k8s_sched_demo.Scheduler.{schedule_sandbox, Sys, Service}
use k8s_sched_demo.Persistence.Redis.{contains, IsSorted, IsServed}
use k8s_sched_demo.Pool.{
  check_pending_sandboxes, pool_key, top_up, create_pool_sandbox, create_loop, maintain_pool,
  PoolConfig, Moment, PoolService,
}
use k8s_sched_demo.Persistence.PoolStore.{
  pending-ready, ready_sandboxes_key, pending_sandboxes_key, get_key, count_pending_sandboxes,
  count_ready_sandboxes, add_pending_sandbox, PoolStore,
}
use k8s_sched_demo.Base.{
  text_eq_refl, zero, ◌+◌, suc, ap, true, arith, [], not, Text, ◌≡◌, ◌∷◌, if◌then◌else◌, ℕ, List,
  Bool,
}

unfoldable pub new_service :
    {R K : Type 0} → PoolStore R → Service R K → PoolConfig → PoolService R K
new_service pool_store scheduler_service config = record {
  pool_store = pool_store;
  scheduler_service = scheduler_service;
  config = config;
}

-- What one tick meets: whether another run holds the mutex, the second of the clock, and the
-- moments of its rounds of creation.
pub record Tick : Type 0 where
  pub locked : Bool
  pub now : ℕ
  pub at : ℕ → Moment

module _ {R K : Type 0} (svc : PoolService R K) (elapse : R → R) where
  -- The `for { select { … } }` on the ticks that come before the service's context ends, which
  -- `Stop` brings about; errors are logged only.
  unfoldable pub run_maintenance_job : List Tick → Sys R K → Sys R K
  run_maintenance_job [] s = s
  run_maintenance_job (tick ∷ ticks) s =
      run_maintenance_job ticks (maintain_pool svc elapse tick.locked tick.now tick.at s).1

  -- A pool that is not enabled has no job.
  unfoldable pub start : List Tick → Sys R K → Sys R K
  start ticks s = if not svc.config.pool_enabled then s else run_maintenance_job ticks s

module _ {R K : Type 0} (svc : PoolService R K) (elapse : R → R)
    (served : IsServed svc.scheduler_service.idempotence_store.client)
    (sorted_sets : IsSorted svc.pool_store.client (λ s. (served.db s).sorted))
    (calm : (s : R) → (served.db (elapse s)).sorted ≡ (served.db s).sorted) (t : Text) where
  open served use {db}

  abbrev in_pool : R → Bool
  in_pool = holds svc elapse sorted_sets t

  add_pending-holds :
      (now : ℕ) (x : SandboxId) (r : R)
      → in_pool r ≡ true
      → in_pool (add_pending_sandbox svc.pool_store now x r).1 ≡ true
  unfolding add_pending_sandbox
  add_pending-holds now x r h =
      let p = get_key svc.pool_store pending_sandboxes_key in
      let q = get_key svc.pool_store ready_sandboxes_key in
      let (before, after, cut, whole) = sorted_sets.add_sorted p x now r in
      ground (
        arith,
        ap (λ f. contains t (f q)) whole,
        ap (λ f. contains t (f p)) whole,
        text_eq_refl p,
        pending-ready svc.pool_store,
        contains-append t before (x ∷ after),
        contains-append t before after,
        ap (contains t) cut,
        contains-remove t x ((db r).sorted p),
      )

  create-holds :
      (at : Moment) (s : Sys R K)
      → in_pool s.redis ≡ true
      → in_pool (create_pool_sandbox svc elapse at s).1.redis ≡ true
  unfolding create_pool_sandbox
  create-holds at s h =
      let key = pool_key at.key_nanos in
      let scheduled =
        schedule_sandbox svc.scheduler_service elapse at.claim_ctx at.id_nanos at.random key s in
      let kept =
        schedule_sandbox-sorted svc.scheduler_service served elapse calm at.claim_ctx at.id_nanos
          at.random key s in
      ground (
        arith,
        ap (λ f. contains t (f (get_key svc.pool_store ready_sandboxes_key))) kept,
        ap (λ f. contains t (f (get_key svc.pool_store pending_sandboxes_key))) kept,
        add_pending-holds at.now (value_or [] scheduled.0) scheduled.1.redis,
      )

  create_loop-holds :
      (at : ℕ → Moment) (n i : ℕ) (s : Sys R K)
      → in_pool s.redis ≡ true
      → in_pool (create_loop svc elapse at n i s).redis ≡ true
  unfolding create_loop
  create_loop-holds at zero i s h = h
  create_loop-holds at (suc n) i s h =
      create_loop-holds at n (i + 1) (create_pool_sandbox svc elapse (at i) s).1
        (create-holds (at i) s h)

  -- A count leaves the sets alone.
  card-holds : (k : Text) (r : R) → in_pool (svc.pool_store.client.z_card k r).1 ≡ in_pool r
  card-holds k r = ground (
    arith,
    ap (λ f. contains t (f (get_key svc.pool_store ready_sandboxes_key)))
        (sorted_sets.card_sorted k r),
    ap (λ f. contains t (f (get_key svc.pool_store pending_sandboxes_key)))
        (sorted_sets.card_sorted k r),
  )

  top_up-holds :
      (at : ℕ → Moment) (s : Sys R K)
      → in_pool s.redis ≡ true
      → in_pool (top_up svc elapse at s).redis ≡ true
  unfolding top_up count_ready_sandboxes count_pending_sandboxes
  top_up-holds at s h =
      let q = get_key svc.pool_store ready_sandboxes_key in
      let p = get_key svc.pool_store pending_sandboxes_key in
      let r₁ = (svc.pool_store.client.z_card q s.redis).1 in
      create_loop-holds at _ 0 _ (ground (arith, card-holds q s.redis, card-holds p r₁))

  maintain_pool-holds :
      (locked : Bool) (now : ℕ) (at : ℕ → Moment) (s : Sys R K)
      → in_pool s.redis ≡ true
      → in_pool (maintain_pool svc elapse locked now at s).1.redis ≡ true
  unfolding maintain_pool count_ready_sandboxes count_pending_sandboxes
  maintain_pool-holds locked now at s h =
      let q = get_key svc.pool_store ready_sandboxes_key in
      let p = get_key svc.pool_store pending_sandboxes_key in
      let r₁ = (svc.pool_store.client.z_card q s.redis).1 in
      let s₂ : Sys R K = record s { redis = (svc.pool_store.client.z_card p r₁).1 } in
      ground (
        arith,
        card-holds q s.redis,
        card-holds p r₁,
        check_pending_sandboxes-holds svc elapse sorted_sets t now s₂,
        top_up-holds at s₂,
        top_up-holds at (check_pending_sandboxes svc elapse now s₂).1,
      )

  run-holds :
      (ticks : List Tick) (s : Sys R K)
      → in_pool s.redis ≡ true
      → in_pool (run_maintenance_job svc elapse ticks s).redis ≡ true
  unfolding run_maintenance_job
  run-holds [] s h = h
  run-holds (tick ∷ ticks) s h =
      run-holds ticks (maintain_pool svc elapse tick.locked tick.now tick.at s).1
        (maintain_pool-holds tick.locked tick.now tick.at s h)

  -- However often the maintenance job of the pool ticks, whether or not the pool is enabled or
  -- another run holds the mutex, a sandbox that the pool holds, ready or pending, stays in it, on a
  -- server that answers for its sorted sets and while no other client changes them.
  pub start-holds :
      (ticks : List Tick) (s : Sys R K)
      → in_pool s.redis ≡ true
      → in_pool (start svc elapse ticks s).redis ≡ true
  unfolding start
  start-holds ticks s h = ground (arith, run-holds ticks s)
