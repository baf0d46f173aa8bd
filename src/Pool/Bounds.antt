-- ===== src/Pool/Bounds.antt =====
-- How large the pool can grow (scheduler/internal/sandboxpool/service.go, `maintainPool`), on a
-- Redis server that answers and while no other client changes the pool.
use k8s_sched_demo.Scheduler.Sorted.{schedule_sandbox-sorted}
use k8s_sched_demo.Errors.{value_or}
use k8s_sched_demo.Scheduler.{schedule_sandbox}
use k8s_sched_demo.Types.Ids.{SandboxId}
use k8s_sched_demo.Scheduler.{Sys}
use k8s_sched_demo.Persistence.PoolStore.{
  pending-ready, count_pending_sandboxes, count_ready_sandboxes, ready_sandboxes_key,
  pending_sandboxes_key, get_key, add_pending_sandbox,
}
use k8s_sched_demo.Persistence.Redis.{remove, IsSorted, IsServed}
use k8s_sched_demo.Pool.{
  to_create, pool_key, Moment, top_up, create_pool_sandbox, create_loop, PoolService,
}
use k8s_sched_demo.Base.{
  max, zero, suc, length-append, ◌∙◌, text_eq_refl, ap, [], ◌∷◌, ◌+◌, arith, ◌≤◌, length, ℕ, List,
  Text, ◌≡◌,
}

pub length-remove-le : (t : Text) (xs : List Text) → length (remove t xs) ≤ length xs
length-remove-le t [] = omega arith
length-remove-le t (x ∷ xs) = ground (arith, length-remove-le t xs)

module _ {R K : Type 0} (svc : PoolService R K) (elapse : R → R)
    (served : IsServed svc.scheduler_service.idempotence_store.client)
    (sorted_sets : IsSorted svc.pool_store.client (λ s. (served.db s).sorted))
    (calm : (s : R) → (served.db (elapse s)).sorted ≡ (served.db s).sorted) where
  open served use {db}

  abbrev sets : R → Text → List Text
  sets s = (db s).sorted

  abbrev pub ready_count : Sys R K → ℕ
  ready_count s = length (sets s.redis (get_key svc.pool_store ready_sandboxes_key))

  abbrev pub pending_count : Sys R K → ℕ
  pending_count s = length (sets s.redis (get_key svc.pool_store pending_sandboxes_key))

  add_pending-ready :
      (now : ℕ) (x : SandboxId) (r : R)
      → sets
          (add_pending_sandbox svc.pool_store now x r).1
          (get_key svc.pool_store ready_sandboxes_key)
        ≡ sets r (get_key svc.pool_store ready_sandboxes_key)
  unfolding add_pending_sandbox
  add_pending-ready now x r =
      let key = get_key svc.pool_store pending_sandboxes_key in
      let (before, after, cut, whole) = sorted_sets.add_sorted key x now r in
      ap (λ f. f (get_key svc.pool_store ready_sandboxes_key)) whole
      ∙ (rw (pending-ready svc.pool_store))

  add_pending-pending :
      (now : ℕ) (x : SandboxId) (r : R)
      → length (
          sets
            (add_pending_sandbox svc.pool_store now x r).1
            (get_key svc.pool_store pending_sandboxes_key))
        ≤ length (sets r (get_key svc.pool_store pending_sandboxes_key)) + 1
  unfolding add_pending_sandbox
  add_pending-pending now x r =
      let key = get_key svc.pool_store pending_sandboxes_key in
      let (before, after, cut, whole) = sorted_sets.add_sorted key x now r in
      ground (
        arith,
        ap (λ f. length (f key)) whole,
        text_eq_refl key,
        length-append before (x ∷ after),
        length-append before after,
        ap length cut,
        length-remove-le x (sets r key),
      )

  create-counts :
      (at : Moment) (s : Sys R K)
      → let s' = (create_pool_sandbox svc elapse at s).1 in
        (ready_count s' ≡ ready_count s) × (pending_count s' ≤ pending_count s + 1)
  unfolding create_pool_sandbox
  create-counts at s =
      let scheduled =
        schedule_sandbox svc.scheduler_service elapse at.claim_ctx at.id_nanos at.random
          (pool_key at.key_nanos) s in
      let x : SandboxId = value_or [] scheduled.0 in
      let kept =
        schedule_sandbox-sorted svc.scheduler_service served elapse calm at.claim_ctx at.id_nanos
          at.random (pool_key at.key_nanos) s in
      ground (
        arith,
        ap (λ f. length (f (get_key svc.pool_store ready_sandboxes_key))) kept,
        ap (λ f. length (f (get_key svc.pool_store pending_sandboxes_key))) kept,
        ap length (add_pending-ready at.now x scheduled.1.redis),
        add_pending-pending at.now x scheduled.1.redis,
      )

  create_loop-counts :
      (at : ℕ → Moment) (n i : ℕ) (s : Sys R K)
      → let s' = create_loop svc elapse at n i s in
        (ready_count s' ≡ ready_count s) × (pending_count s' ≤ pending_count s + n)
  unfolding create_loop
  create_loop-counts at zero i s = omega arith
  create_loop-counts at (suc n) i s = omega (
    arith,
    create-counts (at i) s,
    create_loop-counts at n (i + 1) (create_pool_sandbox svc elapse (at i) s).1,
  )

  -- While no other client changes the pool, topping it up leaves the ready sandboxes alone; it adds
  -- pending ones, but never takes the pool above its size nor the pending ones above their limit,
  -- unless they were above already and then they do not grow.
  pub top_up_bounds :
      (at : ℕ → Moment) (s : Sys R K)
      → let s' = top_up svc elapse at s in
        (ready_count s' ≡ ready_count s)
        × (ready_count s' + pending_count s'
            ≤ max svc.config.pool_size (ready_count s + pending_count s))
        × (pending_count s' ≤ max svc.config.pool_max_pending (pending_count s))
  unfolding top_up count_ready_sandboxes count_pending_sandboxes
  top_up_bounds at s =
      let q = get_key svc.pool_store ready_sandboxes_key in
      let p = get_key svc.pool_store pending_sandboxes_key in
      let r₁ = (svc.pool_store.client.z_card q s.redis).1 in
      let r₂ = (svc.pool_store.client.z_card p r₁).1 in
      let n = to_create svc elapse (ready_count s) (pending_count s) in
      ground (
        arith,
        sorted_sets.card_reply q s.redis,
        sorted_sets.card_reply p r₁,
        ap (λ f. length (f p)) (sorted_sets.card_sorted q s.redis),
        ap (λ f. length (f q)) (sorted_sets.card_sorted q s.redis),
        ap (λ f. length (f p)) (sorted_sets.card_sorted p r₁),
        ap (λ f. length (f q)) (sorted_sets.card_sorted p r₁),
        create_loop-counts at n 0 (record s { redis = r₂ }),
      )
