-- ===== src/Pool/Filling.antt =====
-- How full a round of maintenance makes the pool (scheduler/internal/sandboxpool/service.go,
-- `maintainPool`), on a Redis server that answers and while no other client changes the pool.
use k8s_sched_demo.Scheduler.Sorted.{schedule_sandbox-sorted}
use k8s_sched_demo.Errors.{ok}
use k8s_sched_demo.Types.Ids.{SandboxId}
use k8s_sched_demo.Persistence.PoolStore.{
  count_pending_sandboxes, count_ready_sandboxes, pending-ready, ready_sandboxes_key,
  pending_sandboxes_key, add_pending_sandbox, get_key,
}
use k8s_sched_demo.Persistence.Redis.{remove, contains, IsSorted, IsServed}
use k8s_sched_demo.Pool.{
  check_pending_sandboxes, top_up, to_create, maintain_pool, pool_key, create_pool_sandbox,
  create_loop, Moment, PoolService,
}
use k8s_sched_demo.Base.{
  ◌-◌, min, max, ltb, if◌then◌else◌, length-append, text_eq_refl, length, ap, refl, suc, [], arith,
  ◌∷◌, ◌+◌, false, ◌≡◌, List, Text, ℕ,
}
use k8s_sched_demo.Scheduler.{schedule_sandbox, Sys}
use k8s_sched_demo.Pool.Bounds.{ready_count, pending_count}

remove_absent : (x : Text) (us : List Text) → contains x us ≡ false → remove x us ≡ us
remove_absent x [] h = refl
remove_absent x (u ∷ us) h = ground (arith, remove_absent x us)

module _ {R K : Type 0} (svc : PoolService R K) (elapse : R → R)
    (served : IsServed svc.scheduler_service.idempotence_store.client)
    (sorted_sets : IsSorted svc.pool_store.client (λ s. (served.db s).sorted))
    (calm : (s : R) → (served.db (elapse s)).sorted ≡ (served.db s).sorted) (at : ℕ → Moment) where
  open served use {db}

  abbrev readies : Sys R K → ℕ
  readies = ready_count svc elapse served sorted_sets calm

  abbrev pendings : Sys R K → ℕ
  pendings = pending_count svc elapse served sorted_sets calm

  abbrev pub pending_members : Sys R K → List Text
  pending_members s = (db s.redis).sorted (get_key svc.pool_store pending_sandboxes_key)

  -- Some rounds of creation from an index on, each of which schedules a sandbox that is not pending.
  pub data Creates : ℕ → ℕ → Sys R K → Type 0 where
    no_more : (i : ℕ) (s : Sys R K) → Creates 0 i s
    one_more :
        (n i : ℕ) (s : Sys R K) (x : SandboxId)
        → (schedule_sandbox svc.scheduler_service elapse
            (at i).claim_ctx
            (at i).id_nanos
            (at i).random
            (pool_key (at i).key_nanos)
            s).0
          ≡ ok x
        → contains x (pending_members s) ≡ false
        → Creates n (i + 1) (create_pool_sandbox svc elapse (at i) s).1
        → Creates (suc n) i s

  create-counts :
      (i : ℕ) (s : Sys R K) (x : SandboxId)
      → (schedule_sandbox svc.scheduler_service elapse
          (at i).claim_ctx
          (at i).id_nanos
          (at i).random
          (pool_key (at i).key_nanos)
          s).0
        ≡ ok x
      → contains x (pending_members s) ≡ false
      → let s' = (create_pool_sandbox svc elapse (at i) s).1 in
        (readies s' ≡ readies s) × (pendings s' ≡ pendings s + 1)
  unfolding create_pool_sandbox add_pending_sandbox
  create-counts i s x scheduled new_one =
      let key = pool_key (at i).key_nanos in
      let made =
        schedule_sandbox svc.scheduler_service elapse (at i).claim_ctx (at i).id_nanos (at i).random
          key s in
      let kept =
        schedule_sandbox-sorted svc.scheduler_service served elapse calm (at i).claim_ctx
          (at i).id_nanos (at i).random key s in
      let p = get_key svc.pool_store pending_sandboxes_key in
      let q = get_key svc.pool_store ready_sandboxes_key in
      let (before, after, cut, whole) = sorted_sets.add_sorted p x (at i).now made.1.redis in
      ground (
        arith,
        scheduled,
        ap (λ f. length (f q)) kept,
        ap (λ f. f p) kept,
        ap (λ f. length (f q)) whole,
        ap (λ f. length (f p)) whole,
        text_eq_refl p,
        pending-ready svc.pool_store,
        length-append before (x ∷ after),
        length-append before after,
        ap length cut,
        remove_absent x (pending_members s) new_one,
      )

  create_loop-counts :
      (n i : ℕ) (s : Sys R K)
      → Creates n i s
      → let s' = create_loop svc elapse at n i s in
        (readies s' ≡ readies s) × (pendings s' ≡ pendings s + n)
  unfolding create_loop
  create_loop-counts n i s (no_more _ _) = omega arith
  create_loop-counts (suc n) i s (one_more _ _ _ x scheduled new_one more) =
      let first = create-counts i s x scheduled new_one in
      omega (
        arith,
        first,
        create_loop-counts n (i + 1) (create_pool_sandbox svc elapse (at i) s).1 more,
      )

  -- The state after the two counts of a round.
  abbrev pub counted : Sys R K → Sys R K
  counted s =
      let r₁ = (count_ready_sandboxes svc.pool_store s.redis).1 in
      record s { redis = (count_pending_sandboxes svc.pool_store r₁).1 }

  -- The state after the check of the pending sandboxes, if there are any.
  abbrev pub after_check : ℕ → Sys R K → Sys R K
  after_check now s =
      if ltb 0 (pendings s)
      then (check_pending_sandboxes svc elapse now (counted s)).1
      else counted s

  to_create_lem :
      (r q : ℕ)
      → q + to_create svc elapse r q
        ≡ max q (min svc.config.pool_max_pending (svc.config.pool_size - r))
  unfolding to_create
  to_create_lem r q = ground arith

  top_up-fills :
      (s : Sys R K)
      → Creates (to_create svc elapse (readies s) (pendings s)) 0 (counted s)
      → let s' = top_up svc elapse at s in
        (readies s' ≡ readies s)
        × (pendings s'
            ≡ max (pendings s) (min svc.config.pool_max_pending (svc.config.pool_size - readies s)))
  unfolding top_up count_ready_sandboxes count_pending_sandboxes
  top_up-fills s creates =
      let q = get_key svc.pool_store ready_sandboxes_key in
      let p = get_key svc.pool_store pending_sandboxes_key in
      let r₁ = (svc.pool_store.client.z_card q s.redis).1 in
      ground (
        arith,
        sorted_sets.card_reply q s.redis,
        sorted_sets.card_reply p r₁,
        ap (λ f. length (f p)) (sorted_sets.card_sorted q s.redis),
        ap (λ f. length (f q)) (sorted_sets.card_sorted q s.redis),
        ap (λ f. length (f p)) (sorted_sets.card_sorted p r₁),
        ap (λ f. length (f q)) (sorted_sets.card_sorted p r₁),
        create_loop-counts (to_create svc elapse (readies s) (pendings s)) 0 (counted s) creates,
        to_create_lem (readies s) (pendings s),
      )

  -- A run of maintainPool that gets the mutex, on a server that answers for its sorted sets and
  -- while no other client changes the pool, with as many rounds of creation as it sets out to make
  -- each scheduling a sandbox that is not pending: it ends with the ready sandboxes that the check
  -- of the pending ones left, and with as many pending ones as the pool is short of its size, up to
  -- the limit of pending ones, or as many as were pending, if these are more.
  pub maintain_pool-fills :
      (now : ℕ) (s : Sys R K)
      → let s₁ = after_check now s in
        Creates (to_create svc elapse (readies s₁) (pendings s₁)) 0 (counted s₁)
        → let s' = (maintain_pool svc elapse false now at s).1 in
          (readies s' ≡ readies s₁)
          × (pendings s'
              ≡ max
                  (pendings s₁)
                  (min svc.config.pool_max_pending (svc.config.pool_size - readies s₁)))
  unfolding maintain_pool count_ready_sandboxes count_pending_sandboxes
  maintain_pool-fills now s creates =
      let q = get_key svc.pool_store ready_sandboxes_key in
      let p = get_key svc.pool_store pending_sandboxes_key in
      let r₁ = (svc.pool_store.client.z_card q s.redis).1 in
      ground (
        arith,
        sorted_sets.card_reply q s.redis,
        sorted_sets.card_reply p r₁,
        ap (λ f. length (f p)) (sorted_sets.card_sorted q s.redis),
        top_up-fills (after_check now s) creates,
      )
