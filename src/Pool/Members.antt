-- ===== src/Pool/Members.antt =====
-- How the operations of the pool change its ready and its pending members
-- (scheduler/internal/sandboxpool/service.go), on a Redis server that answers for its sorted sets.
use k8s_sched_demo.Scheduler.Sorted.{schedule_sandbox-sorted}
use k8s_sched_demo.Pool.Counts.{count-remove, count-insert, count}
use k8s_sched_demo.Errors.{Result-cases, value_or, ok, err}
use k8s_sched_demo.Types.Ids.{SandboxId}
use k8s_sched_demo.Persistence.PoolStore.{
  ready-pending, pending-ready, valid_ids, ready_sandboxes_key, read_popped, pending_sandboxes_key,
  add_ready_sandbox, remove_pending_sandbox, get_ready_sandbox, get_pending_sandboxes, get_key,
  add_pending_sandbox,
}
use k8s_sched_demo.Persistence.Redis.{rest, first, IsSorted, IsServed}
use k8s_sched_demo.Pool.{
  pool_key, Moment, move_to_ready, get_sandbox, create_pool_sandbox, check_pending_sandboxes,
  check_loop, PoolService,
}
use k8s_sched_demo.Base.{
  Bool-cases, inl, inr, text_eq_refl, refl, true, ap, [], ◌⊎◌, arith, ◌-◌, ◌+◌, ◌≤◌, ◌∷◌, text_eq,
  if◌then◌else◌, Text, List, ◌≡◌, ℕ,
}
use k8s_sched_demo.Scheduler.{schedule_sandbox, is_sandbox_ready, Sys}

module _ {R K : Type 0} (svc : PoolService R K) (elapse : R → R)
    (served : IsServed svc.scheduler_service.idempotence_store.client)
    (sorted_sets : IsSorted svc.pool_store.client (λ s. (served.db s).sorted))
    (calm : (s : R) → (served.db (elapse s)).sorted ≡ (served.db s).sorted) where
  open served use {db}

  abbrev pub readies : Sys R K → List Text
  readies s = (db s.redis).sorted (get_key svc.pool_store ready_sandboxes_key)

  abbrev pub pendings : Sys R K → List Text
  pendings s = (db s.redis).sorted (get_key svc.pool_store pending_sandboxes_key)

  pub get-counts :
      (t key : Text) (s : Sys R K)
      → let (result, s') = get_sandbox svc elapse key s in
        (result ≡ read_popped (ok (first (readies s))))
        × (readies s' ≡ rest (readies s))
        × (pendings s' ≡ pendings s)
  unfolding get_sandbox get_ready_sandbox
  get-counts t key s =
      let q = get_key svc.pool_store ready_sandboxes_key in
      let popped = sorted_sets.pop_sorted q s.redis in
      ground (
        arith,
        sorted_sets.pop_reply q s.redis,
        ap (λ f. f q) popped,
        ap (λ f. f (get_key svc.pool_store pending_sandboxes_key)) popped,
        text_eq_refl q,
        ready-pending svc.pool_store,
        pending-ready svc.pool_store,
      )

  -- A move takes one occurrence from the pending members and gives one to the ready ones.
  move-counts :
      (t : Text) (now : ℕ) (x : SandboxId) (s : Sys R K)
      → let one : ℕ = if text_eq x t then 1 else 0 in
        let s' = move_to_ready svc elapse now x s in
        (count t (pendings s') ≡ count t (pendings s) - one)
        × (count t (readies s') ≡ (count t (readies s) - one) + one)
  unfolding move_to_ready remove_pending_sandbox add_ready_sandbox
  move-counts t now x s =
      let q = get_key svc.pool_store ready_sandboxes_key in
      let p = get_key svc.pool_store pending_sandboxes_key in
      let r₁ = (svc.pool_store.client.z_rem p x s.redis).1 in
      let removed = sorted_sets.rem_sorted p x s.redis in
      let (before, after, cut, whole) = sorted_sets.add_sorted q x now r₁ in
      ground (
        arith,
        sorted_sets.rem_reply p x s.redis,
        sorted_sets.add_reply q x now r₁,
        ap (λ f. count t (f q)) removed,
        ap (λ f. count t (f p)) removed,
        ap (λ f. count t (f q)) whole,
        ap (λ f. count t (f p)) whole,
        text_eq_refl q,
        text_eq_refl p,
        pending-ready svc.pool_store,
        ready-pending svc.pool_store,
        count-remove t x (pendings s),
        count-insert t x ((db r₁).sorted q) before after cut,
      )

  -- What the check of one pending sandbox leads to.
  abbrev checked_one : ℕ → SandboxId → Sys R K → Sys R K
  checked_one now x s =
      let (ready, s₁) = is_sandbox_ready svc.scheduler_service x s in
      elim ready [
        | err e ↦ s₁
        | ok is_ready ↦ if is_ready then move_to_ready svc elapse now x s₁ else s₁
      ]

  checked_one-counts :
      (t : Text) (now : ℕ) (x : SandboxId) (xs : List SandboxId) (s : Sys R K)
      → count t (x ∷ xs) ≤ count t (pendings s)
      → count t (readies s) + count t (pendings s) ≤ 1
      → let s' = checked_one now x s in
        (count t (readies s') + count t (pendings s') ≡ count t (readies s) + count t (pendings s))
        × (count t xs ≤ count t (pendings s'))
  unfolding is_sandbox_ready
  checked_one-counts t now x xs s here few =
      ground (arith, move-counts t now x (is_sandbox_ready svc.scheduler_service x s).1)

  check_loop-counts :
      (t : Text) (now : ℕ) (xs : List SandboxId) (s : Sys R K)
      → count t xs ≤ count t (pendings s)
      → count t (readies s) + count t (pendings s) ≤ 1
      → let s' = check_loop svc elapse now xs s in
        count t (readies s') + count t (pendings s') ≡ count t (readies s) + count t (pendings s)
  unfolding check_loop
  check_loop-counts t now [] s here few = refl
  check_loop-counts t now (x ∷ xs) s here few =
      let (same, left) = checked_one-counts t now x xs s here few in
      omega
        (arith, same, check_loop-counts t now xs (checked_one now x s) left (omega (arith, same)))

  pub check-counts :
      (t : Text) (now : ℕ) (s : Sys R K)
      → valid_ids (pendings s) ≡ pendings s
      → count t (readies s) + count t (pendings s) ≤ 1
      → let s' = (check_pending_sandboxes svc elapse now s).1 in
        count t (readies s') + count t (pendings s') ≡ count t (readies s) + count t (pendings s)
  unfolding check_pending_sandboxes get_pending_sandboxes
  check-counts t now s bare few =
      let p = get_key svc.pool_store pending_sandboxes_key in
      let s₁ : Sys R K = record s { redis = (svc.pool_store.client.z_range p s.redis).1 } in
      let same = sorted_sets.range_sorted p s.redis in
      ground (
        arith,
        sorted_sets.range_reply p s.redis,
        bare,
        ap (λ f. count t (f p)) same,
        ap (λ f. count t (f (get_key svc.pool_store ready_sandboxes_key))) same,
        check_loop-counts t now (pendings s) s₁,
      )

  -- Adding a pending sandbox changes no other count.
  pub add_pending-counts :
      (t : Text) (now : ℕ) (x : SandboxId) (s : Sys R K)
      → let one : ℕ = if text_eq x t then 1 else 0 in
        let r' = (add_pending_sandbox svc.pool_store now x s.redis).1 in
        let s' : Sys R K = record s { redis = r' } in
        (count t (pendings s') ≡ (count t (pendings s) - one) + one)
        × (count t (readies s') ≡ count t (readies s))
  unfolding add_pending_sandbox
  add_pending-counts t now x s =
      let p = get_key svc.pool_store pending_sandboxes_key in
      let (before, after, cut, whole) = sorted_sets.add_sorted p x now s.redis in
      ground (
        arith,
        ap (λ f. count t (f (get_key svc.pool_store ready_sandboxes_key))) whole,
        ap (λ f. count t (f p)) whole,
        text_eq_refl p,
        pending-ready svc.pool_store,
        count-insert t x (pendings s) before after cut,
      )

  -- What a round of creation does to the counts, by the sandbox that it schedules.
  pub create-adds :
      (t : Text) (at : Moment) (s : Sys R K)
      → let scheduled =
          schedule_sandbox svc.scheduler_service elapse at.claim_ctx at.id_nanos at.random
            (pool_key at.key_nanos)
            s in
        let s' = (create_pool_sandbox svc elapse at s).1 in
        (count t (readies s') ≡ count t (readies s))
        × ((count t (pendings s') ≡ count t (pendings s))
            ⊎ ((x : SandboxId) × (scheduled.0 ≡ ok x)
                × (text_eq x t ≡ true)
                × (count t (pendings s') ≡ (count t (pendings s) - 1) + 1)))
  unfolding create_pool_sandbox
  create-adds t at s =
      let key = pool_key at.key_nanos in
      let scheduled =
        schedule_sandbox svc.scheduler_service elapse at.claim_ctx at.id_nanos at.random key s in
      let x : SandboxId = value_or [] scheduled.0 in
      let kept =
        schedule_sandbox-sorted svc.scheduler_service served elapse calm at.claim_ctx at.id_nanos
          at.random key s in
      let same_ready = ap (λ f. count t (f (get_key svc.pool_store ready_sandboxes_key))) kept in
      let same_pending =
        ap (λ f. count t (f (get_key svc.pool_store pending_sandboxes_key))) kept in
      (
        ground (arith, same_ready, add_pending-counts t at.now x scheduled.1),
        elim (Result-cases scheduled.0) [
          | inr (e, bad) ↦ inl (ground (arith, same_pending, bad))
          | inl (y, e) ↦ elim (Bool-cases (text_eq y t)) [
            | inl same ↦ inr (
              y,
              e,
              same,
              ground (arith, same_pending, e, same, add_pending-counts t at.now y scheduled.1),
            )
            | inr other ↦
                inl (
                  ground (arith, same_pending, e, other, add_pending-counts t at.now y scheduled.1))
          ]
        ],
      )
