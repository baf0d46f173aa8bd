-- ===== src/Pool/Promotion.antt =====
-- Which sandboxes the check of the pending ones moves (scheduler/internal/sandboxpool/service.go,
-- `checkPendingSandboxes`), on a Redis server that answers and while the cluster does not change.
use k8s_sched_demo.Pool.Rounds.{AreDistinct}
use k8s_sched_demo.Pool.Check.{contains-remove, contains-append}
use k8s_sched_demo.Persistence.PoolStore.{
  valid_ids, get_pending_sandboxes, ready-pending, pending-ready, add_ready_sandbox,
  remove_pending_sandbox, ready_sandboxes_key, pending_sandboxes_key, get_key,
}
use k8s_sched_demo.Types.Ids.{SandboxId}
use k8s_sched_demo.Persistence.Redis.{remove, contains, IsSorted}
use k8s_sched_demo.Pool.{check_pending_sandboxes, check_loop, move_to_ready, PoolService}
use k8s_sched_demo.Errors.{Result-cases, ok, err, Result}
use k8s_sched_demo.Base.{
  is_empty, inr, inl, if◌then◌else◌, Bool-cases, text_eq_iff, text_eq_refl, ap, not, ◌&&◌, ◌||◌,
  refl, text_eq, [], text_eq_sym, arith, ◌∷◌, ◌≡◌, false, List, Bool, Text, ℕ,
}
use k8s_sched_demo.Scheduler.{is_sandbox_ready, Sys}

contains-remove_self :
    (t : Text) (xs : List Text) → AreDistinct xs → contains t (remove t xs) ≡ false
contains-remove_self t [] h = refl
contains-remove_self t (x ∷ xs) (absent, h) =
    ground (arith, text_eq_iff x t, contains-remove_self t xs h)

remove-AreDistinct : (t : Text) (xs : List Text) → AreDistinct xs → AreDistinct (remove t xs)
remove-AreDistinct t [] h = tt
remove-AreDistinct t (x ∷ xs) (absent, h) = elim (Bool-cases (text_eq x t)) [
  | inl same ↦ rw same h
  | inr other ↦
      rw other
        (rw (contains-remove x t xs (rw (text_eq_sym t x) other)) absent, remove-AreDistinct t xs h)
]

-- Whether an answer says that a sandbox is ready.
abbrev pub says_ready : Result Bool → Bool
says_ready (err e) = false
says_ready (ok is_ready) = is_ready

module _ {R K : Type 0} (svc : PoolService R K) (elapse : R → R) {sorted : R → Text → List Text}
    (sorted_sets : IsSorted svc.pool_store.client sorted)
    (still : (x : SandboxId) (k : K)
      → (svc.scheduler_service.k8s_client.is_sandbox_ready x k).1 ≡ k)
    (t : Text) where
  abbrev pub is_ready_member : R → Bool
  is_ready_member r = contains t (sorted r (get_key svc.pool_store ready_sandboxes_key))

  abbrev pub is_pending_member : R → Bool
  is_pending_member r = contains t (sorted r (get_key svc.pool_store pending_sandboxes_key))

  abbrev pub pending_members : R → List Text
  pending_members r = sorted r (get_key svc.pool_store pending_sandboxes_key)

  -- Whether the scheduler service finds a sandbox ready.
  abbrev pub is_ready : SandboxId → Sys R K → Bool
  is_ready x s = says_ready (is_sandbox_ready svc.scheduler_service x s).0

  move_to_ready-moves :
      (now : ℕ) (x : SandboxId) (s : Sys R K)
      → AreDistinct (pending_members s.redis)
      → let s' = move_to_ready svc elapse now x s in
        (is_ready_member s'.redis ≡ (text_eq x t || is_ready_member s.redis))
        × (is_pending_member s'.redis ≡ (is_pending_member s.redis && not (text_eq x t)))
        × (pending_members s'.redis ≡ remove x (pending_members s.redis))
        × (s'.kube ≡ s.kube)
  unfolding move_to_ready remove_pending_sandbox add_ready_sandbox
  move_to_ready-moves now x s distinct =
      let q = get_key svc.pool_store ready_sandboxes_key in
      let p = get_key svc.pool_store pending_sandboxes_key in
      let r₁ = (svc.pool_store.client.z_rem p x s.redis).1 in
      let removed = sorted_sets.rem_sorted p x s.redis in
      let (before, after, cut, whole) = sorted_sets.add_sorted q x now r₁ in
      ground (
        arith,
        sorted_sets.rem_reply p x s.redis,
        sorted_sets.add_reply q x now r₁,
        ap (λ f. contains t (f q)) removed,
        ap (λ f. contains t (f p)) removed,
        ap (λ f. contains t (f q)) whole,
        ap (λ f. contains t (f p)) whole,
        ap (λ f. f p) removed,
        ap (λ f. f p) whole,
        text_eq_refl q,
        text_eq_refl p,
        pending-ready svc.pool_store,
        ready-pending svc.pool_store,
        text_eq_iff x t,
        contains-append t before (x ∷ after),
        contains-append t before after,
        ap (contains t) cut,
        contains-remove_self t (sorted s.redis p) distinct,
        contains-remove t x (sorted s.redis p),
        contains-remove t x (sorted r₁ q),
      )

  -- What the check of one pending sandbox leads to.
  abbrev checked : ℕ → SandboxId → Sys R K → Sys R K
  checked now x s =
      let (ready, s₁) = is_sandbox_ready svc.scheduler_service x s in
      elim ready [
        | err e ↦ s₁
        | ok ready_now ↦ if ready_now then move_to_ready svc elapse now x s₁ else s₁
      ]

  is_ready-kube : (x : SandboxId) (s s' : Sys R K) → s'.kube ≡ s.kube → is_ready x s' ≡ is_ready x s
  unfolding is_sandbox_ready
  is_ready-kube x s s' e = ground (arith, e)

  looked-same : (x : SandboxId) (s : Sys R K) → (is_sandbox_ready svc.scheduler_service x s).1 ≡ s
  unfolding is_sandbox_ready
  looked-same x s = elim (Bool-cases (is_empty x)) [
    | inl e ↦ rw e refl
    | inr e ↦ rw e (ap (λ k. record s { kube = k }) (still x s.kube))
  ]

  checked_lem :
      (now : ℕ) (x : SandboxId) (s : Sys R K)
      → checked now x s ≡ (if is_ready x s then move_to_ready svc elapse now x s else s)
  checked_lem now x s =
      ground (arith, Result-cases (is_sandbox_ready svc.scheduler_service x s).0, looked-same x s)

  checked-moves :
      (now : ℕ) (x : SandboxId) (s : Sys R K)
      → AreDistinct (pending_members s.redis)
      → let s' = checked now x s in
        (is_ready_member s'.redis ≡ ((text_eq x t && is_ready t s) || is_ready_member s.redis))
        × (is_pending_member s'.redis
            ≡ (is_pending_member s.redis && not (text_eq x t && is_ready t s)))
        × AreDistinct (pending_members s'.redis)
        × (s'.kube ≡ s.kube)
  checked-moves now x s distinct = elim (Bool-cases (is_ready x s)) [
    | inl e ↦
        let (readied, left, members, kube) = move_to_ready-moves now x s distinct in
        rw (checked_lem now x s, e)
          (
            ground (arith, readied, text_eq_iff x t, e),
            ground (arith, left, text_eq_iff x t, e),
            rw members (remove-AreDistinct x (pending_members s.redis) distinct),
            kube,
          )
    | inr e ↦
        rw (checked_lem now x s, e)
          (ground (arith, text_eq_iff x t, e), ground (arith, text_eq_iff x t, e), distinct, refl)
  ]

  check_loop-moves :
      (now : ℕ) (xs : List SandboxId) (s : Sys R K)
      → AreDistinct (pending_members s.redis)
      → let s' = check_loop svc elapse now xs s in
        (is_ready_member s'.redis ≡ ((contains t xs && is_ready t s) || is_ready_member s.redis))
        × (is_pending_member s'.redis
            ≡ (is_pending_member s.redis && not (contains t xs && is_ready t s)))
  unfolding check_loop
  check_loop-moves now [] s distinct = ground arith
  check_loop-moves now (x ∷ xs) s distinct =
      let (readied, left, still_distinct, kube) = checked-moves now x s distinct in
      let later = check_loop-moves now xs (checked now x s) still_distinct in
      ground (arith, readied, left, later, is_ready-kube t s (checked now x s) kube)

  -- The check of the pending sandboxes, on a server that answers for its sorted sets, while the
  -- cluster does not change, with pending members that are distinct and read back as they are
  -- written: afterwards a sandbox is ready exactly if it was ready, or was pending and the
  -- scheduler service finds it ready; it is pending exactly if it was pending and is not found
  -- ready, an error of that question included.
  pub check_pending-Partition :
      (now : ℕ) (s : Sys R K)
      → AreDistinct (pending_members s.redis)
      → valid_ids (pending_members s.redis) ≡ pending_members s.redis
      → let s' = (check_pending_sandboxes svc elapse now s).1 in
        (is_ready_member s'.redis
          ≡ (is_ready_member s.redis || (is_pending_member s.redis && is_ready t s)))
        × (is_pending_member s'.redis ≡ (is_pending_member s.redis && not (is_ready t s)))
  unfolding check_pending_sandboxes get_pending_sandboxes
  check_pending-Partition now s distinct bare =
      let p = get_key svc.pool_store pending_sandboxes_key in
      let s₁ : Sys R K = record s { redis = (svc.pool_store.client.z_range p s.redis).1 } in
      let same = sorted_sets.range_sorted p s.redis in
      ground (
        arith,
        sorted_sets.range_reply p s.redis,
        bare,
        ap (λ f. contains t (f p)) same,
        ap (λ f. contains t (f (get_key svc.pool_store ready_sandboxes_key))) same,
        is_ready-kube t s s₁ refl,
        check_loop-moves now (pending_members s.redis) s₁ (rw (ap (λ f. f p) same) distinct),
      )
