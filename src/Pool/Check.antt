-- ===== src/Pool/Check.antt =====
-- The check of the pending sandboxes (scheduler/internal/sandboxpool/service.go,
-- `checkPendingSandboxes`), on a Redis server that answers.
use k8s_sched_demo.Errors.{ok, err}
use k8s_sched_demo.Scheduler.{is_sandbox_ready, Sys}
use k8s_sched_demo.Types.Ids.{SandboxId}
use k8s_sched_demo.Persistence.PoolStore.{
  ready-pending, pending-ready, valid_ids, get_pending_sandboxes, add_ready_sandbox,
  remove_pending_sandbox, ready_sandboxes_key, pending_sandboxes_key, get_key,
}
use k8s_sched_demo.Persistence.Redis.{remove, contains, IsSorted}
use k8s_sched_demo.Pool.{check_pending_sandboxes, check_loop, move_to_ready, PoolService}
use k8s_sched_demo.Base.{
  if◌then◌else◌, text_eq_refl, ap, true, refl, text_eq_iff, [], ℕ, arith, ◌∷◌, ◌||◌, false, ◌≡◌,
  ◌++◌, Bool, text_eq, List, Text,
}

pub contains-append :
    (t : Text) (xs ys : List Text) → contains t (xs ++ ys) ≡ (contains t xs || contains t ys)
contains-append t [] ys = refl
contains-append t (x ∷ xs) ys = ground (arith, contains-append t xs ys)

-- Removing a text leaves the others.
pub contains-remove :
    (t x : Text) (xs : List Text) → text_eq x t ≡ false → contains t (remove x xs) ≡ contains t xs
contains-remove t x [] ne = refl
contains-remove t x (y ∷ ys) ne = ground (arith, text_eq_iff y x, contains-remove t x ys ne)

module _ {R K : Type 0} (svc : PoolService R K) (elapse : R → R) {sorted : R → Text → List Text}
    (sorted_sets : IsSorted svc.pool_store.client sorted) (t : Text) where
  abbrev ready_key : Text
  ready_key = get_key svc.pool_store ready_sandboxes_key

  abbrev pending_key : Text
  pending_key = get_key svc.pool_store pending_sandboxes_key

  -- Whether a sandbox is in the pool, ready or pending.
  abbrev pub holds : R → Bool
  holds r = contains t (sorted r ready_key) || contains t (sorted r pending_key)

  move_to_ready-holds :
      (now : ℕ) (x : SandboxId) (s : Sys R K)
      → holds s.redis ≡ true
      → holds (move_to_ready svc elapse now x s).redis ≡ true
  unfolding move_to_ready remove_pending_sandbox add_ready_sandbox
  move_to_ready-holds now x s h =
      let r₁ = (svc.pool_store.client.z_rem pending_key x s.redis).1 in
      let removed = sorted_sets.rem_sorted pending_key x s.redis in
      let (before, after, cut, whole) = sorted_sets.add_sorted ready_key x now r₁ in
      ground (
        arith,
        sorted_sets.rem_reply pending_key x s.redis,
        ap (λ f. contains t (f ready_key)) removed,
        ap (λ f. contains t (f pending_key)) removed,
        ap (λ f. contains t (f ready_key)) whole,
        ap (λ f. contains t (f pending_key)) whole,
        text_eq_refl ready_key,
        text_eq_refl pending_key,
        pending-ready svc.pool_store,
        ready-pending svc.pool_store,
        contains-append t before (x ∷ after),
        contains-append t before after,
        ap (contains t) cut,
        contains-remove t x (sorted s.redis pending_key),
        contains-remove t x (sorted r₁ ready_key),
      )

  check_loop-holds :
      (now : ℕ) (xs : List SandboxId) (s : Sys R K)
      → holds s.redis ≡ true
      → holds (check_loop svc elapse now xs s).redis ≡ true
  unfolding check_loop is_sandbox_ready
  check_loop-holds now [] s h = h
  check_loop-holds now (x ∷ xs) s h =
      let looked = is_sandbox_ready svc.scheduler_service x s in
      check_loop-holds now xs
        (elim looked.0 [
          | err e ↦ looked.1
          | ok is_ready ↦ if is_ready then move_to_ready svc elapse now x looked.1 else looked.1
        ])
        (ground (arith, move_to_ready-holds now x looked.1))

  -- On a server that answers for its sorted sets, the check of the pending sandboxes loses none: a
  -- sandbox that the pool holds before it, ready or pending, is ready or pending after it, whatever
  -- the cluster answers.
  pub check_pending_sandboxes-holds :
      (now : ℕ) (s : Sys R K)
      → holds s.redis ≡ true
      → holds (check_pending_sandboxes svc elapse now s).1.redis ≡ true
  unfolding check_pending_sandboxes get_pending_sandboxes
  check_pending_sandboxes-holds now s h =
      let r₁ = (svc.pool_store.client.z_range pending_key s.redis).1 in
      let xs = valid_ids (sorted s.redis pending_key) in
      ground (
        arith,
        sorted_sets.range_reply pending_key s.redis,
        ap (λ f. contains t (f ready_key)) (sorted_sets.range_sorted pending_key s.redis),
        ap (λ f. contains t (f pending_key)) (sorted_sets.range_sorted pending_key s.redis),
        check_loop-holds now xs (record s { redis = r₁ }),
      )
