-- ===== src/Pool/Exclusive.antt =====
-- The pool hands no sandbox out twice (scheduler/internal/sandboxpool/service.go, `GetSandbox`,
-- `checkPendingSandboxes`, `createPoolSandbox`), on a Redis server that answers for its sorted sets.
use k8s_sched_demo.Persistence.PoolStore.{pending_sandboxes_key, ready_sandboxes_key, get_key}
use k8s_sched_demo.Pool.Members.{check-counts, create-adds, get-counts}
use k8s_sched_demo.Errors.{err, Error, ok}
use k8s_sched_demo.Pool.Counts.{valid_ids-same, count-rest-le, read_popped-counts, count}
use k8s_sched_demo.Types.Ids.{new_sandbox_id, SandboxId}
use k8s_sched_demo.Persistence.Redis.{IsSorted, IsServed}
use k8s_sched_demo.Pool.{
  check_pending_sandboxes, create_pool_sandbox, pool_key, get_sandbox, Moment, PoolService,
}
use k8s_sched_demo.Base.{
  inr, inl, ap, arith, ◌∙◌, text_eq_iff, sym, ◌∷◌, subst, ◌<◌, ◌+◌, true, ◌≤◌, text_eq, [], Text,
  List, ◌≡◌, ℕ,
}
use k8s_sched_demo.Pool.Members
use k8s_sched_demo.Scheduler.{schedule_sandbox, Sys}

module _ {R K : Type 0} (svc : PoolService R K) (elapse : R → R)
    (served : IsServed svc.scheduler_service.idempotence_store.client)
    (sorted_sets : IsSorted svc.pool_store.client (λ s. (served.db s).sorted))
    (calm : (s : R) → (served.db (elapse s)).sorted ≡ (served.db s).sorted) where
  open served use {db}

  abbrev readies : Sys R K → List Text
  readies = Members.readies svc elapse served sorted_sets calm

  abbrev pendings : Sys R K → List Text
  pendings = Members.pendings svc elapse served sorted_sets calm

  -- How often a sandbox is among the ones that were handed out and those in the pool.
  abbrev pub occurrences : Text → List SandboxId → Sys R K → ℕ
  occurrences t xs s = count t xs + count t (readies s) + count t (pendings s)

  -- A sandbox that is new to the pool.
  abbrev pub IsNew : SandboxId → List SandboxId → Sys R K → Type 0
  IsNew x xs s = (new_sandbox_id x ≡ ok x) × (occurrences x xs s ≡ 0)

  -- What happens at a pool, in any order: calls of GetSandbox, checks of the pending sandboxes,
  -- rounds of creation, and whatever else changes the cluster and the rest of Redis; with the
  -- sandboxes that the calls have handed out.
  pub data Run (start : Sys R K) : List SandboxId → Sys R K → Type 0 where
    begun : Run start [] start
    taken :
        {xs : List SandboxId} {s : Sys R K} (key : Text) (x : SandboxId)
        → Run start xs s
        → (get_sandbox svc elapse key s).0 ≡ ok x
        → Run start (x ∷ xs) (get_sandbox svc elapse key s).1
    refused :
        {xs : List SandboxId} {s : Sys R K} (key : Text) (e : Error)
        → Run start xs s
        → (get_sandbox svc elapse key s).0 ≡ err e
        → Run start xs (get_sandbox svc elapse key s).1
    checked :
        {xs : List SandboxId} {s : Sys R K} (now : ℕ)
        → Run start xs s
        → Run start xs (check_pending_sandboxes svc elapse now s).1
    created :
        {xs : List SandboxId} {s : Sys R K} (at : Moment)
        → Run start xs s
        → ((x : SandboxId)
            → (schedule_sandbox svc.scheduler_service elapse at.claim_ctx at.id_nanos at.random
                (pool_key at.key_nanos)
                s).0
              ≡ ok x
            → IsNew x xs s)
        → Run start xs (create_pool_sandbox svc elapse at s).1
    elsewhere :
        {xs : List SandboxId} {s : Sys R K} (s' : Sys R K)
        → Run start xs s
        → (db s'.redis).sorted ≡ (db s.redis).sorted
        → Run start xs s'

  -- No sandbox stands twice, and the members read back as they are written.
  abbrev pub IsExclusive : List SandboxId → Sys R K → Type 0
  IsExclusive xs s =
      (t : Text)
      → (occurrences t xs s ≤ 1)
        × (0 < count t (readies s) + count t (pendings s) → new_sandbox_id t ≡ ok t)

  IsNew-added :
      (t : Text) (x : SandboxId) (xs : List SandboxId) (s : Sys R K)
      → IsNew x xs s
      → text_eq x t ≡ true
      → (new_sandbox_id t ≡ ok t) × (occurrences t xs s ≡ 0)
  IsNew-added t x xs s new_one same =
      subst (λ u. (new_sandbox_id u ≡ ok u) × (occurrences u xs s ≡ 0)) ((text_eq_iff x t).0 same)
        new_one

  create-counts :
      (t : Text) (at : Moment) (xs : List SandboxId) (s : Sys R K)
      → (occurrences t xs s ≤ 1)
        × (0 < count t (readies s) + count t (pendings s) → new_sandbox_id t ≡ ok t)
      → ((x : SandboxId)
          → (schedule_sandbox svc.scheduler_service elapse at.claim_ctx at.id_nanos at.random
              (pool_key at.key_nanos)
              s).0
            ≡ ok x
          → IsNew x xs s)
      → let s' = (create_pool_sandbox svc elapse at s).1 in
        (occurrences t xs s' ≤ 1)
        × (0 < count t (readies s') + count t (pendings s') → new_sandbox_id t ≡ ok t)
  create-counts t at xs s (few, bare) new_ones =
      let (same_ready, adds) = create-adds svc elapse served sorted_sets calm t at s in
      elim adds [
        | inl same ↦
            (omega (arith, same_ready, same), λ here. bare (omega (arith, same_ready, same)))
        | inr (x, e, same, added) ↦
            let (reads, none_yet) = IsNew-added t x xs s (new_ones x e) same in
            (omega (arith, same_ready, added, none_yet), λ here. reads)
      ]

  Run-IsExclusive :
      {start s : Sys R K} {xs : List SandboxId}
      → IsExclusive [] start
      → Run start xs s
      → IsExclusive xs s
  Run-IsExclusive h begun = h
  Run-IsExclusive h (taken {xs} {s} key x r got) = λ t.
      let old = Run-IsExclusive h r in
      let (few, bare) = old t in
      let (answer, left, same) = get-counts svc elapse served sorted_sets calm t key s in
      let one =
        read_popped-counts t x (readies s) (sym answer ∙ got)
          λ u here. (old u).1 (omega (arith, here)) in
      let fewer = ap (count t) left in
      let kept = ap (count t) same in
      (omega (arith, one, fewer, kept, few), λ here. bare (omega (arith, one, fewer, kept, here)))
  Run-IsExclusive h (refused {xs} {s} key e r got) = λ t.
      let (few, bare) = Run-IsExclusive h r t in
      let (answer, left, same) = get-counts svc elapse served sorted_sets calm t key s in
      let fewer = ap (count t) left in
      let kept = ap (count t) same in
      let less = count-rest-le t (readies s) in
      (omega (arith, fewer, kept, less, few), λ here. bare (omega (arith, fewer, kept, less, here)))
  Run-IsExclusive h (checked {xs} {s} now r) = λ t.
      let old = Run-IsExclusive h r in
      let (few, bare) = old t in
      let reads = valid_ids-same (pendings s) (λ u here. (old u).1 (omega (arith, here))) in
      let counts =
        check-counts svc elapse served sorted_sets calm t now s reads (omega (arith, few)) in
      (omega (arith, counts, few), λ here. bare (omega (arith, counts, here)))
  Run-IsExclusive h (created {xs} {s} at r new_ones) =
      λ t. create-counts t at xs s (Run-IsExclusive h r t) new_ones
  Run-IsExclusive h (elsewhere {xs} {s} s' r same) = λ t.
      let (few, bare) = Run-IsExclusive h r t in
      let ready = ap (λ f. count t (f (get_key svc.pool_store ready_sandboxes_key))) same in
      let pending = ap (λ f. count t (f (get_key svc.pool_store pending_sandboxes_key))) same in
      (omega (arith, ready, pending, few), λ here. bare (omega (arith, ready, pending, here)))

  -- On a server that answers for its sorted sets, from a pool in which no sandbox stands twice and
  -- whose members read back as they are written, calls of GetSandbox, checks of the pending
  -- sandboxes and rounds of creation that schedule new sandboxes run in any order, while everything
  -- but the sets of the pool may change in between: no sandbox is handed out twice, and none that
  -- was handed out is still in the pool.
  pub Run-occurrences :
      {start s : Sys R K} {xs : List SandboxId}
      → ((t : Text) → occurrences t [] start ≤ 1)
      → ((t : Text)
          → 0 < count t (readies start) + count t (pendings start)
          → new_sandbox_id t ≡ ok t)
      → Run start xs s
      → (t : Text) → occurrences t xs s ≤ 1
  Run-occurrences few bare r t = (Run-IsExclusive (λ u. (few u, bare u)) r t).0
