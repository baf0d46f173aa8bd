-- ===== src/Scheduler/Sorted.antt =====
-- Scheduling a sandbox leaves the sorted sets of Redis alone, on a Redis server that answers.
use k8s_sched_demo.Persistence.Idempotence.Sorted.{
  complete-sorted, drop-sorted, claim_or_wait-sorted,
}
use k8s_sched_demo.Persistence.Claim.{complete}
use k8s_sched_demo.Errors.{value_or}
use k8s_sched_demo.Types.Ids.{SandboxId}
use k8s_sched_demo.Persistence.Idempotence.{claim_or_wait}
use k8s_sched_demo.Persistence.Context.{Context}
use k8s_sched_demo.Persistence.Redis.{IsServed}
use k8s_sched_demo.Base.{arith, [], Text, ℕ, ◌≡◌}
use k8s_sched_demo.Scheduler.{Sys, Service, schedule_sandbox}

module _ {R K : Type 0} (svc : Service R K) (served : IsServed svc.idempotence_store.client)
    (elapse : R → R) where
  open served use {db}

  pub schedule_sandbox-sorted :
      (calm : (s : R) → (db (elapse s)).sorted ≡ (db s).sorted)
      → (ctx : Context) (nanos random : ℕ) (key : Text) (s : Sys R K)
      → (db (schedule_sandbox svc elapse ctx nanos random key s).1.redis).sorted
        ≡ (db s.redis).sorted
  unfolding schedule_sandbox
  schedule_sandbox-sorted calm ctx nanos random key s =
      let store = svc.idempotence_store in
      let claim = claim_or_wait store elapse ctx key s.redis in
      let created = svc.k8s_client.schedule_sandbox nanos random s.kube in
      let x : SandboxId = value_or [] created.0 in
      let done = complete claim.0 x claim.1 in
      ground (
        arith,
        claim_or_wait-sorted store served elapse calm ctx key s.redis,
        drop-sorted store served elapse claim.0 claim.1,
        complete-sorted store served elapse claim.0 x claim.1,
        drop-sorted store served elapse done.1 done.2,
      )
