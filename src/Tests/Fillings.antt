-- ===== src/Tests/Fillings.antt =====
-- A round of maintenance at an empty pool of two with at most one pending.
use k8s_sched_demo.Scheduler.Idempotency.{schedule_fresh}
use k8s_sched_demo.Errors.{ok}
use k8s_sched_demo.Tests.Fakes.{live_ctx, fake_interface, fake_service, fake_sorted, fake_served}
use k8s_sched_demo.Pool.Filling.{
  maintain_pool-fills, no_more, one_more, Creates, counted, after_check,
}
use k8s_sched_demo.Kube.Spec.{sandbox_pod}
use k8s_sched_demo.Kube.Interface.{k8s_interface}
use k8s_sched_demo.Base.{◌-◌, min, max, false, [], ◌∷◌, ◌≡◌, text_eq, refl, true, codes, List}
use k8s_sched_demo.Types.Ids.{sandbox_with_prefix, SandboxId}
use k8s_sched_demo.Types.Base36.{encode_base36, generate_sandbox_id, digits_loop}
use k8s_sched_demo.Pool.{maintain_pool, pool_key, check_pending_sandboxes, to_create}
use k8s_sched_demo.Persistence.Redis.{Db}
use k8s_sched_demo.Persistence.PoolStore.{count_pending_sandboxes, count_ready_sandboxes}
use k8s_sched_demo.Kube.Api.{Pod}
use k8s_sched_demo.Tests.Pools.{pending_size, ready_size, pool, quiet, noon, start}
use k8s_sched_demo.Scheduler.{schedule_sandbox, Sys}
use k8s_sched_demo.Kube.Client as K

abbrev x : SandboxId
x = codes "10"

abbrev pod_10 : Pod
pod_10 = sandbox_pod (codes "sandbox") (codes "image") true x

abbrev at_start : Sys Db (List Pod)
at_start =
    counted pool quiet fake_served fake_sorted (λ s. refl) noon
      (after_check pool quiet fake_served fake_sorted (λ s. refl) noon 12 start)

created : fake_interface.schedule_sandbox 36 0 start.kube ≡ (ok x, pod_10 ∷ [])
unfolding digits_loop k8s_interface K.schedule_sandbox generate_sandbox_id encode_base36 sandbox_pod
    sandbox_with_prefix text_eq
created = refl

scheduled : (schedule_sandbox fake_service quiet live_ctx 36 0 (pool_key 7) at_start).0 ≡ ok x
unfolding count_ready_sandboxes count_pending_sandboxes check_pending_sandboxes pool_key
scheduled =
    (schedule_fresh fake_service fake_served quiet live_ctx 36 0 (pool_key 7) x at_start
      (pod_10 ∷ []) refl refl refl refl created).0

abbrev checked_start : Sys Db (List Pod)
checked_start = after_check pool quiet fake_served fake_sorted (λ s. refl) noon 12 start

creates :
    Creates pool quiet fake_served fake_sorted
      (λ s. refl)
      noon
      (to_create pool quiet (ready_size checked_start) (pending_size checked_start))
      0
      at_start
unfolding to_create count_ready_sandboxes count_pending_sandboxes
creates = one_more 0 0 at_start x scheduled refl (no_more 1 _)

maintain_pool-fills_example :
    let s' = (maintain_pool pool quiet false 12 noon start).1 in
    (ready_size s' ≡ ready_size checked_start)
    × (pending_size s' ≡ max (pending_size checked_start) (min 1 (2 - ready_size checked_start)))
maintain_pool-fills_example =
    maintain_pool-fills pool quiet fake_served fake_sorted (λ s. refl) noon 12 start creates
