-- ===== src/Tests/Pools.antt =====
-- The properties of the cleanup and the pool at concrete inputs.
use k8s_sched_demo.Pool.Promotion.{
  check_pending-Partition, is_ready, is_pending_member, is_ready_member,
}
use k8s_sched_demo.Scheduler.Expired.{Listing-IsExpired, IsExpired}
use k8s_sched_demo.Pool.Fifo.{get_sandboxes-taken_from, ready_members, taken_from, get_sandboxes}
use k8s_sched_demo.Pool.Rounds.{pending_members, maintain_pool-bounds, AreDistinct}
use k8s_sched_demo.Pool.Job.{Tick, start-holds}
use k8s_sched_demo.Pool.Job
use k8s_sched_demo.Pool.Check.{holds}
use k8s_sched_demo.Persistence.PoolStore.{
  add_ready_sandbox, valid_ids, get_key, add_pending_sandbox,
}
use k8s_sched_demo.Errors.{ok}
use k8s_sched_demo.Tests.Fakes.{
  fake_client, fake_sorted, live_ctx, fake_served, fake_interface, fake_service, fake_redis,
  empty_db,
}
use k8s_sched_demo.Scheduler.Cleanup.{
  Listing, last, more, cleanup_loop-Listing, sandboxes_of, release_all,
}
use k8s_sched_demo.Pool.Bounds.{ready_count, pending_count}
use k8s_sched_demo.Kube.Spec.{sandbox_pod}
use k8s_sched_demo.Kube.Client.{get_pods_older_than}
use k8s_sched_demo.Types.Ids.{new_sandbox_id, sandbox_with_prefix, SandboxId}
use k8s_sched_demo.Scheduler.{release_sandbox, cleanup_loop, Sys}
use k8s_sched_demo.Pool.{check_pending_sandboxes, maintain_pool, Moment, PoolService}
use k8s_sched_demo.Persistence.Redis.{Db}
use k8s_sched_demo.Kube.Interface.{k8s_interface}
use k8s_sched_demo.Kube.Api.{PodPhase, Pod}
use k8s_sched_demo.Base.{
  not, ◌&&◌, ◌||◌, All, false, arith, none, trim_prefix, text_eq, max, length, ◌≤◌, ◌++◌, some, ◌∷◌,
  ◌+◌, true, refl, [], ◌≡◌, codes, ℕ, strip_prefix, List,
}
use k8s_sched_demo.Kube.Client as K

abbrev pub quiet : Db → Db
quiet d = d

abbrev pod_11 : Pod
pod_11 = sandbox_pod (codes "sandbox") (codes "image") true (codes "11")

abbrev pub start : Sys Db (List Pod)
start = record { redis = empty_db; kube = [] }

-- Two pods, on a page each, of which the second is no sandbox of the scheduler.
abbrev stray : Pod
stray = record pod_11 { name = codes "sandbox-" }

abbrev two_pods : Sys Db (List Pod)
two_pods = record { redis = empty_db; kube = pod_11 ∷ stray ∷ [] }

abbrev after_first : Sys Db (List Pod)
after_first = release_all fake_service (sandboxes_of (codes "sandbox-11" ∷ [])) two_pods

first_page :
    fake_interface.get_pods_older_than 100 [] two_pods.kube
    ≡ (ok (codes "sandbox-11" ∷ [], codes "more"), two_pods.kube)
unfolding k8s_interface get_pods_older_than sandbox_pod sandbox_with_prefix
first_page = refl

second_page :
    fake_interface.get_pods_older_than 100 (codes "more") after_first.kube
    ≡ (ok (codes "sandbox-" ∷ [], []), after_first.kube)
unfolding k8s_interface get_pods_older_than sandbox_pod sandbox_with_prefix release_all
    release_sandbox K.release_sandbox sandboxes_of new_sandbox_id trim_prefix strip_prefix text_eq
second_page = refl

abbrev after_second : Sys Db (List Pod)
after_second = release_all fake_service (sandboxes_of (codes "sandbox-" ∷ [])) after_first

abbrev both_pages : List SandboxId
both_pages = sandboxes_of (codes "sandbox-11" ∷ []) ++ sandboxes_of (codes "sandbox-" ∷ [])

two_pages : Listing fake_service 100 [] two_pods both_pages none 2 after_second
two_pages =
    more [] two_pods (codes "sandbox-11" ∷ []) (codes "more") two_pods.kube
      (sandboxes_of (codes "sandbox-" ∷ [])) none 1 after_second first_page refl
      (last (codes "more") after_first (codes "sandbox-" ∷ []) after_first.kube second_page)

cleanup_loop_example :
    cleanup_loop fake_service 2 100 [] 0 two_pods ≡ some (0 + length both_pages, none, after_second)
cleanup_loop_example = cleanup_loop-Listing fake_service 100 2 0 two_pages (omega arith)

Listing-IsExpired_example :
    All (IsExpired fake_service (λ pods. pods) fake_client refl 100 [] two_pods) both_pages
Listing-IsExpired_example =
    Listing-IsExpired fake_service (λ pods. pods) fake_client refl 100 two_pages

-- A pool of two with at most one pending.
abbrev pub pool : PoolService Db (List Pod)
pool = record {
  pool_store = record { client = fake_redis; key_prefix = codes "sch:" };
  scheduler_service = fake_service;
  config = record { pool_enabled = true; pool_size = 2; pool_max_pending = 1 };
}

abbrev pub noon : ℕ → Moment
noon i = record { key_nanos = 7 + i; id_nanos = 36; random = i; claim_ctx = live_ctx; now = 12 }

abbrev pub ready_size : Sys Db (List Pod) → ℕ
ready_size = ready_count pool quiet fake_served fake_sorted (λ s. refl)

abbrev pub pending_size : Sys Db (List Pod) → ℕ
pending_size = pending_count pool quiet fake_served fake_sorted (λ s. refl)

-- One sandbox waits in the pool.
abbrev waiting : Sys Db (List Pod)
waiting = record {
  redis = (add_pending_sandbox pool.pool_store 12 (codes "11") empty_db).1;
  kube = pod_11 ∷ [];
}

waiting-holds : holds pool quiet fake_sorted (codes "11") waiting.redis ≡ true
unfolding add_pending_sandbox get_key text_eq
waiting-holds = refl

-- The pool starts with one pending sandbox; a second tick finds the mutex held.
abbrev tick : Tick
tick = record { locked = false; now = 12; at = noon }

abbrev blocked_tick : Tick
blocked_tick = record { locked = true; now = 27; at = noon }

start-holds_example :
    holds pool quiet fake_sorted
      (codes "11")
      (Job.start pool quiet (tick ∷ blocked_tick ∷ []) waiting).redis
    ≡ true
start-holds_example =
    start-holds pool quiet fake_served fake_sorted (λ s. refl) (codes "11")
      (tick ∷ blocked_tick ∷ []) waiting waiting-holds

waiting-AreDistinct :
    AreDistinct (pending_members pool quiet fake_served fake_sorted (λ s. refl) waiting)
unfolding add_pending_sandbox get_key text_eq
waiting-AreDistinct = (refl, tt)

waiting_bare :
    valid_ids (pending_members pool quiet fake_served fake_sorted (λ s. refl) waiting)
    ≡ pending_members pool quiet fake_served fake_sorted (λ s. refl) waiting
unfolding add_pending_sandbox get_key text_eq valid_ids new_sandbox_id trim_prefix strip_prefix
waiting_bare = refl

maintain_pool-bounds_example :
    let s' = (maintain_pool pool quiet false 12 noon waiting).1 in
    (ready_size waiting ≤ ready_size s')
    × (ready_size s' + pending_size s' ≤ max 2 (ready_size waiting + pending_size waiting))
    × (pending_size s' ≤ max 1 (pending_size waiting))
maintain_pool-bounds_example =
    maintain_pool-bounds pool quiet fake_served fake_sorted (λ s. refl) false 12 noon waiting
      waiting-AreDistinct waiting_bare

-- One sandbox is ready, and two are asked for.
abbrev pub one_ready : Sys Db (List Pod)
one_ready = record {
  redis = (add_ready_sandbox pool.pool_store 12 (codes "11") empty_db).1;
  kube = pod_11 ∷ [];
}

get_sandboxes-taken_from_example :
    get_sandboxes pool quiet fake_sorted 2 (codes "key") one_ready
    ≡ taken_from 2 (ready_members pool quiet fake_sorted one_ready)
get_sandboxes-taken_from_example =
    get_sandboxes-taken_from pool quiet fake_sorted 2 (codes "key") one_ready

-- A pod whose containers run, behind a sandbox that is still pending.
abbrev started : Sys Db (List Pod)
started = record waiting {
  kube =
      record pod_11 {
        status = record { phase = PodPhase.running; conditions = []; container_statuses = [] };
      }
      ∷ [];
}

looks-same : (x : SandboxId) (pods : List Pod) → (fake_interface.is_sandbox_ready x pods).1 ≡ pods
unfolding k8s_interface K.is_sandbox_ready
looks-same x pods = refl

check_pending-Partition_example :
    let s' = (check_pending_sandboxes pool quiet 12 started).1 in
    (is_ready_member pool quiet fake_sorted looks-same (codes "11") s'.redis ≡ (
      is_ready_member pool quiet fake_sorted looks-same (codes "11") started.redis
      || (is_pending_member pool quiet fake_sorted looks-same (codes "11") started.redis
          && is_ready pool quiet fake_sorted looks-same (codes "11") (codes "11") started)))
    × (is_pending_member pool quiet fake_sorted looks-same (codes "11") s'.redis ≡ (
        is_pending_member pool quiet fake_sorted looks-same (codes "11") started.redis
        && not (is_ready pool quiet fake_sorted looks-same (codes "11") (codes "11") started)))
check_pending-Partition_example =
    check_pending-Partition pool quiet fake_sorted looks-same (codes "11") 12 started
      waiting-AreDistinct waiting_bare
