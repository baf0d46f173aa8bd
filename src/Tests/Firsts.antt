-- ===== src/Tests/Firsts.antt =====
-- The first call for a project, on a cluster whose pods run by the first poll.
use k8s_sched_demo.Persistence.Idempotence.Effects.{recorded, pending}
use k8s_sched_demo.Project.First.{first_call-active}
use k8s_sched_demo.Types.Ids.{SandboxId, sandbox_with_prefix}
use k8s_sched_demo.Tests.Fakes.{fake_served, fake_service, fake_redis, fake_client}
use k8s_sched_demo.Types.Base36.{digits_loop, encode_base36, generate_sandbox_id}
use k8s_sched_demo.Persistence.PoolStore.{get_ready_sandbox}
use k8s_sched_demo.Kube.Spec.{sandbox_pod}
use k8s_sched_demo.Kube.Api.{PodPhase, Pod}
use k8s_sched_demo.Errors.{Result, ok, pool_empty, not_found, err}
use k8s_sched_demo.Pool.{get_sandbox}
use k8s_sched_demo.Persistence.Redis.{Db}
use k8s_sched_demo.Kube.Interface.{k8s_interface, K8sInterface}
use k8s_sched_demo.Base.{none, false, [], text_eq, refl, codes, ◌∷◌, ◌≡◌, true, List}
use k8s_sched_demo.Tests.Projects.{around, p, x, pod, p-IsProjectId, x-IsSandboxId, start}
use k8s_sched_demo.Persistence.Store
use k8s_sched_demo.Kube.Client as K
use k8s_sched_demo.Scheduler.{Sys, Service}
use k8s_sched_demo.Project.{active, respond, ProjectService, get_project_sandbox}

abbrev run_all : List Pod → List Pod
run_all [] = []
run_all (q ∷ qs) =
    record q {
      status = record { phase = PodPhase.running; conditions = []; container_statuses = [] };
    }
    ∷ run_all qs

abbrev lively : K8sInterface (List Pod)
lively = k8s_interface run_all fake_client

abbrev lively_service : Service Db (List Pod)
lively_service = record fake_service { k8s_client = lively }

abbrev lively_projects : ProjectService Db (List Pod)
lively_projects = record {
  scheduler_service = lively_service;
  sandbox_pool = record {
    pool_store = record { client = fake_redis; key_prefix = codes "sch:" };
    scheduler_service = lively_service;
    config = record { pool_enabled = false; pool_size = 2; pool_max_pending = 1 };
  };
  store = lively_service.store;
  k8s_client = lively;
}

none_yet : (Store.get_project_sandbox lively_projects.store p start.redis).0 ≡ err not_found
unfolding Store.get_project_sandbox
none_yet = refl

abbrev after_pool : Result SandboxId × Sys Db (List Pod)
after_pool =
    get_sandbox lively_projects.sandbox_pool around.elapse p
      (record start { redis = (Store.get_project_sandbox lively_projects.store p start.redis).1 })

none_ready : after_pool ≡ (err pool_empty, after_pool.1)
unfolding Store.get_project_sandbox get_sandbox get_ready_sandbox
none_ready = refl

key_free : recorded lively_service.idempotence_store p after_pool.1.redis ≡ none
unfolding Store.get_project_sandbox get_sandbox get_ready_sandbox
key_free = refl

key_unmarked : pending lively_service.idempotence_store p after_pool.1.redis ≡ none
unfolding Store.get_project_sandbox get_sandbox get_ready_sandbox
key_unmarked = refl

created : lively.schedule_sandbox around.nanos around.random after_pool.1.kube ≡ (ok x, pod ∷ [])
unfolding get_sandbox digits_loop k8s_interface K.schedule_sandbox generate_sandbox_id encode_base36
    sandbox_pod sandbox_with_prefix text_eq
created = refl

ready :
    (lively.wait_for_sandbox_ready around.wait_ctx x
      (lively.create_or_update_project_service p x (pod ∷ [])).1).0
    ≡ ok true
unfolding k8s_interface K.wait_for_sandbox_ready K.ready_loop K.is_sandbox_ready
    K.create_or_update_project_service sandbox_pod sandbox_with_prefix text_eq
ready = refl

first_call-active_example :
    let (answer, s') = get_project_sandbox lively_projects around p true start in
    (answer ≡ respond x active (lively.get_project_service_hostname p))
    × ((Store.get_project_sandbox lively_projects.store p s'.redis).0 ≡ ok x)
    × (s'.kube
        ≡ (lively.wait_for_sandbox_ready around.wait_ctx x
            (lively.create_or_update_project_service p x (pod ∷ [])).1).1)
first_call-active_example =
    first_call-active lively_projects around fake_served fake_served p x start after_pool.1
      (pod ∷ []) refl p-IsProjectId x-IsSandboxId none_yet none_ready key_free key_unmarked created
      ready
