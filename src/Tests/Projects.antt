-- ===== src/Tests/Projects.antt =====
-- The properties of the project service at concrete inputs.
use k8s_sched_demo.Project.{get_project_sandbox, creating, respond, Surroundings, ProjectService}
use k8s_sched_demo.Persistence.Idempotence.Effects.{recorded}
use k8s_sched_demo.Errors.{pool_empty, ok, err}
use k8s_sched_demo.Project.Reassigned.{released_sandbox_reassigned, wired, looked_up}
use k8s_sched_demo.Tests.Fakes.{
  fake_served, live_ctx, fake_service, fake_interface, empty_db, fake_redis,
}
use k8s_sched_demo.Persistence.PoolStore.{get_ready_sandbox}
use k8s_sched_demo.Kube.Spec.{sandbox_pod}
use k8s_sched_demo.Types.Ids.{new_project_id, IsSandboxId, IsProjectId, SandboxId, ProjectId}
use k8s_sched_demo.Scheduler.Deployed.{deployed}
use k8s_sched_demo.Scheduler.{release_sandbox, is_sandbox_gone, Sys}
use k8s_sched_demo.Pool.{get_sandbox, PoolService}
use k8s_sched_demo.Persistence.Store.{
  form_all_projects_set_key, form_project_sandbox_key, form_sandbox_project_key, set_commands,
  form_released_key, is_sandbox_released,
}
use k8s_sched_demo.Persistence.Redis.{apply, apply_all, put, Db}
use k8s_sched_demo.Persistence.Idempotence.{
  form_sandbox_idempotence_key, form_pending_key, form_key, complete_commands,
  complete_pending_creation,
}
use k8s_sched_demo.Kube.Api.{Pod}
use k8s_sched_demo.Base.{
  trim_prefix, some, text_eq, false, ◌∷◌, [], ◌≡◌, refl, true, codes, List, strip_prefix,
}
use k8s_sched_demo.Persistence.Store

abbrev quiet : Db → Db
quiet d = d

abbrev pub p : ProjectId
p = codes "p"

abbrev pub x : SandboxId
x = codes "11"

abbrev pub pod : Pod
pod = sandbox_pod (codes "sandbox") (codes "image") true x

-- No sandbox is held ahead: the pool is empty.
abbrev pool : PoolService Db (List Pod)
pool = record {
  pool_store = record { client = fake_redis; key_prefix = codes "sch:" };
  scheduler_service = fake_service;
  config = record { pool_enabled = true; pool_size = 2; pool_max_pending = 1 };
}

abbrev pub projects : ProjectService Db (List Pod)
projects = record {
  scheduler_service = fake_service;
  sandbox_pool = pool;
  store = fake_service.store;
  k8s_client = fake_interface;
}

abbrev pub around : Surroundings Db (List Pod)
around = record {
  elapse = quiet;
  maintenance = λ s. s;
  claim_ctx = live_ctx;
  wait_ctx = live_ctx;
  nanos = 36;
  random = 1;
}

abbrev pub start : Sys Db (List Pod)
start = record { redis = empty_db; kube = [] }

-- Project `p` has the sandbox that was scheduled for it.
abbrev pub owned : Sys Db (List Pod)
owned = record {
  redis =
      (Store.set_project_sandbox fake_service.store p x
        (complete_pending_creation fake_service.idempotence_store p x empty_db).1).1;
  kube = pod ∷ [];
}

pub x-IsSandboxId : IsSandboxId x
unfolding strip_prefix
x-IsSandboxId = record { valid = refl; bare = refl }

pub p-IsProjectId : IsProjectId p
unfolding strip_prefix
p-IsProjectId = record { valid = refl; bare = refl }

owned_recorded :
    recorded (deployed fake_redis fake_interface 3600).idempotence_store p owned.redis ≡ some x
unfolding deployed complete_pending_creation complete_commands form_key form_pending_key put
    apply_all apply text_eq form_sandbox_idempotence_key Store.set_project_sandbox set_commands
    form_sandbox_project_key form_project_sandbox_key form_all_projects_set_key
owned_recorded = refl

owned_owner :
    (Store.find_project_for_sandbox (deployed fake_redis fake_interface 3600).store x owned.redis).0
    ≡ ok p
unfolding deployed Store.find_project_for_sandbox complete_pending_creation complete_commands
    form_key form_pending_key put apply_all apply text_eq form_sandbox_idempotence_key
    Store.set_project_sandbox set_commands form_sandbox_project_key form_project_sandbox_key
    form_all_projects_set_key new_project_id strip_prefix trim_prefix
owned_owner = refl

abbrev released : Sys Db (List Pod)
released = looked_up fake_redis fake_interface 3600 fake_served p x owned

abbrev popped : Sys Db (List Pod)
popped = (get_sandbox pool quiet p released).1

no_pooled : get_sandbox pool quiet p released ≡ (err pool_empty, popped)
unfolding get_sandbox get_ready_sandbox Store.get_project_sandbox deployed release_sandbox
    Store.remove_sandbox_mapping Store.find_project_for_sandbox Store.set_project_sandbox apply_all
    set_commands text_eq form_sandbox_project_key new_project_id trim_prefix strip_prefix
    Store.remove_commands complete_pending_creation complete_commands
no_pooled = refl

still_there :
    recorded (deployed fake_redis fake_interface 3600).idempotence_store p popped.redis
    ≡ recorded
        (deployed fake_redis fake_interface 3600).idempotence_store
        p
        (release_sandbox (deployed fake_redis fake_interface 3600) x owned).redis
unfolding get_sandbox get_ready_sandbox Store.get_project_sandbox deployed release_sandbox
    Store.remove_sandbox_mapping Store.find_project_for_sandbox Store.set_project_sandbox apply_all
    set_commands text_eq form_sandbox_project_key new_project_id trim_prefix strip_prefix
    Store.remove_commands complete_pending_creation complete_commands
still_there = refl

released_sandbox_reassigned_example :
    let s = release_sandbox (deployed fake_redis fake_interface 3600) x owned in
    ((is_sandbox_gone (deployed fake_redis fake_interface 3600) x s).0 ≡ ok true)
    × ((get_project_sandbox
          (wired fake_redis fake_interface 3600 fake_served pool)
          around
          p
          false
          s).0
        ≡ respond x creating (fake_interface.get_project_service_hostname p))
released_sandbox_reassigned_example =
    released_sandbox_reassigned fake_redis fake_interface 3600 fake_served pool around p x owned
      popped refl refl x-IsSandboxId owned_recorded owned_owner no_pooled still_there
