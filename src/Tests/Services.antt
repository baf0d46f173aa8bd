-- ===== src/Tests/Services.antt =====
-- The properties of the scheduler at concrete inputs.
use k8s_sched_demo.Scheduler.Idempotency.{schedule_failed, schedule_twice}
use k8s_sched_demo.Persistence.Idempotence.Effects.{pending, recorded}
use k8s_sched_demo.Errors.{remote, format, err, ok}
use k8s_sched_demo.Types.Base36.{digits_loop, encode_base36, generate_sandbox_id}
use k8s_sched_demo.Tests.Fakes.{
  live_ctx, fake_served, fake_interface, fake_service, fake_redis, empty_db,
}
use k8s_sched_demo.Persistence.Store.{
  form_all_projects_set_key, form_project_sandbox_key, form_sandbox_project_key, set_commands,
  set_project_sandbox, find_project_for_sandbox,
}
use k8s_sched_demo.Kube.Spec.{sandbox_pod}
use k8s_sched_demo.Kube.Client.{get_pods_older_than}
use k8s_sched_demo.Types.Ids.{new_project_id, sandbox_with_prefix, IsSandboxId, SandboxId}
use k8s_sched_demo.Scheduler.Deployed.{deployed}
use k8s_sched_demo.Scheduler.{schedule_sandbox, Sys, Service}
use k8s_sched_demo.Persistence.Redis.{apply, apply_all, put, Db}
use k8s_sched_demo.Persistence.Idempotence.{
  form_sandbox_idempotence_key, form_pending_key, form_key, complete_commands,
  mark_pending_creation, complete_pending_creation,
}
use k8s_sched_demo.Kube.Interface.{k8s_interface}
use k8s_sched_demo.Kube.Api.{Pod}
use k8s_sched_demo.Base.{
  none, trim_prefix, text_eq, some, ◌∷◌, true, refl, [], ◌≡◌, codes, strip_prefix, Text, List,
}
use k8s_sched_demo.Kube.Client as K

abbrev quiet : Db → Db
quiet d = d

abbrev job : Text
job = codes "job-1"

-- What 36 ns and the random byte 1 make.
abbrev id : SandboxId
id = codes "11"

abbrev pod_11 : Pod
pod_11 = sandbox_pod (codes "sandbox") (codes "image") true (codes "11")

abbrev start : Sys Db (List Pod)
start = record { redis = empty_db; kube = [] }

-- The cluster has a pod of the name that the next ID asks for.
abbrev crowded : Sys Db (List Pod)
crowded = record { redis = empty_db; kube = pod_11 ∷ [] }

-- Another caller holds the claim of `job-1`.
abbrev held : Sys Db (List Pod)
held = record {
  redis = (mark_pending_creation fake_service.idempotence_store job empty_db).1;
  kube = [];
}

abbrev recorded_start : Sys Db (List Pod)
recorded_start = record {
  redis = (complete_pending_creation fake_service.idempotence_store job (codes "11") empty_db).1;
  kube = [];
}

id-IsSandboxId : IsSandboxId id
unfolding strip_prefix
id-IsSandboxId = record { valid = refl; bare = refl }

created : fake_interface.schedule_sandbox 36 1 [] ≡ (ok id, pod_11 ∷ [])
unfolding k8s_interface K.schedule_sandbox generate_sandbox_id encode_base36 digits_loop sandbox_pod
created = refl

refused :
    fake_interface.schedule_sandbox 36 1 (pod_11 ∷ [])
    ≡ (err (format "failed to create pod" (remote (codes "already exists"))), pod_11 ∷ [])
unfolding k8s_interface K.schedule_sandbox generate_sandbox_id encode_base36 digits_loop sandbox_pod
    text_eq sandbox_with_prefix
refused = refl

held_recorded : recorded fake_service.idempotence_store job held.redis ≡ none
unfolding mark_pending_creation form_key form_pending_key put text_eq
held_recorded = refl

held_pending : pending fake_service.idempotence_store job held.redis ≡ some (codes "1")
unfolding mark_pending_creation form_key form_pending_key put text_eq
held_pending = refl

there : recorded fake_service.idempotence_store job recorded_start.redis ≡ some id
unfolding complete_pending_creation complete_commands form_key form_pending_key put apply_all apply
    text_eq form_sandbox_idempotence_key
there = refl

schedule_twice_example :
    let first = schedule_sandbox fake_service quiet live_ctx 36 1 job start in
    let second = schedule_sandbox fake_service quiet live_ctx 99 7 job first.1 in
    (first.0 ≡ ok id) × (second.0 ≡ ok id) × (second.1.kube ≡ pod_11 ∷ [])
schedule_twice_example =
    schedule_twice fake_service fake_served quiet live_ctx live_ctx 36 99 1 7 job id start
      (pod_11 ∷ []) refl refl refl id-IsSandboxId refl refl created

schedule_failed_example :
    let (result, s') = schedule_sandbox fake_service quiet live_ctx 36 1 job crowded in
    (result
      ≡ err (
          format "failed to schedule"
            (format "failed to create pod" (remote (codes "already exists")))))
    × (recorded fake_service.idempotence_store job s'.redis ≡ none)
    × (pending fake_service.idempotence_store job s'.redis ≡ none)
schedule_failed_example =
    schedule_failed fake_service fake_served quiet live_ctx 36 1 job
      (format "failed to create pod" (remote (codes "already exists"))) crowded (pod_11 ∷ []) refl
      refl refl refl refused

-- The sandbox "11" belongs to project "p", whose key is still recorded.
abbrev wired_service : Service Db (List Pod)
wired_service = deployed fake_redis fake_interface 3600

abbrev mapped : Sys Db (List Pod)
mapped = record {
  redis = (set_project_sandbox fake_service.store (codes "p") (codes "11") recorded_start.redis).1;
  kube = pod_11 ∷ [];
}

mapped_recorded : recorded wired_service.idempotence_store job mapped.redis ≡ some id
unfolding deployed complete_pending_creation complete_commands form_key form_pending_key put
    apply_all apply text_eq form_sandbox_idempotence_key set_project_sandbox set_commands
    form_sandbox_project_key form_project_sandbox_key form_all_projects_set_key
mapped_recorded = refl

mapped_owner : (find_project_for_sandbox wired_service.store id mapped.redis).0 ≡ ok (codes "p")
unfolding deployed find_project_for_sandbox complete_pending_creation complete_commands form_key
    form_pending_key put apply_all apply text_eq form_sandbox_idempotence_key set_project_sandbox
    set_commands form_sandbox_project_key form_project_sandbox_key form_all_projects_set_key
    new_project_id strip_prefix trim_prefix
mapped_owner = refl
