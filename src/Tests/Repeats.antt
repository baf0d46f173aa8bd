-- ===== src/Tests/Repeats.antt =====
-- The properties of a sandbox that is asked for again and of one that ends, at concrete inputs.
use k8s_sched_demo.Scheduler.Ended.{ended_pod-released}
use k8s_sched_demo.Project.Repeated.{second_call-active}
use k8s_sched_demo.Kube.Stopping.{new_event_chan}
use k8s_sched_demo.Kube.Api.{PodPhase, Pod}
use k8s_sched_demo.Types.Ids.{new_project_id, sandbox_with_prefix}
use k8s_sched_demo.Errors.{not_found, err, ok}
use k8s_sched_demo.Persistence.Redis.{apply, apply_all, put, Db}
use k8s_sched_demo.Kube.Spec.{sandbox_pod}
use k8s_sched_demo.Base.{
  inl, trim_prefix, strip_prefix, some, [], ◌∷◌, text_eq, refl, none, true, codes, List, ◌≡◌, false,
}
use k8s_sched_demo.Tests.Fakes.{fake_service, fake_served, fake_interface, empty_db}
use k8s_sched_demo.Scheduler.{is_sandbox_gone, process_events, Sys}
use k8s_sched_demo.Persistence.Idempotence.{
  form_sandbox_idempotence_key, form_pending_key, form_key, complete_commands,
  complete_pending_creation,
}
use k8s_sched_demo.Kube.Interface.{k8s_interface}
use k8s_sched_demo.Kube.Client as K
use k8s_sched_demo.Kube.Events.{EventChan, process_pod_event}
use k8s_sched_demo.Tests.Projects.{projects, around, owned, p, x, pod, p-IsProjectId, x-IsSandboxId}
use k8s_sched_demo.Persistence.Store
use k8s_sched_demo.Project.{active, creating, respond, assign_sandbox, get_project_sandbox}

abbrev created : Sys Db (List Pod)
created = record { redis = empty_db; kube = pod ∷ [] }

not_released : (Store.is_sandbox_released projects.store x empty_db).0 ≡ ok false
unfolding Store.is_sandbox_released
not_released = refl

exists :
    (fake_interface.is_sandbox_gone x (assign_sandbox projects around p false x created).1.kube).0
    ≡ ok false
unfolding k8s_interface K.is_sandbox_gone assign_sandbox K.create_or_update_project_service
    sandbox_pod sandbox_with_prefix text_eq
exists = refl

second_call-active_example :
    let (first, s₁) = assign_sandbox projects around p false x created in
    let (second, s₂) = get_project_sandbox projects around p true s₁ in
    (first ≡ respond x creating (fake_interface.get_project_service_hostname p))
    × (second ≡ respond x active (fake_interface.get_project_service_hostname p))
    × (s₂.redis ≡ s₁.redis)
second_call-active_example =
    second_call-active projects around around fake_served refl p true x created p-IsProjectId
      x-IsSandboxId not_released exists

owner : (Store.find_project_for_sandbox fake_service.store x owned.redis).0 ≡ ok p
unfolding Store.find_project_for_sandbox complete_pending_creation complete_commands form_key
    form_pending_key put apply_all apply text_eq form_sandbox_idempotence_key
    Store.set_project_sandbox Store.set_commands Store.form_sandbox_project_key
    Store.form_project_sandbox_key Store.form_all_projects_set_key new_project_id strip_prefix
    trim_prefix
owner = refl

ended_pod-released_example :
    (chan : EventChan) × (process_pod_event
        (record (sandbox_pod (codes "sandbox") (codes "image") true x) {
          deletion_timestamp = none;
          status = record { phase = PodPhase.failed; conditions = []; container_statuses = [] };
        })
        new_event_chan
      ≡ some chan)
    × (let s' = process_events fake_service chan.buffer owned in
        ((is_sandbox_gone fake_service x s').0 ≡ ok true)
        × ((Store.get_project_sandbox fake_service.store p s'.redis).0 ≡ err not_found)
        × (s'.kube ≡ (fake_interface.release_sandbox x owned.kube).1))
ended_pod-released_example =
    ended_pod-released fake_service fake_served (codes "sandbox") (codes "image") true x none
      PodPhase.failed [] [] p owned refl (inl refl) refl owner
