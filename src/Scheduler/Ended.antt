-- ===== src/Scheduler/Ended.antt =====
-- From the end of a pod to the mapping of its project (scheduler/internal/k8sclient/client.go,
-- `processPodEvent`, and scheduler/internal/scheduler/service.go, `StartEventProcessing`), on a
-- Redis server that answers.
use k8s_sched_demo.Kube.Selection.{ended_pod_sends}
use k8s_sched_demo.Persistence.Store.Removal.{remove_sandbox_mapping_lem}
use k8s_sched_demo.Kube.Stopping.{new_event_chan}
use k8s_sched_demo.Kube.Spec.{sandbox_pod}
use k8s_sched_demo.Kube.Events.{event_type_of, process_pod_event}
use k8s_sched_demo.Kube.Events.{EventChan}
use k8s_sched_demo.Errors.{not_found, err, ok}
use k8s_sched_demo.Kube.Api.{ContainerStatus, PodCondition, PodPhase}
use k8s_sched_demo.Types.Ids.{is_valid, ProjectId, SandboxId}
use k8s_sched_demo.Base.{
  refl, text_eq_refl, arith, [], ◌∷◌, some, false, is_empty, ◌⊎◌, true, ◌≡◌, List, ℕ, Option, Bool,
  Text,
}
use k8s_sched_demo.Persistence.Redis.{IsServed}
use k8s_sched_demo.Scheduler.{
  Sys, is_sandbox_gone, release_sandbox, handle_pod_event, process_events, Service,
}
use k8s_sched_demo.Persistence.Store.{find_project_for_sandbox, get_project_sandbox}

module _ {R K : Type 0} (svc : Service R K) (served : IsServed svc.store.client) where
  -- On a Redis server that answers, when the pod of a valid sandbox x has ended, failed or
  -- succeeded, and the project on record for x has a non-empty ID p: the watcher reports the end on
  -- its channel, fresh from its creation; once the scheduler has processed the channel, it takes x
  -- for gone, GetProjectSandbox finds no sandbox for p, and the cluster was asked to release x.
  pub ended_pod-released :
      (namespace image : Text) (use_gvisor : Bool) (x : SandboxId) (deleted : Option ℕ)
      (phase : PodPhase) (conditions : List PodCondition) (statuses : List ContainerStatus)
      (p : ProjectId) (s : Sys R K)
      → is_valid x ≡ true
      → (phase ≡ PodPhase.failed) ⊎ (phase ≡ PodPhase.succeeded)
      → is_empty p ≡ false
      → (find_project_for_sandbox svc.store x s.redis).0 ≡ ok p
      → (chan : EventChan) × (process_pod_event
            (record (sandbox_pod namespace image use_gvisor x) {
              deletion_timestamp = deleted;
              status = record {
                phase = phase;
                conditions = conditions;
                container_statuses = statuses;
              };
            })
            new_event_chan
          ≡ some chan)
        × (let s' = process_events svc chan.buffer s in
            ((is_sandbox_gone svc x s').0 ≡ ok true)
            × ((get_project_sandbox svc.store p s'.redis).0 ≡ err not_found)
            × (s'.kube ≡ (svc.k8s_client.release_sandbox x s.kube).1))
  unfolding process_events handle_pod_event release_sandbox is_sandbox_gone
  ended_pod-released namespace image use_gvisor x deleted phase conditions statuses p s v ended
        named owner =
      let removed = remove_sandbox_mapping_lem svc.store served p p x x s.redis owner in
      (
        record new_event_chan {
          buffer = record { sandbox_id = x; event_type = event_type_of deleted } ∷ [];
        },
        ended_pod_sends namespace image use_gvisor x deleted phase conditions statuses
            new_event_chan v ended refl (omega arith),
        (
          ground (arith, removed, text_eq_refl x),
          ground (arith, removed, named, text_eq_refl p),
          refl,
        ),
      )
