-- ===== src/Kube/Stopping.antt =====
-- The watcher around its loop (scheduler/internal/k8sclient/client.go, `watchNamespacePods`,
-- `StopWatchers`), the events of the mock client (mock.go), and what an event does after the
-- channel is closed.
use k8s_sched_demo.Types.Ids.Laws.{new_sandbox_id-with_prefix}
use k8s_sched_demo.Kube.Api.{PodPhase}
use k8s_sched_demo.Kube.Spec.{sandbox_pod}
use k8s_sched_demo.Types.Ids.{is_valid, SandboxId}
use k8s_sched_demo.Base.{
  arith, none, ◌⊎◌, true, ◌≡◌, Text, text_eq, some, false, Option, Bool, [], List,
}
use k8s_sched_demo.Kube.Events.{
  watch_loop, should_send_event, send, WatchEvent, process_pod_event, stop_watchers, PodEventType,
  EventChan,
}
use k8s_sched_demo.Errors.{ok, err, Result}

-- `watchNamespacePods`: without a watcher it returns; else the loop runs on what it delivers, and
-- nothing starts it again when the delivery ends.
unfoldable pub watch_namespace_pods :
    Result (List (Bool × WatchEvent)) → EventChan → Option EventChan
watch_namespace_pods (err e) chan = some chan
watch_namespace_pods (ok events) chan = watch_loop events chan

abbrev pub new_event_chan : EventChan
new_event_chan = record { buffer = []; closed = false }

-- `SendMockEvent`
unfoldable pub send_mock_event : PodEventType → SandboxId → EventChan → Option EventChan
send_mock_event event_type sandbox_id chan =
    send (record { sandbox_id = sandbox_id; event_type = event_type }) chan

-- Once StopWatchers has closed the event channel, handling the pod of a valid sandbox that has
-- ended panics.
pub stopped_watcher_panics :
    (namespace image : Text) (use_gvisor : Bool) (x : SandboxId) (phase : PodPhase)
    (chan chan' : EventChan)
    → is_valid x ≡ true
    → (phase ≡ PodPhase.failed) ⊎ (phase ≡ PodPhase.succeeded)
    → stop_watchers chan ≡ some chan'
    → process_pod_event
        (record (sandbox_pod namespace image use_gvisor x) {
          status = record { phase = phase; conditions = []; container_statuses = [] };
        })
        chan'
      ≡ none
unfolding stop_watchers process_pod_event sandbox_pod send should_send_event text_eq
stopped_watcher_panics namespace image use_gvisor x phase chan chan' v ended stopped =
    ground (arith, new_sandbox_id-with_prefix x v)
