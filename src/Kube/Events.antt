-- ===== src/Kube/Events.antt =====
-- scheduler/internal/types/pod_event.go and the pod watcher of
-- scheduler/internal/k8sclient/client.go, which sends an event for each pod that needs attention.
use k8s_sched_demo.Errors.{ok, err}
use k8s_sched_demo.Types.Ids.{new_sandbox_id, SandboxId}
use k8s_sched_demo.Kube.Api.{
  succeeded, failed, StringMap, PodCondition, ContainerStatus, PodPhase, Pod,
}
use k8s_sched_demo.Base.{
  ◌++◌, length, ◌&&◌, ltb, [], ◌∷◌, not, none, codes, ◌||◌, true, text_eq, some, if◌then◌else◌,
  false, ℕ, Text, Option, List, Bool,
}

pub data PodEventType : Type 0 where
  already_deleted to_be_deleted : PodEventType

pub record PodEvent : Type 0 where
  pub sandbox_id : SandboxId
  pub event_type : PodEventType

-- PodEvent.AlreadyDeleted and PodEvent.ToBeDeleted
abbrev pub is_already_deleted : PodEvent → Bool
is_already_deleted e = elim e.event_type [ already_deleted ↦ true | to_be_deleted ↦ false ]

abbrev pub is_to_be_deleted : PodEvent → Bool
is_to_be_deleted e = elim e.event_type [ already_deleted ↦ false | to_be_deleted ↦ true ]

-- `eventChan`, oldest event first.
pub record EventChan : Type 0 where
  pub buffer : List PodEvent
  pub closed : Bool

abbrev pub capacity : ℕ
capacity = 100

abbrev phase_ended : PodPhase → Bool
phase_ended failed = true
phase_ended succeeded = true
phase_ended _ = false

abbrev is_unschedulable : List PodCondition → Bool
is_unschedulable [] = false
is_unschedulable (c ∷ cs) =
    if text_eq c.kind (codes "PodScheduled")
      && text_eq c.status (codes "False")
      && text_eq c.reason (codes "Unschedulable")
    then true
    else is_unschedulable cs

abbrev is_failure_reason : Text → Bool
is_failure_reason reason =
    text_eq reason (codes "CrashLoopBackOff")
    || text_eq reason (codes "ImagePullBackOff")
    || text_eq reason (codes "ErrImagePull")
    || text_eq reason (codes "CreateContainerError")

abbrev is_failing : Option Text → Bool
is_failing none = false
is_failing (some reason) = is_failure_reason reason

abbrev any_failing : List ContainerStatus → Bool
any_failing [] = false
any_failing (c ∷ cs) = is_failing c.waiting || any_failing cs

-- `shouldSendEvent` of `processPodEvent`.
unfoldable pub should_send_event : Pod → Bool
should_send_event pod =
    phase_ended pod.status.phase
    || is_unschedulable pod.status.conditions
    || any_failing pod.status.container_statuses

abbrev pub event_type_of : Option ℕ → PodEventType
event_type_of none = to_be_deleted
event_type_of (some deletion) = already_deleted

-- `select { case k.eventChan <- event: … default: … }`: a send on a closed channel panics (`none`),
-- a full channel drops the event.
unfoldable pub send : PodEvent → EventChan → Option EventChan
send event chan =
    if chan.closed
    then none
    else if ltb (length chan.buffer) capacity
    then some (record chan { buffer = chan.buffer ++ event ∷ [] })
    else some chan

abbrev pub label : Text → StringMap → Text
label key [] = []
label key ((k, v) ∷ m) = if text_eq k key then v else label key m

unfoldable pub process_pod_event : Pod → EventChan → Option EventChan
process_pod_event pod chan =
    if not (text_eq (label (codes "managed-by") pod.labels) (codes "scheduler"))
    then some chan
    else elim (new_sandbox_id pod.name) [
      | err e ↦ some chan
      | ok sandbox_id ↦
          if should_send_event pod
          then send
              (record {
                sandbox_id = sandbox_id;
                event_type = event_type_of pod.deletion_timestamp;
              })
              chan
          else some chan
    ]

-- What `watcher.ResultChan()` delivers: pods, or objects of another kind.
pub data WatchEvent : Type 0 where
  of_pod : Pod → WatchEvent
  other : WatchEvent

-- The loop of `watchNamespacePods`: each event comes with whether the watcher's context is done.
unfoldable pub watch_loop : List (Bool × WatchEvent) → EventChan → Option EventChan
watch_loop [] chan = some chan
watch_loop ((true, event) ∷ events) chan = some chan
watch_loop ((false, other) ∷ events) chan = watch_loop events chan
watch_loop ((false, of_pod pod) ∷ events) chan = elim (process_pod_event pod chan) [
  | none ↦ none
  | some chan' ↦ watch_loop events chan'
]

-- `StopWatchers`: it closes the channel; a second close panics.
unfoldable pub stop_watchers : EventChan → Option EventChan
stop_watchers chan = if chan.closed then none else some (record chan { closed = true })
