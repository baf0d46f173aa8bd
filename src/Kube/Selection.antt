-- ===== src/Kube/Selection.antt =====
-- The pod of a sandbox, the service of a project and the events of the watcher fit together
-- (scheduler/internal/k8sclient/client.go).
use k8s_sched_demo.Errors.{value_or}
use k8s_sched_demo.Types.Ids.Laws.{new_sandbox_id-with_prefix}
use k8s_sched_demo.Types.Ids.{new_sandbox_id, is_valid, SandboxId, ProjectId}
use k8s_sched_demo.Kube.Spec.{sandbox_pod, project_service}
use k8s_sched_demo.Kube.Events.{
  event_type_of, other, capacity, of_pod, label, should_send_event, WatchEvent, PodEvent, EventChan,
  watch_loop, send, process_pod_event,
}
use k8s_sched_demo.Kube.Api.{ContainerStatus, PodCondition, PodPhase, Pod, StringMap}
use native.Mathlib.Decide.{dec_lt}
use k8s_sched_demo.Base.{
  length-append, ◌++◌, ◌<◌, ◌⊎◌, none, ◌&&◌, ℕ, arith, [], ◌≤◌, ◌∷◌, length, Text, true, text_eq,
  some, false, List, Bool, Option, ◌≡◌,
}

-- Whether a service's selector takes a pod with these labels: every pair is among them.
abbrev pub selects : StringMap → StringMap → Bool
selects [] labels = true
selects ((k, v) ∷ selector) labels = text_eq (label k labels) v && selects selector labels

-- The service of a project that is assigned sandbox y selects the pod of sandbox x exactly when
-- they are the same sandbox.
pub service_selects :
    (namespace image : Text) (use_gvisor : Bool) (p : ProjectId) (x y : SandboxId)
    → selects
        (project_service namespace p y).selector
        (sandbox_pod namespace image use_gvisor x).labels
      ≡ text_eq x y
unfolding project_service sandbox_pod text_eq
service_selects namespace image use_gvisor p x y = ground arith

-- When the pod that was made for a valid sandbox x ends, by failure or by success, and there is
-- room on the open channel, the watcher sends exactly one event, for x, of the type that the
-- deletion mark of the pod asks for.
pub ended_pod_sends :
    (namespace image : Text) (use_gvisor : Bool) (x : SandboxId) (deleted : Option ℕ)
    (phase : PodPhase) (conditions : List PodCondition) (statuses : List ContainerStatus)
    (chan : EventChan)
    → is_valid x ≡ true
    → (phase ≡ PodPhase.failed) ⊎ (phase ≡ PodPhase.succeeded)
    → chan.closed ≡ false
    → length chan.buffer < capacity
    → process_pod_event
        (record (sandbox_pod namespace image use_gvisor x) {
          deletion_timestamp = deleted;
          status = record { phase = phase; conditions = conditions; container_statuses = statuses };
        })
        chan
      ≡ some (record chan {
        buffer = chan.buffer ++ record { sandbox_id = x; event_type = event_type_of deleted } ∷ [];
      })
unfolding process_pod_event sandbox_pod send should_send_event text_eq
ended_pod_sends namespace image use_gvisor x deleted phase conditions statuses chan v ended open_
      room =
    ground (arith, new_sandbox_id-with_prefix x v)

-- What the watcher may leave: an open channel within its capacity.
abbrev pub IsOpen : Option EventChan → Type 0
IsOpen none = ⊥
IsOpen (some chan) = (chan.closed ≡ false) × (length chan.buffer ≤ capacity)

send-IsOpen : (e : PodEvent) (chan : EventChan) → IsOpen (some chan) → IsOpen (send e chan)
unfolding send
send-IsOpen e chan (o, h) = elim (dec_lt (length chan.buffer) capacity) [
  | yes room ↦ ground (arith, length-append chan.buffer (e ∷ []))
  | no full ↦ ground arith
]

process-IsOpen :
    (pod : Pod) (chan : EventChan) → IsOpen (some chan) → IsOpen (process_pod_event pod chan)
unfolding process_pod_event
process-IsOpen pod chan h =
    let event : PodEvent = record {
      sandbox_id = value_or [] (new_sandbox_id pod.name);
      event_type = event_type_of pod.deletion_timestamp;
    } in
    ground (arith, send-IsOpen event chan h)

continue_IsOpen :
    (left : Option EventChan) (next : EventChan → Option EventChan)
    → IsOpen left
    → ((chan : EventChan) → IsOpen (some chan) → IsOpen (next chan))
    → IsOpen (elim left [ none ↦ none | some chan ↦ next chan ])
continue_IsOpen none next h k = h
continue_IsOpen (some chan) next h k = k chan h

-- However many events the cluster delivers, the watcher never panics on an open channel and never
-- holds more than 100 events in it.
pub watch_loop-IsOpen :
    (events : List (Bool × WatchEvent)) (chan : EventChan)
    → IsOpen (some chan)
    → IsOpen (watch_loop events chan)
unfolding watch_loop
watch_loop-IsOpen [] chan h = h
watch_loop-IsOpen ((true, event) ∷ events) chan h = h
watch_loop-IsOpen ((false, other) ∷ events) chan h = watch_loop-IsOpen events chan h
watch_loop-IsOpen ((false, of_pod pod) ∷ events) chan h =
    continue_IsOpen (process_pod_event pod chan) (watch_loop events) (process-IsOpen pod chan h)
      (watch_loop-IsOpen events)
