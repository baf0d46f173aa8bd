-- ===== src/Tests/Clusters.antt =====
-- The properties of the Kubernetes client at concrete inputs.
use k8s_sched_demo.Kube.Delivered.{watch_loop-filled, announcements, filled}
use k8s_sched_demo.Kube.Client.{is_sandbox_ready}
use k8s_sched_demo.Types.Ids.{sandbox_with_prefix}
use k8s_sched_demo.Errors.{ok}
use k8s_sched_demo.Tests.Fakes.{fake_api, fake_client}
use k8s_sched_demo.Kube.Spec.{sandbox_pod}
use k8s_sched_demo.Kube.Readiness.{is_sandbox_ready_iff}
use k8s_sched_demo.Kube.Events.{other, of_pod, watch_loop, EventChan}
use k8s_sched_demo.Kube.Api.{PodPhase, Pod}
use k8s_sched_demo.Base.{none, All, some, refl, arith, ◌↔◌, ◌≡◌, ◌∷◌, true, false, codes, [], Text}

abbrev a : Text
a = codes "a"

abbrev pod : Pod
pod = sandbox_pod (codes "sandbox") (codes "image") true a

abbrev crashed : Pod
crashed = record pod {
  status = record { phase = PodPhase.failed; conditions = []; container_statuses = [] };
}

abbrev open_chan : EventChan
open_chan = record { buffer = []; closed = false }

watch_loop-filled_example :
    watch_loop ((false, of_pod crashed) ∷ (false, other) ∷ (true, of_pod crashed) ∷ []) open_chan
    ≡ some (
        filled open_chan
          (announcements ((false, of_pod crashed) ∷ (false, other) ∷ (true, of_pod crashed) ∷ [])))
watch_loop-filled_example =
    watch_loop-filled ((false, of_pod crashed) ∷ (false, other) ∷ (true, of_pod crashed) ∷ [])
      open_chan refl (omega arith)

-- A running pod of which both containers are ready.
abbrev up : Pod
up = record pod {
  status = record {
    phase = PodPhase.running;
    conditions = [];
    container_statuses =
        record { waiting = none; ready = true } ∷ record { waiting = none; ready = true } ∷ [];
  };
}

is_sandbox_ready_iff_example : ((is_sandbox_ready fake_client a (up ∷ [])).0 ≡ ok true) ↔ (
    (found : Pod) × ((fake_api.get_pod (codes "sandbox") (sandbox_with_prefix a) (up ∷ [])).0
      ≡ ok found)
    × (found.status.phase ≡ PodPhase.running)
    × All (λ c. c.ready ≡ true) found.status.container_statuses)
is_sandbox_ready_iff_example = is_sandbox_ready_iff fake_client a (up ∷ [])
