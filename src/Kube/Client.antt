-- ===== src/Kube/Client.antt =====
-- scheduler/internal/k8sclient/client.go: the calls of `K8sClient` on pods and services.

use k8s_sched_demo.Kube.Spec.{sandbox_pod, project_service}
use k8s_sched_demo.Types.Base36.{generate_sandbox_id}
use k8s_sched_demo.Types.Ids.{sandbox_with_prefix, project_with_prefix, SandboxId, ProjectId}
use k8s_sched_demo.Persistence.Context.{Context}
use k8s_sched_demo.Kube.Api.{
  running, pending, succeeded, failed, KubeService, ListOptions, PodList, Pod, ContainerStatus,
  PodPhase, Api,
}
use k8s_sched_demo.Errors.{new, ok, is_api_not_found, format_error, format, err, Result, Error}
use k8s_sched_demo.Base.{
  zero, none, is_empty, [], suc, not, ltb, ◌++◌, some, if◌then◌else◌, codes, ◌∷◌, true, false, Text,
  Option, Bool, ℕ, List,
}

pub record K8sClient (K : Type 0) : Type 0 where
  pub clientset : Api K
  pub namespace : Text
  pub use_gvisor : Bool
  pub sandbox_image : Text

module _ {K : Type 0} (k : K8sClient K) where
  -- The clock and the random byte of `GenerateSandboxID` are given.
  unfoldable pub schedule_sandbox : ℕ → ℕ → K → Result SandboxId × K
  schedule_sandbox nanos random s =
      let sandbox_id = generate_sandbox_id nanos random in
      let pod = sandbox_pod k.namespace k.sandbox_image k.use_gvisor sandbox_id in
      let (error, s') = k.clientset.create_pod k.namespace pod s in
      (elim error [ some e ↦ err (format "failed to create pod" e) | none ↦ ok sandbox_id ], s')

  unfoldable pub release_sandbox : SandboxId → K → Option Error × K
  release_sandbox sandbox_id s =
      let (error, s') = k.clientset.delete_pod k.namespace (sandbox_with_prefix sandbox_id) s in
      (
        elim error [
          | some e ↦ if is_api_not_found e then none else some (format "failed to delete pod" e)
          | none ↦ none
        ],
        s',
      )

-- The tests of `IsSandboxReady` on a pod that was found.
abbrev pub all_ready : List ContainerStatus → Bool
all_ready [] = true
all_ready (c ∷ cs) = if not c.ready then false else all_ready cs

abbrev pub pod_ready : PodPhase → Pod → Bool
pod_ready failed pod = false
pod_ready succeeded pod = false
pod_ready pending pod = if not (is_empty pod.spec.node_name) then false else false
pod_ready running pod = all_ready pod.status.container_statuses
pod_ready PodPhase.unknown pod = false

abbrev pub read_ready : Result Pod → Result Bool
read_ready (err e) = if is_api_not_found e then ok false else err (format "failed to get pod" e)
read_ready (ok pod) = ok (pod_ready pod.status.phase pod)

abbrev pub read_gone : Result Pod → Result Bool
read_gone (err e) = if is_api_not_found e then ok true else err (format "failed to get pod" e)
read_gone (ok pod) = ok false

abbrev pub is_older : ℕ → List Pod → List Text
is_older older_than [] = []
is_older older_than (pod ∷ pods) =
    if ltb pod.creation_timestamp older_than
    then pod.name ∷ is_older older_than pods
    else is_older older_than pods

abbrev pub read_page : ℕ → Result PodList → Result (List Text × Text)
read_page older_than (err e) = err (format "failed to list pods" e)
read_page older_than (ok page) = ok (is_older older_than page.items, page.continue)

module _ {K : Type 0} (k : K8sClient K) where
  unfoldable pub is_sandbox_ready : SandboxId → K → Result Bool × K
  is_sandbox_ready sandbox_id s =
      let (result, s') = k.clientset.get_pod k.namespace (sandbox_with_prefix sandbox_id) s in
      (read_ready result, s')

  unfoldable pub is_sandbox_gone : SandboxId → K → Result Bool × K
  is_sandbox_gone sandbox_id s =
      let (result, s') = k.clientset.get_pod k.namespace (sandbox_with_prefix sandbox_id) s in
      (read_gone result, s')

  -- The pods created before the time given, and the token of the next page.
  unfoldable pub get_pods_older_than : ℕ → Text → K → Result (List Text × Text) × K
  get_pods_older_than older_than continue_token s =
      let options : ListOptions = record {
        label_selector = codes "managed-by=scheduler";
        limit = 100;
        continue = continue_token;
      } in
      let (result, s') = k.clientset.list_pods k.namespace options s in
      (read_page older_than result, s')

  unfoldable pub create_or_update_project_service : ProjectId → SandboxId → K → Option Error × K
  create_or_update_project_service project_id sandbox_id s =
      let service = project_service k.namespace project_id sandbox_id in
      let (existing, s₁) = k.clientset.get_service k.namespace (project_with_prefix project_id) s in
      elim existing [
        | err e ↦
            let (error, s₂) = k.clientset.create_service k.namespace service s₁ in
            (format_error "failed to create project service" error, s₂)
        | ok old ↦
            let updated : KubeService = record old {
              selector = service.selector;
              annotations = service.annotations;
            } in
            let (error, s₂) = k.clientset.update_service k.namespace updated s₁ in
            (format_error "failed to update project service" error, s₂)
      ]

  unfoldable pub delete_project_service : ProjectId → K → Option Error × K
  delete_project_service project_id s =
      let (error, s') = k.clientset.delete_service k.namespace (project_with_prefix project_id) s in
      (format_error "failed to delete project service" error, s')

  unfoldable pub get_project_service_hostname : ProjectId → Text
  get_project_service_hostname project_id =
      project_with_prefix project_id ++ (codes "." ++ (k.namespace ++ codes ".svc"))

  -- What the cluster does between two ticks of the ticker.
  module _ (elapse : K → K) (reason : Error) where
    -- The `for { select { … } }` of `WaitForSandboxReady`; the number of ticks before the context
    -- ends is given.
    unfoldable pub ready_loop : ℕ → SandboxId → K → Result Bool × K
    ready_loop zero sandbox_id s =
        (err (format "context cancelled while waiting for sandbox to be ready" reason), elapse s)
    ready_loop (suc n) sandbox_id s =
        let (ready, s₁) = is_sandbox_ready sandbox_id (elapse s) in
        elim ready [
          | err e ↦ ready_loop n sandbox_id s₁
          | ok is_ready ↦ elim is_ready [
            | true ↦ (ok true, s₁)
            | false ↦
                let (gone, s₂) = is_sandbox_gone sandbox_id s₁ in
                elim gone [
                  | err e ↦ ready_loop n sandbox_id s₂
                  | ok is_gone ↦ elim is_gone [
                    | true ↦ (err (new "sandbox is gone while waiting for it to be ready"), s₂)
                    | false ↦ ready_loop n sandbox_id s₂
                  ]
                ]
          ]
        ]

  unfoldable pub wait_for_sandbox_ready : (K → K) → Context → SandboxId → K → Result Bool × K
  wait_for_sandbox_ready elapse ctx sandbox_id s =
      let (ready, s₁) = is_sandbox_ready sandbox_id s in
      elim ready [
        | err e ↦ (err (format "failed to check if sandbox is ready" e), s₁)
        | ok is_ready ↦ elim is_ready [
          | true ↦ (ok true, s₁)
          | false ↦ ready_loop elapse ctx.reason ctx.rounds sandbox_id s₁
        ]
      ]
