-- ===== src/Kube/Services.antt =====
-- What `CreateOrUpdateProjectService` and `DeleteProjectService` leave in the cluster
-- (scheduler/internal/k8sclient/client.go), on an API server that answers for its services.
use k8s_sched_demo.Persistence.Redis.{update}
use k8s_sched_demo.Kube.Spec.{project_service, sandbox_pod}
use k8s_sched_demo.Kube.Selection.{service_selects, selects}
use k8s_sched_demo.Errors.{ok, api_not_found, err}
use k8s_sched_demo.Types.Ids.{project_with_prefix, SandboxId, ProjectId}
use k8s_sched_demo.Base.{
  ap, arith, if◌then◌else◌, inr, inl, Option-cases, text_eq, false, some, none, Bool, ◌≡◌, Text,
  Option,
}
use k8s_sched_demo.Kube.Client.{create_or_update_project_service, K8sClient}
use k8s_sched_demo.Kube.Api.{KubeService, Api}

pub record HasServices {K : Type 0} (api : Api K) (namespace : Text) : Type 0 where
  -- The services of the namespace, by name.
  pub service : K → Text → Option KubeService
  pub named :
      (name : Text) (old : KubeService) (s : K) → service s name ≡ some old → old.name ≡ name
  pub get_reply :
      (name : Text) (s : K)
      → (api.get_service namespace name s).0
        ≡ elim (service s name) [ none ↦ err api_not_found | some old ↦ ok old ]
  pub get_services :
      (name : Text) (s : K) → service (api.get_service namespace name s).1 ≡ service s
  pub create_new :
      (new : KubeService) (s : K)
      → service s new.name ≡ none
      → ((api.create_service namespace new s).0 ≡ none)
        × (service (api.create_service namespace new s).1 ≡ update (service s) new.name (some new))
  pub update_old :
      (new old : KubeService) (s : K)
      → service s new.name ≡ some old
      → ((api.update_service namespace new s).0 ≡ none)
        × (service (api.update_service namespace new s).1 ≡ update (service s) new.name (some new))

module _ {K : Type 0} (k : K8sClient K) (has : HasServices k.clientset k.namespace) where
  open has use {service}

  -- What the pods that the service of a project selects are, by the labels of a sandbox's pod.
  abbrev pub takes : Option KubeService → SandboxId → Bool
  takes none x = false
  takes (some svc) x =
      selects svc.selector (sandbox_pod k.namespace k.sandbox_image k.use_gvisor x).labels

  -- Afterwards the service of the project selects the pod of the sandbox and of no other one, and
  -- the services of other names select what they selected.
  pub create_or_update-takes :
      (p : ProjectId) (name : Text) (x y : SandboxId) (s : K)
      → let (error, s') = create_or_update_project_service k p x s in
        (error ≡ none)
        × (takes (service s' name) y ≡ (
            if text_eq (project_with_prefix p) name then text_eq y x else takes (service s name) y))
  unfolding create_or_update_project_service project_service
  create_or_update-takes p name x y s =
      let wanted = project_service k.namespace p x in
      let s₁ = (k.clientset.get_service k.namespace (project_with_prefix p) s).1 in
      let selected = service_selects k.namespace k.sandbox_image k.use_gvisor p y x in
      let same = has.get_services (project_with_prefix p) s in
      elim (Option-cases (service s (project_with_prefix p))) [
        | inl e ↦
            let (fine, put) = has.create_new wanted s₁ (ground (arith, same, e)) in
            ground (
              arith,
              e,
              has.get_reply (project_with_prefix p) s,
              fine,
              ap (λ f. f name) put,
              ap (λ f. f name) same,
              selected,
            )
        | inr (old, e) ↦
            let updated : KubeService = record old {
              selector = wanted.selector;
              annotations = wanted.annotations;
            } in
            let name_kept = has.named (project_with_prefix p) old s e in
            let (fine, put) = has.update_old updated old s₁ (ground (arith, same, e, name_kept)) in
            ground (
              arith,
              e,
              has.get_reply (project_with_prefix p) s,
              fine,
              name_kept,
              ap (λ f. f name) put,
              ap (λ f. f name) same,
              selected,
            )
      ]
