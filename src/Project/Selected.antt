-- ===== src/Project/Selected.antt =====
-- A sandbox that `GetProjectSandbox` assigns (scheduler/internal/project/service.go) is both the one
-- on record in Redis and the one that the project's service selects in the cluster
-- (scheduler/internal/k8sclient/client.go), on servers that answer.
use k8s_sched_demo.Persistence.Store.Mapping.{get-set_project_sandbox}
use k8s_sched_demo.Kube.Services.{create_or_update-takes}
use k8s_sched_demo.Errors.{ok}
use k8s_sched_demo.Scheduler.{Sys}
use k8s_sched_demo.Types.Ids.{project_with_prefix, IsSandboxId, IsProjectId, SandboxId, ProjectId}
use k8s_sched_demo.Persistence.Redis.{IsServed}
use k8s_sched_demo.Kube.Services.{takes, HasServices}
use k8s_sched_demo.Kube.Interface.{k8s_interface}
use k8s_sched_demo.Base.{arith, text_eq, if◌then◌else◌, false, Text, ◌≡◌}
use k8s_sched_demo.Kube.Client.{get_project_service_hostname, K8sClient}
use k8s_sched_demo.Project.{creating, respond, assign_sandbox, Surroundings, ProjectService}
use k8s_sched_demo.Persistence.Store

module _ {R K : Type 0} (svc : ProjectService R K) (around : Surroundings R K) (elapse : K → K)
    (k : K8sClient K) (backed : svc.k8s_client ≡ k8s_interface elapse k)
    (has : HasServices k.clientset k.namespace) (served : IsServed svc.store.client) where
  open has use {service}

  -- GetProjectSandbox does not wait and has chosen x for p, with IDs that are read back as they are
  -- written, on servers that answer: it answers CREATING with the hostname of p; x is the sandbox
  -- on record for p, and other projects keep theirs; the service named after p selects the pod of x
  -- and of no other sandbox, and services of other names select as before.
  pub assign_sandbox-takes :
      (p q : ProjectId) (name : Text) (x y : SandboxId) (s : Sys R K)
      → IsProjectId p
      → IsSandboxId x
      → let (answer, s') = assign_sandbox svc around p false x s in
        (answer ≡ respond x creating (get_project_service_hostname k p))
        × ((Store.get_project_sandbox svc.store q s'.redis).0
            ≡ (if text_eq p q then ok x else (Store.get_project_sandbox svc.store q s.redis).0))
        × (takes k has (service s'.kube name) y ≡ (
            if text_eq (project_with_prefix p) name
            then text_eq y x
            else takes k has (service s.kube name) y))
  unfolding assign_sandbox k8s_interface
  assign_sandbox-takes p q name x y s pi xi = rw backed (
      ground (
        arith,
        get-set_project_sandbox svc.store served p q x x s.redis pi xi,
        create_or_update-takes k has p name x y s.kube,
      ))
