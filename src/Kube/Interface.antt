-- ===== src/Kube/Interface.antt =====
-- scheduler/internal/k8sclient/interface.go: what the services ask of Kubernetes, filled by
-- `K8sClient` (client.go) and by `MockK8sClient` (mock.go).
use k8s_sched_demo.Types.Base36.{generate_sandbox_id}
use k8s_sched_demo.Types.Ids.{SandboxId, ProjectId}
use k8s_sched_demo.Persistence.Context.{Context}
use k8s_sched_demo.Kube.Client.{
  get_pods_older_than, wait_for_sandbox_ready, is_sandbox_gone, is_sandbox_ready,
  get_project_service_hostname, delete_project_service, create_or_update_project_service,
  release_sandbox, schedule_sandbox, K8sClient,
}
use k8s_sched_demo.Errors.{err, Error, Result, ok}
use k8s_sched_demo.Base.{
  [], List, ◌==◌, false, ◌++◌, true, if◌then◌else◌, Option, none, codes, Bool, Text, ℕ,
}

-- `schedule_sandbox` takes the clock and the random byte that the new ID is made of.
pub record K8sInterface (K : Type 0) : Type 0 where
  pub schedule_sandbox : ℕ → ℕ → K → Result SandboxId × K
  pub release_sandbox : SandboxId → K → Option Error × K
  pub create_or_update_project_service : ProjectId → SandboxId → K → Option Error × K
  pub delete_project_service : ProjectId → K → Option Error × K
  pub get_project_service_hostname : ProjectId → Text
  pub is_sandbox_ready : SandboxId → K → Result Bool × K
  pub is_sandbox_gone : SandboxId → K → Result Bool × K
  pub wait_for_sandbox_ready : Context → SandboxId → K → Result Bool × K
  pub get_pods_older_than : ℕ → Text → K → Result (List Text × Text) × K

abbrev pub mock_hostname : ProjectId → Text
mock_hostname project_id = codes "project-" ++ (project_id ++ codes ".sandbox.svc.cluster.local")

-- The mock waits 100 ms, so it fails exactly if the context has ended when that time is over.
abbrev pub mock_wait : Context → Result Bool
mock_wait ctx = if ctx.rounds == 0 then err ctx.reason else ok true

module _ {K : Type 0} where
  -- What the cluster does between two ticks of a polling loop is given first.
  unfoldable pub k8s_interface : (K → K) → K8sClient K → K8sInterface K
  k8s_interface elapse k = record {
    schedule_sandbox = schedule_sandbox k;
    release_sandbox = release_sandbox k;
    create_or_update_project_service = create_or_update_project_service k;
    delete_project_service = delete_project_service k;
    get_project_service_hostname = get_project_service_hostname k;
    is_sandbox_ready = is_sandbox_ready k;
    is_sandbox_gone = is_sandbox_gone k;
    wait_for_sandbox_ready = wait_for_sandbox_ready k elapse;
    get_pods_older_than = get_pods_older_than k;
  }

  unfoldable pub mock_interface : K8sInterface K
  mock_interface = record {
    schedule_sandbox = λ nanos random s. (ok (generate_sandbox_id nanos random), s);
    release_sandbox = λ sandbox_id s. (none, s);
    create_or_update_project_service = λ project_id sandbox_id s. (none, s);
    delete_project_service = λ project_id s. (none, s);
    get_project_service_hostname = mock_hostname;
    is_sandbox_ready = λ sandbox_id s. (ok true, s);
    is_sandbox_gone = λ sandbox_id s. (ok false, s);
    wait_for_sandbox_ready = λ ctx sandbox_id s. (mock_wait ctx, s);
    get_pods_older_than = λ older_than token s. (ok ([], []), s);
  }
