-- ===== src/Kube/Spec.antt =====
-- scheduler/internal/k8sclient/client.go: the pod that `ScheduleSandbox` asks for and the service
-- of a project.
use k8s_sched_demo.Types.Ids.{sandbox_with_prefix, project_with_prefix, SandboxId, ProjectId}
use k8s_sched_demo.Kube.Api.{
  PodPhase, PodSpec, Pod, KubeService, Container, Toleration, StringMap, Probe,
}
use k8s_sched_demo.Base.{none, true, if◌then◌else◌, [], ◌∷◌, codes, Bool, Text}

abbrev pub default_cpu : Text
default_cpu = codes "0.1"

abbrev pub default_memory : Text
default_memory = codes "128Mi"

abbrev pub resource_list : StringMap
resource_list = (codes "cpu", default_cpu) ∷ (codes "memory", default_memory) ∷ []

abbrev pub liveness_probe : Probe
liveness_probe = record {
  path = codes "/health";
  port = 8000;
  initial_delay_seconds = 1;
  period_seconds = 60;
  timeout_seconds = 5;
  success_threshold = 1;
  failure_threshold = 3;
}

abbrev pub startup_probe : Probe
startup_probe = record {
  path = codes "/ready";
  port = 8000;
  initial_delay_seconds = 0;
  period_seconds = 1;
  timeout_seconds = 5;
  success_threshold = 1;
  failure_threshold = 5;
}

unfoldable pub sandbox_container : Text → SandboxId → Container
sandbox_container sandbox_image sandbox_id = record {
  name = codes "sandbox-container";
  image = sandbox_image;
  args = [];
  image_pull_policy = codes "IfNotPresent";
  requests = resource_list;
  limits = resource_list;
  env = (codes "SANDBOX_ID", sandbox_id) ∷ [];
  liveness_probe = liveness_probe;
  startup_probe = startup_probe;
}

abbrev pub gvisor_runtime : Text
gvisor_runtime = codes "sandbox.gke.io/runtime"

abbrev pub gvisor_toleration : Toleration
gvisor_toleration = record {
  key = gvisor_runtime;
  operator = codes "Equal";
  value = codes "gvisor";
  effect = codes "NoSchedule";
}

unfoldable pub sandbox_pod_spec : Text → Bool → SandboxId → PodSpec
unfolding sandbox_container
sandbox_pod_spec sandbox_image use_gvisor sandbox_id = record {
  containers = sandbox_container sandbox_image sandbox_id ∷ [];
  restart_policy = codes "Never";
  run_as_non_root = true;
  run_as_user = 1000;
  fs_group = 1000;
  termination_grace_period_seconds = 30;
  dns_policy = codes "None";
  nameservers = codes "8.8.8.8" ∷ codes "1.1.1.1" ∷ [];
  node_selector = if use_gvisor then (gvisor_runtime, codes "gvisor") ∷ [] else [];
  tolerations = if use_gvisor then gvisor_toleration ∷ [] else [];
  node_name = [];
}

-- The pod as it is sent to the API: no timestamps and no status yet.
unfoldable pub sandbox_pod : Text → Text → Bool → SandboxId → Pod
unfolding sandbox_pod_spec
sandbox_pod namespace sandbox_image use_gvisor sandbox_id = record {
  name = sandbox_with_prefix sandbox_id;
  namespace = namespace;
  labels =
      (codes "app", codes "sandbox")
      ∷ (codes "managed-by", codes "scheduler")
      ∷ (codes "sandbox-id", sandbox_id)
      ∷ [];
  annotations =
      if use_gvisor then (codes "sandbox.scheduler/isolation", codes "gvisor") ∷ [] else [];
  creation_timestamp = 0;
  deletion_timestamp = none;
  spec = sandbox_pod_spec sandbox_image use_gvisor sandbox_id;
  status = record { phase = PodPhase.unknown; conditions = []; container_statuses = [] };
}

unfoldable pub project_service : Text → ProjectId → SandboxId → KubeService
project_service namespace project_id sandbox_id = record {
  name = project_with_prefix project_id;
  namespace = namespace;
  labels =
      (codes "app", codes "project-service")
      ∷ (codes "managed-by", codes "scheduler")
      ∷ (codes "project-id", project_id)
      ∷ [];
  annotations =
      (codes "sandbox.scheduler/project-id", project_id)
      ∷ (codes "sandbox.scheduler/sandbox-id", sandbox_id)
      ∷ [];
  cluster_ip = codes "None";
  selector = (codes "sandbox-id", sandbox_id) ∷ [];
  ports =
      record { name = codes "http"; port = 8000; target_port = 8000; protocol = codes "TCP" } ∷ [];
}
