-- ===== src/Kube/Api.antt =====
-- The Kubernetes API (k8s.io/client-go, k8s.io/api) as the client calls it: a parameter of every
-- definition that uses it. `K` is the state of the cluster with whatever else a call passes
-- through. Of the API's types, the fields that the code writes or reads.
use k8s_sched_demo.Base.{ℕ, Bool, Option, List, Text}
use k8s_sched_demo.Errors.{Error, Result}

-- A map[string]string, as an association list.
abbrev pub StringMap : Type 0
StringMap = List (Text × Text)

-- corev1.PodPhase; `unknown` is every other text.
pub data PodPhase : Type 0 where
  pending running succeeded failed unknown : PodPhase

pub record PodCondition : Type 0 where
  pub kind : Text  -- Type
  pub status : Text
  pub reason : Text

pub record ContainerStatus : Type 0 where
  pub waiting : Option Text  -- State.Waiting, its Reason
  pub ready : Bool

pub record Probe : Type 0 where
  pub path : Text
  pub port : ℕ
  pub initial_delay_seconds : ℕ
  pub period_seconds : ℕ
  pub timeout_seconds : ℕ
  pub success_threshold : ℕ
  pub failure_threshold : ℕ

pub record Container : Type 0 where
  pub name : Text
  pub image : Text
  pub args : List Text
  pub image_pull_policy : Text
  pub requests : StringMap
  pub limits : StringMap
  pub env : StringMap
  pub liveness_probe : Probe
  pub startup_probe : Probe

pub record Toleration : Type 0 where
  pub key : Text
  pub operator : Text
  pub value : Text
  pub effect : Text

pub record PodSpec : Type 0 where
  pub containers : List Container
  pub restart_policy : Text
  pub run_as_non_root : Bool
  pub run_as_user : ℕ
  pub fs_group : ℕ
  pub termination_grace_period_seconds : ℕ
  pub dns_policy : Text
  pub nameservers : List Text
  pub node_selector : StringMap
  pub tolerations : List Toleration
  pub node_name : Text

pub record PodStatus : Type 0 where
  pub phase : PodPhase
  pub conditions : List PodCondition
  pub container_statuses : List ContainerStatus

pub record Pod : Type 0 where
  pub name : Text
  pub namespace : Text
  pub labels : StringMap
  pub annotations : StringMap
  pub creation_timestamp : ℕ
  pub deletion_timestamp : Option ℕ
  pub spec : PodSpec
  pub status : PodStatus

pub record ServicePort : Type 0 where
  pub name : Text
  pub port : ℕ
  pub target_port : ℕ
  pub protocol : Text

pub record KubeService : Type 0 where
  pub name : Text
  pub namespace : Text
  pub labels : StringMap
  pub annotations : StringMap
  pub cluster_ip : Text
  pub selector : StringMap
  pub ports : List ServicePort

-- metav1.ListOptions; `continue` is empty on the first page.
pub record ListOptions : Type 0 where
  pub label_selector : Text
  pub limit : ℕ
  pub continue : Text

pub record PodList : Type 0 where
  pub items : List Pod
  pub continue : Text

-- The calls take the namespace first.
pub record Api (K : Type 0) : Type 0 where
  pub create_pod : Text → Pod → K → Option Error × K
  pub delete_pod : Text → Text → K → Option Error × K
  pub get_pod : Text → Text → K → Result Pod × K
  pub list_pods : Text → ListOptions → K → Result PodList × K
  pub create_service : Text → KubeService → K → Option Error × K
  pub update_service : Text → KubeService → K → Option Error × K
  pub get_service : Text → Text → K → Result KubeService × K
  pub delete_service : Text → Text → K → Option Error × K
