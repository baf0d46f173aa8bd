-- ===== src/Kube/Setup.antt =====
-- How the Kubernetes client is made (scheduler/internal/k8sclient/client.go, `NewK8sClient`,
-- module.go): inside a cluster its namespace is read from a file.
use k8s_sched_demo.Types.Ids.{project_with_prefix, ProjectId}
use k8s_sched_demo.Kube.Interface.{k8s_interface, mock_interface, K8sInterface}
use k8s_sched_demo.Kube.Client.{get_project_service_hostname, K8sClient}
use k8s_sched_demo.Kube.Api.{Api}
use k8s_sched_demo.Errors.{value_or, new, ok, format, err, Result}
use k8s_sched_demo.Config.{Config}
use k8s_sched_demo.Base.{
  All-reverse, arith, ◌&&◌, refl, leb, ◌||◌, true, not, false, [], ◌≡◌, ◌∷◌, ◌==◌, ◌++◌, reverse,
  is_empty, if◌then◌else◌, codes, All, ℕ, Text, Bool,
}
use mathlib.Core.List.{reverse-append, reverse-reverse}

-- What the process finds around it: os.Stat succeeds on a path, os.ReadFile, the configuration of
-- the cluster or of the user's kubeconfig, and the clientset that client-go makes of one.
pub record Environment (Rest K : Type 0) : Type 0 where
  pub exists : Text → Bool
  pub read_file : Text → Result Text
  pub in_cluster_config : Result Rest
  pub kubeconfig : Result Rest
  pub new_for_config : Rest → Result (Api K)

-- unicode.IsSpace on ASCII.
abbrev pub is_space : ℕ → Bool
is_space c = c == 32 || (leb 9 c && leb c 13)

abbrev pub trim_left : Text → Text
trim_left [] = []
trim_left (c ∷ s) = if is_space c then trim_left s else c ∷ s

-- strings.TrimSpace on ASCII.
unfoldable pub trim_space : Text → Text
trim_space s = reverse (trim_left (reverse (trim_left s)))

abbrev pub service_account : Text
service_account = codes "/var/run/secrets/kubernetes.io/serviceaccount/"

module _ {Rest K : Type 0} (env : Environment Rest K) where
  unfoldable pub is_running_in_cluster : Bool
  is_running_in_cluster =
      if not (env.exists (service_account ++ codes "token"))
      then false
      else if not (env.exists (service_account ++ codes "ca.crt"))
      then false
      else env.exists (service_account ++ codes "namespace")

  abbrev pub read_namespace : Result Text → Result Text
  read_namespace (err e) = err (format "failed to read in-cluster namespace" e)
  read_namespace (ok content) =
      let namespace = trim_space content in
      if is_empty namespace then err (new "in-cluster namespace is empty") else ok namespace

  unfoldable pub get_in_cluster_namespace : Result Text
  get_in_cluster_namespace = read_namespace (env.read_file (service_account ++ codes "namespace"))

  abbrev pub make_client : Config → Text → Rest → Result (K8sClient K)
  make_client cfg namespace config = elim (env.new_for_config config) [
    | err e ↦ err (format "failed to create clientset" e)
    | ok clientset ↦ ok (record {
      clientset = clientset;
      namespace = namespace;
      use_gvisor = cfg.use_gvisor;
      sandbox_image = cfg.sandbox_image;
    })
  ]

  unfoldable pub new_k8s_client : Config → Result (K8sClient K)
  new_k8s_client cfg =
      if is_running_in_cluster
      then (elim env.in_cluster_config [
        | err e ↦ err (format "failed to load in-cluster config" e)
        | ok config ↦ make_client cfg (value_or cfg.namespace get_in_cluster_namespace) config
      ])
      else (elim env.kubeconfig [
        | err e ↦ err (format "failed to load kubeconfig" e)
        | ok config ↦ make_client cfg cfg.namespace config
      ])

  unfoldable pub new_test_k8s_client : Rest → Result (K8sClient K)
  new_test_k8s_client config = elim (env.new_for_config config) [
    | err e ↦ err (format "failed to create clientset" e)
    | ok clientset ↦ ok (record {
      clientset = clientset;
      namespace = codes "sandbox";
      use_gvisor = false;
      sandbox_image = codes "sandbox:latest";
    })
  ]

  -- `ProvideK8sClient`; what the cluster does between two ticks of a polling loop is given.
  unfoldable pub provide_k8s_client : (K → K) → Config → Result (K8sInterface K)
  provide_k8s_client elapse cfg =
      if cfg.mock_mode
      then ok mock_interface
      else (elim (new_k8s_client cfg) [ err e ↦ err e | ok k ↦ ok (k8s_interface elapse k) ])

abbrev pub AreSpaces : Text → Type 0
AreSpaces s = All (λ c. is_space c ≡ true) s

abbrev pub AreNoSpaces : Text → Type 0
AreNoSpaces s = All (λ c. is_space c ≡ false) s

trim_left-append : (s t : Text) → AreSpaces s → trim_left (s ++ t) ≡ trim_left t
trim_left-append [] t h = refl
trim_left-append (c ∷ s) t (space, h) = rw space (trim_left-append s t h)

trim_left-AreNoSpaces : (s : Text) → AreNoSpaces s → trim_left s ≡ s
trim_left-AreNoSpaces [] h = refl
trim_left-AreNoSpaces (c ∷ s) (here, h) = rw here

-- A text without spaces in it is what is left of it with spaces on either side.
trim_space-append :
    (before name after : Text)
    → AreSpaces before
    → AreNoSpaces name
    → is_empty name ≡ false
    → AreSpaces after
    → trim_space (before ++ (name ++ after)) ≡ name
unfolding trim_space
trim_space-append before [] after b n full a = cc
trim_space-append before (c ∷ s) after b (here, n) full a =
    rw (trim_left-append before (c ∷ s ++ after) b) (
      rw here (
        rw (reverse-append (c ∷ s) after) (
          rw
            (trim_left-append (reverse after) (reverse (c ∷ s))
              (All-reverse (λ c. is_space c ≡ true) after a))
            (rw
              (trim_left-AreNoSpaces (reverse (c ∷ s))
                (All-reverse (λ c. is_space c ≡ false) (c ∷ s) (here, n)))
              (reverse-reverse (c ∷ s))))))

module _ {Rest K : Type 0} (env : Environment Rest K) (cfg : Config) where
  -- Inside a cluster whose namespace file holds a non-empty name without spaces, with any spaces
  -- before and after it, and where the clientset can be made, NewK8sClient succeeds; the client
  -- works in that namespace, and the hostname of every project is in it.
  pub new_k8s_client-namespace :
      (before name after : Text) (config : Rest) (api : Api K)
      → is_running_in_cluster env ≡ true
      → env.read_file (service_account ++ codes "namespace") ≡ ok (before ++ (name ++ after))
      → AreSpaces before
      → AreNoSpaces name
      → is_empty name ≡ false
      → AreSpaces after
      → env.in_cluster_config ≡ ok config
      → env.new_for_config config ≡ ok api
      → (k : K8sClient K) × (new_k8s_client env cfg ≡ ok k)
        × (k.namespace ≡ name)
        × ((p : ProjectId)
            → get_project_service_hostname k p
              ≡ project_with_prefix p ++ (codes "." ++ (name ++ codes ".svc")))
  unfolding new_k8s_client get_in_cluster_namespace get_project_service_hostname
  new_k8s_client-namespace before name after config api inside content b n full a configured made =
      (
        record {
          clientset = api;
          namespace = name;
          use_gvisor = cfg.use_gvisor;
          sandbox_image = cfg.sandbox_image;
        },
        ground (arith, trim_space-append before name after b n full a),
        refl,
        λ p. refl,
      )
