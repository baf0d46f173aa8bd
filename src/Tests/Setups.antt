-- ===== src/Tests/Setups.antt =====
-- The properties of the start-up, of the stop and of the assigned services at concrete inputs.
use k8s_sched_demo.Project.Selected.{assign_sandbox-takes}
use k8s_sched_demo.Kube.Interface.{k8s_interface}
use k8s_sched_demo.Project.{creating, respond, assign_sandbox, Surroundings, ProjectService}
use k8s_sched_demo.Persistence.Redis.{Db}
use k8s_sched_demo.Scheduler.{Sys, Service}
use k8s_sched_demo.Tests.Fakes.{fake_served, live_ctx, fake_redis, empty_db}
use k8s_sched_demo.Errors.{api_not_found, ok, err, Result}
use k8s_sched_demo.Types.Ids.{project_with_prefix, IsSandboxId, IsProjectId, SandboxId, ProjectId}
use k8s_sched_demo.Kube.Services.{takes, HasServices}
use k8s_sched_demo.Kube.Client.{get_project_service_hostname, K8sClient}
use k8s_sched_demo.Kube.Api.{KubeService, Api}
use k8s_sched_demo.Base.{
  false, text_eq_iff, text_eq, if◌then◌else◌, arith, ◌∷◌, true, some, refl, none, ◌≡◌, codes, [],
  strip_prefix, Text, Option, List,
}
use k8s_sched_demo.Persistence.Store.{get_project_sandbox}

abbrev p : ProjectId
p = codes "p"

abbrev x : SandboxId
x = codes "11"

x-IsSandboxId : IsSandboxId (codes "11")
unfolding strip_prefix
x-IsSandboxId = record { valid = refl; bare = refl }

p-IsProjectId : IsProjectId (codes "p")
unfolding strip_prefix
p-IsProjectId = record { valid = refl; bare = refl }

-- A cluster that keeps the services it is told, the newest first.
abbrev find_service : List KubeService → Text → Option KubeService
find_service [] name = none
find_service (svc ∷ services) name =
    if text_eq svc.name name then some svc else find_service services name

abbrev read_service : Option KubeService → Result KubeService
read_service none = err api_not_found
read_service (some svc) = ok svc

abbrev services_api : Api (List KubeService)
services_api = record {
  create_pod = λ namespace pod s. (none, s);
  delete_pod = λ namespace name s. (none, s);
  get_pod = λ namespace name s. (err api_not_found, s);
  list_pods = λ namespace options s. (ok (record { items = []; continue = [] }), s);
  create_service = λ namespace svc s. (none, svc ∷ s);
  update_service = λ namespace svc s. (none, svc ∷ s);
  get_service = λ namespace name s. (read_service (find_service s name), s);
  delete_service = λ namespace name s. (none, s);
}

find_service-named :
    (name : Text) (old : KubeService) (s : List KubeService)
    → find_service s name ≡ some old
    → old.name ≡ name
find_service-named name old [] h = cc
find_service-named name old (svc ∷ s) h =
    ground (arith, text_eq_iff svc.name name, find_service-named name old s)

abbrev client : K8sClient (List KubeService)
client = record {
  clientset = services_api;
  namespace = codes "sandbox";
  use_gvisor = true;
  sandbox_image = codes "image";
}

abbrev kept : HasServices services_api (codes "sandbox")
kept = record {
  service = find_service;
  named = find_service-named;
  get_reply = λ name s. refl;
  get_services = λ name s. refl;
  create_new = λ new s h. (refl, refl);
  update_old = λ new old s h. (refl, refl);
}

abbrev still : List KubeService → List KubeService
still s = s

abbrev scheduler : Service Db (List KubeService)
scheduler = record {
  idempotence_store = record { client = fake_redis; key_prefix = codes "sch:" };
  k8s_client = k8s_interface still client;
  store = record { client = fake_redis; key_prefix = codes "sch:" };
  sandbox_ttl = 3600;
}

abbrev projects : ProjectService Db (List KubeService)
projects = record {
  scheduler_service = scheduler;
  sandbox_pool = record {
    pool_store = record { client = fake_redis; key_prefix = codes "sch:" };
    scheduler_service = scheduler;
    config = record { pool_enabled = true; pool_size = 2; pool_max_pending = 1 };
  };
  store = scheduler.store;
  k8s_client = k8s_interface still client;
}

abbrev around : Surroundings Db (List KubeService)
around = record {
  elapse = λ d. d;
  maintenance = λ s. s;
  claim_ctx = live_ctx;
  wait_ctx = live_ctx;
  nanos = 36;
  random = 1;
}

abbrev bare : Sys Db (List KubeService)
bare = record { redis = empty_db; kube = [] }

assign_sandbox-takes_example :
    let (answer, s') = assign_sandbox projects around p false x bare in
    (answer ≡ respond x creating (get_project_service_hostname client p))
    × ((get_project_sandbox scheduler.store p s'.redis).0
        ≡ (if text_eq p p then ok x else (get_project_sandbox scheduler.store p empty_db).0))
    × (takes client kept (find_service s'.kube (project_with_prefix p)) x ≡ (
        if text_eq (project_with_prefix p) (project_with_prefix p)
        then text_eq x x
        else takes client kept (find_service [] (project_with_prefix p)) x))
assign_sandbox-takes_example =
    assign_sandbox-takes projects around still client refl kept fake_served p p
      (project_with_prefix p) x x bare p-IsProjectId x-IsSandboxId
