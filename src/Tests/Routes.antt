-- ===== src/Tests/Routes.antt =====
-- The properties of the control plane at concrete inputs.
use k8s_sched_demo.Tests.Fakes.{fake_pipelined, fake_served}
use k8s_sched_demo.Persistence.Store.AllMappings.{to_option, names}
use k8s_sched_demo.Tests.Stores.{a, store, owned, one_project}
use k8s_sched_demo.Xds.Startup.{initial_routes, new, on_start, on_start-destination}
use k8s_sched_demo.Persistence.Store.{get_project_sandbox}
use k8s_sched_demo.Xds.{
  done, Service, update_snapshot, blocked, handle_project_sandbox_update, ControlPlane,
}
use k8s_sched_demo.Xds.Deadlock.{update_blocks}
use k8s_sched_demo.Kube.Interface.{mock_hostname}
use k8s_sched_demo.Xds.Snapshot.{connection_manager, Resources, HttpConnectionManager, resources}
use k8s_sched_demo.Errors.{is_some, ok}
use k8s_sched_demo.Base.{
  ◌&&◌, if◌then◌else◌, List, refl, true, ◌≡◌, ◌∷◌, suc, none, [], false, ℕ, some, codes, Text,
}
use k8s_sched_demo.Xds.Routing.{destination}
use k8s_sched_demo.Types.Ids.{SandboxId, ProjectId}

abbrev p : ProjectId
p = codes "p"

abbrev x : SandboxId
x = codes "x"

-- A message is packed as it is, and a snapshot carries nothing; the cache counts what it was given.
abbrev pub plane : ControlPlane HttpConnectionManager Text ℕ
plane = record {
  pack = λ manager. ok manager;
  new_snapshot = λ version parts. ok (codes "snapshot");
  set_snapshot = λ node snapshot cache. (none, suc cache);
}

abbrev service : Service ℕ
service = record { snapshot_cache = 0; mu = record { writer = false; readers = 0 }; routes = [] }

update_blocks_example :
    (s' : Service ℕ) × (handle_project_sandbox_update plane mock_hostname 1 p x false service
      ≡ blocked s')
    × (s'.snapshot_cache ≡ 0)
    × (update_snapshot plane mock_hostname 2 s' ≡ blocked s')
    × (handle_project_sandbox_update plane mock_hostname 2 p x true s' ≡ blocked s')
update_blocks_example = update_blocks plane mock_hostname 1 2 p p x x false true service refl

abbrev first_routes : List (ProjectId × SandboxId)
first_routes = initial_routes plane mock_hostname store owned

abbrev first_parts : Resources HttpConnectionManager
first_parts = resources mock_hostname (connection_manager first_routes) first_routes

on_start-destination_example :
    ((on_start plane mock_hostname store 1 owned (new 0)).0
      ≡ done none (record (new 0) { snapshot_cache = 1; routes = first_routes }))
    × (destination (λ manager. manager) (some a) first_parts
        ≡ some (
            if names a (a ∷ []) && is_some (to_option (get_project_sandbox store a owned).0)
            then (mock_hostname a, 8000)
            else (codes "activator.sandbox.svc", 80)))
    × (destination (λ manager. manager) none first_parts ≡ some (codes "activator.sandbox.svc", 80))
on_start-destination_example =
    on_start-destination plane mock_hostname store fake_served fake_pipelined (λ manager. manager)
      (a ∷ []) a 1 owned 0 (connection_manager first_routes) (codes "snapshot") one_project refl
      refl refl
