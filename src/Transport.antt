-- ===== src/Transport.antt =====
-- scheduler/internal/transport/http/project_server.go: the handler of GetProjectSandbox calls that
-- come over Connect.
pub mod Forwarded
use k8s_sched_demo.Project
use k8s_sched_demo.Errors.{ok, err}
use k8s_sched_demo.Types.Ids.{new_project_id_without_prefix}
use k8s_sched_demo.Scheduler.{Sys}
use k8s_sched_demo.Project.{Surroundings, ProjectService, Answer}
use k8s_sched_demo.Base.{some, none, Bool, Text}

-- GetProjectSandboxRequest of proto/will/scheduler/v1/project.proto
pub record Request : Type 0 where
  pub project_id : Text
  pub wait_for_creation : Bool

pub record ProjectServer (R K : Type 0) : Type 0 where
  pub project_service : ProjectService R K

unfoldable pub new_project_server : {R K : Type 0} → ProjectService R K → ProjectServer R K
new_project_server project_service = record { project_service = project_service }

-- A failure loses the response that came with it.
abbrev pub reply_with : Answer → Answer
reply_with a = elim a.failure [ none ↦ a | some e ↦ record { response = none; failure = some e } ]

module _ {R K : Type 0} (server : ProjectServer R K) (around : Surroundings R K) where
  unfoldable pub get_project_sandbox : Request → Sys R K → Answer × Sys R K
  get_project_sandbox req s = elim (new_project_id_without_prefix req.project_id) [
    | err e ↦ (record { response = none; failure = some e }, s)
    | ok project_id ↦
        let (answer, s') =
          Project.get_project_sandbox server.project_service around project_id req.wait_for_creation
            s in
        (reply_with answer, s')
  ]
