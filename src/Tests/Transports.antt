-- ===== src/Tests/Transports.antt =====
-- The properties of the scheduler's transport and of the activator behind it at concrete inputs.
use k8s_sched_demo.Kube.Api.{Pod}
use k8s_sched_demo.Errors.{redis_nil, ok, err, Result, Error}
use k8s_sched_demo.Project.Answers.{IsAnswerOf}
use k8s_sched_demo.Project.{Answer, Response}
use k8s_sched_demo.Persistence.Redis.{Db}
use k8s_sched_demo.Transport.Forwarded.{replied, get_project_sandbox-IsReply, hostname_of, IsReply}
use k8s_sched_demo.Scheduler.{Sys}
use k8s_sched_demo.Base.{none, some, inr, true, List, codes, Option}
use k8s_sched_demo.Activator.{Network}
use k8s_sched_demo.Tests.Projects.{projects, around, start}
use k8s_sched_demo.Tests.Activations.{activator, visit, welcome}
use k8s_sched_demo.Transport.{Request, ProjectServer, get_project_sandbox}

abbrev server : ProjectServer Db (List Pod)
server = record { project_service = projects }

abbrev asked : Request
asked = record { project_id = codes "p"; wait_for_creation = true }

get_project_sandbox-IsReply_example :
    let a = (get_project_sandbox server around asked start).0 in
    IsReply a.response a.failure
    × IsAnswerOf true (hostname_of server around (codes "p")) a.response a.failure
get_project_sandbox-IsReply_example = get_project_sandbox-IsReply server around asked start

-- The network hands the activator what the server answers.
abbrev as_result : Option Response → Option Error → Result Response
as_result response (some e) = err e
as_result (some r) none = ok r
as_result none none = err redis_nil

abbrev joined : Network (Sys Db (List Pod))
joined = record {
  round_trip = λ req s. (inr welcome, s);
  pause = λ backoff s. (none, s);
  accepts = λ method url. true;
  ask_scheduler = λ project_id wait s.
      let (a, s') =
        get_project_sandbox server around
          (record { project_id = project_id; wait_for_creation = wait }) s in
      (as_result a.response a.failure, s');
}

abbrev asks : Sys Db (List Pod) → Answer
asks = replied server around activator joined visit
