-- ===== src/Transport/Forwarded.antt =====
-- What a caller of the scheduler gets (scheduler/internal/transport/http/project_server.go), and
-- where the activator sends a request after it has asked the scheduler
-- (activator/internal/service/activator.go).
use k8s_sched_demo.Activator.Forwarding.{AllTo}
use k8s_sched_demo.Types.Ids.Laws.{new_project_id_without_prefix_lem}
use k8s_sched_demo.Activator.{target_url, Outgoing, header_get, Incoming, Network, ActivatorService}
use k8s_sched_demo.Project.Answers.{get_project_sandbox-Answers, IsAnswerOf}
use k8s_sched_demo.Scheduler.{Sys}
use k8s_sched_demo.Errors.{ok, err, Result, Error}
use k8s_sched_demo.Project.{Answer, Surroundings, Response}
use k8s_sched_demo.Base.{
  ◌+◌, ◌≤◌, length, codes, true, List, arith, ◌≡◌, some, none, Text, Bool, Option,
}
use k8s_sched_demo.Project
use k8s_sched_demo.Transport.{reply_with, Request, ProjectServer, get_project_sandbox}

-- A response without a failure, or a failure without a response.
abbrev pub IsReply : Option Response → Option Error → Type 0
IsReply none none = ⊥
IsReply none (some e) = Unit {0}
IsReply (some r) (some e) = ⊥
IsReply (some r) none = Unit {0}

-- How a reply of the server arrives at the client: a response as it is, a failure as some error.
abbrev pub Delivers : Option Response → Option Error → Result Response → Type 0
Delivers response (some e) result = (e' : Error) × (result ≡ err e')
Delivers (some r) none result = result ≡ ok r
Delivers none none result = Unit {0}

module _ {R K : Type 0} (server : ProjectServer R K) (around : Surroundings R K) where
  abbrev pub hostname_of : Text → Text
  hostname_of = server.project_service.k8s_client.get_project_service_hostname

  reply_with-IsReply :
      (wait : Bool) (hostname : Text) (a : Answer)
      → IsAnswerOf wait hostname a.response a.failure
      → let b = reply_with a in
        IsReply b.response b.failure × IsAnswerOf wait hostname b.response b.failure
  reply_with-IsReply wait hostname a h = ground arith

  -- The server answers every GetProjectSandbox request with a response or with a failure, never
  -- with both or neither; a response is ACTIVE with the hostname of the project, or CREATING with
  -- that hostname if the request does not wait, or ERROR if it waits.
  pub get_project_sandbox-IsReply :
      (req : Request) (s : Sys R K)
      → let a = (get_project_sandbox server around req s).0 in
        IsReply a.response a.failure
        × IsAnswerOf req.wait_for_creation (hostname_of req.project_id) a.response a.failure
  unfolding get_project_sandbox
  get_project_sandbox-IsReply req s =
      let p = req.project_id in
      let answer =
        Project.get_project_sandbox server.project_service around p req.wait_for_creation s in
      ground (
        arith,
        new_project_id_without_prefix_lem p,
        reply_with-IsReply req.wait_for_creation (hostname_of p) answer.0
            (get_project_sandbox-Answers server.project_service around p req.wait_for_creation s),
      )

  module _ (svc : ActivatorService) {H : Type 0} (net : Network H) (r : Incoming) where
    abbrev pub project_of_request : Text
    project_of_request = header_get (codes "Project-Id") r.headers

    abbrev pub IsMeantFor : Text → List Outgoing → Type 0
    IsMeantFor p sent =
        (length sent ≤ svc.max_retries + 1) × AllTo (target_url (hostname_of p) r) r.method sent

    -- The reply to the activator's call.
    abbrev pub replied : Sys R K → Answer
    replied s =
        (get_project_sandbox server around
          (record { project_id = project_of_request; wait_for_creation = true }) s).0
