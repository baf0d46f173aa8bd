-- ===== src/Project.antt =====
-- scheduler/internal/project/service.go: the sandbox of a project, reused while it lives and
-- replaced from the pool or by scheduling.
pub mod Answers
pub mod Reassigned
pub mod Selected
pub mod Repeated
pub mod Concurrent
pub mod First
use k8s_sched_demo.Kube.Interface.{K8sInterface}
use k8s_sched_demo.Errors.{is_pool_empty, format, ok, err, Error}
use k8s_sched_demo.Types.Ids.{SandboxId, ProjectId}
use k8s_sched_demo.Pool.{get_sandbox, PoolService}
use k8s_sched_demo.Persistence.Context.{Context}
use k8s_sched_demo.Base.{is_empty, [], none, if◌then◌else◌, ℕ, some, Bool, Text, Option}
use k8s_sched_demo.Scheduler.{
  Service, Sys, schedule_sandbox, is_sandbox_gone, wait_for_sandbox_ready,
}
use k8s_sched_demo.Persistence.Store.{RedisStore}
use k8s_sched_demo.Persistence.Store

-- ProjectSandboxStatus of proto/will/scheduler/v1/project.proto
pub data Status : Type 0 where
  unspecified active creating not_found error : Status

-- GetProjectSandboxResponse
pub record Response : Type 0 where
  pub sandbox_id : Text
  pub status : Status
  pub hostname : Text

-- What Go returns: a response that may be nil, and an error.
pub record Answer : Type 0 where
  pub response : Option Response
  pub failure : Option Error

pub record ProjectService (R K : Type 0) : Type 0 where
  pub scheduler_service : Service R K
  pub sandbox_pool : PoolService R K
  pub store : RedisStore R
  pub k8s_client : K8sInterface K

-- What a call meets around it: the steps of other clients during a wait, what the maintenance that
-- `GetSandbox` starts in the background does meanwhile, the contexts, the clock and the random byte.
pub record Surroundings (R K : Type 0) : Type 0 where
  pub elapse : R → R
  pub maintenance : Sys R K → Sys R K
  pub claim_ctx : Context
  pub wait_ctx : Context
  pub nanos : ℕ
  pub random : ℕ

-- How the choice of a new sandbox ends: with a sandbox, with an error of the pool other than an
-- empty one, or with an error of the scheduling.
pub data Choice : Type 0 where
  chosen : SandboxId → Choice
  pool_failed : Error → Choice
  scheduling_failed : Error → Choice

abbrev pub respond : SandboxId → Status → Text → Answer
respond sandbox_id status hostname = record {
  response = some (record { sandbox_id = sandbox_id; status = status; hostname = hostname });
  failure = none;
}

module _ {R K : Type 0} (svc : ProjectService R K) (around : Surroundings R K) where
  -- After the sandbox is chosen: the mapping and the service are written, and their errors are
  -- logged only; then the call waits if it is asked to.
  unfoldable pub assign_sandbox : ProjectId → Bool → SandboxId → Sys R K → Answer × Sys R K
  assign_sandbox project_id wait_for_creation sandbox_id s =
      let (error₁, r₁) = Store.set_project_sandbox svc.store project_id sandbox_id s.redis in
      let (error₂, k₁) =
        svc.k8s_client.create_or_update_project_service project_id sandbox_id s.kube in
      let s₁ : Sys R K = record { redis = r₁; kube = k₁ } in
      let hostname = svc.k8s_client.get_project_service_hostname project_id in
      if wait_for_creation
      then (let (ready, s₂) =
            wait_for_sandbox_ready svc.scheduler_service around.wait_ctx sandbox_id s₁ in
          (
            elim ready [
              | err e ↦ record {
                response = none;
                failure = some (format "failed to wait for sandbox to be ready" e);
              }
              | ok is_ready ↦
                  if is_ready
                  then respond sandbox_id active hostname
                  else respond [] Status.error []
            ],
            s₂,
          ))
      else (respond sandbox_id creating hostname, s₁)

  -- `s.schedulerService.ScheduleSandbox(ctx, projectID.String())`
  unfoldable pub schedule_for : ProjectId → Sys R K → Choice × Sys R K
  schedule_for project_id s =
      let (result, s') =
        schedule_sandbox svc.scheduler_service around.elapse around.claim_ctx around.nanos
          around.random project_id s in
      (elim result [ err e ↦ scheduling_failed e | ok sandbox_id ↦ chosen sandbox_id ], s')

  -- From the pool, or by scheduling if the pool is empty.
  unfoldable pub choose_sandbox : ProjectId → Sys R K → Choice × Sys R K
  unfolding schedule_for
  choose_sandbox project_id s =
      let (pooled, s₁) = get_sandbox svc.sandbox_pool around.elapse project_id s in
      let s₂ = around.maintenance s₁ in
      elim pooled [
        | err e ↦ if is_pool_empty e then schedule_for project_id s₂ else (pool_failed e, s₂)
        | ok sandbox_id ↦
            if is_empty sandbox_id then schedule_for project_id s₂ else (chosen sandbox_id, s₂)
      ]

  unfoldable pub answer_choice : ProjectId → Bool → Choice → Sys R K → Answer × Sys R K
  answer_choice project_id wait_for_creation (pool_failed e) s =
      (record { response = none; failure = some e }, s)
  answer_choice project_id wait_for_creation (scheduling_failed e) s = (
    record {
      response = some (record { sandbox_id = []; status = Status.error; hostname = [] });
      failure = some (format "failed to create sandbox" e);
    },
    s,
  )
  answer_choice project_id wait_for_creation (chosen sandbox_id) s =
      assign_sandbox project_id wait_for_creation sandbox_id s

  unfoldable pub create_sandbox : ProjectId → Bool → Sys R K → Answer × Sys R K
  unfolding answer_choice
  create_sandbox project_id wait_for_creation s =
      let (choice, s₁) = choose_sandbox project_id s in
      answer_choice project_id wait_for_creation choice s₁

  -- The sandbox on record is answered if it is known to be alive; in every other case one is created.
  unfoldable pub get_project_sandbox : ProjectId → Bool → Sys R K → Answer × Sys R K
  get_project_sandbox project_id wait_for_creation s =
      let (stored, r₁) = Store.get_project_sandbox svc.store project_id s.redis in
      let s₁ : Sys R K = record s { redis = r₁ } in
      elim stored [
        | err e ↦ create_sandbox project_id wait_for_creation s₁
        | ok sandbox_id ↦
            if is_empty sandbox_id
            then create_sandbox project_id wait_for_creation s₁
            else (let (gone, s₂) = is_sandbox_gone svc.scheduler_service sandbox_id s₁ in
                elim gone [
                  | err e ↦ create_sandbox project_id wait_for_creation s₂
                  | ok is_gone ↦
                      if is_gone then create_sandbox project_id wait_for_creation s₂ else (
                        respond sandbox_id active
                            (svc.k8s_client.get_project_service_hostname project_id),
                        s₂,
                      )
                ])
      ]
