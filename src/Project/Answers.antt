-- ===== src/Project/Answers.antt =====
-- What `GetProjectSandbox` answers (scheduler/internal/project/service.go), whatever Redis and
-- Kubernetes answer.
use k8s_sched_demo.Persistence.Store.Mapping.{get-set_project_sandbox}
use k8s_sched_demo.Persistence.Store
use k8s_sched_demo.Persistence.Redis.{IsServed}
use k8s_sched_demo.Project.{get_project_sandbox}
use k8s_sched_demo.Scheduler.{is_sandbox_gone, wait_for_sandbox_ready, Sys}
use k8s_sched_demo.Errors.{value_or, ok, Error}
use k8s_sched_demo.Types.Ids.{IsSandboxId, IsProjectId, SandboxId, ProjectId}
use k8s_sched_demo.Project.{
  creating, active, Status, choose_sandbox, scheduling_failed, pool_failed, answer_choice,
  create_sandbox, chosen, assign_sandbox, Response, Choice, Answer, Surroundings, ProjectService,
}
use k8s_sched_demo.Base.{
  refl, true, ◌⊎◌, text_eq, some, [], none, if◌then◌else◌, arith, false, Option, Text, Bool, ◌≡◌,
}

-- A failure comes with no response or with one of status ERROR. An answer without a failure has the
-- project's hostname and is ACTIVE, or is CREATING if the call does not wait; or it is an ERROR of
-- a call that waits.
abbrev pub IsAnswerOf : Bool → Text → Option Response → Option Error → Type 0
IsAnswerOf wait hostname none none = ⊥
IsAnswerOf wait hostname none (some e) = Unit {0}
IsAnswerOf wait hostname (some r) (some e) = r.status ≡ Status.error
IsAnswerOf wait hostname (some r) none =
    ((r.status ≡ active) × (r.hostname ≡ hostname))
    ⊎ ((r.status ≡ creating) × (wait ≡ false) × (r.hostname ≡ hostname))
    ⊎ ((r.status ≡ Status.error) × (wait ≡ true))

module _ {R K : Type 0} (svc : ProjectService R K) (around : Surroundings R K) (p : ProjectId)
    (wait : Bool) where
  abbrev pub Answers : Answer → Type 0
  Answers a = IsAnswerOf wait (svc.k8s_client.get_project_service_hostname p) a.response a.failure

  assign_sandbox-Answers :
      (x : SandboxId) (s : Sys R K) → Answers (assign_sandbox svc around p wait x s).0
  unfolding assign_sandbox
  assign_sandbox-Answers x s = ground arith

  create_sandbox-Answers : (s : Sys R K) → Answers (create_sandbox svc around p wait s).0
  unfolding create_sandbox
  create_sandbox-Answers s = let choice = choose_sandbox svc around p s in answer choice.0 choice.1
    where
      answer : (c : Choice) (s₁ : Sys R K) → Answers (answer_choice svc around p wait c s₁).0
      answer (chosen x) s₁ = assign_sandbox-Answers x s₁
      answer (pool_failed e) s₁ = tt
      answer (scheduling_failed e) s₁ = refl

  -- Whatever the stores and the cluster answer to GetProjectSandbox, a failure comes with no
  -- response or with one of status ERROR; an answer without a failure is ACTIVE with the hostname
  -- of the project, or CREATING with that hostname if the call does not wait, or ERROR if it waits;
  -- there is no answer with neither.
  pub get_project_sandbox-Answers :
      (s : Sys R K) → Answers (get_project_sandbox svc around p wait s).0
  unfolding get_project_sandbox
  get_project_sandbox-Answers s =
      let stored = Store.get_project_sandbox svc.store p s.redis in
      let s₁ : Sys R K = record s { redis = stored.1 } in
      let x : SandboxId = value_or [] stored.0 in
      let s₂ = (is_sandbox_gone svc.scheduler_service x s₁).1 in
      ground (arith, create_sandbox-Answers s₁, create_sandbox-Answers s₂)

module _ {R K : Type 0} (svc : ProjectService R K) (around : Surroundings R K) where
  -- However a new sandbox x was chosen for a project p, with IDs that are read back as they are
  -- written, it is the sandbox on record for p when the call returns, also if the wait for it
  -- fails; other projects keep theirs.
  pub assign_sandbox-stored :
      (served : IsServed svc.store.client) (p q : ProjectId) (wait : Bool) (x : SandboxId)
      (s : Sys R K)
      → IsProjectId p
      → IsSandboxId x
      → (Store.get_project_sandbox svc.store q (assign_sandbox svc around p wait x s).1.redis).0
        ≡ (if text_eq p q then ok x else (Store.get_project_sandbox svc.store q s.redis).0)
  unfolding assign_sandbox wait_for_sandbox_ready
  assign_sandbox-stored served p q wait x s pi xi =
      ground (arith, get-set_project_sandbox svc.store served p q x x s.redis pi xi)
