-- ===== src/Persistence/Store/Mapping.antt =====
-- What the project-sandbox mapping remembers (scheduler/internal/persistence/redis.go), on a Redis
-- server that answers.
use k8s_sched_demo.Base.{◌≡◌, true, Bool-cases, ◌⊎◌, inl, inr, false, none, text_eq, if◌then◌else◌}
use k8s_sched_demo.Errors.{ok}
use k8s_sched_demo.Types.Ids.{SandboxId, ProjectId, IsSandboxId, IsProjectId}
use k8s_sched_demo.Types.Ids.Laws.{new_sandbox_id-IsSandboxId, new_project_id-IsProjectId}
use k8s_sched_demo.Persistence.Redis.{IsServed}
use k8s_sched_demo.Persistence.Store.{
  RedisStore, get_project_sandbox, set_project_sandbox, find_project_for_sandbox, read_sandbox,
  read_project,
}
use k8s_sched_demo.Persistence.Store.Effects.{
  get_project_sandbox-reply, find_project-reply, set_project_sandbox-db, set_error,
  set_commands-project, set_commands-sandbox,
}

read_sandbox-ok : (x : SandboxId) → IsSandboxId x → read_sandbox (ok x) ≡ ok x
read_sandbox-ok x i = rw (new_sandbox_id-IsSandboxId x i)

read_project-ok : (p : ProjectId) → IsProjectId p → read_project (ok p) ≡ ok p
read_project-ok p i = rw (new_project_id-IsProjectId p i)

module _ {R : Type 0} (r : RedisStore R) (served : IsServed r.client) where
  open served use {db}

  -- After SetProjectSandbox p x, with IDs that are read back as they are written, there is no
  -- error; the sandbox of p is x and that of every other project is what it was; the project of x
  -- is p and that of every other sandbox is what it was.
  pub get-set_project_sandbox :
      (p q : ProjectId) (x y : SandboxId) (s : R)
      → IsProjectId p
      → IsSandboxId x
      → let s' = (set_project_sandbox r p x s).1 in
        ((set_project_sandbox r p x s).0 ≡ none)
        × ((get_project_sandbox r q s').0
            ≡ (if text_eq p q then ok x else (get_project_sandbox r q s).0))
        × ((find_project_for_sandbox r y s').0
            ≡ (if text_eq x y then ok p else (find_project_for_sandbox r y s).0))
  get-set_project_sandbox p q x y s pi xi = (
    set_error r served p x s,
    of_project (Bool-cases (text_eq p q)),
    of_sandbox (Bool-cases (text_eq x y)),
  )
    where
      s' : R
      s' = (set_project_sandbox r p x s).1

      of_project :
          (text_eq p q ≡ true) ⊎ (text_eq p q ≡ false)
          → (get_project_sandbox r q s').0
            ≡ (if text_eq p q then ok x else (get_project_sandbox r q s).0)
      of_project h =
          rw
            (
              get_project_sandbox-reply r served q s',
              get_project_sandbox-reply r served q s,
              set_project_sandbox-db r served p x s,
              set_commands-project r p q x (db s),
            )
            (elim h [ inl e ↦ rw e (read_sandbox-ok x xi) | inr e ↦ rw e ])

      of_sandbox :
          (text_eq x y ≡ true) ⊎ (text_eq x y ≡ false)
          → (find_project_for_sandbox r y s').0
            ≡ (if text_eq x y then ok p else (find_project_for_sandbox r y s).0)
      of_sandbox h =
          rw
            (
              find_project-reply r served y s',
              find_project-reply r served y s,
              set_project_sandbox-db r served p x s,
              set_commands-sandbox r p x y (db s),
            )
            (elim h [ inl e ↦ rw e (read_project-ok p pi) | inr e ↦ rw e ])
