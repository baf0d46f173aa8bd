-- ===== src/Persistence/Store/Removal.antt =====
-- What removing a mapping leaves (scheduler/internal/persistence/redis.go), on a Redis
-- server that answers.
use k8s_sched_demo.Base.{
  ◌&&◌, not, ◌≡◌, true, Bool-cases, inl, inr, none, [], ◌∷◌, text_eq, text_eq→eq, is_empty,
  if◌then◌else◌, arith,
}
use k8s_sched_demo.Errors.{ok, err, not_found}
use k8s_sched_demo.Types.Ids.{SandboxId, ProjectId}
use k8s_sched_demo.Persistence.Redis.{IsServed}
use k8s_sched_demo.Persistence.Store.{
  RedisStore, get_project_sandbox, find_project_for_sandbox, remove_sandbox_mapping,
  is_sandbox_released,
}
use k8s_sched_demo.Persistence.Store.Effects.{
  get_project_sandbox-reply, find_project-reply, released-reply, remove_commands-project,
  remove_commands-sandbox, remove_commands-released, remove_error, remove-db,
}

module _ {R : Type 0} (r : RedisStore R) (served : IsServed r.client) where
  open served use {db}

  of_project :
      (p q : ProjectId) (x : SandboxId) (s : R)
      → (find_project_for_sandbox r x s).0 ≡ ok p
      → (get_project_sandbox r q (remove_sandbox_mapping r x s).1).0
        ≡ (if not (is_empty p) && text_eq p q then err not_found else (get_project_sandbox r q s).0)
  of_project p q x s found =
      rw
        (
          get_project_sandbox-reply r served q (remove_sandbox_mapping r x s).1,
          get_project_sandbox-reply r served q s,
          remove-db r served p x s found,
          remove_commands-project r p q x (db s),
        )
        (ground arith)

  of_sandbox :
      (p : ProjectId) (y x : SandboxId) (s : R)
      → (find_project_for_sandbox r x s).0 ≡ ok p
      → (find_project_for_sandbox r y (remove_sandbox_mapping r x s).1).0
        ≡ (if text_eq x y then ok [] else (find_project_for_sandbox r y s).0)
  of_sandbox [] y x s found =
      rw
        (
          find_project-reply r served y (remove_sandbox_mapping r x s).1,
          remove-db r served [] x s found,
          remove_commands-sandbox r [] x y (db s),
          ← find_project-reply r served y s,
        )
        (elim (Bool-cases (text_eq x y)) [
          | inl e ↦ rw (e, ← text_eq→eq x y e) found
          | inr e ↦ rw e
        ])
  of_sandbox (c ∷ p) y x s found =
      rw
        (
          find_project-reply r served y (remove_sandbox_mapping r x s).1,
          find_project-reply r served y s,
          remove-db r served (c ∷ p) x s found,
          remove_commands-sandbox r (c ∷ p) x y (db s),
        )
        (ground arith)

  of_released :
      (p : ProjectId) (y x : SandboxId) (s : R)
      → (find_project_for_sandbox r x s).0 ≡ ok p
      → (is_sandbox_released r y (remove_sandbox_mapping r x s).1).0
        ≡ (if text_eq x y then ok true else (is_sandbox_released r y s).0)
  of_released p y x s found =
      rw
        (
          released-reply r served y (remove_sandbox_mapping r x s).1,
          released-reply r served y s,
          remove-db r served p x s found,
          remove_commands-released r p x y (db s),
        )
        (ground arith)

  -- RemoveSandboxMapping x, where the lookup of the project of x yields p (empty if there is none):
  -- there is no error; the sandbox of p, if p is not empty, is gone and every other project keeps
  -- its own; x has no project and every other sandbox keeps its own; x counts as released and every
  -- other sandbox as before.
  pub remove_sandbox_mapping_lem :
      (p q : ProjectId) (x y : SandboxId) (s : R)
      → (find_project_for_sandbox r x s).0 ≡ ok p
      → let s' = (remove_sandbox_mapping r x s).1 in
        ((remove_sandbox_mapping r x s).0 ≡ none)
        × ((get_project_sandbox r q s').0 ≡ (
            if not (is_empty p) && text_eq p q
            then err not_found
            else (get_project_sandbox r q s).0))
        × ((find_project_for_sandbox r y s').0
            ≡ (if text_eq x y then ok [] else (find_project_for_sandbox r y s).0))
        × ((is_sandbox_released r y s').0
            ≡ (if text_eq x y then ok true else (is_sandbox_released r y s).0))
  remove_sandbox_mapping_lem p q x y s found = (
    remove_error r served p x s found,
    of_project p q x s found,
    of_sandbox p y x s found,
    of_released p y x s found,
  )
