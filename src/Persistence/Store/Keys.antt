-- ===== src/Persistence/Store/Keys.antt =====
-- Keys of different kinds never collide, whatever the prefix.
use k8s_sched_demo.Base.{text_eq-append, ◌≡◌, false, text_eq}
use k8s_sched_demo.Types.Ids.{SandboxId, ProjectId}
use k8s_sched_demo.Persistence.Store.{
  RedisStore, form_released_key, form_project_sandbox_key, form_sandbox_project_key,
}

module _ {R : Type 0} (r : RedisStore R) where
  pub project-project :
      (p q : ProjectId)
      → text_eq (form_project_sandbox_key r p) (form_project_sandbox_key r q) ≡ text_eq p q
  unfolding form_project_sandbox_key text_eq
  project-project p q = rw text_eq-append

  pub sandbox-sandbox :
      (p q : SandboxId)
      → text_eq (form_sandbox_project_key r p) (form_sandbox_project_key r q) ≡ text_eq p q
  unfolding form_sandbox_project_key text_eq
  sandbox-sandbox p q = rw text_eq-append

  pub released-released :
      (p q : SandboxId) → text_eq (form_released_key r p) (form_released_key r q) ≡ text_eq p q
  unfolding form_released_key text_eq
  released-released p q = rw text_eq-append

  pub project-sandbox :
      (p : ProjectId) (s : SandboxId)
      → text_eq (form_project_sandbox_key r p) (form_sandbox_project_key r s) ≡ false
  unfolding form_project_sandbox_key form_sandbox_project_key text_eq
  project-sandbox p s = rw text_eq-append

  pub sandbox-project :
      (p : ProjectId) (s : SandboxId)
      → text_eq (form_sandbox_project_key r s) (form_project_sandbox_key r p) ≡ false
  unfolding form_project_sandbox_key form_sandbox_project_key text_eq
  sandbox-project p s = rw text_eq-append

  pub released-project :
      (p : ProjectId) (s : SandboxId)
      → text_eq (form_released_key r s) (form_project_sandbox_key r p) ≡ false
  unfolding form_project_sandbox_key form_released_key text_eq
  released-project p s = rw text_eq-append

  pub released-sandbox :
      (p s : SandboxId) → text_eq (form_released_key r s) (form_sandbox_project_key r p) ≡ false
  unfolding form_sandbox_project_key form_released_key text_eq
  released-sandbox p s = rw text_eq-append

  pub project-released :
      (p : ProjectId) (s : SandboxId)
      → text_eq (form_project_sandbox_key r p) (form_released_key r s) ≡ false
  unfolding form_project_sandbox_key form_released_key text_eq
  project-released p s = rw text_eq-append

  pub sandbox-released :
      (p s : SandboxId) → text_eq (form_sandbox_project_key r p) (form_released_key r s) ≡ false
  unfolding form_sandbox_project_key form_released_key text_eq
  sandbox-released p s = rw text_eq-append

pub ruleset keys = (
  project-project, sandbox-sandbox, released-released, project-sandbox, sandbox-project,
  released-project, released-sandbox, project-released, sandbox-released,
)
