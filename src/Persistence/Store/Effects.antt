-- ===== src/Persistence/Store/Effects.antt =====
-- What each command of the mapping does to the keys (scheduler/internal/persistence/redis.go), on a Redis
-- server that answers.
use k8s_sched_demo.Base.{
  ◌≡◌, refl, true, none, some, [], ◌∷◌, text_eq, codes, is_empty, if◌then◌else◌, arith, ◌∙◌, ap,
}
use k8s_sched_demo.Errors.{ok, is_some}
use k8s_sched_demo.Types.Ids.{SandboxId, ProjectId}
use k8s_sched_demo.Persistence.Redis.{all_writes, IsServed, Db, apply_all, reply_of}
use k8s_sched_demo.Persistence.Store.{
  RedisStore, get_project_sandbox, set_project_sandbox, set_commands, remove_commands,
  find_project_for_sandbox, remove_sandbox_mapping, is_sandbox_released, form_released_key,
  form_project_sandbox_key, form_sandbox_project_key, read_sandbox, read_project,
}
use k8s_sched_demo.Persistence.Store.Keys.{keys}

module _ {R : Type 0} (r : RedisStore R) where
  -- The values of the three kinds of keys after a call of `SetProjectSandbox`.
  pub set_commands-project :
      (p q : ProjectId) (x : SandboxId) (d : Db)
      → (apply_all (set_commands r p x) d).value (form_project_sandbox_key r q)
        ≡ (if text_eq p q then some x else d.value (form_project_sandbox_key r q))
  unfolding apply_all set_commands
  set_commands-project p q x d = simp keys

  pub set_commands-sandbox :
      (p : ProjectId) (x y : SandboxId) (d : Db)
      → (apply_all (set_commands r p x) d).value (form_sandbox_project_key r y)
        ≡ (if text_eq x y then some p else d.value (form_sandbox_project_key r y))
  unfolding apply_all set_commands
  set_commands-sandbox p x y d = simp keys

  pub remove_commands-project :
      (p q : ProjectId) (x : SandboxId) (d : Db)
      → (apply_all (remove_commands r p x) d).value (form_project_sandbox_key r q) ≡ (
          if is_empty p
          then d.value (form_project_sandbox_key r q)
          else if text_eq p q
          then none
          else d.value (form_project_sandbox_key r q))
  unfolding apply_all remove_commands
  remove_commands-project [] q x d = simp keys
  remove_commands-project (c ∷ p) q x d = simp keys

  pub remove_commands-sandbox :
      (p : ProjectId) (x y : SandboxId) (d : Db)
      → (apply_all (remove_commands r p x) d).value (form_sandbox_project_key r y) ≡ (
          if is_empty p
          then d.value (form_sandbox_project_key r y)
          else if text_eq x y
          then none
          else d.value (form_sandbox_project_key r y))
  unfolding apply_all remove_commands
  remove_commands-sandbox [] x y d = simp keys
  remove_commands-sandbox (c ∷ p) x y d = simp keys

  pub remove_commands-released :
      (p : ProjectId) (x y : SandboxId) (d : Db)
      → (apply_all (remove_commands r p x) d).value (form_released_key r y)
        ≡ (if text_eq x y then some (codes "1") else d.value (form_released_key r y))
  unfolding apply_all remove_commands
  remove_commands-released [] x y d = simp keys
  remove_commands-released (c ∷ p) x y d = simp keys

  pub remove_commands-writes :
      (p : ProjectId) (x : SandboxId) → all_writes (remove_commands r p x) ≡ true
  unfolding remove_commands
  remove_commands-writes [] x = refl
  remove_commands-writes (c ∷ p) x = refl

module _ {R : Type 0} (r : RedisStore R) (served : IsServed r.client) where
  open served use {db}

  pub get_project_sandbox-reply :
      (p : ProjectId) (s : R)
      → (get_project_sandbox r p s).0
        ≡ read_sandbox (reply_of ((db s).value (form_project_sandbox_key r p)))
  unfolding get_project_sandbox
  get_project_sandbox-reply p s = rw (served.get_reply (form_project_sandbox_key r p) s)

  pub find_project-reply :
      (x : SandboxId) (s : R)
      → (find_project_for_sandbox r x s).0
        ≡ read_project (reply_of ((db s).value (form_sandbox_project_key r x)))
  unfolding find_project_for_sandbox
  find_project-reply x s = rw (served.get_reply (form_sandbox_project_key r x) s)

  pub find_project-db : (x : SandboxId) (s : R) → db (find_project_for_sandbox r x s).1 ≡ db s
  unfolding find_project_for_sandbox
  find_project-db x s = served.get_db (form_sandbox_project_key r x) s

  pub released-reply :
      (x : SandboxId) (s : R)
      → (is_sandbox_released r x s).0 ≡ ok (is_some ((db s).value (form_released_key r x)))
  unfolding is_sandbox_released
  released-reply x s = rw (served.exists_reply (form_released_key r x) s) (ground arith)

  pub set_project_sandbox-db :
      (p : ProjectId) (x : SandboxId) (s : R)
      → db (set_project_sandbox r p x s).1 ≡ apply_all (set_commands r p x) (db s)
  unfolding set_project_sandbox
  set_project_sandbox-db p x s = served.exec_db (set_commands r p x) s

  pub set_error : (p : ProjectId) (x : SandboxId) (s : R) → (set_project_sandbox r p x s).0 ≡ none
  unfolding set_project_sandbox set_commands
  set_error p x s = rw (served.exec_error (set_commands r p x) s refl)

  -- A successful lookup of the project fixes what `RemoveSandboxMapping` does.
  module _ (p : ProjectId) (x : SandboxId) (s : R)
      (found : (find_project_for_sandbox r x s).0 ≡ ok p) where
    pub remove_error : (remove_sandbox_mapping r x s).0 ≡ none
    unfolding remove_sandbox_mapping
    remove_error =
        rw (found, remove_sandbox_mapping)
          (rw (
            served.exec_error (remove_commands r p x) (find_project_for_sandbox r x s).1
              (remove_commands-writes r p x)))

    pub remove-db : db (remove_sandbox_mapping r x s).1 ≡ apply_all (remove_commands r p x) (db s)
    unfolding remove_sandbox_mapping
    remove-db =
        rw (found, remove_sandbox_mapping)
          (served.exec_db (remove_commands r p x) (find_project_for_sandbox r x s).1
            ∙ ap (apply_all (remove_commands r p x)) (find_project-db x s))
