-- ===== src/Persistence/Store.antt =====
-- scheduler/internal/persistence/redis.go: the project-sandbox mapping, kept in Redis under a
-- project key, a sandbox key and a set of all projects, with update messages on a channel.
pub mod Keys
pub mod Effects
pub mod Mapping
pub mod Removal
pub mod Stale
pub mod Updates
pub mod AllMappings
pub mod Refinement
use k8s_sched_demo.Base.{
  ℕ, ◌≡◌, Bool, true, false, not, Option, none, some, List, [], ◌∷◌, ◌++◌, ◌*◌, Text, codes, cut,
  is_empty, insert, if◌then◌else◌, ltb,
}
use k8s_sched_demo.Errors.{
  Error, Result, ok, err, redis_nil, not_found, new, wrap, is_redis_nil, wrap_result, wrap_error,
  value_or,
}
use k8s_sched_demo.Types.Ids.{SandboxId, ProjectId, new_sandbox_id, new_project_id}
use k8s_sched_demo.Persistence.Redis.{
  Redis, Replies, Queued, set, del, s_add, s_rem, expire, publish,
}

pub record RedisStore (R : Type 0) : Type 0 where
  pub client : Redis R
  pub key_prefix : Text

abbrev pub default_key_prefix : Text
default_key_prefix = codes "sch:"

abbrev pub project_update_channel : Text
project_update_channel = codes "project-sandbox-updates"

abbrev pub project_set_key : Text
project_set_key = codes "all-projects-set"

-- 24 hours and 5 minutes, in seconds.
abbrev pub project_sandbox_ttl : ℕ
project_sandbox_ttl = 24 * 3600

abbrev pub released_ttl : ℕ
released_ttl = 5 * 60

-- `newRedisStore`; no client is a nil pointer.
unfoldable pub new_redis_store : {R : Type 0} → Option (Redis R) → Text → Result (RedisStore R)
new_redis_store none key_prefix = err (new "redis client is required")
new_redis_store (some client) key_prefix = ok (record {
  client = client;
  key_prefix = if is_empty key_prefix then default_key_prefix else key_prefix;
})

module _ {R : Type 0} (r : RedisStore R) where
  unfoldable pub form_released_key : SandboxId → Text
  form_released_key sandbox_id = r.key_prefix ++ (codes "released:" ++ sandbox_id)

  unfoldable pub form_project_sandbox_key : ProjectId → Text
  form_project_sandbox_key project_id = r.key_prefix ++ (codes "project:" ++ project_id)

  unfoldable pub form_sandbox_project_key : SandboxId → Text
  form_sandbox_project_key sandbox_id = r.key_prefix ++ (codes "sandbox:" ++ sandbox_id)

  unfoldable pub form_all_projects_set_key : Text
  form_all_projects_set_key = r.key_prefix ++ project_set_key

abbrev pub read_released : Result ℕ → Result Bool
read_released (err e) = err (wrap "failed to check if sandbox is released" e)
read_released (ok exists) = ok (ltb 0 exists)

abbrev pub read_sandbox : Result Text → Result SandboxId
read_sandbox (err e) =
    if is_redis_nil e then err not_found else err (wrap "failed to get sandbox for project" e)
read_sandbox (ok sandbox_id_str) = wrap_result "invalid sandbox ID" (new_sandbox_id sandbox_id_str)

-- A missing key is the empty project ID and no error.
abbrev pub read_project : Result Text → Result ProjectId
read_project (err e) =
    if is_redis_nil e then ok [] else err (wrap "failed to get project for sandbox" e)
read_project (ok project_id_str) = wrap_result "invalid project ID" (new_project_id project_id_str)

abbrev pub update_message : ProjectId → SandboxId → Text
update_message project_id sandbox_id = project_id ++ (codes ":update:" ++ sandbox_id)

abbrev pub remove_message : ProjectId → Text
remove_message project_id = project_id ++ codes ":remove:"

module _ {R : Type 0} (r : RedisStore R) where
  unfoldable pub is_sandbox_released : SandboxId → R → Result Bool × R
  is_sandbox_released sandbox_id s =
      let (reply, s') = r.client.exists (form_released_key r sandbox_id) s in
      (read_released reply, s')

  unfoldable pub get_project_sandbox : ProjectId → R → Result SandboxId × R
  get_project_sandbox project_id s =
      let (reply, s') = r.client.get (form_project_sandbox_key r project_id) s in
      (read_sandbox reply, s')

  -- The commands that `SetProjectSandbox` queues.
  unfoldable pub set_commands : ProjectId → SandboxId → List Queued
  set_commands project_id sandbox_id =
      set (form_project_sandbox_key r project_id) sandbox_id project_sandbox_ttl
      ∷ set (form_sandbox_project_key r sandbox_id) project_id project_sandbox_ttl
      ∷ s_add (form_all_projects_set_key r) project_id
      ∷ expire (form_all_projects_set_key r) project_sandbox_ttl
      ∷ publish project_update_channel (update_message project_id sandbox_id)
      ∷ []

  unfoldable pub set_project_sandbox : ProjectId → SandboxId → R → Option Error × R
  set_project_sandbox project_id sandbox_id s =
      let (replies, s') = r.client.exec (set_commands project_id sandbox_id) s in
      (wrap_error "failed to set project-sandbox mapping" replies.error, s')

  unfoldable pub find_project_for_sandbox : SandboxId → R → Result ProjectId × R
  find_project_for_sandbox sandbox_id s =
      let (reply, s') = r.client.get (form_sandbox_project_key r sandbox_id) s in
      (read_project reply, s')

  -- The commands that `RemoveSandboxMapping` queues, by the project that it found.
  unfoldable pub remove_commands : ProjectId → SandboxId → List Queued
  remove_commands project_id sandbox_id =
      (if is_empty project_id
        then []
        else del (form_sandbox_project_key r sandbox_id)
          ∷ del (form_project_sandbox_key r project_id)
          ∷ s_rem (form_all_projects_set_key r) project_id
          ∷ publish project_update_channel (remove_message project_id)
          ∷ [])
      ++ set (form_released_key r sandbox_id) (codes "1") released_ttl ∷ []

  unfoldable pub remove_sandbox_mapping : SandboxId → R → Option Error × R
  remove_sandbox_mapping sandbox_id s =
      let (found, s₁) = find_project_for_sandbox sandbox_id s in
      elim found [
        | err e ↦ (some (wrap "failed to get project for sandbox" e), s₁)
        | ok project_id ↦
            let (replies, s₂) = r.client.exec (remove_commands project_id sandbox_id) s₁ in
            (wrap_error "failed to remove sandbox mapping" replies.error, s₂)
      ]
