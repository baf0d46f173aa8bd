-- ===== src/Persistence/PoolStore.antt =====
-- scheduler/internal/persistence/redis_pool_store.go: the ready and the pending sandboxes, each a
-- sorted set of Redis scored by the second in which the sandbox was added.
use k8s_sched_demo.Types.Ids.{new_sandbox_id, SandboxId}
use k8s_sched_demo.Persistence.Redis.{Redis}
use k8s_sched_demo.Errors.{pool_empty, ok, new, err, Error, Result}
use k8s_sched_demo.Base.{
  text_eq-append, false, ◌≡◌, text_eq, some, none, [], ◌∷◌, ◌++◌, codes, ℕ, Text, Option, List,
}

pub record PoolStore (R : Type 0) : Type 0 where
  pub client : Redis R
  pub key_prefix : Text

abbrev pub ready_sandboxes_key : Text
ready_sandboxes_key = codes "sandboxes:ready"

abbrev pub pending_sandboxes_key : Text
pending_sandboxes_key = codes "sandboxes:pending"

-- The prefix is taken as it is, also the empty one.
unfoldable pub new_redis_sandbox_pool_store :
    {R : Type 0} → Option (Redis R) → Text → Result (PoolStore R)
new_redis_sandbox_pool_store none key_prefix = err (new "redis client cannot be nil")
new_redis_sandbox_pool_store (some client) key_prefix =
    ok (record { client = client; key_prefix = key_prefix })

abbrev pub error_of {ℓ} : {A : Type ℓ} → Result A → Option Error
error_of (ok a) = none
error_of (err e) = some e

abbrev pub read_popped : Result (List Text) → Result SandboxId
read_popped (err e) = err e
read_popped (ok []) = err pool_empty
read_popped (ok (member ∷ _)) = new_sandbox_id member

-- The valid IDs among the members of a set.
unfoldable pub valid_ids : List Text → List SandboxId
valid_ids [] = []
valid_ids (member ∷ members) = elim (new_sandbox_id member) [
  | err e ↦ valid_ids members
  | ok sandbox_id ↦ sandbox_id ∷ valid_ids members
]

abbrev pub read_members : Result (List Text) → Result (List SandboxId)
read_members (err e) = err e
read_members (ok members) = ok (valid_ids members)

module _ {R : Type 0} (r : PoolStore R) where
  unfoldable pub get_key : Text → Text
  get_key key = r.key_prefix ++ (codes ":" ++ key)

module _ {R : Type 0} (r : PoolStore R) where
  -- `now` is time.Now().Unix().
  unfoldable pub add_ready_sandbox : ℕ → SandboxId → R → Option Error × R
  add_ready_sandbox now sandbox_id s =
      let (reply, s') = r.client.z_add (get_key r ready_sandboxes_key) now sandbox_id s in
      (error_of reply, s')

  unfoldable pub get_ready_sandbox : R → Result SandboxId × R
  get_ready_sandbox s =
      let (reply, s') = r.client.z_pop_min (get_key r ready_sandboxes_key) s in
      (read_popped reply, s')

  unfoldable pub count_ready_sandboxes : R → Result ℕ × R
  count_ready_sandboxes s = r.client.z_card (get_key r ready_sandboxes_key) s

  unfoldable pub add_pending_sandbox : ℕ → SandboxId → R → Option Error × R
  add_pending_sandbox now sandbox_id s =
      let (reply, s') = r.client.z_add (get_key r pending_sandboxes_key) now sandbox_id s in
      (error_of reply, s')

  unfoldable pub get_pending_sandboxes : R → Result (List SandboxId) × R
  get_pending_sandboxes s =
      let (reply, s') = r.client.z_range (get_key r pending_sandboxes_key) s in
      (read_members reply, s')

  unfoldable pub remove_pending_sandbox : SandboxId → R → Option Error × R
  remove_pending_sandbox sandbox_id s =
      let (reply, s') = r.client.z_rem (get_key r pending_sandboxes_key) sandbox_id s in
      (error_of reply, s')

  unfoldable pub count_pending_sandboxes : R → Result ℕ × R
  count_pending_sandboxes s = r.client.z_card (get_key r pending_sandboxes_key) s

  -- The two keys differ, whatever the prefix.
  pub pending-ready :
      text_eq (get_key r pending_sandboxes_key) (get_key r ready_sandboxes_key) ≡ false
  unfolding get_key text_eq
  pending-ready = rw text_eq-append

  pub ready-pending :
      text_eq (get_key r ready_sandboxes_key) (get_key r pending_sandboxes_key) ≡ false
  unfolding get_key text_eq
  ready-pending = rw text_eq-append
