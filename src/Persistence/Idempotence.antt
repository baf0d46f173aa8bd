-- ===== src/Persistence/Idempotence.antt =====
-- scheduler/internal/persistence/idempotence_impl.go: at most one sandbox is created for an
-- idempotence key, by a pending marker in Redis that only one caller can set.
pub mod Keys
pub mod Effects
pub mod Claims
pub mod Completion
pub mod Waits
pub mod Sorted
pub mod Protocol
pub mod Completes
use k8s_sched_demo.Base.{
  ℕ, zero, suc, Bool, true, false, not, ◌&&◌, ◌||◌, Option, none, some, List, [], ◌∷◌, ◌++◌, ◌*◌,
  Text, codes, is_empty, if◌then◌else◌, ◌==◌,
}
use k8s_sched_demo.Errors.{
  Error, Result, ok, err, not_found, concurrent_creation_failed, new, wrap, is_redis_nil,
  is_not_found, is_context_error, wrap_result, wrap_error, is_some,
}
use k8s_sched_demo.Types.Ids.{SandboxId, new_sandbox_id}
use k8s_sched_demo.Persistence.Context.{Context}
use k8s_sched_demo.Persistence.Claim.{Sink, ClaimResult}
use k8s_sched_demo.Persistence.Redis.{Redis, Replies, Queued, set, del}
use k8s_sched_demo.Persistence.Store.{default_key_prefix}

pub record IdempotenceStore (R : Type 0) : Type 0 where
  pub client : Redis R
  pub key_prefix : Text

-- 1 and 10 minutes, in seconds.
abbrev pub pending_key_ttl : ℕ
pending_key_ttl = 60

abbrev pub idempotence_key_ttl : ℕ
idempotence_key_ttl = 600

unfoldable pub new_idempotence_store :
    {R : Type 0} → Option (Redis R) → Text → Result (IdempotenceStore R)
new_idempotence_store none key_prefix = err (new "redis client is required")
new_idempotence_store (some client) key_prefix = ok (record {
  client = client;
  key_prefix = if is_empty key_prefix then default_key_prefix else key_prefix;
})

-- The three-way test on a lookup that the code repeats: a sandbox was found, the lookup failed for
-- another reason than a missing key, or there is no sandbox.
pub data Check : Type 0 where
  found : SandboxId → Check
  failed : Error → Check
  missing : Check

abbrev pub check : Result SandboxId → Check
check (ok sandbox_id) = if is_empty sandbox_id then missing else found sandbox_id
check (err e) = if is_not_found e then missing else failed e

abbrev pub read_sandbox_id : Result Text → Result SandboxId
read_sandbox_id (err e) =
    if is_redis_nil e then err not_found else err (wrap "failed to get sandboxID for key" e)
read_sandbox_id (ok sandbox_id_str) =
    wrap_result "failed to parse sandboxID for key" (new_sandbox_id sandbox_id_str)

abbrev drop_reply : Result ℕ → Option Error
drop_reply (err e) = some (wrap "failed to drop pending creation for key" e)
drop_reply (ok deleted) = if deleted == 0 then none else none

module _ {R : Type 0} (r : IdempotenceStore R) where
  unfoldable pub form_key : Text → Text
  form_key key = r.key_prefix ++ (codes "idem:" ++ key)

  unfoldable pub form_pending_key : Text → Text
  form_pending_key key = r.key_prefix ++ (codes "pending:" ++ key)

  unfoldable pub form_sandbox_idempotence_key : SandboxId → Text
  form_sandbox_idempotence_key sandbox_id =
      r.key_prefix ++ (codes "sandbox-idempotence:" ++ sandbox_id)

module _ {R : Type 0} (r : IdempotenceStore R) where
  unfoldable pub get_sandbox_id : Text → R → Result SandboxId × R
  get_sandbox_id key s =
      let (reply, s') = r.client.get (form_key r key) s in (read_sandbox_id reply, s')

  unfoldable pub mark_pending_creation : Text → R → Result Bool × R
  mark_pending_creation key s =
      let (reply, s') = r.client.set_nx (form_pending_key r key) (codes "1") pending_key_ttl s in
      (wrap_result "failed to mark pending creation for key" reply, s')

  -- The commands of the transaction.
  unfoldable pub complete_commands : Text → SandboxId → List Queued
  complete_commands key sandbox_id =
      set (form_key r key) sandbox_id idempotence_key_ttl
      ∷ set (form_sandbox_idempotence_key r sandbox_id) key idempotence_key_ttl
      ∷ del (form_pending_key r key)
      ∷ []

  unfoldable pub complete_pending_creation : Text → SandboxId → R → Option Error × R
  complete_pending_creation key sandbox_id s =
      let (replies, s') = r.client.exec_tx (complete_commands key sandbox_id) s in
      (wrap_error "failed to complete pending creation for key" replies.error, s')

  unfoldable pub drop_pending_creation : Text → R → Option Error × R
  drop_pending_creation key s =
      let (reply, s') = r.client.del (form_pending_key r key) s in (drop_reply reply, s')

  unfoldable pub sink : Sink R
  sink = record {
    complete_pending_creation = complete_pending_creation;
    drop_pending_creation = drop_pending_creation;
  }

  abbrev pub claim_result : Bool → SandboxId → Option Error → Text → ClaimResult R
  claim_result claimed sandbox_id error key = record {
    claimed = claimed;
    sandbox_id = sandbox_id;
    error = error;
    store = some sink;
    idempotence_key = key;
    completed = false;
  }

  abbrev pub waited : Text → Result SandboxId → ClaimResult R
  waited key (err e) =
      claim_result false [] (some (wrap "error waiting for idempotence completion" e)) key
  waited key (ok sandbox_id) = claim_result false sandbox_id none key

  -- What other clients and the clock do to the server between two ticks of the ticker.
  module _ (elapse : R → R) (reason : Error) where
    -- The `for { select { … } }` of `awaitIdempotenceCompletion`; the number of ticks before the
    -- context ends is given.
    unfoldable pub poll_loop : ℕ → Text → R → Result SandboxId × R
    poll_loop zero key s = (err reason, elapse s)
    poll_loop (suc n) key s =
        let (result, s₁) = get_sandbox_id key (elapse s) in
        elim (check result) [
          | found sandbox_id ↦ (ok sandbox_id, s₁)
          | failed e ↦ (err (wrap "error checking idempotence key" e), s₁)
          | missing ↦
              let (reply, s₂) = r.client.exists (form_pending_key r key) s₁ in
              elim reply [
                | err e ↦ (err (wrap "error checking pending key" e), s₂)
                | ok exists ↦ elim (exists == 0) [
                  | true ↦ (err concurrent_creation_failed, s₂)
                  | false ↦ poll_loop n key s₂
                ]
              ]
        ]

  module _ (elapse : R → R) where
    unfoldable pub await_idempotence_completion : Context → Text → R → Result SandboxId × R
    await_idempotence_completion ctx key s =
        let (result, s₁) = get_sandbox_id key s in
        elim (check result) [
          | found sandbox_id ↦ (ok sandbox_id, s₁)
          | failed e ↦ (err (wrap "error checking idempotence key" e), s₁)
          | missing ↦ poll_loop elapse ctx.reason ctx.rounds key s₁
        ]

    unfoldable pub claim_or_wait : Context → Text → R → ClaimResult R × R
    claim_or_wait ctx key s = elim ctx.done [
      | some e ↦ (claim_result false [] (some (wrap "context error" e)) key, s)
      | none ↦
          let (result, s₁) = get_sandbox_id key s in
          elim (check result) [
            | found sandbox_id ↦ (claim_result false sandbox_id none key, s₁)
            | failed e ↦ (
              claim_result false [] (some (wrap "error checking for existing sandbox" e)) key,
              s₁,
            )
            | missing ↦
                let (reply, s₂) = mark_pending_creation key s₁ in
                elim reply [
                  | err e ↦ (
                    claim_result false [] (some (wrap "error marking pending creation" e)) key,
                    s₂,
                  )
                  | ok marked ↦ elim marked [
                    | true ↦ (claim_result true [] none key, s₂)
                    | false ↦
                        let (awaited, s₃) = await_idempotence_completion ctx key s₂ in
                        (waited key awaited, s₃)
                  ]
                ]
          ]
    ]
