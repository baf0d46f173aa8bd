-- ===== src/Persistence/Idempotence/Keys.antt =====
-- The result, marker and reverse keys never collide, whatever the prefix.
use k8s_sched_demo.Base.{◌≡◌, false, Text, text_eq, text_eq-append}
use k8s_sched_demo.Types.Ids.{SandboxId}
use k8s_sched_demo.Persistence.Idempotence.{
  IdempotenceStore, form_key, form_pending_key, form_sandbox_idempotence_key,
}

module _ {R : Type 0} (r : IdempotenceStore R) where
  pub key-key : (k l : Text) → text_eq (form_key r k) (form_key r l) ≡ text_eq k l
  unfolding form_key text_eq
  key-key k l = rw text_eq-append

  pub pending-pending :
      (k l : Text) → text_eq (form_pending_key r k) (form_pending_key r l) ≡ text_eq k l
  unfolding form_pending_key text_eq
  pending-pending k l = rw text_eq-append

  pub key-pending : (k l : Text) → text_eq (form_key r k) (form_pending_key r l) ≡ false
  unfolding form_key form_pending_key text_eq
  key-pending k l = rw text_eq-append

  pub pending-key : (k l : Text) → text_eq (form_pending_key r k) (form_key r l) ≡ false
  unfolding form_key form_pending_key text_eq
  pending-key k l = rw text_eq-append

  pub sandbox-key :
      (x : SandboxId) (l : Text) → text_eq (form_sandbox_idempotence_key r x) (form_key r l) ≡ false
  unfolding form_sandbox_idempotence_key form_key text_eq
  sandbox-key x l = rw text_eq-append

  pub sandbox-pending :
      (x : SandboxId) (l : Text)
      → text_eq (form_sandbox_idempotence_key r x) (form_pending_key r l) ≡ false
  unfolding form_sandbox_idempotence_key form_pending_key text_eq
  sandbox-pending x l = rw text_eq-append

pub ruleset idempotence_keys =
    (key-key, pending-pending, key-pending, pending-key, sandbox-key, sandbox-pending)
