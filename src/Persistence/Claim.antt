-- ===== src/Persistence/Claim.antt =====
-- scheduler/internal/persistence/idempotence.go: the result of claiming an idempotence key, and
-- its completion.
use k8s_sched_demo.Base.{
  Bool, true, false, not, ◌&&◌, ◌||◌, Option, none, some, Text, is_empty, if◌then◌else◌,
}
use k8s_sched_demo.Errors.{Error, new, is_context_error, is_some}
use k8s_sched_demo.Types.Ids.{SandboxId}

-- `idempotenceSink`
pub record Sink (R : Type 0) : Type 0 where
  pub complete_pending_creation : Text → SandboxId → R → Option Error × R
  pub drop_pending_creation : Text → R → Option Error × R

pub record ClaimResult (R : Type 0) : Type 0 where
  pub claimed : Bool
  pub sandbox_id : SandboxId
  pub error : Option Error
  pub store : Option (Sink R)
  pub idempotence_key : Text
  pub completed : Bool

abbrev pub is_context_end : Option Error → Bool
is_context_end none = false
is_context_end (some e) = is_context_error e

module _ {R : Type 0} where
  abbrev pub has_existing_sandbox : ClaimResult R → Bool
  has_existing_sandbox r = not (is_empty r.sandbox_id)

  abbrev pub has_error : ClaimResult R → Bool
  has_error r = is_some r.error

  abbrev pub should_create_sandbox : ClaimResult R → Bool
  should_create_sandbox r = r.claimed || (is_empty r.sandbox_id && is_some r.error)

  abbrev pub is_timeout : ClaimResult R → Bool
  is_timeout r = is_context_end r.error

  -- The error, the result with its `completed` flag, and the new state.
  unfoldable pub complete : ClaimResult R → SandboxId → R → Option Error × ClaimResult R × R
  complete r sandbox_id s =
      if r.completed
      then (some (new "already completed"), r, s)
      else if not r.claimed
      then (none, r, s)
      else elim r.store [
        | none ↦ (some (new "store reference is missing"), r, s)
        | some sink ↦
            let (error, s') = sink.complete_pending_creation r.idempotence_key sandbox_id s in
            elim error [
              | some e ↦ (some e, r, s')
              | none ↦ (none, record r { completed = true }, s')
            ]
      ]

  unfoldable pub drop : ClaimResult R → R → Option Error × R
  drop r s = if r.completed then (none, s) else if not r.claimed then (none, s) else elim r.store [
    | none ↦ (some (new "store reference is missing"), s)
    | some sink ↦ sink.drop_pending_creation r.idempotence_key s
  ]
