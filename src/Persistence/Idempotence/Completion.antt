-- ===== src/Persistence/Idempotence/Completion.antt =====
-- A claim is completed with a sandbox or dropped (scheduler/internal/persistence/idempotence.go
-- and idempotence_impl.go), on a Redis server that answers.
use k8s_sched_demo.Errors.{new}
use k8s_sched_demo.Persistence.Idempotence.Effects.{
  put-recorded, put-pending, drop_pending-db, complete_commands-pending, complete_commands-recorded,
  complete_pending-db, complete_pending-error, recorded, pending,
}
use k8s_sched_demo.Types.Ids.{SandboxId}
use k8s_sched_demo.Persistence.Claim.{ClaimResult, drop, complete}
use k8s_sched_demo.Persistence.Redis.{IsServed}
use k8s_sched_demo.Persistence.Idempotence.{
  form_pending_key, drop_pending_creation, claim_result, sink, IdempotenceStore,
}
use k8s_sched_demo.Base.{some, text_eq, if◌then◌else◌, none, [], true, arith, false, Text, ◌≡◌}

module _ {R : Type 0} (r : IdempotenceStore R) (served : IsServed r.client) where
  open served use {db}

  -- Completing a claim of k with x succeeds and marks it completed: x is recorded under k and the
  -- marker of k is gone; other keys keep theirs; a second completion is refused and changes
  -- nothing, and so does the deferred drop.
  pub complete_claim :
      (k l : Text) (x y : SandboxId) (s : R)
      → let claim = claim_result r true [] none k in
        let (error, claim', s') = complete claim x s in
        (error ≡ none)
        × (recorded r l (db s') ≡ (if text_eq k l then some x else recorded r l (db s)))
        × (pending r l (db s') ≡ (if text_eq k l then none else pending r l (db s)))
        × (complete claim' y s' ≡ (some (new "already completed"), claim', s'))
        × (drop claim' s' ≡ (none, s'))
  unfolding complete drop sink
  complete_claim k l x y s = ground (
    arith,
    complete_pending-error r served k x s,
    complete_pending-db r served k x s,
    complete_commands-recorded r k l x (db s),
    complete_commands-pending r k l x (db s),
  )

  -- Dropping a claim that was not completed takes the marker of its key away, and leaves the other
  -- markers and all recorded sandboxes.
  pub drop_claim :
      (k l : Text) (s : R)
      → let claim = claim_result r true [] none k in
        let (error, s') = drop claim s in
        (error ≡ none)
        × (pending r l (db s') ≡ (if text_eq k l then none else pending r l (db s)))
        × (recorded r l (db s') ≡ recorded r l (db s))
  unfolding drop sink drop_pending_creation
  drop_claim k l s = ground (
    arith,
    served.del_reply (form_pending_key r k) s,
    drop_pending-db r served k s,
    put-pending r k l none (db s),
    put-recorded r k l none (db s),
  )

  -- A result without a claim leaves the server alone, whether it is completed or dropped.
  pub unclaimed_inert :
      (result : ClaimResult R) (x : SandboxId) (s : R)
      → result.claimed ≡ false
      → ((complete result x s).2 ≡ s) × ((drop result s).1 ≡ s)
  unfolding complete drop
  unclaimed_inert result x s c = ground arith
