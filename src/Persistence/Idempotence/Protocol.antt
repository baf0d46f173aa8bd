-- ===== src/Persistence/Idempotence/Protocol.antt =====
-- Several callers of the idempotence store at once (scheduler/internal/persistence/
-- idempotence_impl.go, idempotence.go): each runs `ClaimOrWait` and then `Complete` or `Drop`, and
-- their Redis commands come in any order. A step is one command of one caller; a marker's time to
-- live does not run out.
pub mod Invariant
pub mod Races
-- Where a caller stands: at rest; after a lookup that found nothing; waiting for the marker of
-- another caller to go; holding the claim of a key.
use k8s_sched_demo.Persistence.Idempotence.{
  failed, claim_result, missing, form_pending_key, mark_pending_creation, found, check,
  get_sandbox_id, Check, IdempotenceStore,
}
use k8s_sched_demo.Persistence.Claim.{drop, complete}
use k8s_sched_demo.Types.Ids.{SandboxId}
use k8s_sched_demo.Errors.{ok, err, Error, Result}
use k8s_sched_demo.Base.{
  true, none, some, [], ◌∷◌, ◌==◌, Bool, if◌then◌else◌, Option, List, ℕ, Text,
}

pub data Caller : Type 0 where
  idle : Caller
  asking : Text → Caller
  waiting : Text → Caller
  holding : Text → Caller

pub data Move : Type 0 where
  look : Text → Move  -- the lookup at the start of ClaimOrWait
  mark : Move  -- its SETNX
  poll : Move  -- a lookup of the waiting loop
  probe : Move  -- its EXISTS
  finish : SandboxId → Move  -- Complete
  give_up : Move  -- Drop

abbrev pub after_look : Text → Check → Caller
after_look k missing = asking k
after_look k (found x) = idle
after_look k (failed e) = idle

abbrev pub after_mark : Text → Result Bool → Caller
after_mark k (err e) = idle
after_mark k (ok marked) = if marked then holding k else waiting k

abbrev pub after_poll : Text → Check → Caller
after_poll k missing = waiting k
after_poll k (found x) = idle
after_poll k (failed e) = idle

abbrev pub after_probe : Text → Result ℕ → Caller
after_probe k (err e) = idle
after_probe k (ok exists) = if exists == 0 then idle else waiting k

-- A completion that failed leaves the claim to the deferred drop.
abbrev pub after_finish : Text → Option Error → Caller
after_finish k none = idle
after_finish k (some e) = holding k

module _ {R : Type 0} (r : IdempotenceStore R) where
  -- A move that the caller cannot make now changes nothing.
  unfoldable pub act : Move → Caller → R → Caller × R
  act (look k) idle s = let (result, s') = get_sandbox_id r k s in (after_look k (check result), s')
  act mark (asking k) s = let (reply, s') = mark_pending_creation r k s in (after_mark k reply, s')
  act poll (waiting k) s =
      let (result, s') = get_sandbox_id r k s in (after_poll k (check result), s')
  act probe (waiting k) s =
      let (reply, s') = r.client.exists (form_pending_key r k) s in (after_probe k reply, s')
  act (finish x) (holding k) s =
      let (error, claim, s') = complete (claim_result r true [] none k) x s in
      (after_finish k error, s')
  act give_up (holding k) s = let (error, s') = drop (claim_result r true [] none k) s in (idle, s')
  act _ c s = (c, s)

-- The callers by number, and the server that they share.
pub record System (R : Type 0) : Type 0 where
  pub callers : ℕ → Caller
  pub server : R

-- Nobody has asked for a key yet.
abbrev pub start : {R : Type 0} → R → System R
start s = record { callers = λ i. idle; server = s }

abbrev pub at_index : (ℕ → Caller) → ℕ → Caller → ℕ → Caller
at_index f i c j = if i == j then c else f j

module _ {R : Type 0} (r : IdempotenceStore R) where
  unfoldable pub step : ℕ → Move → System R → System R
  step i move σ =
      let (c, s') = act r move (σ.callers i) σ.server in
      record { callers = at_index σ.callers i c; server = s' }

  -- The moves of the callers, in the order in which the server sees them.
  unfoldable pub run_moves : List (ℕ × Move) → System R → System R
  run_moves [] σ = σ
  run_moves ((i, move) ∷ moves) σ = run_moves moves (step i move σ)
