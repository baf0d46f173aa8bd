-- ===== src/Persistence/Idempotence/Claims.antt =====
-- Who may create the sandbox of a key (scheduler/internal/persistence/idempotence_impl.go,
-- `ClaimOrWait`), on a Redis server that answers.
use k8s_sched_demo.Types.Ids.Laws.{new_sandbox_id-IsSandboxId}
use k8s_sched_demo.Errors.{ok}
use k8s_sched_demo.Persistence.Idempotence.Effects.{
  lookup_check, put-recorded, put-pending, mark_pending-db, get_sandbox_id-db, mark_pending-reply,
  get_sandbox_id-reply, recorded, pending,
}
use k8s_sched_demo.Types.Ids.{IsSandboxId, SandboxId}
use k8s_sched_demo.Persistence.Context.{Context}
use k8s_sched_demo.Persistence.Redis.{IsServed}
use k8s_sched_demo.Persistence.Idempotence.{
  waited, await_idempotence_completion, mark_pending_creation, get_sandbox_id, read_sandbox_id,
  claim_result, missing, found, check, claim_or_wait, IdempotenceStore,
}
use k8s_sched_demo.Base.{
  text_eq, ◌∙◌, if◌then◌else◌, text_eq_refl, codes, arith, [], true, some, false, none, Text, ◌≡◌,
}

-- A recorded sandbox in the form that is read back as written is found.
pub read-found : (x : SandboxId) → IsSandboxId x → check (read_sandbox_id (ok x)) ≡ found x
read-found x xi = rw (new_sandbox_id-IsSandboxId x xi) (ground (arith, xi.valid))

module _ {R : Type 0} (r : IdempotenceStore R) (served : IsServed r.client) (elapse : R → R) where
  open served use {db}

  pub found_lem :
      (ctx : Context) (k : Text) (s : R) (x : SandboxId)
      → ctx.done ≡ none
      → lookup_check r k (db s) ≡ found x
      → claim_or_wait r elapse ctx k s ≡ (claim_result r false x none k, (get_sandbox_id r k s).1)
  unfolding claim_or_wait
  found_lem ctx k s x live c = ground (arith, get_sandbox_id-reply r served k s)

  pub free_lem :
      (ctx : Context) (k : Text) (s : R)
      → ctx.done ≡ none
      → lookup_check r k (db s) ≡ missing
      → pending r k (db s) ≡ none
      → claim_or_wait r elapse ctx k s
        ≡ (claim_result r true [] none k, (mark_pending_creation r k (get_sandbox_id r k s).1).1)
  unfolding claim_or_wait
  free_lem ctx k s live c free = ground (
    arith,
    get_sandbox_id-reply r served k s,
    get_sandbox_id-db r served k s,
    mark_pending-reply r served k (get_sandbox_id r k s).1,
  )

  pub taken_lem :
      (ctx : Context) (k : Text) (s : R) (v : Text)
      → ctx.done ≡ none
      → lookup_check r k (db s) ≡ missing
      → pending r k (db s) ≡ some v
      → let s₂ = (mark_pending_creation r k (get_sandbox_id r k s).1).1 in
        let awaited = await_idempotence_completion r elapse ctx k s₂ in
        claim_or_wait r elapse ctx k s ≡ (waited r k awaited.0, awaited.1)
  unfolding claim_or_wait
  taken_lem ctx k s v live c held = ground (
    arith,
    get_sandbox_id-reply r served k s,
    get_sandbox_id-db r served k s,
    mark_pending-reply r served k (get_sandbox_id r k s).1,
  )

  get_db : (k : Text) (s : R) → db (get_sandbox_id r k s).1 ≡ db s
  get_db k s = get_sandbox_id-db r served k s

  -- A caller with a live context finds no sandbox and no marker under the key: it gets the claim,
  -- with no error and no sandbox; the marker of the key is set, and the markers of other keys and
  -- all recorded sandboxes are as before.
  pub claim_free_key :
      (ctx : Context) (k l : Text) (s : R)
      → ctx.done ≡ none
      → recorded r k (db s) ≡ none
      → pending r k (db s) ≡ none
      → let (result, s') = claim_or_wait r elapse ctx k s in
        (result ≡ claim_result r true [] none k)
        × (pending r l (db s') ≡ (if text_eq k l then some (codes "1") else pending r l (db s)))
        × (recorded r l (db s') ≡ recorded r l (db s))
  claim_free_key ctx k l s live empty free =
      let whole = free_lem ctx k s live (rw empty) free in
      let marked = mark_pending-db r served k (get_sandbox_id r k s).1 in
      ground (
        arith,
        whole,
        marked,
        get_db k s,
        put-pending r k l (some (codes "1")) (db s),
        put-recorded r k l (some (codes "1")) (db s),
      )

  -- A caller with a live context finds the sandbox x recorded under the key, in the form that is
  -- read back as written: it gets x without a claim and without an error, and nothing changes.
  pub claim_recorded_key :
      (ctx : Context) (k : Text) (x : SandboxId) (s : R)
      → ctx.done ≡ none
      → IsSandboxId x
      → recorded r k (db s) ≡ some x
      → let (result, s') = claim_or_wait r elapse ctx k s in
        (result ≡ claim_result r false x none k) × (db s' ≡ db s)
  claim_recorded_key ctx k x s live xi there =
      ground (arith, found_lem ctx k s x live (rw there (read-found x xi)), get_db k s)

  -- Whatever the context and the other clients do, a caller gets no claim while the marker of the
  -- key is set.
  pub no_claim_while_pending :
      (ctx : Context) (k v : Text) (s : R)
      → pending r k (db s) ≡ some v
      → (claim_or_wait r elapse ctx k s).0.claimed ≡ false
  unfolding claim_or_wait
  no_claim_while_pending ctx k v s held = ground (
    arith,
    get_sandbox_id-db r served k s,
    mark_pending-reply r served k (get_sandbox_id r k s).1,
  )

  -- A call that got the claim has left the marker set.
  pub claimed-pending :
      (ctx : Context) (k : Text) (s : R)
      → (claim_or_wait r elapse ctx k s).0.claimed ≡ true
      → pending r k (db (claim_or_wait r elapse ctx k s).1) ≡ some (codes "1")
  unfolding claim_or_wait
  claimed-pending ctx k s c = ground (
    arith,
    get_sandbox_id-db r served k s,
    mark_pending-reply r served k (get_sandbox_id r k s).1,
    mark_pending-db r served k (get_sandbox_id r k s).1,
    put-pending r k k (some (codes "1")) (db s),
    text_eq_refl k,
  )

  -- Two callers never hold the claim of a key at once: when a call of ClaimOrWait has got it, no
  -- call made at a state where the marker of the key is what that call left gets it too, whatever
  -- other clients do while it waits.
  pub claim_exclusive :
      (ctx later : Context) (k : Text) (s s' : R)
      → (claim_or_wait r elapse ctx k s).0.claimed ≡ true
      → pending r k (db s') ≡ pending r k (db (claim_or_wait r elapse ctx k s).1)
      → (claim_or_wait r elapse later k s').0.claimed ≡ false
  claim_exclusive ctx later k s s' c kept =
      no_claim_while_pending later k (codes "1") s' (kept ∙ claimed-pending ctx k s c)
